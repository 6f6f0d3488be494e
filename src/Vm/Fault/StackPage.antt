-- ===== src/Vm/Fault/StackPage.antt =====
-- The first touch of a page of the stack: `vm_fault` of kern/vm/vmc1.c gives it a zeroed frame.
use os161_project_c.Base.{ℕ, ◌*◌, ◌≡◌, some, update, ok, page_size, page_frame}
use os161_project_c.Vfs.{Vfs, Bytes, copy_in}
use os161_project_c.Stats.{Statistics}
use os161_project_c.Stats.Growth.{GrowsEvenly}
use os161_project_c.AddrSpace.{AddrSpace, Region, segment}
use os161_project_c.PageTable.{Directory}
use os161_project_c.PageTable.Maps.{SetsPa}
use os161_project_c.Vm.Machine.{KernelHeap, Machine}
use os161_project_c.Vm.Frames.{give_frame}
use os161_project_c.Vm.Frames.Pages.{Gives}
use os161_project_c.Vm.Fault.{read, write, code, entry_for, vm_fault}
use os161_project_c.Vm.Fault.Untouched.{gives, pa}
use os161_project_c.Vm.Fault.Resident.{put_entry, Translates}

module _ (vfs : Vfs) where
  abbrev zero_page : ℕ → Bytes → Bytes
  zero_page pa mem = copy_in mem pa page_size (λ i. 0)

  -- What the machine is after the frame was given, mapped and zeroed, and the entry installed.
  abbrev pub with_page :
      (i va : ℕ) (space : AddrSpace) (region : Region) (pt' : Directory)
      → Statistics
      → Machine vfs
      → Machine vfs
  with_page i va space region pt' s m = record (give_frame vfs m.cur_as (page_frame va) i m) {
    tables = update m.tables space.pt (some pt');
    mem = copy_in m.mem (i * page_size) page_size (λ j. 0);
    stats = s;
    tlb = put_entry vfs (entry_for vfs (segment space region) va (i * page_size)) m.tlb;
  }

  pub record Fills (heap : KernelHeap) (m : Machine vfs) (va : ℕ) (space : AddrSpace)
      (region : Region) (pt : Directory) : Type 0 where
    pub gives : Gives vfs heap (page_frame va) m
    pub pt' : Directory
    pub mapped : SetsPa pt va (gives.i * page_size) pt'
    pub entry :
        Translates vfs
          (segment space region)
          va
          (gives.i * page_size)
          (entry_for vfs (segment space region) va (gives.i * page_size))
    pub counted : Statistics
    pub on_read :
        vm_fault vfs heap read va m ≡ ok (code 0, with_page gives.i va space region pt' counted m)
    pub on_write :
        vm_fault vfs heap write va m ≡ ok (code 0, with_page gives.i va space region pt' counted m)
    pub grown : GrowsEvenly m.stats counted
