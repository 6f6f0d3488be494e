-- ===== src/Vm/Fault/FilePage.antt =====
-- The first touch of a page of the program: `vm_fault` of kern/vm/vmc1.c reads it from the file.
use os161_project_c.Base.{ℕ, ◌*◌, ◌≡◌, ◌≢◌, some, update, ok, page_size, page_frame}
use os161_project_c.Vfs.{Vfs, Bytes}
use os161_project_c.Stats.{Statistics}
use os161_project_c.Stats.Growth.{GrowsEvenly}
use os161_project_c.Segment.{Segment, Plan, pf_s}
use os161_project_c.Segment.Pages.{IsLoadable, IsInside, Loads}
use os161_project_c.Segment.Load.{Loaded}
use os161_project_c.AddrSpace.{AddrSpace, Region, segment}
use os161_project_c.PageTable.{Directory}
use os161_project_c.PageTable.Maps.{SetsPa}
use os161_project_c.Vm.Machine.{KernelHeap, Machine}
use os161_project_c.Vm.Frames.{give_frame}
use os161_project_c.Vm.Frames.Pages.{Gives}
use os161_project_c.Vm.Fault.{read, write, code, entry_for, vm_fault}
use os161_project_c.Vm.Fault.Untouched.{gives}
use os161_project_c.Vm.Fault.Resident.{put_entry, Translates}

module _ (vfs : Vfs) where
  -- The region has a file that delivers all that it is asked for, and the address lies well in it.
  pub record IsReadable (disk : vfs.Disk) (seg : Segment) (va : ℕ) : Type 0 where
    pub not_stack : seg.p_permission ≢ pf_s
    pub loadable : IsLoadable seg
    pub inside : IsInside seg va
    pub has_file : seg.vnode ≢ 0
    pub good : (offset len : ℕ) → (vfs.vop_read disk seg.vnode offset len).result ≡ 0
    pub whole : (offset len : ℕ) → (vfs.vop_read disk seg.vnode offset len).resid ≡ 0

  -- What the machine is after the frame was given, mapped and filled, and the entry installed.
  abbrev pub with_file_page :
      (i va : ℕ) (space : AddrSpace) (region : Region) (pt' : Directory)
      → Bytes
      → Statistics
      → Machine vfs
      → Machine vfs
  with_file_page i va space region pt' mem' s m =
      record (give_frame vfs m.cur_as (page_frame va) i m) {
        tables = update m.tables space.pt (some pt');
        spaces = update m.spaces m.cur_as (some space);
        mem = mem';
        stats = s;
        tlb = put_entry vfs (entry_for vfs (segment space region) va (i * page_size)) m.tlb;
      }

  pub record Reads (heap : KernelHeap) (m : Machine vfs) (va : ℕ) (space : AddrSpace)
      (region : Region) (pt : Directory) : Type 0 where
    pub gives : Gives vfs heap (page_frame va) m
    pub pt' : Directory
    pub mapped : SetsPa pt va (gives.i * page_size) pt'
    pub entry :
        Translates vfs
          (segment space region)
          va
          (gives.i * page_size)
          (entry_for vfs (segment space region) va (gives.i * page_size))
    pub plan : Plan
    pub planned : Loads (segment space region) va (gives.i * page_size) plan
    pub mem' : Bytes
    pub loaded :
        Loaded m.mem
          (gives.i * page_size)
          plan
          (vfs.vop_read m.swap.disk
            (segment space region).vnode
            plan.file_offset
            plan.read_len).bytes
          mem'
    pub counted : Statistics
    pub on_read :
        vm_fault vfs heap read va m
        ≡ ok (code 0, with_file_page gives.i va space region pt' mem' counted m)
    pub on_write :
        vm_fault vfs heap write va m
        ≡ ok (code 0, with_file_page gives.i va space region pt' mem' counted m)
    pub grown : GrowsEvenly m.stats counted
