-- ===== src/Vm/Fault/Untouched.antt =====
-- A page that the process has not touched yet, and the frame and the place in the page table that it
-- gets: the first steps of `new_page` in `vm_fault` of kern/vm/vmc1.c.
use os161_project_c.Base.{
  Bool, refl, ℕ, ◌*◌, ◌^◌, ◌<◌, ◌≤◌, ◌≡◌, true, some, ◌==◌, update, ok, deref, minus_one, page_size,
  page_frame, arith,
}
use os161_project_c.Vfs.{Vfs}
use os161_project_c.AddrSpace.{AddrSpace, Region, as_get_segment}
use os161_project_c.Coremap.{is_free}
use os161_project_c.PageTable.{
  Directory, get_outer_index, pt_get_pa, pt_get_offset, ensure_inner, pt_set_pa,
}
use os161_project_c.PageTable.View.{IsWf}
use os161_project_c.PageTable.Maps.{SetsPa, pt_set_pa-maps}
use os161_project_c.Vm.Machine.{KernelHeap, Machine, table_of, set_pa}
use os161_project_c.Vm.Frames.{give_frame}
use os161_project_c.Vm.Frames.Pages.{MayAllocate, Gives, page_alloc-Gives}

module _ (vfs : Vfs) where
  -- The page of `va` lies in a region of the current process, and was not touched yet, but the inner
  -- table for it is there, so that no memory for one is taken; there is a free frame `k` below 4 GB.
  pub record IsUntouched (heap : KernelHeap) (m : Machine vfs) (va k : ℕ) (space : AddrSpace)
      (region : Region) (pt : Directory) : Type 0 where
    pub has_process : m.has_curproc ≡ true
    pub allocates : MayAllocate vfs m
    pub space_at : m.spaces m.cur_as ≡ some space
    pub located : as_get_segment space va ≡ some region
    pub table_at : m.tables space.pt ≡ some pt
    pub wf : IsWf pt
    pub address : va < 2 ^ 32
    pub no_frame : pt_get_pa pt va ≡ ok 0
    pub not_on_disk : pt_get_offset pt va ≡ ok minus_one
    pub has_table : (pt.pages (get_outer_index va)).valid ≡ true
    pub off_zero : 1 ≤ k
    pub inside : k < m.coremap.n_ram_frames
    pub small : m.coremap.n_ram_frames ≤ 2 ^ 20
    pub free : is_free (m.coremap.entries k).status ≡ true

  module _ (heap : KernelHeap) {m : Machine vfs} {va k : ℕ} {space : AddrSpace} {region : Region}
      {pt : Directory} (h : IsUntouched heap m va k space region pt) where
    pub gives : Gives vfs heap (page_frame va) m
    gives = page_alloc-Gives vfs heap (page_frame va) k m h.allocates h.off_zero h.inside h.free

    abbrev pub given : Machine vfs
    given = give_frame vfs m.cur_as (page_frame va) gives.i m

    abbrev pub pa : ℕ
    pa = gives.i * page_size

    pub sets :
        (pt' : Directory) × (pt_set_pa true heap.junk pt va pa ≡ ok pt') × SetsPa pt va pa pt'
    sets = pt_set_pa-maps heap.junk va pa h.wf h.address

    -- Where the inner table is there, it does not matter whether there is memory for one.
    any_room : (room : Bool) → pt_set_pa room heap.junk pt va pa ≡ pt_set_pa true heap.junk pt va pa
    unfolding pt_set_pa ensure_inner
    any_room room = rw h.has_table refl

    pub set_pa-ok :
        set_pa vfs heap m.cur_as va pa given
        ≡ ok (record given { tables = update m.tables space.pt (some sets.0) })
    unfolding set_pa table_of give_frame
    set_pa-ok =
        let (pt', done, same) = sets in rw (h.space_at, deref, h.table_at, any_room heap.room, done)

    pub pa_aligned : page_frame pa ≡ pa
    pa_aligned = let below = gives.first.below in let small = h.small in ground arith

    -- The frame's address fits and is that of a page.
    pub aligned : (page_frame pa == pa) ≡ true
    aligned = let below = gives.first.below in let small = h.small in ground arith
