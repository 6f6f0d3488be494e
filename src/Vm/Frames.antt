-- ===== src/Vm/Frames.antt =====
-- The parts of kern/vm/coremap.c that take frames: from the free ones, from memory that nobody had
-- yet, or by eviction of a page to the swap file.
pub mod Pages
use os161_project_c.Base.{
  ℕ, ◌+◌, ◌-◌, ◌*◌, ◌/◌, not, none, some, ◌==◌, ◌&&◌, if◌then◌else◌, update, for_below, for_each,
  find_first, Outcome, ok, ◌>>=◌, ◌>>◌, kassert, pos, ◌==ℤ◌, page_size,
}
use os161_project_c.Vfs.{Vfs}
use os161_project_c.Ram.{ram_stealmem, mips_kseg0}
use os161_project_c.Coremap.{
  Frame, fixed, dirty, is_free, get_victim_coremap, getfreeppages, free_kpages, page_free,
}
use os161_project_c.Vm.Machine.{
  KernelHeap, Machine, vm_can_sleep, set_pa, set_offset, write_out, tlb_remove_by_va,
}

module _ (vfs : Vfs) where
  -- The page in frame `i` goes to the swap file; the page table of the address space `sp`
  -- and the translation buffer forget it. Both allocators do this.
  unfoldable pub evict : KernelHeap → (sp i : ℕ) → Machine vfs → Outcome (Machine vfs)
  evict heap sp i m = do
    let victim_pa = i * page_size
    let victim_va = (m.coremap.entries i).vaddr
    (offset, m1) ← write_out vfs victim_pa victim_va m
    m2 ← set_offset vfs heap sp victim_va (pos offset) m1
    m3 ← set_pa vfs heap sp victim_va 0 m2
    let (removed, m4) = tlb_remove_by_va vfs victim_va m3
    kassert (removed ==ℤ pos 0)
    ok m4

  -- Frame `i` belongs to the page `va` of the address space `sp`.
  unfoldable pub give_frame : (sp va i : ℕ) → Machine vfs → Machine vfs
  give_frame sp va i m = record m {
    coremap = record (m.coremap) {
      entries =
          update m.coremap.entries i
            (record { as_ptr = sp; status = dirty; vaddr = va; alloc_size = 1 });
    };
  }

  -- Where `getppage_user` finds no free frame: the frame's number and address.
  unfoldable pub take_or_evict : KernelHeap → (sp : ℕ) → Machine vfs → Outcome (ℕ × ℕ × Machine vfs)
  take_or_evict heap sp m =
      let (pa, ram') = ram_stealmem 1 m.ram in
      let m1 = record m { ram = ram' } in
      if not (pa == 0) then ok (pa / page_size, pa, m1) else do
        (victim, coremap') ← get_victim_coremap m1.coremap 1
        m2 ← evict heap sp victim (record m1 { coremap = coremap' })
        ok (victim, victim * page_size, m2)

  unfoldable pub getppage_user : KernelHeap → (va sp : ℕ) → Machine vfs → Outcome (ℕ × Machine vfs)
  getppage_user heap va sp m =
      elim (find_first (m.coremap.n_ram_frames - 1) 1 (λ i. is_free (m.coremap.entries i).status)) [
        | some i ↦ ok (i * page_size, give_frame sp va i m)
        | none ↦ (do (i, pa, m') ← take_or_evict heap sp m; ok (pa, give_frame sp va i m'))
      ]

  unfoldable pub page_alloc : KernelHeap → (va : ℕ) → Machine vfs → Outcome (ℕ × Machine vfs)
  page_alloc heap va m =
      if not m.coremap.active
      then ok (0, m)
      else do vm_can_sleep vfs m; kassert (not (m.cur_as == 0)); getppage_user heap va m.cur_as m

  -- The end of `getppages`: the block's frames are the kernel's.
  unfoldable pub mark_fixed : (npages addr : ℕ) → Machine vfs → Machine vfs
  mark_fixed npages addr m =
      let first = addr / page_size in
      let set_fixed = λ (f : Frame). record f { status = fixed } in
      let es =
        update m.coremap.entries first
          (record (m.coremap.entries first) { alloc_size = npages; status = fixed }) in
      if not (addr == 0) && m.coremap.active
      then record m {
        coremap = record (m.coremap) {
          entries =
              for_below (npages - 1)
                (λ j fs. update fs (first + 1 + j) (set_fixed (fs (first + 1 + j)))) es;
        };
      }
      else m

  -- What `getppages` does where nothing is free: 0 without an address space, after the clock's
  -- hand has moved.
  unfoldable pub evict_block : KernelHeap → (npages : ℕ) → Machine vfs → Outcome (ℕ × Machine vfs)
  evict_block heap npages m = do
    (victim, coremap') ← get_victim_coremap m.coremap npages
    let m1 = record m { coremap = coremap' }
    if m1.cur_as == 0 then ok (0, m1) else do
      m2 ← for_each npages (λ j n. evict heap m1.cur_as (victim + j) n) m1
      ok (victim * page_size, mark_fixed npages (victim * page_size) m2)

  unfoldable pub getppages : KernelHeap → (npages : ℕ) → Machine vfs → Outcome (ℕ × Machine vfs)
  getppages heap npages m = do
    (found, coremap') ← getfreeppages npages m.coremap
    let m1 = record m { coremap = coremap' }
    if not (found == 0) then ok (found, mark_fixed npages found m1) else do
      let (stolen, ram') = ram_stealmem npages m1.ram
      let m2 = record m1 { ram = ram' }
      if not (stolen == 0)
          then ok (stolen, mark_fixed npages stolen m2)
          else evict_block heap npages m2

  unfoldable pub alloc_kpages : KernelHeap → (npages : ℕ) → Machine vfs → Outcome (ℕ × Machine vfs)
  alloc_kpages heap npages m = do
    vm_can_sleep vfs m
    (pa, m') ← getppages heap npages m
    ok (if pa == 0 then 0 else pa + mips_kseg0, m')

  -- The two ways to free, on the whole state.
  unfoldable pub free_page_frame : (addr : ℕ) → Machine vfs → Outcome (Machine vfs)
  free_page_frame addr m = do c ← page_free addr m.coremap; ok (record m { coremap = c })

  unfoldable pub free_kernel_block : (addr : ℕ) → Machine vfs → Outcome (Machine vfs)
  free_kernel_block addr m = do c ← free_kpages addr m.coremap; ok (record m { coremap = c })
