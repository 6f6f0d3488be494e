-- ===== src/Vm/Fault.antt =====
-- The page fault handler and the start and end of the memory system: kern/vm/vmc1.c.
pub mod Resident
pub mod Untouched
pub mod StackPage
pub mod FilePage
use os161_project_c.Base.{
  ℕ, ◌+◌, Bool, not, none, some, ◌==◌, ◌||◌, ◌&&◌, if◌then◌else◌, Outcome, ok, ◌>>=◌, ◌>>◌, kassert,
  deref, ℤ, minus_one, is_nonneg, ◌==ℤ◌, page_size, page_frame, update,
}
use os161_project_c.Vfs.{Vfs, copy_in}
use os161_project_c.Stats.{
  init_statistics, tlb_fault, tlb_fault_free, tlb_fault_replace, tlb_reload, page_fault_zero,
}
use os161_project_c.Coremap.{Frame, coremap_init, coremap_shutdown}
use os161_project_c.Swap.{swap_shutdown}
use os161_project_c.Segment.{Segment, pf_s, pf_r, pf_w, seg_load_page}
use os161_project_c.AddrSpace.{Region, segment, set_segment, as_get_segment}
use os161_project_c.Tlb.{
  TlbEntry, set_bit, has_bit, valid_bit, dirty_bit, tlb_write, tlb_get_rr_victim,
}
use os161_project_c.Vm.Machine.{
  KernelHeap, Machine, count, set_pa, set_offset, get_pa, get_offset, read_in,
}
use os161_project_c.Vm.Frames.{page_alloc}

abbrev pub efault : ℕ
efault = 6

abbrev pub einval : ℕ
einval = 8

pub data FaultType : Type 0 where
  read write readonly other : FaultType

-- `vm_fault` returns a code, or has ended the process through `sys__exit`.
pub data Verdict : Type 0 where
  code : ℕ → Verdict
  exited : ℕ → Verdict

-- `seg->p_permission` allows writing.
abbrev pub is_writable : ℕ → Bool
is_writable p = (p == pf_r + pf_w) || (p == pf_s) || (p == pf_w)

module _ (vfs : Vfs) where
  -- `vm_bootstrap`; the counters of kern/vm/statistics.c start at zero.
  unfoldable pub vm_bootstrap :
      (room : Bool) → (junk : ℕ → Frame) → Machine vfs → Outcome (Machine vfs)
  vm_bootstrap room junk m = do
    c ← coremap_init room junk m.ram m.coremap
    ok (record m {
      coremap = c;
      tlb = record (m.tlb) { current_victim = 0 };
      stats = init_statistics m.stats;
    })

  -- The counters are printed last (Stats.print_all_statistics).
  unfoldable pub vm_shutdown : Machine vfs → Machine vfs
  vm_shutdown m = record m { coremap = coremap_shutdown m.coremap; swap = swap_shutdown vfs m.swap }

  -- A page that the page table does not know: a frame, zeroed for the stack.
  unfoldable pub new_page :
      KernelHeap → (seg : Segment) → (fault_addr : ℕ) → Machine vfs → Outcome (ℕ × Machine vfs)
  new_page heap seg fault_addr m = do
    (pa, m1) ← page_alloc vfs heap (page_frame fault_addr) m
    kassert (page_frame pa == pa)
    m2 ← set_pa vfs heap m.cur_as fault_addr pa m1
    if not (seg.p_permission == pf_s) then ok (pa, m2) else do
      m3 ← count vfs page_fault_zero (record m2 { mem = copy_in m2.mem pa page_size (λ i. 0) })
      ok (pa, m3)

  -- A page that is in the swap file.
  unfoldable pub swapped_page :
      KernelHeap → (fault_addr : ℕ) → (swap_offset : ℤ) → Machine vfs → Outcome (ℕ × Machine vfs)
  swapped_page heap fault_addr swap_offset m = do
    (pa, m1) ← page_alloc vfs heap (page_frame fault_addr) m
    (result, m2) ← read_in vfs pa swap_offset m1
    kassert (result == 0)
    m3 ← set_offset vfs heap m.cur_as (page_frame fault_addr) minus_one m2
    m4 ← set_pa vfs heap m.cur_as (page_frame fault_addr) pa m3
    ok (pa, m4)

  -- `seg_load_page` for the segment of the region, whose file size it may change.
  unfoldable pub load_page :
      (region : Region) → (fault_addr pa : ℕ) → Machine vfs → Outcome (ℕ × Machine vfs)
  load_page region fault_addr pa m = do
    space ← deref (m.spaces m.cur_as)
    (result, seg', mem', stats') ←
        seg_load_page vfs m.swap.disk (segment space region) fault_addr pa m.mem m.stats
    ok (
      result,
      record m {
        mem = mem';
        stats = stats';
        spaces = update m.spaces m.cur_as (some (set_segment space region seg'));
      },
    )

  -- The frame of the page, and whether it is new.
  unfoldable pub find_page :
      KernelHeap
      → (seg : Segment) → (fault_addr : ℕ) → Machine vfs
      → Outcome (ℕ × Bool × Machine vfs)
  find_page heap seg fault_addr m = do
    pa ← get_pa vfs m.cur_as fault_addr m
    m1 ← (if not (pa == 0) then count vfs tlb_reload m else ok m)
    swap_offset ← get_offset vfs m.cur_as fault_addr m1
    if (pa == 0) && (swap_offset ==ℤ minus_one)
        then (do (pa', m2) ← new_page heap seg fault_addr m1; ok (pa', Bool.true, m2))
        else if is_nonneg swap_offset
        then (do (pa', m2) ← swapped_page heap fault_addr swap_offset m1; ok (pa', Bool.false, m2))
        else ok (pa, Bool.false, m1)

  -- The entry for the page: `ehi` and `elo`.
  abbrev pub entry_for : (seg : Segment) → (fault_addr pa : ℕ) → TlbEntry
  entry_for seg fault_addr pa = record {
    hi = page_frame fault_addr;
    lo =
        if is_writable seg.p_permission
        then set_bit dirty_bit (set_bit valid_bit pa)
        else set_bit valid_bit pa;
  }

  -- The end of `vm_fault`: the entry goes into the slot next in line.
  unfoldable pub install : (e : TlbEntry) → Machine vfs → Outcome (Machine vfs)
  install e m = do
    m1 ← count vfs tlb_fault m
    let (victim, tlb') = tlb_get_rr_victim m1.tlb
    m2 ←
        count vfs
          (if has_bit valid_bit (tlb'.entries victim).lo then tlb_fault_replace else tlb_fault_free)
          m1
    ok (record m2 { tlb = tlb_write victim e tlb' })

  -- The body of `vm_fault` for an address in the region.
  unfoldable pub serve :
      KernelHeap
      → (region : Region) → (fault_addr : ℕ) → Machine vfs
      → Outcome (Verdict × Machine vfs)
  serve heap region fault_addr m = do
    space ← deref (m.spaces m.cur_as)
    let seg = segment space region
    (pa, new, m1) ← find_page heap seg fault_addr m
    (result, m2) ←
        (if new && not (seg.p_permission == pf_s)
          then load_page region fault_addr pa m1
          else ok (0, m1))
    if not (result == 0)
        then ok (code efault, m2)
        else do m3 ← install (entry_for seg fault_addr pa) m2; ok (code 0, m3)

  unfoldable pub serve_access :
      KernelHeap → (fault_addr : ℕ) → Machine vfs → Outcome (Verdict × Machine vfs)
  serve_access heap fault_addr m =
      if not m.has_curproc || (m.cur_as == 0) then ok (code efault, m) else do
        space ← deref (m.spaces m.cur_as)
        elim (as_get_segment space fault_addr) [
          | none ↦ ok (code efault, m)
          | some region ↦ serve heap region fault_addr m
        ]

  unfoldable pub vm_fault :
      KernelHeap → FaultType → (fault_addr : ℕ) → Machine vfs → Outcome (Verdict × Machine vfs)
  vm_fault heap read fault_addr m = serve_access heap fault_addr m
  vm_fault heap write fault_addr m = serve_access heap fault_addr m
  vm_fault heap readonly fault_addr m = ok (exited 1, m)
  vm_fault heap other fault_addr m = ok (code einval, m)
