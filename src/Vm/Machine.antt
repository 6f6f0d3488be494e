-- ===== src/Vm/Machine.antt =====
-- The state that the files of kern/vm share, and the steps by which one part works on another.
-- Page tables and address spaces stand at addresses, since processes share them (0 is NULL).
use os161_project_c.Base.{
  ℕ, Bool, not, Option, some, ◌==◌, if◌then◌else◌, update, Outcome, ok, ◌>>=◌, ◌>>◌, kassert, deref,
  ℤ, pos, minus_one,
}
use os161_project_c.Stats.{Statistics, increment_statistics}
use os161_project_c.Vfs.{Vfs, Bytes}
use os161_project_c.Swap.{Swap, swap_out, swap_in}
use os161_project_c.PageTable.{
  InnerEntry, Directory, pt_set_pa, pt_set_offset, pt_get_pa, pt_get_offset,
}
use os161_project_c.AddrSpace.{AddrSpace}
use os161_project_c.Coremap.{Coremap}
use os161_project_c.Ram.{Ram}
use os161_project_c.Tlb.{Tlb, remove_va}

-- What `kmalloc` does for an inner table: whether it finds memory, and what that holds. That it takes
-- four frames of the coremap, for which it may evict pages in turn, is left out.
pub record KernelHeap : Type 0 where
  pub room : Bool
  pub junk : ℕ → InnerEntry

module _ (vfs : Vfs) where
  pub record Machine : Type 0 where
    pub coremap : Coremap
    pub ram : Ram
    pub stats : Statistics
    pub swap : Swap vfs
    pub tlb : Tlb
    pub mem : Bytes
    pub tables : ℕ → Option Directory
    pub spaces : ℕ → Option AddrSpace
    pub has_curproc : Bool  -- `curproc != NULL`
    pub cur_as : ℕ  -- what `proc_getas` returns
    pub cpu_exists : Bool
    pub spinlocks_held : ℕ
    pub in_interrupt : Bool

  -- kern/vm/vmc1.c: the caller may sleep.
  unfoldable pub vm_can_sleep : Machine → Outcome (Unit {0})
  vm_can_sleep m =
      if m.cpu_exists
      then (do kassert (m.spinlocks_held == 0); kassert (not m.in_interrupt))
      else ok tt

  unfoldable pub count : ℕ → Machine → Outcome Machine
  count stat m = do stats' ← increment_statistics stat m.stats; ok (record m { stats = stats' })

  -- `as->pt`
  unfoldable pub table_of : ℕ → Machine → Outcome (ℕ × Directory)
  table_of sp m = do space ← deref (m.spaces sp); pt ← deref (m.tables space.pt); ok (space.pt, pt)

  unfoldable pub set_pa : KernelHeap → (sp va pa : ℕ) → Machine → Outcome Machine
  unfolding table_of
  set_pa heap sp va pa m = do
    (at, pt) ← table_of sp m
    pt' ← pt_set_pa heap.room heap.junk pt va pa
    ok (record m { tables = update m.tables at (some pt') })

  unfoldable pub set_offset : KernelHeap → (sp va : ℕ) → ℤ → Machine → Outcome Machine
  unfolding table_of
  set_offset heap sp va offset m = do
    (at, pt) ← table_of sp m
    pt' ← pt_set_offset heap.room heap.junk pt va offset
    ok (record m { tables = update m.tables at (some pt') })

  unfoldable pub get_pa : (sp va : ℕ) → Machine → Outcome ℕ
  unfolding table_of
  get_pa sp va m = do (at, pt) ← table_of sp m; pt_get_pa pt va

  unfoldable pub get_offset : (sp va : ℕ) → Machine → Outcome ℤ
  unfolding table_of
  get_offset sp va m = do (at, pt) ← table_of sp m; pt_get_offset pt va

  -- `swap_out`, with the offset that it returns
  unfoldable pub write_out : (pa va : ℕ) → Machine → Outcome (ℕ × Machine)
  write_out pa va m = do
    (offset, swap', stats') ← swap_out vfs m.mem pa va m.swap m.stats
    ok (offset, record m { swap = swap'; stats = stats' })

  -- `swap_in`, with the value that it returns
  unfoldable pub read_in : (pa : ℕ) → ℤ → Machine → Outcome (ℕ × Machine)
  read_in pa offset m = do
    (result, mem', swap', stats') ← swap_in vfs m.mem pa offset m.swap m.stats
    ok (result, record m { mem = mem'; swap = swap'; stats = stats' })

  -- kern/vm/vm_tlb.c: -1 means that there is no address space.
  unfoldable pub tlb_remove_by_va : ℕ → Machine → ℤ × Machine
  tlb_remove_by_va va m =
      if m.cur_as == 0 then (minus_one, m) else (pos 0, record m { tlb = remove_va va m.tlb })
