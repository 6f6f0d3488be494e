-- ===== src/Swap.antt =====
-- The swap file: kern/vm/swapfile.c and kern/include/swapfile.h. The array is a function of the
-- slot's number. The spinlock is not held over the transfer, but the slot is chosen and marked by
-- one caller at a time here.
pub mod Slots
pub mod Transfers
mod Tests
use os161_project_c.Base.{
  ℕ, ◌+◌, ◌-◌, ◌*◌, ◌/◌, ◌≡◌, Bool, true, false, Option, none, some, ltb, leb, ◌==◌, if◌then◌else◌,
  update, for_below, find_first, Outcome, ok, panic, ◌>>=◌, ◌>>◌, kassert, ℤ, pos, negsuc,
  is_nonneg, page_size, page_frame,
}
use os161_project_c.Stats.{
  Statistics, increment_statistics, swap_file_write, swap_file_read, page_fault_disk,
}
use os161_project_c.Vfs.{Vfs, Bytes, Reading, slice, copy_in}

abbrev pub file_size : ℕ
file_size = 9 * 1024 * 1024

-- The macro is `FILE_SIZE / PAGE_SIZE`.
abbrev pub num_pages : ℕ
num_pages = 2304

pub record SwapPage : Type 0 where
  pub ppadd : ℕ
  pub pvadd : ℕ
  pub swap_offset : ℕ
  pub free : Bool

abbrev pub free_page : SwapPage
free_page = record { ppadd = 0; pvadd = 0; swap_offset = 0; free = true }

module _ (vfs : Vfs) where
  -- The file's own variables, with the disk that `v` names a file of.
  pub record Swap : Type 0 where
    pub swap_list : ℕ → SwapPage
    pub v : ℕ
    pub times_out : ℕ
    pub times_in : ℕ
    pub disk : vfs.Disk

  abbrev pub clear_list : (ℕ → SwapPage) → ℕ → SwapPage
  clear_list = for_below num_pages (λ i l. update l i free_page)

  unfoldable pub swapfile_init : Swap → Outcome Swap
  swapfile_init s = do
    let cleared = clear_list s.swap_list
    let opened = vfs.open_swapfile s.disk
    kassert (opened.0 == 0)
    ok (record s { swap_list = cleared; v = opened.1; disk = opened.2 })

  -- `vfs_close` gives its reference back, which is not part of this state.
  unfoldable pub swap_shutdown : Swap → Swap
  swap_shutdown s = record s { swap_list = clear_list s.swap_list }

  -- The transfer and the bookkeeping, once a slot is found.
  unfoldable pub write_slot :
      (mem : Bytes) (ppaddr pvaddr free_index : ℕ)
      → Swap
      → Statistics
      → Outcome (ℕ × Swap × Statistics)
  write_slot mem ppaddr pvaddr free_index s stats = do
    let page_offset = free_index * page_size
    kassert (ltb page_offset file_size)
    kassert (page_frame ppaddr == ppaddr)
    let wrote = vfs.vop_write s.disk s.v page_offset page_size (slice mem ppaddr)
    kassert (wrote.0 == 0)
    stats' ← increment_statistics swap_file_write stats
    ok (
      page_offset,
      record s {
        times_out = s.times_out + 1;
        disk = wrote.1;
        swap_list =
            update s.swap_list free_index
              (record { ppadd = ppaddr; pvadd = pvaddr; swap_offset = page_offset; free = false });
      },
      stats',
    )

  unfoldable pub swap_out :
      (mem : Bytes) (ppaddr pvaddr : ℕ) → Swap → Statistics → Outcome (ℕ × Swap × Statistics)
  swap_out mem ppaddr pvaddr s stats = elim (find_first num_pages 0 (λ i. (s.swap_list i).free)) [
    | none ↦ panic
    | some free_index ↦ write_slot mem ppaddr pvaddr free_index s stats
  ]

  -- Returns the `swap_offset` of the slot, read after the slot was cleared, and the memory.
  unfoldable pub read_slot :
      (mem : Bytes) (ppadd offset : ℕ) → Swap → Statistics → Outcome (ℕ × Bytes × Swap × Statistics)
  read_slot mem ppadd offset s stats = do
    let page_index = offset / page_size
    let s' = record s {
      times_in = s.times_in + 1;
      swap_list = update s.swap_list page_index free_page;
    }
    let got = vfs.vop_read s'.disk s'.v offset page_size
    kassert (got.result == 0)
    kassert (got.resid == 0)
    stats' ← increment_statistics page_fault_disk stats
    stats'' ← increment_statistics swap_file_read stats'
    ok ((s'.swap_list page_index).swap_offset, copy_in mem ppadd page_size got.bytes, s', stats'')

  unfoldable pub swap_in :
      (mem : Bytes) (ppadd : ℕ) (offset : ℤ)
      → Swap
      → Statistics
      → Outcome (ℕ × Bytes × Swap × Statistics)
  swap_in mem ppadd (pos offset) s stats = read_slot mem ppadd offset s stats
  swap_in mem ppadd (negsuc _) s stats = panic
