-- ===== src/Swap/Transfers.antt =====
-- Reading pages back from the swap file, and what opening it again forgets.
use os161_project_c.Base.{
  ℕ, ◌+◌, ◌-◌, ◌*◌, ◌/◌, ◌<◌, ◌≡◌, ◌≢◌, true, Bool-cases, inl, inr, ltb, in_run, update,
  for_below-fill, lt→ltb, ok, pos, page_size, page_frame, arith,
}
use os161_project_c.Stats.{Statistics, increment_statistics, swap_file_read, page_fault_disk}
use os161_project_c.Vfs.{Vfs, Bytes, IsPageStore, slice, copy_in}
use os161_project_c.Swap.Slots.{Holds, SwapsOut, swap_out-Stored, Reliable, increment_statistics-ok}
use os161_project_c.Swap.{free_page, clear_list, Swap, num_pages, swapfile_init, read_slot, swap_in}

module _ {vfs : Vfs} where
  -- What `swap_in` does with the page `b` of slot `i`, brought to `ppadd`.
  pub record SwapsIn (s : Swap vfs) (mem : Bytes) (ppadd i : ℕ) (b : Bytes) (stats : Statistics)
      : Type 0 where
    pub after : Swap vfs
    pub counted : Statistics
    pub returns :
        swap_in vfs mem ppadd (pos (i * page_size)) s stats
        ≡ ok (0, copy_in mem ppadd page_size b, after, counted)
    pub idle : (after.swap_list i).free ≡ true
    pub others : (j : ℕ) (c : Bytes) → i ≢ j → Holds s j c → Holds after j c

  read_slot-ok :
      (s : Swap vfs) (mem : Bytes) (ppadd i : ℕ) {b : Bytes} (stats stats1 stats2 : Statistics)
      → Holds s i b
      → increment_statistics page_fault_disk stats ≡ ok stats1
      → increment_statistics swap_file_read stats1 ≡ ok stats2
      → read_slot vfs mem ppadd (i * page_size) s stats
        ≡ ok (
          0,
          copy_in mem ppadd page_size b,
          record s { times_in = s.times_in + 1; swap_list = update s.swap_list i free_page },
          stats2,
        )
  unfolding read_slot
  read_slot-ok s mem ppadd i stats stats1 stats2 h one two =
      let index : i * page_size / page_size ≡ i = omega arith in
      rw (index, h.on_disk, one, two) (ground arith)

  -- `swap_in` of a slot that holds a page returns 0, brings exactly that page into memory, frees
  -- the slot, and leaves every other slot's page on the disk.
  pub swap_in-SwapsIn :
      (s : Swap vfs) (mem : Bytes) (ppadd i : ℕ) (b : Bytes) (stats : Statistics)
      → Holds s i b
      → SwapsIn s mem ppadd i b stats
  unfolding swap_in
  swap_in-SwapsIn s mem ppadd i b stats h =
      let (stats1, one) = increment_statistics-ok page_fault_disk stats (omega arith) in
      let (stats2, two) = increment_statistics-ok swap_file_read stats1 (omega arith) in
      record {
        after = record s { times_in = s.times_in + 1; swap_list = update s.swap_list i free_page };
        counted = stats2;
        returns = read_slot-ok s mem ppadd i stats stats1 stats2 h one two;
        idle = ground arith;
        others = λ j c ne k. record {
          in_range = k.in_range;
          used = ground (arith, k.used);
          on_disk = k.on_disk;
        };
      }

  -- Where a slot is free, the file stores pages reliably and the frame's address is aligned, the
  -- page that `swap_out` writes is what `swap_in` at the returned offset brings back, to any
  -- frame: byte for byte.
  pub swap_in-swap_out :
      (mem : Bytes) (ppaddr pvaddr ppadd : ℕ) {s : Swap vfs} (stats : Statistics) (k : ℕ)
      → IsPageStore vfs s.v
      → Reliable vfs s.v
      → page_frame ppaddr ≡ ppaddr
      → k < num_pages
      → (s.swap_list k).free ≡ true
      → (out : SwapsOut s mem ppaddr pvaddr stats) × (back : SwapsIn out.after mem ppadd out.slot
          (slice mem ppaddr)
          out.counted)
        × ((j : ℕ)
            → j < page_size
            → copy_in mem ppadd page_size (slice mem ppaddr) (ppadd + j) ≡ mem (ppaddr + j))
  unfolding copy_in
  swap_in-swap_out mem ppaddr pvaddr ppadd stats k store reliable aligned lt idle =
      let out = swap_out-Stored mem ppaddr pvaddr store reliable aligned stats k lt idle in
      (
        out,
        swap_in-SwapsIn out.after mem ppadd out.slot _ out.counted out.stored.holds,
        λ j small.
            let inside : in_run ppadd page_size (ppadd + j) ≡ true = ground arith in
            let place : ppadd + j - ppadd ≡ j = omega arith in rw (inside, place),
      )

  slot_zero :
      {s : Swap vfs} {mem : Bytes} {ppaddr pvaddr : ℕ} {stats : Statistics}
      (out : SwapsOut s mem ppaddr pvaddr stats)
      → (s.swap_list 0).free ≡ true
      → out.slot ≡ 0
  slot_zero out idle = elim (Bool-cases (ltb 0 out.slot)) [
    | inl later ↦ let busy = out.earlier 0 (ground arith) in absurd (ground arith)
    | inr first ↦ ground arith
  ]

  -- If the swap file opens, it stores pages reliably, and the address of a page's frame is
  -- aligned, then whatever the slots were used for, `swapfile_init` leaves all of them free, and
  -- the next `swap_out` writes to slot 0.
  pub swapfile_init-forgets :
      (s : Swap vfs) (mem : Bytes) (ppaddr pvaddr : ℕ) (stats : Statistics)
      → (vfs.open_swapfile s.disk).0 ≡ 0
      → IsPageStore vfs (vfs.open_swapfile s.disk).1
      → Reliable vfs (vfs.open_swapfile s.disk).1
      → page_frame ppaddr ≡ ppaddr
      → (s' : Swap vfs) × (swapfile_init vfs s ≡ ok s')
        × ((k : ℕ) → k < num_pages → (s'.swap_list k).free ≡ true)
        × (out : SwapsOut s' mem ppaddr pvaddr stats) × (out.slot ≡ 0)
  unfolding swapfile_init
  swapfile_init-forgets s mem ppaddr pvaddr stats opened store reliable aligned =
      let s' : Swap vfs = record s {
        swap_list = clear_list vfs s.swap_list;
        v = (vfs.open_swapfile s.disk).1;
        disk = (vfs.open_swapfile s.disk).2;
      } in
      let idle : (k : ℕ) → k < num_pages → (s'.swap_list k).free ≡ true =
        λ k lt. rw (for_below-fill num_pages (λ _. free_page) s.swap_list k, lt→ltb _ _ lt) in
      let out =
        swap_out-Stored mem ppaddr pvaddr {s = s'} store reliable aligned stats 0 (omega arith)
          (idle 0 (omega arith)) in
      (s', rw opened, idle, out, slot_zero out (idle 0 (omega arith)))
