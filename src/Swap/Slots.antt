-- ===== src/Swap/Slots.antt =====
-- The swap file as a map from slots to pages.
use os161_project_c.Base.{
  ℕ, ◌+◌, ◌*◌, ◌^◌, ◌%◌, ◌<◌, ◌≡◌, ◌≢◌, refl, ◌∙◌, true, false, Bool-cases, inl, inr, Option, none,
  ltb, ◌==◌, update, find_first, Search, hit, miss, find_first-Search, lt→ltb, ==_iff, ok, panic,
  page_size, page_frame, arith,
}
use os161_project_c.Stats.{Statistics, increment_statistics, swap_file_write, n_stats}
use os161_project_c.Vfs.{Vfs, Bytes, IsPageStore, slice}
use os161_project_c.Swap.{Swap, num_pages, file_size, write_slot, swap_out}

-- An increment of a counter that exists succeeds.
pub increment_statistics-ok :
    (i : ℕ) (s : Statistics) → i < n_stats → (s' : Statistics) × (increment_statistics i s ≡ ok s')
unfolding increment_statistics
increment_statistics-ok i s lt = elim (Bool-cases s.is_active) [
  | inl on ↦ (
    record s { counters = update s.counters i ((s.counters i + 1) % 2 ^ 32) },
    simp (on, lt→ltb _ _ lt),
  )
  | inr off ↦ (s, simp off)
]

-- Every write of a page to the file `v` goes through.
abbrev pub Reliable : Vfs → ℕ → Type 0
Reliable vfs v =
    (d : vfs.Disk) (i : ℕ) (b : Bytes) → (vfs.vop_write d v (i * page_size) page_size b).0 ≡ 0

module _ {vfs : Vfs} where
  -- Slot `i` is in use and the disk has the page `b` there.
  pub record Holds (s : Swap vfs) (i : ℕ) (b : Bytes) : Type 0 where
    pub in_range : i < num_pages
    pub used : (s.swap_list i).free ≡ false
    pub on_disk :
        vfs.vop_read s.disk s.v (i * page_size) page_size
        ≡ record { result = 0; resid = 0; bytes = b }

  -- What `swap_out` does when it has put the page `b` into slot `i`.
  pub record Stored (s : Swap vfs) (b : Bytes) (i : ℕ) (s' : Swap vfs) : Type 0 where
    pub was_free : (s.swap_list i).free ≡ true
    pub holds : Holds s' i b
    pub others : (j : ℕ) (c : Bytes) → Holds s j c → Holds s' j c
    pub same_file : s'.v ≡ s.v

  -- What `swap_out` answers where some slot is free.
  pub record SwapsOut (s : Swap vfs) (mem : Bytes) (ppaddr pvaddr : ℕ) (stats : Statistics)
      : Type 0 where
    pub slot : ℕ
    pub after : Swap vfs
    pub counted : Statistics
    pub returns : swap_out vfs mem ppaddr pvaddr s stats ≡ ok (slot * page_size, after, counted)
    pub stored : Stored s (slice mem ppaddr) slot after
    pub earlier : (m : ℕ) → m < slot → (s.swap_list m).free ≡ false

  module _ (mem : Bytes) (ppaddr pvaddr : ℕ) {s : Swap vfs} (store : IsPageStore vfs s.v)
      (reliable : Reliable vfs s.v) (aligned : page_frame ppaddr ≡ ppaddr) where
    write_slot-Stored :
        (i : ℕ) (stats : Statistics)
        → i < num_pages
        → (s.swap_list i).free ≡ true
        → (s' : Swap vfs) × (stats' : Statistics) × (write_slot vfs mem ppaddr pvaddr i s stats
            ≡ ok (i * page_size, s', stats'))
          × Stored s (slice mem ppaddr) i s'
    unfolding write_slot
    write_slot-Stored i stats lt idle =
        let page = slice mem ppaddr in
        let d' : vfs.Disk = (vfs.vop_write s.disk s.v (i * page_size) page_size page).1 in
        let (stats', counted) = increment_statistics-ok swap_file_write stats (omega arith) in
        let whole : vfs.vop_write s.disk s.v (i * page_size) page_size page ≡ (0, d') =
          λ k. (reliable s.disk i page k, d') in
        let other : (j : ℕ) (c : Bytes) → Holds s j c → i ≢ j =
          λ j c h e. let used = h.used in ground arith in
        let fits : ltb (i * page_size) file_size ≡ true = ground arith in
        let straight : (page_frame ppaddr == ppaddr) ≡ true = (==_iff _ _).1 aligned in
        (
          record s {
            times_out = s.times_out + 1;
            disk = d';
            swap_list = update s.swap_list i (record {
              ppadd = ppaddr;
              pvadd = pvaddr;
              swap_offset = i * page_size;
              free = false;
            });
          },
          stats',
          rw (fits, straight, reliable s.disk i page, counted),
          record {
            was_free = idle;
            holds = record {
              in_range = lt;
              used = ground arith;
              on_disk = store.read_back _ _ i page whole;
            };
            others = λ j c h.
                (let away = other j c h in
                  record {
                    in_range = h.in_range;
                    used = ground (arith, h.used);
                    on_disk = store.read_other _ _ i j page whole away ∙ h.on_disk;
                  });
            same_file = refl;
          },
        )

    Search-SwapsOut :
        (stats : Statistics) {found : Option ℕ}
        → find_first num_pages 0 (λ i. (s.swap_list i).free) ≡ found
        → Search (λ i. (s.swap_list i).free) 0 num_pages found
        → (k : ℕ) → k < num_pages
        → (s.swap_list k).free ≡ true
        → SwapsOut s mem ppaddr pvaddr stats
    unfolding swap_out
    Search-SwapsOut stats e (hit j f) k lt idle =
        let (s', stats', wrote, st) = write_slot-Stored j stats f.below f.passes in
        record {
          slot = j;
          after = s';
          counted = stats';
          returns = rw (e, swap_out) wrote;
          stored = st;
          earlier = λ m b. f.before m (omega arith) b;
        }
    Search-SwapsOut stats e (miss none_passes) k lt idle =
        let busy = none_passes k (omega arith) lt in absurd (ground arith)

    -- Where a slot of the swap file is free, the frame's address is that of a page, and the file
    -- stores pages reliably, `swap_out` returns the offset of the first free slot; the page is on
    -- the disk in that slot, which is in use now, and every page that the file held it holds still.
    pub swap_out-Stored :
        (stats : Statistics) (k : ℕ)
        → k < num_pages
        → (s.swap_list k).free ≡ true
        → SwapsOut s mem ppaddr pvaddr stats
    swap_out-Stored stats k lt idle =
        Search-SwapsOut stats refl (find_first-Search num_pages 0 num_pages _ (omega arith)) k lt
          idle

  module _ (s : Swap vfs) (mem : Bytes) where
    full :
        {found : Option ℕ}
        → find_first num_pages 0 (λ i. (s.swap_list i).free) ≡ found
        → Search (λ i. (s.swap_list i).free) 0 num_pages found
        → ((k : ℕ) → k < num_pages → (s.swap_list k).free ≡ false)
        → found ≡ none
    full e (hit j f) busy = let used = busy j f.below in let idle = f.passes in ground arith
    full e (miss none_passes) busy = refl

    -- With every slot in use `swap_out` stops the kernel.
    pub swap_out-full :
        (ppaddr pvaddr : ℕ) (stats : Statistics)
        → ((k : ℕ) → k < num_pages → (s.swap_list k).free ≡ false)
        → swap_out vfs mem ppaddr pvaddr s stats ≡ panic
    unfolding swap_out
    swap_out-full ppaddr pvaddr stats busy =
        rw (full refl (find_first-Search num_pages 0 num_pages _ (omega arith)) busy, swap_out)
