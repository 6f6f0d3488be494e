-- ===== src/Coremap/FreeRun.antt =====
-- The search of `getfreeppages` finds a run of free frames exactly if there is one.
use os161_project_c.Base.{
  ℕ, zero, suc, ◌+◌, ◌-◌, ◌≤◌, ◌<◌, ◌≡◌, refl, true, false, Bool-cases, inl, inr, not, ◌||◌, leb,
  if◌then◌else◌, ◌==◌, ℤ, pos, minus_one, arith,
}
use os161_project_c.Coremap.{Frame, is_free, find_run}

abbrev pub AllFree : (ℕ → Frame) → ℕ → ℕ → Type 0
AllFree es s n = (j : ℕ) → s ≤ j → j < s + n → is_free (es j).status ≡ true

-- No `npages` free frames in a row among the frames from 1 up to `end`.
abbrev pub NoRun : (ℕ → Frame) → (npages end : ℕ) → Type 0
NoRun es npages end = (s : ℕ) → 1 ≤ s → s + npages ≤ end → ¬ AllFree es s npages

add_sub : (i : ℕ) → i + 1 - 1 ≡ i
add_sub i = omega arith

-- What the search answers over `end` frames.
pub data Answer (es : ℕ → Frame) (npages end : ℕ) : ℤ → Type 0 where
  run : (s : ℕ) → 1 ≤ s → s + npages ≤ end → AllFree es s npages → Answer es npages end (pos s)
  no_run : NoRun es npages end → Answer es npages end minus_one

-- The run of free frames that ends before frame `i` begins at `s`, and is too short.
record Run (es : ℕ → Frame) (npages i : ℕ) (first : ℤ) : Type 0 where
  s : ℕ
  is_first : first ≡ pos s
  above : 1 ≤ s
  below : s < i
  all_free : AllFree es s (i - s)
  maximal : is_free (es (s - 1)).status ≡ false
  short : i < s + npages

-- The loop's invariant before it looks at frame `i`.
record Scan (es : ℕ → Frame) (npages i : ℕ) (first : ℤ) : Type 0 where
  open_run : is_free (es (i - 1)).status ≡ true → Run es npages i first
  none_yet : NoRun es npages i

module _ (es : ℕ → Frame) (npages : ℕ) (some_pages : 1 ≤ npages) where
  -- A run that ends with frame `i` makes frame `i` free.
  NoRun-suc : (i : ℕ) → NoRun es npages i → is_free (es i).status ≡ false → NoRun es npages (i + 1)
  NoRun-suc i none_yet busy s one le all = elim (Bool-cases (leb (s + npages) i)) [
    | inl early ↦ none_yet s one (ground arith) all
    | inr late ↦ ground (arith, all i (ground arith) (ground arith))
  ]

  -- Where frame `i` is free, the run that it stands in begins at `first`.
  abbrev start : ℕ → ℤ → ℤ
  start i first = if (i == 0) || not (is_free (es (i - 1)).status) then pos i else first

  -- The run up to and with frame `i`, which may now be long enough.
  record Grown (i : ℕ) (first' : ℤ) : Type 0 where
    s : ℕ
    is_first : first' ≡ pos s
    above : 1 ≤ s
    below : s < i + 1
    all_free : AllFree es s (i + 1 - s)
    maximal : is_free (es (s - 1)).status ≡ false
    fits : i + 1 ≤ s + npages

  grow :
      (i : ℕ) (first : ℤ)
      → 1 ≤ i
      → Scan es npages i first
      → is_free (es i).status ≡ true
      → Grown i (start i first)
  grow i first one scan here = elim (Bool-cases (is_free (es (i - 1)).status)) [
    | inl before ↦
        let r = scan.open_run before in
        record {
          s = r.s;
          is_first = let far : (i == 0) ≡ false = ground arith in rw (far, before) r.is_first;
          above = r.above;
          below = omega (arith, r.below);
          all_free = λ j a b. elim (Bool-cases (j == i)) [
            | inl same ↦ let e : j ≡ i = ground arith in rw e here
            | inr other ↦ r.all_free j a (ground (arith, r.below))
          ];
          maximal = r.maximal;
          fits = omega (arith, r.short);
        }
    | inr fresh ↦ record {
      s = i;
      is_first = let far : (i == 0) ≡ false = ground arith in rw (far, fresh);
      above = one;
      below = omega arith;
      all_free = λ j a b. let e : j ≡ i = omega arith in rw e here;
      maximal = fresh;
      fits = omega arith;
    }
  ]

  -- A run that is too short with frame `i` leaves no run that ends there.
  NoRun-Grown :
      (i : ℕ) {first' : ℤ}
      → NoRun es npages i
      → (g : Grown i first') → i + 1 < g.s + npages
      → NoRun es npages (i + 1)
  NoRun-Grown i none_yet g short s one le all = elim (Bool-cases (leb (s + npages) i)) [
    | inl early ↦ none_yet s one (ground arith) all
    | inr late ↦ ground (
      arith,
      g.maximal,
      g.above,
      g.below,
      all (g.s - 1) (ground (arith, g.above)) (ground (arith, g.above, g.below)),
    )
  ]

  find_run-Answer :
      (k i end : ℕ) (first : ℤ)
      → i + k ≡ end
      → 1 ≤ i
      → Scan es npages i first
      → Answer es npages end (find_run k es npages i first)
  unfolding find_run
  find_run-Answer zero i end first e one scan =
      let e' : i ≡ end = omega arith in rw (← e') (no_run scan.none_yet)
  find_run-Answer (suc k) i end first e one scan = elim (Bool-cases (is_free (es i).status)) [
    | inl here ↦
        let g = grow i first one scan here in
        elim (Bool-cases (leb npages (i - g.s + 1))) [
          | inl long ↦
              rw (here, g.is_first, long)
                (run g.s g.above (ground (arith, g.below, g.fits))
                  (λ j a b. g.all_free j a (ground (arith, g.below, g.fits))))
          | inr short ↦
              rw (here, g.is_first, short)
                (find_run-Answer k (i + 1) end (pos g.s) (omega arith) (omega arith) (record {
                  open_run = λ _. record {
                    s = g.s;
                    is_first = refl;
                    above = g.above;
                    below = g.below;
                    all_free = g.all_free;
                    maximal = g.maximal;
                    short = ground (arith, g.below);
                  };
                  none_yet = NoRun-Grown i scan.none_yet g (ground (arith, g.below));
                }))
        ]
    | inr busy ↦ rw busy (
        find_run-Answer k (i + 1) end first (omega arith) (omega arith) (record {
          open_run = λ h. absurd (ground (arith, add_sub i));
          none_yet = NoRun-suc i scan.none_yet busy;
        }))
  ]

  -- The search over the frames below `end`, with frame 0 not free.
  pub find_run-ok :
      (end : ℕ)
      → 1 ≤ end
      → is_free (es 0).status ≡ false
      → Answer es npages end (find_run (end - 1) es npages 1 minus_one)
  find_run-ok end one zero_busy =
      find_run-Answer (end - 1) 1 end minus_one (omega arith) (omega arith)
        (record { open_run = λ h. cc; none_yet = λ s a b all. omega arith })
