-- ===== src/Coremap/Victim.antt =====
-- The round-robin choice of frames to evict ends and gives a run of frames that may be evicted.
use native.Mathlib.Nat.{mod-eq_of_lt}
use os161_project_c.Base.{
  ℕ, zero, suc, ◌+◌, ◌-◌, ◌*◌, ◌%◌, ◌≤◌, ◌<◌, ◌≡◌, refl, true, false, Bool-cases, inl, inr, not,
  ltb, leb, if◌then◌else◌, ◌==◌, Outcome, ok, arith,
}
use os161_project_c.Coremap.{Frame, Coremap, is_victim, victim_loop, get_victim_coremap}

abbrev pub AllVictims : (ℕ → Frame) → ℕ → ℕ → Type 0
AllVictims es s n = (j : ℕ) → s ≤ j → j < s + n → is_victim (es j).status ≡ true

-- The answer: `size` frames in a row from `s` on, none of them fixed or clean, off frame 0 and
-- inside the program's frames; only the hand of the clock has moved.
pub data Chosen (c : Coremap) (size : ℕ) : Outcome (ℕ × Coremap) → Type 0 where
  chosen :
      (s hand : ℕ)
      → 1 ≤ s
      → s + size ≤ c.n_ram_frames
      → hand < c.n_ram_frames
      → AllVictims c.entries s size
      → Chosen c size (ok (s, record c { current_victim = hand }))

module _ (c : Coremap) (size t : ℕ) (some_pages : 1 ≤ size)
    (zero_frame : is_victim (c.entries 0).status ≡ false) (t_above : 1 ≤ t)
    (t_below : t + size < c.n_ram_frames) (t_all : AllVictims c.entries t size) where
  abbrev at : ℕ → Coremap
  at hand = record c { current_victim = hand }

  abbrev n : ℕ
  n = c.n_ram_frames

  -- The run in hand: the last `len` frames before the hand.
  record Hand (hand victim len : ℕ) : Type 0 where
    bound : len ≤ size
    behind : 1 ≤ len → (hand ≡ victim + 1) × (len ≤ victim) × (hand + (size - len) < n)
    all : AllVictims c.entries (victim + 1 - len) len
    inside : hand ≤ n

  hand_above : (hand : ℕ) → is_victim (c.entries hand).status ≡ true → 1 ≤ hand
  hand_above zero good = ground (arith, zero_frame)
  hand_above (suc hand) good = omega arith

  -- The run in hand and the frame under the hand are one run.
  joined :
      (hand victim len : ℕ)
      → Hand hand victim len
      → is_victim (c.entries hand).status ≡ true
      → (len + 1 ≤ hand) × AllVictims c.entries (hand + 1 - (len + 1)) (len + 1)
  joined hand victim len h good = elim (Bool-cases (leb 1 len)) [
    | inl run ↦
        let (next, long, _) = h.behind (ground arith) in
        (
          omega arith,
          λ j a b. elim (Bool-cases (j == hand)) [
            | inl same ↦ let e : j ≡ hand = ground arith in rw e good
            | inr other ↦ h.all j (omega arith) (ground arith)
          ],
        )
    | inr empty ↦
        let none_yet : len ≡ 0 = ground arith in
        let above = hand_above hand good in
        (omega arith, λ j a b. let e : j ≡ hand = omega arith in rw e good)
  ]

  Hand-step :
      (hand victim len : ℕ)
      → Hand hand victim len
      → len < size
      → hand + (size - len) < n
      → Hand (hand + 1) hand (if is_victim (c.entries hand).status then len + 1 else 0)
  Hand-step hand victim len h more room = elim (Bool-cases (is_victim (c.entries hand).status)) [
    | inl good ↦
        let (long, all) = joined hand victim len h good in
        rw good (record {
          bound = omega arith;
          behind = λ _. (refl, long, omega arith);
          all = all;
          inside = omega arith;
        })
    | inr bad ↦ rw bad (record {
      bound = omega arith;
      behind = λ p. absurd (omega arith);
      all = λ j a b. absurd (omega arith);
      inside = omega arith;
    })
  ]

  loop_ends :
      (k hand victim len : ℕ)
      → Hand hand victim len
      → size ≤ len
      → Chosen c size (victim_loop k (at hand) size victim len)
  unfolding victim_loop
  loop_ends zero hand victim len h full =
      let off : ltb len size ≡ false = ground arith in
      let (next, long, room) = h.behind (omega (arith, some_pages)) in
      let bound = h.bound in
      rw off (
        chosen (victim + 1 - len) hand (omega arith) (omega arith) (omega arith)
          (λ j a b. h.all j a (omega arith)))
  loop_ends (suc k) hand victim len h full =
      let off : ltb len size ≡ false = ground arith in
      let (next, long, room) = h.behind (omega (arith, some_pages)) in
      let bound = h.bound in
      rw off (
        chosen (victim + 1 - len) hand (omega arith) (omega arith) (omega arith)
          (λ j a b. h.all j a (omega arith)))

  -- One round of the loop that does not go back to the first frame.
  forward :
      (k hand victim len : ℕ)
      → len < size
      → hand + (size - len) < n
      → Chosen c size (
          victim_loop k
            (at (hand + 1))
            size
            hand
            (if is_victim (c.entries hand).status then len + 1 else 0))
      → Chosen c size (victim_loop (suc k) (at hand) size victim len)
  unfolding victim_loop
  forward k hand victim len more room rest =
      let on : ltb len size ≡ true = ground arith in
      let stay : leb n (hand + (size - len)) ≡ false = ground arith in
      let small : hand + 1 < n = omega arith in
      let next : (hand + 1) % n ≡ hand + 1 = mod-eq_of_lt small in rw (on, stay, next) rest

  near-step :
      (hand len : ℕ)
      → hand ≤ t + len
      → len < size
      → hand + 1 ≤ t + (if is_victim (c.entries hand).status then len + 1 else 0)
  near-step hand len near more = elim (Bool-cases (is_victim (c.entries hand).status)) [
    | inl good ↦ rw good (omega arith)
    | inr bad ↦ rw bad (elim (Bool-cases (leb t hand)) [
      | inl beyond ↦
          let good : is_victim (c.entries hand).status ≡ true =
            t_all hand (ground arith) (omega arith) in
          cc
      | inr before ↦ ground arith
    ])
  ]

  -- The hand is not beyond the run that is known to be there, and reaches its end in time.
  approach :
      (k hand victim len : ℕ)
      → Hand hand victim len
      → hand ≤ t + len
      → t + size ≤ k + hand
      → Chosen c size (victim_loop k (at hand) size victim len)
  approach zero hand victim len h near fuel = loop_ends zero hand victim len h (omega arith)
  approach (suc k) hand victim len h near fuel = elim (Bool-cases (ltb len size)) [
    | inr done ↦ loop_ends (suc k) hand victim len h (ground arith)
    | inl go ↦
        let more : len < size = ground arith in
        forward k hand victim len more (omega arith) (
          approach k (hand + 1) hand _ (Hand-step hand victim len h more (omega arith))
            (near-step hand len near more) (omega arith))
  ]

  -- The hand goes back only between two runs.
  empty_at_end : (hand victim len : ℕ) → Hand hand victim len → n ≤ hand + (size - len) → len ≡ 0
  empty_at_end hand victim len h far = elim (Bool-cases (leb 1 len)) [
    | inl run ↦ let (next, long, room) = h.behind (ground arith) in absurd (omega arith)
    | inr empty ↦ ground arith
  ]

  -- One round that goes back to frame 1.
  wrap :
      (k hand victim len : ℕ)
      → Hand hand victim len
      → len < size
      → n ≤ hand + (size - len)
      → n ≤ k + 2
      → Chosen c size (victim_loop (suc k) (at hand) size victim len)
  unfolding victim_loop
  wrap k hand victim len h more far fuel =
      let on : ltb len size ≡ true = ground arith in
      let back : leb n (hand + (size - len)) ≡ true = ground arith in
      let next : (1 + 1) % n ≡ 2 = mod-eq_of_lt (omega arith) in
      let empty : len ≡ 0 = empty_at_end hand victim len h far in
      let h0 : Hand 1 0 0 = record {
        bound = omega arith;
        behind = λ p. absurd (omega arith);
        all = λ j a b. absurd (omega arith);
        inside = omega arith;
      } in
      rw (on, back, next, empty)
        (approach k 2 1 _ (Hand-step 1 0 0 h0 (omega arith) (omega arith))
          (near-step 1 0 (omega arith) (omega arith)) (omega arith))

  -- From any position of the hand.
  scan :
      (k hand victim len : ℕ)
      → Hand hand victim len
      → 2 * n ≤ k + hand
      → Chosen c size (victim_loop k (at hand) size victim len)
  scan zero hand victim len h fuel = absurd (omega (arith, h.inside))
  scan (suc k) hand victim len h fuel = elim (Bool-cases (ltb len size)) [
    | inr done ↦ loop_ends (suc k) hand victim len h (ground arith)
    | inl go ↦
        let more : len < size = ground arith in
        let inside = h.inside in
        elim (Bool-cases (leb n (hand + (size - len)))) [
          | inl far ↦ wrap k hand victim len h more (ground arith) (omega arith)
          | inr room ↦
              let fits : hand + (size - len) < n = ground arith in
              forward k hand victim len more fits
                (scan k (hand + 1) hand _ (Hand-step hand victim len h more fits) (omega arith))
        ]
  ]

  scan_all : c.current_victim ≤ n → Chosen c size (victim_loop (2 * n + 1) c size 0 0)
  scan_all start =
      scan (2 * n + 1) c.current_victim 0 0
        (record {
          bound = omega arith;
          behind = λ p. absurd (omega arith);
          all = λ j a b. absurd (omega arith);
          inside = start;
        })
        (omega arith)

-- If some `size` frames in a row, off frame 0 and below the last frame, may be evicted, then
-- `get_victim_coremap` ends, wherever its hand stands, and answers with such a run (perhaps
-- another): `size` frames that are neither fixed nor clean, off frame 0 and inside the program's
-- frames. Nothing but the hand has moved.
pub get_victim_coremap-Chosen :
    (c : Coremap) (size t : ℕ)
    → 1 ≤ size
    → is_victim (c.entries 0).status ≡ false
    → c.current_victim ≤ c.n_ram_frames
    → 1 ≤ t
    → t + size < c.n_ram_frames
    → AllVictims c.entries t size
    → Chosen c size (get_victim_coremap c size)
unfolding get_victim_coremap
get_victim_coremap-Chosen c size t pages zero_frame start above below all =
    let asked : not (size == 0) ≡ true = ground arith in
    rw asked (scan_all c size t pages zero_frame above below all start)
