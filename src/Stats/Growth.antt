-- ===== src/Stats/Growth.antt =====
-- How a routine changes the counters, and what keeps the final report free of warnings.
use os161_project_c.Base.{
  ℕ, ◌+◌, ◌%◌, ◌^◌, ◌<◌, ◌≡◌, ◌≢◌, refl, ◌∙◌, Bool, true, false, Bool-cases, inl, inr, not, [],
  some, ltb, ◌==◌, if◌then◌else◌, update, ok, ◌>>◌, kassert, Ensures, returns, Ensures-assert,
  arith,
}
use os161_project_c.Stats.{
  Statistics, increment_statistics, n_stats, tlb_fault, tlb_fault_free, tlb_fault_replace,
  tlb_reload, page_fault_zero, page_fault_disk, elf_file_read, swap_file_read, swap_file_write,
  free_or_replace, reload_disk_zero, elf_or_swap, print_all_statistics,
}

abbrev pub In32 : Statistics → Type 0
In32 s = (i : ℕ) → s.counters i < 2 ^ 32

-- While the counters are on, counter `i` grows by `d i`, up to wrapping. Nothing is said of the
-- count of swap-file writes, which the report does not compare.
pub record Grows (d : ℕ → ℕ) (s s' : Statistics) : Type 0 where
  pub same_active : s'.is_active ≡ s.is_active
  pub counts :
      (i : ℕ)
      → i ≢ swap_file_write
      → s'.counters i % 2 ^ 32 ≡ (s.counters i + (if s.is_active then d i else 0)) % 2 ^ 32
  pub range : In32 s → In32 s'

abbrev pub unit : ℕ → ℕ → ℕ
unit stat i = if stat == i then 1 else 0

pub Grows-zero : (s : Statistics) → Grows (λ i. 0) s s
Grows-zero s = record {
  same_active = refl;
  counts = λ i ne. elim (Bool-cases s.is_active) [
    | inl on ↦ rw on (omega arith)
    | inr off ↦ rw off (omega arith)
  ];
  range = λ h. h;
}

pub Grows-add :
    {d e : ℕ → ℕ} {s t u : Statistics} → Grows d s t → Grows e t u → Grows (λ i. d i + e i) s u
Grows-add {d} {e} {s} {t} {u} g h = record {
  same_active = h.same_active ∙ g.same_active;
  counts = λ i ne. elim (Bool-cases s.is_active) [
    | inl on ↦
        let p = g.counts i ne in let q = h.counts i ne in rw on (ground (arith, g.same_active))
    | inr off ↦
        let p = g.counts i ne in let q = h.counts i ne in rw off (ground (arith, g.same_active))
  ];
  range = λ r. h.range (g.range r);
}

-- Off, an increment does nothing; on, it adds one to its counter.
stays-Grows : (stat : ℕ) (s : Statistics) → s.is_active ≡ false → Grows (unit stat) s s
stays-Grows stat s off = record {
  same_active = refl;
  counts = λ i ne. rw off (omega arith);
  range = λ h. h;
}

steps-Grows :
    (stat : ℕ) (s : Statistics)
    → s.is_active ≡ true
    → Grows
        (unit stat)
        s
        (record s { counters = update s.counters stat ((s.counters stat + 1) % 2 ^ 32) })
steps-Grows stat s on = record {
  same_active = refl;
  counts = λ i ne. rw on (ground arith);
  range = λ h i. let old = h i in ground arith;
}

increment-Grows_at :
    (stat : ℕ) (s : Statistics) (b : Bool)
    → s.is_active ≡ b
    → Ensures (Grows (unit stat) s) (
        if not b then ok s else (do
          kassert (ltb stat n_stats)
          ok (record s { counters = update s.counters stat ((s.counters stat + 1) % 2 ^ 32) })))
increment-Grows_at stat s false off = returns (stays-Grows stat s off)
increment-Grows_at stat s true on =
    Ensures-assert (ltb stat n_stats) λ _. returns (steps-Grows stat s on)

pub increment-Grows :
    (stat : ℕ) (s : Statistics) → Ensures (Grows (unit stat) s) (increment_statistics stat s)
unfolding increment_statistics
increment-Grows stat s = increment-Grows_at stat s s.is_active refl

-- The three equations that the final report checks.
pub record IsBalanced (s : Statistics) : Type 0 where
  pub in32 : In32 s
  pub faults : s.counters tlb_fault ≡ free_or_replace s
  pub kinds : s.counters tlb_fault ≡ reload_disk_zero s
  pub reads : s.counters page_fault_disk ≡ elf_or_swap s

-- An amount by which the counters may grow that keeps the three equations.
pub record IsEven (d : ℕ → ℕ) : Type 0 where
  pub faults : d tlb_fault ≡ d tlb_fault_free + d tlb_fault_replace
  pub kinds : d tlb_fault ≡ d tlb_reload + d page_fault_disk + d page_fault_zero
  pub reads : d page_fault_disk ≡ d elf_file_read + d swap_file_read

-- What a counter is after it has grown.
module _ {d : ℕ → ℕ} {s s' : Statistics} (g : Grows d s s') (r : In32 s) where
  exact_on :
      (i : ℕ)
      → i ≢ swap_file_write
      → s.is_active ≡ true
      → s'.counters i ≡ (s.counters i + d i) % 2 ^ 32
  exact_on i ne on = let p = g.counts i ne in let small = g.range r i in ground arith

  exact_off : (i : ℕ) → i ≢ swap_file_write → s.is_active ≡ false → s'.counters i ≡ s.counters i
  exact_off i ne off =
      let p = g.counts i ne in let small = g.range r i in let small' = r i in ground arith

  Grows-IsBalanced_on : IsEven d → IsBalanced s → s.is_active ≡ true → IsBalanced s'
  Grows-IsBalanced_on even b on =
      let at = λ (i : ℕ) (ne : i ≢ swap_file_write). exact_on i ne on in
      let f = at tlb_fault (omega arith) in
      let fr = at tlb_fault_free (omega arith) in
      let rp = at tlb_fault_replace (omega arith) in
      let rl = at tlb_reload (omega arith) in
      let z = at page_fault_zero (omega arith) in
      let k = at page_fault_disk (omega arith) in
      let e = at elf_file_read (omega arith) in
      let w = at swap_file_read (omega arith) in
      record {
        in32 = g.range r;
        faults = omega (arith, b.faults, even.faults);
        kinds = omega (arith, b.kinds, even.kinds);
        reads = omega (arith, b.reads, even.reads);
      }

  Grows-IsBalanced_off : IsBalanced s → s.is_active ≡ false → IsBalanced s'
  Grows-IsBalanced_off b off =
      let at = λ (i : ℕ) (ne : i ≢ swap_file_write). exact_off i ne off in
      let f = at tlb_fault (omega arith) in
      let fr = at tlb_fault_free (omega arith) in
      let rp = at tlb_fault_replace (omega arith) in
      let rl = at tlb_reload (omega arith) in
      let z = at page_fault_zero (omega arith) in
      let k = at page_fault_disk (omega arith) in
      let e = at elf_file_read (omega arith) in
      let w = at swap_file_read (omega arith) in
      record {
        in32 = g.range r;
        faults = omega (arith, b.faults);
        kinds = omega (arith, b.kinds);
        reads = omega (arith, b.reads);
      }

-- The counters grow by some amounts that keep the three equations.
pub record GrowsEvenly (s s' : Statistics) : Type 0 where
  pub growth : ℕ → ℕ
  pub grown : Grows growth s s'
  pub even : IsEven growth

Grows-IsBalanced :
    {d : ℕ → ℕ} {s s' : Statistics} → Grows d s s' → IsEven d → IsBalanced s → IsBalanced s'
Grows-IsBalanced {s} g even b = elim (Bool-cases s.is_active) [
  | inl on ↦ Grows-IsBalanced_on g b.in32 even b on
  | inr off ↦ Grows-IsBalanced_off g b.in32 b off
]

balanced_quiet :
    (s : Statistics)
    → s.is_active ≡ true
    → IsBalanced s
    → print_all_statistics s ≡ some (s.counters, [])
unfolding print_all_statistics
balanced_quiet s on b = ground (arith, b.faults, b.kinds, b.reads)

-- When counters were balanced, and have grown evenly since, they are printed without a warning, where
-- they are on.
pub print_all_statistics-quiet :
    (s s' : Statistics)
    → IsBalanced s
    → GrowsEvenly s s'
    → s'.is_active ≡ true
    → print_all_statistics s' ≡ some (s'.counters, [])
print_all_statistics-quiet s s' b g on = balanced_quiet s' on (Grows-IsBalanced g.grown g.even b)

pub Grows-of :
    {d e : ℕ → ℕ} {s s' : Statistics}
    → ((i : ℕ) → i ≢ swap_file_write → d i ≡ e i)
    → Grows d s s'
    → Grows e s s'
Grows-of {d} {e} {s} same g = record {
  same_active = g.same_active;
  counts = λ i ne. rw (← same i ne) (g.counts i ne);
  range = g.range;
}
