-- ===== src/Spinlock/Invariant.antt =====
-- The lock word, the holder and the counts agree with where the processors stand.
use os161_project_c.Base.{ℕ, ◌+◌, ◌<◌, ◌≡◌, refl, ◌≢◌, Bool, true, false, some, arith, update}
use os161_project_c.Spinlock.{
  Spinlock, spinlock_init, Pc, outside, counts, sets, inside, uncounts, clears, frees, deadlocked,
  stopped, Move, call_acquire, acquire_again, acquire_held, acquire_more, read_busy, read_free,
  test_busy, test_free, call_release, release_fails, release_outside, release_held, uncount,
  uncount_fails, free, System, runs, Reach, begins, goes_on,
}

-- From the successful test-and-set to the write that clears the lock word.
abbrev pub has_word : Pc → Bool
has_word sets = true
has_word inside = true
has_word uncounts = true
has_word clears = true
has_word frees = true
has_word deadlocked = true
has_word _ = false

-- Where the holder is this processor.
abbrev pub holds : Pc → Bool
holds inside = true
holds uncounts = true
holds clears = true
holds deadlocked = true
holds _ = false

-- What the processor has added to its count for this lock.
abbrev pub counted : Pc → ℕ
counted outside = 0
counted counts = 0
counted clears = 0
counted frees = 0
counted stopped = 0
counted _ = 1

pub record Inv (before : ℕ → ℕ) (m : Spinlock) (pc : ℕ → Pc) : Type 0 where
  pub word : (i : ℕ) → has_word (pc i) ≡ true → m.splk_lock ≡ 1
  pub alone : (i j : ℕ) → has_word (pc i) ≡ true → has_word (pc j) ≡ true → i ≡ j
  pub holder : (i : ℕ) → holds (pc i) ≡ true → m.splk_holder ≡ some i
  pub held : (i : ℕ) → m.splk_holder ≡ some i → holds (pc i) ≡ true
  pub count_of : (i : ℕ) → m.c_spinlocks i ≡ before i + counted (pc i)

-- What the code has just tested.
abbrev pub Tested : {i : ℕ} {m m' : Spinlock} {p p' : Pc} → Move i m p m' p' → Type 0
Tested {i} {m} (call_acquire _) = m.splk_holder ≢ some i
Tested {i} {m} (acquire_again _) = m.splk_holder ≡ some i
Tested {i} {m} (acquire_held _) = m.splk_holder ≡ some i
Tested {i} {m} (acquire_more _) = m.splk_holder ≢ some i
Tested {m} (read_busy _) = m.splk_lock ≢ 0
Tested {m} (read_free _) = m.splk_lock ≡ 0
Tested {m} (test_busy _) = m.splk_lock ≢ 0
Tested {m} (test_free _) = m.splk_lock ≡ 0
Tested {i} {m} (call_release _) = m.splk_holder ≡ some i
Tested {i} {m} (release_fails _) = m.splk_holder ≢ some i
Tested {i} {m} (release_outside _) = m.splk_holder ≢ some i
Tested {i} {m} (release_held _) = m.splk_holder ≡ some i
Tested {i} {m} (uncount _) = 0 < m.c_spinlocks i
Tested {i} {m} (uncount_fails _) = m.c_spinlocks i ≡ 0
Tested _ = Unit

tested : {i : ℕ} {m m' : Spinlock} {p p' : Pc} (mv : Move i m p m' p') → Tested mv
tested (call_acquire g) = g
tested (acquire_again g) = g
tested (acquire_held g) = g
tested (acquire_more g) = g
tested (read_busy g) = g
tested (read_free g) = g
tested (test_busy g) = g
tested (test_free g) = g
tested (call_release g) = g
tested (release_fails g) = g
tested (release_outside g) = g
tested (release_held g) = g
tested (uncount g) = g
tested (uncount_fails g) = g
tested _ = tt

module _ {before : ℕ → ℕ} {m : Spinlock} {pc : ℕ → Pc} (inv : Inv before m pc) (i : ℕ) where
  open inv use {word, alone, holder, held, count_of}

  Move-word :
      {p p' : Pc} {m' : Spinlock}
      → Move i m p m' p'
      → pc i ≡ p
      → (j : ℕ) → has_word (update pc i p' j) ≡ true
      → m'.splk_lock ≡ 1
  Move-word free e j h = ground (arith, alone i j, word j)
  Move-word mv e j h = ground (arith, tested mv, word i, word j, held i)

  Move-alone :
      {p p' : Pc} {m' : Spinlock}
      → Move i m p m' p'
      → pc i ≡ p
      → (j k : ℕ) → has_word (update pc i p' j) ≡ true
      → has_word (update pc i p' k) ≡ true
      → j ≡ k
  Move-alone free e j k hj hk = ground (arith, alone j k)
  Move-alone mv e j k hj hk =
      ground (arith, tested mv, alone j k, alone i j, alone i k, word j, word k, held i)

  Move-holder :
      {p p' : Pc} {m' : Spinlock}
      → Move i m p m' p'
      → pc i ≡ p
      → (j : ℕ) → holds (update pc i p' j) ≡ true
      → m'.splk_holder ≡ some j
  Move-holder free e j h = ground (arith, holder j)
  Move-holder mv e j h = ground (arith, tested mv, holder i, holder j, alone i j, held i)

  Move-held :
      {p p' : Pc} {m' : Spinlock}
      → Move i m p m' p'
      → pc i ≡ p
      → (j : ℕ) → m'.splk_holder ≡ some j
      → holds (update pc i p' j) ≡ true
  Move-held free e j h = ground (arith, held j)
  Move-held mv e j h = ground (arith, tested mv, holder i, held i, held j, count_of i)

  Move-count_of :
      {p p' : Pc} {m' : Spinlock}
      → Move i m p m' p'
      → pc i ≡ p
      → (j : ℕ) → m'.c_spinlocks j ≡ before j + counted (update pc i p' j)
  Move-count_of free e j = ground (arith, count_of j)
  Move-count_of mv e j = ground (arith, tested mv, count_of i, count_of j, held i, holder i)

  pub Move-Inv : {p' : Pc} {m' : Spinlock} → Move i m (pc i) m' p' → Inv before m' (update pc i p')
  Move-Inv mv = record {
    word = Move-word mv refl;
    alone = Move-alone mv refl;
    holder = Move-holder mv refl;
    held = Move-held mv refl;
    count_of = Move-count_of mv refl;
  }

pub Reach-Inv : {before : ℕ → ℕ} {s : System} → Reach before s → Inv before s.splk s.pc
unfolding spinlock_init
Reach-Inv begins = record {
  word = λ i h. cc;
  alone = λ i j h k. cc;
  holder = λ i h. cc;
  held = λ i h. cc;
  count_of = λ i. omega arith;
}
Reach-Inv (goes_on r (runs i mv)) = Move-Inv (Reach-Inv r) i mv
