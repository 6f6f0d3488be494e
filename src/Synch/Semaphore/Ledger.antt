-- ===== src/Synch/Semaphore/Ledger.antt =====
-- What the count of a semaphore says of the calls that have passed.
use os161_project_c.Base.{
  ℕ, ◌+◌, ◌^◌, ◌≤◌, ◌<◌, ◌≡◌, refl, sym, ◌≢◌, ◌⊎◌, inl, inr, Option, arith, ◌==◌, update,
  Bool-cases,
}
use os161_project_c.Synch.Semaphore.{
  Semaphore, Pc, v_check, stopped, Move, take, add, wake_one, make_runnable, System, runs, Reach,
  begins, goes_on,
}
use os161_project_c.Synch.Semaphore.Invariant.{Inv}
use os161_project_c.Synch.Semaphore.Moves.{tested, Reach-Inv}

abbrev Move_takes :
    {i : ℕ} {m m' : Semaphore} {p p' : Pc} {woken : Option ℕ} → Move i m p m' p' woken → ℕ
Move_takes (take _) = 1
Move_takes _ = 0

abbrev Move_gives :
    {i : ℕ} {m m' : Semaphore} {p p' : Pc} {woken : Option ℕ} → Move i m p m' p' woken → ℕ
Move_gives add = 1
Move_gives _ = 0

-- How often a run has taken a unit in P, and how often it has added one in V.
unfoldable pub takes : {n count : ℕ} {s : System} → Reach n count s → ℕ
takes begins = 0
takes (goes_on r (runs i below mv)) = takes r + Move_takes mv

unfoldable pub gives : {n count : ℕ} {s : System} → Reach n count s → ℕ
gives begins = 0
gives (goes_on r (runs i below mv)) = gives r + Move_gives mv

-- A thread that has wrapped the count around.
abbrev Wrapped : Pc → Type 0
Wrapped p = (p ≡ v_check) ⊎ (p ≡ stopped)

-- The books balance, or a V has just wrapped the count around and is about to stop the kernel.
data Books (count taken given : ℕ) (s : System) : Type 0 where
  balanced :
      count + given ≡ s.sem.sem_count + taken
      → ((j : ℕ) → s.pc j ≡ v_check → 0 < s.sem.sem_count)
      → ((j : ℕ) → s.pc j ≢ stopped)
      → Books count taken given s
  overflown :
      (j : ℕ)
      → Wrapped (s.pc j)
      → s.sem.sem_count ≡ 0
      → count + given ≡ 2 ^ 32 + taken
      → Books count taken given s

module _ {n count : ℕ} {m : Semaphore} {pc : ℕ → Pc} (inv : Inv n m pc) (i taken given : ℕ) where
  open inv use {holder, fits}

  balanced-Books :
      {p p' : Pc} {m' : Semaphore} {woken : Option ℕ} (mv : Move i m p m' p' woken)
      → pc i ≡ p
      → count + given ≡ m.sem_count + taken
      → ((j : ℕ) → pc j ≡ v_check → 0 < m.sem_count)
      → ((j : ℕ) → pc j ≢ stopped)
      → Books count
          (taken + Move_takes mv)
          (given + Move_gives mv)
          (record { sem = m'; pc = make_runnable woken (update pc i p') })
  unfolding make_runnable
  balanced-Books add e b raised running = elim (Bool-cases (m.sem_count + 1 == 2 ^ 32)) [
    | inl wraps ↦ overflown i (ground arith) (ground arith) (ground arith)
    | inr room ↦
        balanced (ground (arith, fits)) (λ j h. ground (arith, fits))
          λ j h. ground (arith, running j)
  ]
  balanced-Books mv e b raised running =
      balanced (ground (arith, tested mv))
        (λ j h. ground (arith, tested mv, raised i, raised j, holder i, holder j))
        λ j h. ground (arith, tested mv, running i, running j, inv.passed i, raised i)

  overflown-Books :
      {p p' : Pc} {m' : Semaphore} {woken : Option ℕ} (mv : Move i m p m' p' woken)
      → pc i ≡ p
      → (j : ℕ) → Wrapped (pc j)
      → m.sem_count ≡ 0
      → count + given ≡ 2 ^ 32 + taken
      → Books count
          (taken + Move_takes mv)
          (given + Move_gives mv)
          (record { sem = m'; pc = make_runnable woken (update pc i p') })
  unfolding make_runnable
  overflown-Books (wake_one tst) e j w c b = absurd (ground (arith, holder i, holder j))
  overflown-Books mv e j w c b =
      overflown j (ground (arith, tested mv, holder i, holder j))
        (ground (arith, tested mv, holder i, holder j))
        (ground (arith, tested mv, holder i, holder j))

Reach-Books :
    {n count : ℕ} {s : System}
    → count < 2 ^ 32
    → (r : Reach n count s) → Books count (takes r) (gives r) s
unfolding takes gives
Reach-Books small begins = balanced refl (λ j h. cc) λ j h. cc
Reach-Books {count} small (goes_on {s} r (runs i below mv)) = elim (Reach-Books small r) [
  | balanced b raised running ↦
      balanced-Books (Reach-Inv small r) i (takes r) (gives r) mv refl b raised running
  | overflown j w c b ↦ overflown-Books (Reach-Inv small r) i (takes r) (gives r) mv refl j w c b
]

-- The units that P has taken are never more than those that the semaphore began with and those
-- that V has added, whatever the threads call and however they interleave.
pub sem_count-bounded :
    {n count : ℕ} {s : System} → count < 2 ^ 32 → (r : Reach n count s) → takes r ≤ count + gives r
sem_count-bounded small r = elim (Reach-Books small r) [
  | balanced b raised running ↦ omega arith
  | overflown j w c b ↦ omega arith
]

-- Where no V is about to check a new count and no assertion has failed, the count is what the
-- semaphore began with and what V has added, less what P has taken.
pub sem_count-balanced :
    {n count : ℕ} {s : System}
    → count < 2 ^ 32
    → (r : Reach n count s) → ((j : ℕ) → (s.pc j ≢ v_check) × (s.pc j ≢ stopped))
    → s.sem.sem_count + takes r ≡ count + gives r
sem_count-balanced small r quiet = elim (Reach-Books small r) [
  | balanced b raised running ↦ sym b
  | overflown j w c b ↦ absurd (ground (arith, quiet j))
]

-- An assertion of P or V fails only where the units outstanding have passed the largest unsigned
-- value: the semaphore began with and was given 2^32 more than were taken.
pub sem_stops-overflow :
    {n count : ℕ} {s : System}
    → count < 2 ^ 32
    → (r : Reach n count s) (j : ℕ) → s.pc j ≡ stopped
    → count + gives r ≡ 2 ^ 32 + takes r
sem_stops-overflow small r j h = elim (Reach-Books small r) [
  | balanced b raised running ↦ absurd (running j h)
  | overflown k w c b ↦ b
]
