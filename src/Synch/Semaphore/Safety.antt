-- ===== src/Synch/Semaphore/Safety.antt =====
-- What holds of the threads that use one semaphore, in every reachable state.
use os161_project_c.Base.{
  ℕ, zero, suc, ◌^◌, ◌<◌, ◌≡◌, refl, ◌≢◌, ◌⊎◌, inl, inr, true, false, Option, none, List, [], ◌∷◌,
  arith, weigh-some, Bool-cases, Option-cases,
}
use os161_project_c.Synch.Semaphore.{
  Semaphore, Pc, outside, p_spin, p_test, p_asleep, p_woken, p_take, p_leave, v_spin, v_add,
  v_check, v_wake, v_leave, stopped, Move, p_lock, sleep, relock, pass, take, take_fails, p_unlock,
  v_lock, add, add_holds, add_fails, wake_none, wake_one, v_unlock, System, Reach,
}
use os161_project_c.Synch.Semaphore.Invariant.{holds_lock, serves, Inv}
use os161_project_c.Synch.Semaphore.Moves.{Reach-Inv}

-- Two threads are never at once between the spinlock_acquire and the spinlock_release of P or V.
pub sem_lock-exclusive :
    {n count : ℕ} {s : System}
    → count < 2 ^ 32
    → Reach n count s
    → (i j : ℕ) → holds_lock (s.pc i) ≡ true
    → holds_lock (s.pc j) ≡ true
    → i ≡ j
sem_lock-exclusive small r i j in_i in_j =
    let inv = Reach-Inv small r in ground (arith, inv.holder i in_i, inv.holder j in_j)

pub data Enabled (i : ℕ) (s : Semaphore) (p : Pc) : Type 0 where
  can : {m : Semaphore} {p' : Pc} {woken : Option ℕ} → Move i s p m p' woken → Enabled i s p

count-cases : (c : ℕ) → (c ≡ 0) ⊎ (0 < c)
count-cases zero = inl refl
count-cases (suc c) = inr (omega arith)

wake-Enabled : (i : ℕ) (s : Semaphore) (l : List ℕ) → s.sem_wchan ≡ l → Enabled i s v_wake
wake-Enabled i s [] e = can (wake_none e)
wake-Enabled i s (target ∷ rest) e = can (wake_one e)

-- A thread that holds the spinlock never waits.
holds_lock-Enabled :
    (i : ℕ) (s : Semaphore) (p : Pc) → holds_lock p ≡ true → p ≢ stopped → Enabled i s p
holds_lock-Enabled i s p_test h running = elim (count-cases s.sem_count) [
  | inl empty ↦ can (sleep empty)
  | inr more ↦ can (pass (omega arith))
]
holds_lock-Enabled i s p_take h running = elim (count-cases s.sem_count) [
  | inl empty ↦ can (take_fails empty)
  | inr more ↦ can (take more)
]
holds_lock-Enabled i s p_leave h running = can p_unlock
holds_lock-Enabled i s v_add h running = can add
holds_lock-Enabled i s v_check h running = elim (count-cases s.sem_count) [
  | inl empty ↦ can (add_fails empty)
  | inr more ↦ can (add_holds more)
]
holds_lock-Enabled i s v_wake h running = wake-Enabled i s s.sem_wchan refl
holds_lock-Enabled i s v_leave h running = can v_unlock
holds_lock-Enabled i s stopped h running = absurd (running refl)
holds_lock-Enabled i s outside h running = cc
holds_lock-Enabled i s p_spin h running = cc
holds_lock-Enabled i s p_asleep h running = cc
holds_lock-Enabled i s p_woken h running = cc
holds_lock-Enabled i s v_spin h running = cc

-- With the spinlock free, a thread in a call can move unless it sleeps.
free-Enabled :
    (i : ℕ) (s : Semaphore) (p : Pc)
    → s.sem_lock ≡ none
    → p ≢ outside
    → p ≢ p_asleep
    → holds_lock p ≡ false
    → Enabled i s p
free-Enabled i s p_spin free calls awake h = can (p_lock free)
free-Enabled i s p_woken free calls awake h = can (relock free)
free-Enabled i s v_spin free calls awake h = can (v_lock free)
free-Enabled i s outside free calls awake h = absurd (calls refl)
free-Enabled i s p_asleep free calls awake h = absurd (awake refl)
free-Enabled i s p free calls awake h = absurd (ground arith)

-- Some thread that is in a call of P or V can make a step.
abbrev pub Progress : ℕ → System → Type 0
Progress n s = (i : ℕ) × (i < n) × (s.pc i ≢ outside) × Enabled i s.sem (s.pc i)

-- P and V never deadlock: while a thread is in a call and not asleep, some thread in a call can
-- make a step, unless an assertion has stopped the kernel.
pub sem_no_deadlock :
    {n count : ℕ} {s : System}
    → count < 2 ^ 32
    → Reach n count s
    → ((i : ℕ) → s.pc i ≢ stopped)
    → (k : ℕ) → s.pc k ≢ outside
    → s.pc k ≢ p_asleep
    → Progress n s
sem_no_deadlock {n} {s} small r running k calls awake = elim (Option-cases s.sem.sem_lock) [
  | inl free ↦ elim (Bool-cases (holds_lock (s.pc k))) [
    | inl holds ↦ (k, called k calls, calls, holds_lock-Enabled k s.sem (s.pc k) holds (running k))
    | inr waits ↦ (k, called k calls, calls, free-Enabled k s.sem (s.pc k) free calls awake waits)
  ]
  | inr (j, taken) ↦
      let holds = inv.held j taken in
      let inside : s.pc j ≢ outside = ground arith in
      (j, called j inside, inside, holds_lock-Enabled j s.sem (s.pc j) holds (running j))
]
  where
    inv : Inv n s.sem s.pc
    inv = Reach-Inv small r

    called : (i : ℕ) → s.pc i ≢ outside → i < n
    called i h = ground (arith, inv.known i)

-- No lost wakeup: while a thread sleeps on a semaphore whose count is not 0, some thread that is
-- in a call of P or V can make a step, unless an assertion has stopped the kernel.
pub sem_no_lost_wakeup :
    {n count : ℕ} {s : System}
    → count < 2 ^ 32
    → Reach n count s
    → ((i : ℕ) → s.pc i ≢ stopped)
    → (k : ℕ) → s.pc k ≡ p_asleep
    → 0 < s.sem.sem_count
    → Progress n s
sem_no_lost_wakeup {n} {s} small r running k sleeps units =
    let inv = Reach-Inv small r in
    let (i, low, weighs) = weigh-some serves s.pc n (ground (arith, inv.served, inv.queued k)) in
    sem_no_deadlock small r running i (ground arith) (ground arith)
