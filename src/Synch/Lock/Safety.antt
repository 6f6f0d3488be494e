-- ===== src/Synch/Lock/Safety.antt =====
-- What holds of the threads that use one lock, in every reachable state.
use os161_project_c.Base.{
  ℕ, ◌<◌, ◌≡◌, refl, ap, ◌⊎◌, inl, inr, Bool, true, false, Option, none, some, List, [], ◌∷◌, arith,
  weigh-some, Bool-cases, Option-cases,
}
use os161_project_c.Synch.Lock.{
  Lock, Query, warns, acquires, releases, Pc, client, hold_spin, hold_read, hold_leave,
  acquire_spin, acquire_test, acquire_asleep, acquire_woken, acquire_own, acquire_leave,
  release_spin, release_clear, release_wake, release_leave, misused, stopped, Move, hold_lock,
  hold_look, hold_unlock, acquire_lock, sleep, relock, pass, own, own_fails, acquire_unlock,
  release_lock, clear, wake_none, wake_one, release_unlock, System, Reach,
}
use os161_project_c.Synch.Lock.Invariant.{holds_lock, owns, is_asleep, serves, Legal, Inv}
use os161_project_c.Synch.Lock.Moves.{Reach-Inv}

-- Mutual exclusion: two threads never both have the lock, whatever they call and however they
-- interleave.
pub lock-exclusive :
    {n : ℕ} {s : System}
    → Reach n s
    → (i j : ℕ) → owns (s.pc i) ≡ true
    → owns (s.pc j) ≡ true
    → i ≡ j
lock-exclusive r i j has_i has_j =
    let inv = Reach-Inv r in ground (arith, inv.owner i has_i, inv.owner j has_j)

-- lock_do_i_hold answers whether the thread has the lock.
pub lock_do_i_hold-right :
    {n : ℕ} {s : System}
    → Reach n s
    → (i : ℕ) (q : Query) (was res : Bool) → s.pc i ≡ hold_leave q was res
    → res ≡ was
lock_do_i_hold-right r i q was res e = ground (arith, (Reach-Inv r).legal i)

abbrev pub fails : Pc → Bool
fails (misused q was) = true
fails stopped = true
fails _ = false

fails-Legal :
    (p : Pc) → fails p ≡ true → Legal p → (p ≡ misused acquires true) ⊎ (p ≡ misused releases false)
fails-Legal (misused warns was) f legal = cc
fails-Legal (misused acquires was) f legal = inl (ap (misused acquires) legal)
fails-Legal (misused releases was) f legal = inr (ap (misused releases) legal)
fails-Legal stopped f legal = cc
fails-Legal p f legal = cc

-- An assertion of the lock's code fails only on misuse: where a thread acquires the lock that it
-- has, or releases a lock that it does not have.
pub lock-misused :
    {n : ℕ} {s : System}
    → Reach n s
    → (i : ℕ) → fails (s.pc i) ≡ true
    → (s.pc i ≡ misused acquires true) ⊎ (s.pc i ≡ misused releases false)
lock-misused {s} r i f = fails-Legal (s.pc i) f ((Reach-Inv r).legal i)

abbrev pub is_client : Pc → Bool
is_client (client was) = true
is_client _ = false

pub data Enabled (i : ℕ) (s : Lock) (p : Pc) : Type 0 where
  can : {m : Lock} {p' : Pc} {woken : Option ℕ} → Move i s p m p' woken → Enabled i s p

test-Enabled : (i : ℕ) (s : Lock) (o : Option ℕ) → s.lk_owner ≡ o → Enabled i s acquire_test
test-Enabled i s none e = can (pass e)
test-Enabled i s (some j) e = can (sleep λ h. cc)

own-Enabled : (i : ℕ) (s : Lock) (o : Option ℕ) → s.lk_owner ≡ o → Enabled i s acquire_own
own-Enabled i s none e = can (own e)
own-Enabled i s (some j) e = can (own_fails λ h. cc)

wake-Enabled : (i : ℕ) (s : Lock) (l : List ℕ) → s.lk_wchan ≡ l → Enabled i s release_wake
wake-Enabled i s [] e = can (wake_none e)
wake-Enabled i s (target ∷ rest) e = can (wake_one e)

-- A thread that holds the spinlock never waits.
holds_lock-Enabled :
    (i : ℕ) (s : Lock) (p : Pc) → holds_lock p ≡ true → fails p ≡ false → Enabled i s p
holds_lock-Enabled i s (hold_read q was) h f = can hold_look
holds_lock-Enabled i s (hold_leave q was res) h f = can hold_unlock
holds_lock-Enabled i s acquire_test h f = test-Enabled i s s.lk_owner refl
holds_lock-Enabled i s acquire_own h f = own-Enabled i s s.lk_owner refl
holds_lock-Enabled i s acquire_leave h f = can acquire_unlock
holds_lock-Enabled i s release_clear h f = can clear
holds_lock-Enabled i s release_wake h f = wake-Enabled i s s.lk_wchan refl
holds_lock-Enabled i s release_leave h f = can release_unlock
holds_lock-Enabled i s p h f = absurd (ground arith)

-- With the spinlock free, a thread in a call can move unless it sleeps or has failed.
free-Enabled :
    (i : ℕ) (s : Lock) (p : Pc)
    → s.lk_lock ≡ none
    → is_client p ≡ false
    → is_asleep p ≡ false
    → fails p ≡ false
    → holds_lock p ≡ false
    → Enabled i s p
free-Enabled i s (hold_spin q was) free calls awake f h = can (hold_lock free)
free-Enabled i s acquire_spin free calls awake f h = can (acquire_lock free)
free-Enabled i s acquire_woken free calls awake f h = can (relock free)
free-Enabled i s release_spin free calls awake f h = can (release_lock free)
free-Enabled i s p free calls awake f h = absurd (ground arith)

-- Some thread that is in a call of lock_acquire or lock_release can make a step.
abbrev pub Progress : ℕ → System → Type 0
Progress n s = (i : ℕ) × (i < n) × (is_client (s.pc i) ≡ false) × Enabled i s.lock (s.pc i)

-- No deadlock inside the lock's code: while a thread is in a call and not asleep, some thread in a
-- call can make a step, unless an assertion has stopped the kernel.
pub lock_no_deadlock :
    {n : ℕ} {s : System}
    → Reach n s
    → ((i : ℕ) → fails (s.pc i) ≡ false)
    → (k : ℕ) → is_client (s.pc k) ≡ false
    → is_asleep (s.pc k) ≡ false
    → Progress n s
lock_no_deadlock {n} {s} r running k calls awake = elim (Option-cases s.lock.lk_lock) [
  | inl free ↦ elim (Bool-cases (holds_lock (s.pc k))) [
    | inl holds ↦ (k, called k calls, calls, holds_lock-Enabled k s.lock (s.pc k) holds (running k))
    | inr waits ↦ (
      k,
      called k calls,
      calls,
      free-Enabled k s.lock (s.pc k) free calls awake (running k) waits,
    )
  ]
  | inr (j, taken) ↦
      let holds = inv.held j taken in
      let inside : is_client (s.pc j) ≡ false = ground arith in
      (j, called j inside, inside, holds_lock-Enabled j s.lock (s.pc j) holds (running j))
]
  where
    inv : Inv n s.lock s.pc
    inv = Reach-Inv r

    called : (i : ℕ) → is_client (s.pc i) ≡ false → i < n
    called i h = ground (arith, inv.known i)

-- No lost wakeup: while a thread sleeps on a lock that nobody owns, some thread in a call of
-- lock_acquire or lock_release can make a step, unless an assertion has stopped the kernel.
pub lock_no_lost_wakeup :
    {n : ℕ} {s : System}
    → Reach n s
    → ((i : ℕ) → fails (s.pc i) ≡ false)
    → (k : ℕ) → s.pc k ≡ acquire_asleep
    → s.lock.lk_owner ≡ none
    → Progress n s
lock_no_lost_wakeup {n} {s} r running k sleeps free =
    let inv = Reach-Inv r in
    let (i, low, weighs) = weigh-some serves s.pc n (ground (arith, inv.served, inv.queued k)) in
    lock_no_deadlock r running i (ground arith) (ground arith)
