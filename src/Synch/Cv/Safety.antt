-- ===== src/Synch/Cv/Safety.antt =====
-- What holds of the threads that use one condition variable with its lock, in every reachable state.
use os161_project_c.Base.{
  ℕ, ◌≡◌, refl, ◌⊎◌, inl, inr, Bool, true, false, Option, none, List, [], ◌∷◌, arith, Option-cases,
}
use os161_project_c.Base.Members.{is_member}
use os161_project_c.Synch.Cv.{
  Cv, Pc, client, wait_spin, wait_release, wait_sleep, wait_asleep, wait_woken, wait_leave,
  signal_spin, signal_wake, signal_leave, broadcast_spin, broadcast_grab, broadcast_wake,
  broadcast_leave, stopped, Move, call_fails, wait_lock, let_go, let_go_fails, sleep, relock,
  wait_unlock, signal_lock, wake_none, wake_one, signal_unlock, broadcast_lock, grab, grab_done,
  wake, wake_done, broadcast_unlock, System, Reach,
}
use os161_project_c.Synch.Cv.Invariant.{holds_lock, owns, waiting, Inv, some-is_owner}
use os161_project_c.Synch.Cv.Moves.{tested, Reach-Inv}

-- cv_wait keeps mutual exclusion: two threads never both have the lock, those that have come back
-- from cv_wait included.
pub cv_wait-exclusive :
    {n : ℕ} {s : System}
    → Reach n s
    → (i j : ℕ) → owns (s.pc i) ≡ true
    → owns (s.pc j) ≡ true
    → i ≡ j
cv_wait-exclusive r i j has_i has_j =
    let inv = Reach-Inv r in ground (arith, inv.owner i has_i, inv.owner j has_j)

-- A thread that has given back the lock in cv_wait and was not woken since.
abbrev pub in_wait : Pc → Bool
in_wait wait_sleep = true
in_wait wait_asleep = true
in_wait _ = false

-- cv_wait gives back the lock and goes to sleep as one act: when cv_signal wakes a thread, every
-- thread that has given back the lock in cv_wait and was not woken since is on the channel, so no
-- signal is lost.
pub cv_signal-finds :
    {n : ℕ} {s : System}
    → Reach n s
    → (i j : ℕ) → s.pc j ≡ signal_wake
    → in_wait (s.pc i) ≡ true
    → is_member i s.cv.cv_wchan ≡ true
cv_signal-finds {s} r i j signals waits = rw (on_wchan) asleep
  where
    open (Reach-Inv r) use {holder, queued, held_empty}

    none_private : s.cv.private_list ≡ []
    none_private = held_empty j (ground arith) (ground arith)

    on_wchan : s.cv.cv_wchan ≡ waiting s.cv
    on_wchan = rw none_private refl

    asleep : is_member i (waiting s.cv) ≡ true
    asleep = ground (arith, queued i, holder i, holder j)

-- cv_broadcast has woken every thread that had given back the lock in cv_wait, when it gives back
-- its spinlock.
pub cv_broadcast-wakes :
    {n : ℕ} {s : System}
    → Reach n s
    → (i j : ℕ) → s.pc j ≡ broadcast_leave
    → in_wait (s.pc i) ≡ false
cv_broadcast-wakes {s} r i j ends =
    ground (arith, queued i, holder i, holder j, grabbed j, held_empty j)
  where
    open (Reach-Inv r) use {holder, queued, held_empty, grabbed}

-- An assertion of cv_wait, cv_signal or cv_broadcast fails only for a caller that has not the lock.
pub cv-misused :
    {n : ℕ} {s : System} {m : Cv} {woken : Option ℕ}
    → Reach n s
    → (i : ℕ) → Move i s.cv (s.pc i) m stopped woken
    → s.pc i ≡ client false
cv-misused {s} r i mv = failing mv refl refl
  where
    open (Reach-Inv r) use {owner}

    failing :
        {m : Cv} {p p' : Pc} {woken : Option ℕ}
        → Move i s.cv p m p' woken
        → s.pc i ≡ p
        → p' ≡ stopped
        → p ≡ client false
    failing (call_fails {was} tst) e h =
        ground (arith, tested (call_fails {was = was} tst), owner i)
    failing (let_go_fails tst) e h = ground (arith, tested (let_go_fails tst), owner i)
    failing mv e h = absurd (ground arith)

pub data Enabled (i : ℕ) (s : Cv) (p : Pc) : Type 0 where
  can : {m : Cv} {p' : Pc} {woken : Option ℕ} → Move i s p m p' woken → Enabled i s p

-- The steps that look at a list.
signal-Enabled : (i : ℕ) (s : Cv) (l : List ℕ) → s.cv_wchan ≡ l → Enabled i s signal_wake
signal-Enabled i s [] e = can (wake_none e)
signal-Enabled i s (target ∷ rest) e = can (wake_one e)

grab-Enabled : (i : ℕ) (s : Cv) (l : List ℕ) → s.cv_wchan ≡ l → Enabled i s broadcast_grab
grab-Enabled i s [] e = can (grab_done e)
grab-Enabled i s (target ∷ rest) e = can (grab e)

wake-Enabled : (i : ℕ) (s : Cv) (l : List ℕ) → s.private_list ≡ l → Enabled i s broadcast_wake
wake-Enabled i s [] e = can (wake_done e)
wake-Enabled i s (target ∷ rest) e = can (wake e)

-- A thread that holds the spinlock never waits, since the one in cv_wait has the lock.
holds_lock-Enabled :
    {n : ℕ} {s : System}
    → Inv n s.cv s.pc
    → (i : ℕ) (p : Pc) → s.pc i ≡ p
    → holds_lock p ≡ true
    → Enabled i s.cv p
holds_lock-Enabled {s} inv i wait_release e h =
    can (let_go (some-is_owner i s.cv.lk_owner (inv.owner i (ground arith))))
holds_lock-Enabled inv i wait_sleep e h = can sleep
holds_lock-Enabled inv i wait_leave e h = can wait_unlock
holds_lock-Enabled {s} inv i signal_wake e h = signal-Enabled i s.cv s.cv.cv_wchan refl
holds_lock-Enabled inv i signal_leave e h = can signal_unlock
holds_lock-Enabled {s} inv i broadcast_grab e h = grab-Enabled i s.cv s.cv.cv_wchan refl
holds_lock-Enabled {s} inv i broadcast_wake e h = wake-Enabled i s.cv s.cv.private_list refl
holds_lock-Enabled inv i broadcast_leave e h = can broadcast_unlock
holds_lock-Enabled inv i p e h = absurd (ground arith)

-- Before a spinlock_acquire.
abbrev pub spins : Pc → Bool
spins wait_spin = true
spins wait_woken = true
spins signal_spin = true
spins broadcast_spin = true
spins _ = false

spins-Enabled : (i : ℕ) (s : Cv) (p : Pc) → s.cv_lock ≡ none → spins p ≡ true → Enabled i s p
spins-Enabled i s wait_spin free h = can (wait_lock free)
spins-Enabled i s wait_woken free h = can (relock free)
spins-Enabled i s signal_spin free h = can (signal_lock free)
spins-Enabled i s broadcast_spin free h = can (broadcast_lock free)
spins-Enabled i s p free h = absurd (ground arith)

-- The spinlock of a condition variable never deadlocks: while a thread spins for it, that thread
-- or the one that holds it can make a step.
pub cv_no_deadlock :
    {n : ℕ} {s : System}
    → Reach n s
    → (k : ℕ) → spins (s.pc k) ≡ true
    → (i : ℕ) × ((i ≡ k) ⊎ (holds_lock (s.pc i) ≡ true)) × Enabled i s.cv (s.pc i)
cv_no_deadlock {s} r k h = elim (Option-cases s.cv.cv_lock) [
  | inl free ↦ (k, inl refl, spins-Enabled k s.cv (s.pc k) free h)
  | inr (j, taken) ↦
      let holds = (Reach-Inv r).held j taken in
      (j, inr holds, holds_lock-Enabled (Reach-Inv r) j (s.pc j) refl holds)
]
