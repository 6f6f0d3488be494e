-- ===== src/Spinlock/Safety.antt =====
-- What holds of the processors that use one spinlock, in every reachable state.
use os161_project_c.Base.{
  ℕ, ◌+◌, ◌≡◌, refl, ◌⊎◌, inl, inr, Bool, true, false, Option, none, some, arith,
}
use os161_project_c.Spinlock.{
  Spinlock, held_by, spinlock_do_i_hold, Pc, outside, inside, deadlocked, stopped, Move,
  acquire_again, acquire_held, release_fails, release_outside, uncount_fails, System, Reach,
}
use os161_project_c.Spinlock.Invariant.{has_word, holds, counted, Reach-Inv}

-- Two processors are never both between the test-and-set that takes the spinlock and the write that
-- frees it.
pub spinlock-exclusive :
    {before : ℕ → ℕ} {s : System}
    → Reach before s
    → (i j : ℕ) → has_word (s.pc i) ≡ true
    → has_word (s.pc j) ≡ true
    → i ≡ j
spinlock-exclusive r i j has_i has_j = (Reach-Inv r).alone i j has_i has_j

held_by-holds :
    (i : ℕ) (o : Option ℕ) (h : Bool)
    → (h ≡ true → o ≡ some i)
    → (o ≡ some i → h ≡ true)
    → held_by i o ≡ h
unfolding held_by
held_by-holds i none h to from = ground arith
held_by-holds i (some j) h to from = ground arith

-- spinlock_do_i_hold answers whether the processor has the spinlock, and `c_spinlocks` counts it
-- from before it spins until it gives it back.
pub spinlock_do_i_hold-right :
    {before : ℕ → ℕ} {s : System}
    → Reach before s
    → (i : ℕ)
    → (spinlock_do_i_hold i s.splk ≡ holds (s.pc i))
      × (s.splk.c_spinlocks i ≡ before i + counted (s.pc i))
unfolding spinlock_do_i_hold
spinlock_do_i_hold-right {s} r i =
    let inv = Reach-Inv r in
    (
      held_by-holds i s.splk.splk_holder (holds (s.pc i)) (inv.holder i) (inv.held i),
      inv.count_of i,
    )

abbrev pub fails : Pc → Bool
fails deadlocked = true
fails stopped = true
fails _ = false

-- The kernel stops in spinlock_acquire only for a processor that has the spinlock, and in
-- spinlock_release only for one that has not.
pub spinlock-misused :
    {before : ℕ → ℕ} {s : System} {m : Spinlock} {p' : Pc}
    → Reach before s
    → (i : ℕ) → Move i s.splk (s.pc i) m p'
    → fails p' ≡ true
    → ((s.pc i ≡ inside) × (p' ≡ deadlocked)) ⊎ ((s.pc i ≡ outside) × (p' ≡ stopped))
spinlock-misused {s} r i mv f = failing mv refl f
  where
    open (Reach-Inv r) use {holder, held, count_of}

    failing :
        {m : Spinlock} {p p' : Pc}
        → Move i s.splk p m p'
        → s.pc i ≡ p
        → fails p' ≡ true
        → ((p ≡ inside) × (p' ≡ deadlocked)) ⊎ ((p ≡ outside) × (p' ≡ stopped))
    failing (acquire_again tst) e h = inl (refl, refl)
    failing (acquire_held tst) e h = absurd (ground (arith, held i))
    failing (release_fails tst) e h = absurd (ground (arith, holder i))
    failing (release_outside tst) e h = inr (refl, refl)
    failing (uncount_fails tst) e h = absurd (ground (arith, count_of i))
    failing mv e h = absurd (ground arith)
