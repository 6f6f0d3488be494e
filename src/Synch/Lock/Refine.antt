-- ===== src/Synch/Lock/Refine.antt =====
-- The lock implements the lock that synch.h promises: an owner that changes hands through nobody.
use os161_project_c.Base.{ℕ, ◌≡◌, refl, Option, none, some, List, [], ◌∷◌, arith}
use os161_project_c.Synch.Lock.{Lock, Pc, Move, own, clear, System, runs, Reach, begins, goes_on}
use os161_project_c.Synch.Lock.Invariant.{Inv}
use os161_project_c.Synch.Lock.Moves.{Reach-Inv}

pub data Event : Type 0 where
  acquired : ℕ → Event
  released : ℕ → Event

-- The histories that a lock may have, the last event first, and the owner after each.
pub data Spec : List Event → Option ℕ → Type 0 where
  unused : Spec [] none
  acquires : {h : List Event} (i : ℕ) → Spec h none → Spec (acquired i ∷ h) (some i)
  releases : {h : List Event} (i : ℕ) → Spec h (some i) → Spec (released i ∷ h) none

-- What a step adds to the history: lock_acquire takes effect where it sets the owner, and
-- lock_release where it clears it.
abbrev record_move :
    {i : ℕ} {m m' : Lock} {p p' : Pc} {woken : Option ℕ}
    → Move i m p m' p' woken
    → List Event
    → List Event
record_move {i} (own _) h = acquired i ∷ h
record_move {i} clear h = released i ∷ h
record_move _ h = h

unfoldable pub history : {n : ℕ} {s : System} → Reach n s → List Event
history begins = []
history (goes_on r (runs i below mv)) = record_move mv (history r)

Move-Spec :
    {n : ℕ} {m : Lock} {pc : ℕ → Pc} (inv : Inv n m pc) (i : ℕ) {p p' : Pc} {m' : Lock}
    {woken : Option ℕ} (mv : Move i m p m' p' woken) (h : List Event)
    → pc i ≡ p
    → Spec h m.lk_owner
    → Spec (record_move mv h) m'.lk_owner
Move-Spec {m} inv i (own tst) h e sp = acquires i (rw (← tst) sp)
Move-Spec {m} inv i clear h e sp =
    let has : m.lk_owner ≡ some i = ground (arith, inv.owner i) in releases i (rw (← has) sp)
Move-Spec inv i mv h e sp = sp

-- Every run of the lock has a history of the specification, with the owner that it gives: each
-- acquisition finds the lock free, and each release is by the thread that acquired it last.
pub lock-Spec : {n : ℕ} {s : System} (r : Reach n s) → Spec (history r) s.lock.lk_owner
unfolding history
lock-Spec begins = unused
lock-Spec (goes_on r (runs i below mv)) =
    Move-Spec (Reach-Inv r) i mv (history r) refl (lock-Spec r)
