-- ===== src/Synch/Lock/Moves.antt =====
-- A step of thread `i` keeps each field of the lock's invariant.
use os161_project_c.Base.{
  ℕ, ◌+◌, ◌≤◌, ◌<◌, ◌≡◌, refl, sym, ◌≢◌, ◌⊎◌, inl, Bool, true, false, Option, none, some, List, [],
  ◌∷◌, arith, update, weigh, weigh-update,
}
use os161_project_c.Base.Members.{is_member, Distinct, is_member-append, Distinct-append}
use os161_project_c.Synch.Lock.{
  Lock, is_owner, Query, warns, acquires, releases, Pc, client, acquire_woken, acquire_own,
  release_leave, after_hold, Move, hold_lock, hold_look, hold_unlock, acquire_lock, sleep, relock,
  pass, own, own_fails, release_lock, wake_none, wake_one, make_runnable, System, Turn, runs,
  created, Reach, begins, goes_on,
}
use os161_project_c.Synch.Lock.Invariant.{holds_lock, owns, is_asleep, serves, units, Legal, Inv}

-- What the code has just tested, for the clauses below that treat many steps alike.
abbrev pub Tested :
    {i : ℕ} {m m' : Lock} {p p' : Pc} {woken : Option ℕ} → Move i m p m' p' woken → Type 0
Tested {m} (hold_lock _) = m.lk_lock ≡ none
Tested {m} (acquire_lock _) = m.lk_lock ≡ none
Tested {m} (relock _) = m.lk_lock ≡ none
Tested {m} (release_lock _) = m.lk_lock ≡ none
Tested {m} (sleep _) = m.lk_owner ≢ none
Tested {m} (pass _) = m.lk_owner ≡ none
Tested {m} (own _) = m.lk_owner ≡ none
Tested {m} (own_fails _) = m.lk_owner ≢ none
Tested {m} (wake_none _) = m.lk_wchan ≡ []
Tested {m} (wake_one {target} {rest} _) = m.lk_wchan ≡ target ∷ rest
Tested _ = Unit

pub tested :
    {i : ℕ} {m m' : Lock} {p p' : Pc} {woken : Option ℕ} (mv : Move i m p m' p' woken) → Tested mv
tested (hold_lock g) = g
tested (acquire_lock g) = g
tested (relock g) = g
tested (release_lock g) = g
tested (sleep g) = g
tested (pass g) = g
tested (own g) = g
tested (own_fails g) = g
tested (wake_none g) = g
tested (wake_one g) = g
tested _ = tt

after_hold-holds_lock : (q : Query) (was res : Bool) → holds_lock (after_hold q was res) ≡ false
unfolding after_hold
after_hold-holds_lock warns was res = refl
after_hold-holds_lock acquires was true = refl
after_hold-holds_lock acquires was false = refl
after_hold-holds_lock releases was true = refl
after_hold-holds_lock releases was false = refl

-- An answer that is right leads on to a place that owns the lock as the client did.
after_hold-owns : (q : Query) (was res : Bool) → res ≡ was → owns (after_hold q was res) ≡ was
unfolding after_hold
after_hold-owns warns was res e = refl
after_hold-owns acquires was true e = refl
after_hold-owns acquires was false e = e
after_hold-owns releases was true e = e
after_hold-owns releases was false e = refl

after_hold-Legal : (q : Query) (was res : Bool) → res ≡ was → Legal (after_hold q was res)
unfolding after_hold
after_hold-Legal warns was res e = tt
after_hold-Legal acquires was true e = sym e
after_hold-Legal acquires was false e = tt
after_hold-Legal releases was true e = tt
after_hold-Legal releases was false e = sym e

after_hold-rest :
    (q : Query) (was res : Bool)
    → (is_asleep (after_hold q was res) ≡ false)
      × (serves (after_hold q was res) ≡ 0)
      × (after_hold q was res ≢ acquire_own)
unfolding after_hold
after_hold-rest warns was res = (refl, refl, λ e. cc)
after_hold-rest acquires was true = (refl, refl, λ e. cc)
after_hold-rest acquires was false = (refl, refl, λ e. cc)
after_hold-rest releases was true = (refl, refl, λ e. cc)
after_hold-rest releases was false = (refl, refl, λ e. cc)

is_owner-owns :
    (i : ℕ) (o : Option ℕ) (p : Bool)
    → (p ≡ true → o ≡ some i)
    → (o ≡ some i → p ≡ true)
    → is_owner i o ≡ p
unfolding is_owner
is_owner-owns i none p to from = ground arith
is_owner-owns i (some j) p to from = ground arith

module _ {n : ℕ} {m : Lock} {pc : ℕ → Pc} (inv : Inv n m pc) (i : ℕ) (below : i < n) where
  open inv use {holder, held, owner, owned, queued, distinct, free, legal, known, served}

  -- The thread that is woken was asleep.
  pub head-asleep :
      {target : ℕ} {rest : List ℕ} → m.lk_wchan ≡ target ∷ rest → is_asleep (pc target) ≡ true
  head-asleep {target} e = ground (arith, e, queued target)

  Move-holder :
      {p p' : Pc} {m' : Lock} {woken : Option ℕ}
      → Move i m p m' p' woken
      → pc i ≡ p
      → (j : ℕ) → holds_lock (make_runnable woken (update pc i p') j) ≡ true
      → m'.lk_lock ≡ some j
  unfolding make_runnable
  Move-holder (hold_unlock {q} {was} {res}) e j h =
      ground (arith, holder i, holder j, after_hold-holds_lock q was res)
  Move-holder (wake_one tst) e j h = ground (arith, holder i, holder j)
  Move-holder mv e j h = ground (arith, tested mv, holder i, holder j)

  Move-held :
      {p p' : Pc} {m' : Lock} {woken : Option ℕ}
      → Move i m p m' p' woken
      → pc i ≡ p
      → (j : ℕ) → m'.lk_lock ≡ some j
      → holds_lock (make_runnable woken (update pc i p') j) ≡ true
  unfolding make_runnable
  Move-held (wake_one {target} tst) e j h =
      ground (arith, held i, held j, holder i, head-asleep tst)
  Move-held mv e j h = ground (arith, tested mv, held i, held j, holder i)

  Move-owner :
      {p p' : Pc} {m' : Lock} {woken : Option ℕ}
      → Move i m p m' p' woken
      → pc i ≡ p
      → (j : ℕ) → owns (make_runnable woken (update pc i p') j) ≡ true
      → m'.lk_owner ≡ some j
  unfolding make_runnable
  Move-owner (hold_unlock {q} {was} {res}) e j h =
      ground (arith, owner i, owner j, legal i, after_hold-owns q was res)
  Move-owner (wake_one tst) e j h = ground (arith, owner i, owner j)
  Move-owner mv e j h = ground (arith, tested mv, owner i, owner j)

  Move-owned :
      {p p' : Pc} {m' : Lock} {woken : Option ℕ}
      → Move i m p m' p' woken
      → pc i ≡ p
      → (j : ℕ) → m'.lk_owner ≡ some j
      → owns (make_runnable woken (update pc i p') j) ≡ true
  unfolding make_runnable
  Move-owned (hold_unlock {q} {was} {res}) e j h =
      ground (arith, owned i, owned j, legal i, after_hold-owns q was res)
  Move-owned (wake_one tst) e j h = ground (arith, owned i, owned j, head-asleep tst)
  Move-owned mv e j h = ground (arith, tested mv, owned i, owned j, owner i)

  Move-queued :
      {p p' : Pc} {m' : Lock} {woken : Option ℕ}
      → Move i m p m' p' woken
      → pc i ≡ p
      → (j : ℕ) → is_member j m'.lk_wchan ≡ is_asleep (make_runnable woken (update pc i p') j)
  unfolding make_runnable
  Move-queued (hold_unlock {q} {was} {res}) e j =
      ground (arith, queued j, queued i, after_hold-rest q was res)
  Move-queued (sleep tst) e j = ground (arith, queued j, is_member-append j i m.lk_wchan)
  Move-queued (wake_one {target} tst) e j =
      ground (arith, tst, queued j, queued i, queued target, distinct)
  Move-queued mv e j = ground (arith, tested mv, queued i, queued j)

  Move-Distinct :
      {p p' : Pc} {m' : Lock} {woken : Option ℕ}
      → Move i m p m' p' woken
      → pc i ≡ p
      → Distinct m'.lk_wchan
  Move-Distinct (sleep tst) e = Distinct-append i m.lk_wchan (ground (arith, queued i)) distinct
  Move-Distinct (wake_one tst) e = ground (arith, tst, distinct)
  Move-Distinct mv e = ground (arith, distinct)

  Move-free :
      {p p' : Pc} {m' : Lock} {woken : Option ℕ}
      → Move i m p m' p' woken
      → pc i ≡ p
      → (j : ℕ) → make_runnable woken (update pc i p') j ≡ acquire_own
      → m'.lk_owner ≡ none
  unfolding make_runnable
  Move-free (hold_unlock {q} {was} {res}) e j h = ground (arith, free j, after_hold-rest q was res)
  Move-free (wake_one tst) e j h = ground (arith, free j)
  Move-free mv e j h = ground (arith, tested mv, free j, holder i, holder j)

  Move-Legal :
      {p p' : Pc} {m' : Lock} {woken : Option ℕ}
      → Move i m p m' p' woken
      → pc i ≡ p
      → (j : ℕ) → Legal (make_runnable woken (update pc i p') j)
  unfolding make_runnable
  Move-Legal (hold_unlock {q} {was} {res}) e j =
      ground (arith, legal i, legal j, after_hold-Legal q was res)
  Move-Legal (hold_look {q} {was}) e j =
      ground (arith, legal j, is_owner-owns i m.lk_owner was, owner i, owned i)
  Move-Legal mv e j = ground (arith, tested mv, legal j, free i)

  Move-known :
      {p p' : Pc} {m' : Lock} {woken : Option ℕ}
      → Move i m p m' p' woken
      → pc i ≡ p
      → (j : ℕ) → n ≤ j
      → make_runnable woken (update pc i p') j ≡ client false
  unfolding make_runnable
  Move-known (wake_one tst) e j a = ground (arith, known j, head-asleep tst)
  Move-known mv e j a = ground (arith, known j)

  -- The weight of the thread that moves is exchanged.
  moved :
      (p' : Pc) → serves (pc i) + weigh serves (update pc i p') n ≡ serves p' + weigh serves pc n
  moved p' = weigh-update serves pc p' {i = i} n below

  Move-served :
      {p p' : Pc} {m' : Lock} {woken : Option ℕ}
      → Move i m p m' p' woken
      → pc i ≡ p
      → (m'.lk_wchan ≡ [])
        ⊎ (units m'.lk_owner ≤ weigh serves (make_runnable woken (update pc i p')) n)
  unfolding make_runnable
  Move-served (hold_unlock {q} {was} {res}) e =
      ground (arith, served, moved (after_hold q was res), after_hold-rest q was res)
  Move-served (wake_one {target} tst) e = ground (
    arith,
    tst,
    served,
    moved release_leave,
    head-asleep tst,
    known target,
    weigh-update serves (update pc i release_leave) acquire_woken {i = target} n,
  )
  Move-served {p'} mv e = ground (arith, tested mv, served, moved p')

  pub Move-Inv :
      {p' : Pc} {m' : Lock} {woken : Option ℕ}
      → Move i m (pc i) m' p' woken
      → Inv n m' (make_runnable woken (update pc i p'))
  Move-Inv mv = record {
    holder = Move-holder mv refl;
    held = Move-held mv refl;
    owner = Move-owner mv refl;
    owned = Move-owned mv refl;
    queued = Move-queued mv refl;
    distinct = Move-Distinct mv refl;
    free = Move-free mv refl;
    legal = Move-Legal mv refl;
    known = Move-known mv refl;
    served = Move-served mv refl;
  }

created-Inv : (n : ℕ) → Inv n created.lock created.pc
created-Inv n = record {
  holder = λ i h. cc;
  held = λ i h. cc;
  owner = λ i h. cc;
  owned = λ i h. cc;
  queued = λ i. refl;
  distinct = tt;
  free = λ i h. cc;
  legal = λ i. tt;
  known = λ i a. refl;
  served = inl refl;
}

-- Every step of every thread keeps the invariant.
Turn-Inv : {n : ℕ} {s t : System} → Turn n s t → Inv n s.lock s.pc → Inv n t.lock t.pc
Turn-Inv (runs i below mv) inv = Move-Inv inv i below mv

pub Reach-Inv : {n : ℕ} {s : System} → Reach n s → Inv n s.lock s.pc
Reach-Inv {n} begins = created-Inv n
Reach-Inv (goes_on r st) = Turn-Inv st (Reach-Inv r)
