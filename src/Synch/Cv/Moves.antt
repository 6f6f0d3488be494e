-- ===== src/Synch/Cv/Moves.antt =====
-- A step of thread `i` keeps each field of the condition variable's invariant.
use mathlib.Core.List.{append_assoc}
use os161_project_c.Base.{
  ℕ, ◌≤◌, ◌<◌, ◌≡◌, refl, ◌∙◌, sym, ap, ◌≢◌, true, false, Option, none, some, List, [], ◌∷◌, ◌++◌,
  arith, update,
}
use os161_project_c.Base.Members.{is_member, Distinct, is_member-append, Distinct-append}
use os161_project_c.Synch.Lock.{is_owner}
use os161_project_c.Synch.Cv.{
  Cv, Pc, client, signal_wake, Move, acquire, call_wait, call_signal, call_broadcast, call_fails,
  wait_lock, let_go, let_go_fails, sleep, relock, reacquire, signal_lock, wake_none, wake_one,
  broadcast_lock, grab, grab_done, wake, wake_done, make_runnable, System, runs, created, Reach,
  begins, goes_on,
}
use os161_project_c.Synch.Cv.Invariant.{
  holds_lock, owns, is_asleep, drains, has_grabbed, waiting, Inv, is_owner-some, some-is_owner,
}

-- What the code has just tested, for the clauses below that treat many steps alike.
abbrev pub Tested :
    {i : ℕ} {m m' : Cv} {p p' : Pc} {woken : Option ℕ} → Move i m p m' p' woken → Type 0
Tested {m} (acquire _) = m.lk_owner ≡ none
Tested {m} (reacquire _) = m.lk_owner ≡ none
Tested {i} {m} (call_wait _) = m.lk_owner ≡ some i
Tested {i} {m} (call_signal _) = m.lk_owner ≡ some i
Tested {i} {m} (call_broadcast _) = m.lk_owner ≡ some i
Tested {i} {m} (call_fails _) = m.lk_owner ≢ some i
Tested {i} {m} (let_go _) = m.lk_owner ≡ some i
Tested {i} {m} (let_go_fails _) = m.lk_owner ≢ some i
Tested {m} (wait_lock _) = m.cv_lock ≡ none
Tested {m} (relock _) = m.cv_lock ≡ none
Tested {m} (signal_lock _) = m.cv_lock ≡ none
Tested {m} (broadcast_lock _) = m.cv_lock ≡ none
Tested {m} (wake_none _) = m.cv_wchan ≡ []
Tested {m} (wake_one {target} {rest} _) = m.cv_wchan ≡ target ∷ rest
Tested {m} (grab {target} {rest} _) = m.cv_wchan ≡ target ∷ rest
Tested {m} (grab_done _) = m.cv_wchan ≡ []
Tested {m} (wake {target} {rest} _) = m.private_list ≡ target ∷ rest
Tested {m} (wake_done _) = m.private_list ≡ []
Tested _ = Unit

not_owner : (i : ℕ) (o : Option ℕ) → is_owner i o ≡ false → o ≢ some i
not_owner i o h e = ground (arith, some-is_owner i o e)

pub tested :
    {i : ℕ} {m m' : Cv} {p p' : Pc} {woken : Option ℕ} (mv : Move i m p m' p' woken) → Tested mv
tested (acquire g) = g
tested (reacquire g) = g
tested {i} {m} (call_wait g) = is_owner-some i m.lk_owner g
tested {i} {m} (call_signal g) = is_owner-some i m.lk_owner g
tested {i} {m} (call_broadcast g) = is_owner-some i m.lk_owner g
tested {i} {m} (call_fails g) = not_owner i m.lk_owner g
tested {i} {m} (let_go g) = is_owner-some i m.lk_owner g
tested {i} {m} (let_go_fails g) = not_owner i m.lk_owner g
tested (wait_lock g) = g
tested (relock g) = g
tested (signal_lock g) = g
tested (broadcast_lock g) = g
tested (wake_none g) = g
tested (wake_one g) = g
tested (grab g) = g
tested (grab_done g) = g
tested (wake g) = g
tested (wake_done g) = g
tested _ = tt

module _ {n : ℕ} {m : Cv} {pc : ℕ → Pc} (inv : Inv n m pc) (i : ℕ) where
  open inv use {
    holder, held, owner, owned, queued, distinct, free_empty, held_empty, grabbed, known,
  }

  -- What a step leaves of the threads to be woken, where it changes their lists.
  grab-waiting :
      {target : ℕ} {rest : List ℕ}
      → m.cv_wchan ≡ target ∷ rest
      → (m.private_list ++ (target ∷ [])) ++ rest ≡ waiting m
  grab-waiting {target} {rest} e =
      append_assoc m.private_list (target ∷ []) rest ∙ ap (λ l. m.private_list ++ l) (sym e)

  sleep-waiting : m.private_list ++ (m.cv_wchan ++ (i ∷ [])) ≡ waiting m ++ (i ∷ [])
  sleep-waiting = sym (append_assoc m.private_list m.cv_wchan (i ∷ []))

  wake_one-waiting :
      {target : ℕ} {rest : List ℕ}
      → pc i ≡ signal_wake
      → m.cv_wchan ≡ target ∷ rest
      → (waiting m ≡ target ∷ rest) × (m.private_list ++ rest ≡ rest)
  wake_one-waiting e tst =
      let none_private : m.private_list ≡ [] = held_empty i (ground arith) (ground arith) in
      (rw (none_private) tst, rw none_private refl)

  wake-waiting :
      {target : ℕ} {rest : List ℕ}
      → m.private_list ≡ target ∷ rest
      → waiting m ≡ target ∷ (rest ++ m.cv_wchan)
  wake-waiting tst = rw tst refl

  -- The thread that is woken was asleep.
  head-asleep :
      {target : ℕ} {rest : List ℕ} → waiting m ≡ target ∷ rest → is_asleep (pc target) ≡ true
  head-asleep {target} e = ground (arith, e, queued target)

  woken-asleep :
      {p p' : Pc} {m' : Cv} {target : ℕ}
      → Move i m p m' p' (some target)
      → pc i ≡ p
      → is_asleep (pc target) ≡ true
  woken-asleep (wake_one tst) e = head-asleep (wake_one-waiting e tst).0
  woken-asleep (wake tst) e = head-asleep (wake-waiting tst)

  Move-holder :
      {p p' : Pc} {m' : Cv} {woken : Option ℕ}
      → Move i m p m' p' woken
      → pc i ≡ p
      → (j : ℕ) → holds_lock (make_runnable woken (update pc i p') j) ≡ true
      → m'.cv_lock ≡ some j
  unfolding make_runnable
  Move-holder (wake tst) e j h = ground (arith, holder i, holder j)
  Move-holder mv e j h = ground (arith, tested mv, holder i, holder j)

  Move-held :
      {p p' : Pc} {m' : Cv} {woken : Option ℕ}
      → Move i m p m' p' woken
      → pc i ≡ p
      → (j : ℕ) → m'.cv_lock ≡ some j
      → holds_lock (make_runnable woken (update pc i p') j) ≡ true
  unfolding make_runnable
  Move-held (wake tst) e j h = ground (arith, held i, held j, holder i, woken-asleep (wake tst) e)
  Move-held (wake_one tst) e j h =
      ground (arith, held i, held j, holder i, woken-asleep (wake_one tst) e)
  Move-held mv e j h = ground (arith, tested mv, held i, held j, holder i, owner i)

  Move-owner :
      {p p' : Pc} {m' : Cv} {woken : Option ℕ}
      → Move i m p m' p' woken
      → pc i ≡ p
      → (j : ℕ) → owns (make_runnable woken (update pc i p') j) ≡ true
      → m'.lk_owner ≡ some j
  unfolding make_runnable
  Move-owner (wake tst) e j h = ground (arith, owner i, owner j)
  Move-owner mv e j h = ground (arith, tested mv, owner i, owner j)

  Move-owned :
      {p p' : Pc} {m' : Cv} {woken : Option ℕ}
      → Move i m p m' p' woken
      → pc i ≡ p
      → (j : ℕ) → m'.lk_owner ≡ some j
      → owns (make_runnable woken (update pc i p') j) ≡ true
  unfolding make_runnable
  Move-owned (wake tst) e j h = ground (arith, owned i, owned j, woken-asleep (wake tst) e)
  Move-owned (wake_one tst) e j h = ground (arith, owned i, owned j, woken-asleep (wake_one tst) e)
  Move-owned mv e j h = ground (arith, tested mv, owned i, owned j, owner i)

  Move-queued :
      {p p' : Pc} {m' : Cv} {woken : Option ℕ}
      → Move i m p m' p' woken
      → pc i ≡ p
      → (j : ℕ) → is_member j (waiting m') ≡ is_asleep (make_runnable woken (update pc i p') j)
  unfolding make_runnable
  Move-queued sleep e j =
      rw sleep-waiting (ground (arith, queued j, is_member-append j i (waiting m)))
  Move-queued (grab tst) e j = rw (grab-waiting tst) (ground (arith, queued j, queued i))
  Move-queued (wake_one {target} {rest} tst) e j = rw ((wake_one-waiting e tst).1) (
      ground (
        arith,
        (wake_one-waiting e tst).0,
        queued j,
        queued i,
        distinct,
        woken-asleep (wake_one tst) e,
      ))
  Move-queued (wake {target} {rest} tst) e j =
      ground (arith, wake-waiting tst, queued j, queued i, distinct, woken-asleep (wake tst) e)
  Move-queued mv e j = ground (arith, tested mv, queued i, queued j)

  Move-Distinct :
      {p p' : Pc} {m' : Cv} {woken : Option ℕ}
      → Move i m p m' p' woken
      → pc i ≡ p
      → Distinct (waiting m')
  Move-Distinct sleep e =
      rw sleep-waiting (Distinct-append i (waiting m) (ground (arith, queued i)) distinct)
  Move-Distinct (grab tst) e = rw (grab-waiting tst) distinct
  Move-Distinct (wake_one tst) e =
      rw ((wake_one-waiting e tst).1) (ground (arith, (wake_one-waiting e tst).0, distinct))
  Move-Distinct (wake tst) e = ground (arith, wake-waiting tst, distinct)
  Move-Distinct mv e = ground (arith, distinct)

  Move-empty :
      {p p' : Pc} {m' : Cv} {woken : Option ℕ}
      → Move i m p m' p' woken
      → pc i ≡ p
      → m'.cv_lock ≡ none
      → m'.private_list ≡ []
  Move-empty (wake tst) e h = ground (arith, free_empty, held_empty i, holder i)
  Move-empty mv e h = ground (arith, tested mv, free_empty, held_empty i, holder i)

  Move-held_empty :
      {p p' : Pc} {m' : Cv} {woken : Option ℕ}
      → Move i m p m' p' woken
      → pc i ≡ p
      → (j : ℕ) → holds_lock (make_runnable woken (update pc i p') j) ≡ true
      → drains (make_runnable woken (update pc i p') j) ≡ false
      → m'.private_list ≡ []
  unfolding make_runnable
  Move-held_empty (wake tst) e j h d = ground (arith, held_empty j, holder i, holder j)
  Move-held_empty mv e j h d =
      ground (arith, tested mv, free_empty, held_empty i, held_empty j, holder i, holder j)

  Move-grabbed :
      {p p' : Pc} {m' : Cv} {woken : Option ℕ}
      → Move i m p m' p' woken
      → pc i ≡ p
      → (j : ℕ) → has_grabbed (make_runnable woken (update pc i p') j) ≡ true
      → m'.cv_wchan ≡ []
  unfolding make_runnable
  Move-grabbed (wake tst) e j h = ground (arith, grabbed i, grabbed j)
  Move-grabbed mv e j h = ground (arith, tested mv, grabbed i, grabbed j, holder i, holder j)

  Move-known :
      {p p' : Pc} {m' : Cv} {woken : Option ℕ}
      → Move i m p m' p' woken
      → pc i ≡ p
      → i < n
      → (j : ℕ) → n ≤ j
      → make_runnable woken (update pc i p') j ≡ client false
  unfolding make_runnable
  Move-known (wake tst) e b j a = ground (arith, known j, woken-asleep (wake tst) e)
  Move-known (wake_one tst) e b j a = ground (arith, known j, woken-asleep (wake_one tst) e)
  Move-known mv e b j a = ground (arith, known j)

  pub Move-Inv :
      {p' : Pc} {m' : Cv} {woken : Option ℕ}
      → Move i m (pc i) m' p' woken
      → i < n
      → Inv n m' (make_runnable woken (update pc i p'))
  Move-Inv mv below = record {
    holder = Move-holder mv refl;
    held = Move-held mv refl;
    owner = Move-owner mv refl;
    owned = Move-owned mv refl;
    queued = Move-queued mv refl;
    distinct = Move-Distinct mv refl;
    free_empty = Move-empty mv refl;
    held_empty = Move-held_empty mv refl;
    grabbed = Move-grabbed mv refl;
    known = Move-known mv refl below;
  }

created-Inv : (n : ℕ) → Inv n created.cv created.pc
created-Inv n = record {
  holder = λ i h. cc;
  held = λ i h. cc;
  owner = λ i h. cc;
  owned = λ i h. cc;
  queued = λ i. refl;
  distinct = tt;
  free_empty = λ h. refl;
  held_empty = λ i h d. refl;
  grabbed = λ i h. refl;
  known = λ i a. refl;
}

pub Reach-Inv : {n : ℕ} {s : System} → Reach n s → Inv n s.cv s.pc
Reach-Inv {n} begins = created-Inv n
Reach-Inv (goes_on r (runs i below mv)) = Move-Inv (Reach-Inv r) i mv below
