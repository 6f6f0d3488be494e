-- ===== src/Synch/Semaphore/Moves.antt =====
-- A step of thread `i` keeps each field of the semaphore's invariant.
use os161_project_c.Base.{
  ℕ, ◌+◌, ◌^◌, ◌≤◌, ◌<◌, ◌≡◌, refl, ◌≢◌, ◌⊎◌, inl, true, Option, none, some, List, [], ◌∷◌, arith,
  update, weigh, weigh-update,
}
use os161_project_c.Synch.Semaphore.{
  Semaphore, Pc, outside, p_woken, p_take, v_wake, v_leave, Move, p_lock, sleep, relock, pass, take,
  take_fails, v_lock, add_holds, add_fails, wake_none, wake_one, make_runnable, System, Turn, runs,
  created, Reach, begins, goes_on,
}
use os161_project_c.Synch.Semaphore.Invariant.{holds_lock, is_asleep, serves, Inv}
use os161_project_c.Base.Members.{is_member, Distinct, is_member-append, Distinct-append}

-- What the code has just tested, for the clauses below that treat many steps alike.
abbrev pub Tested :
    {i : ℕ} {m m' : Semaphore} {p p' : Pc} {woken : Option ℕ} → Move i m p m' p' woken → Type 0
Tested {m} (p_lock _) = m.sem_lock ≡ none
Tested {m} (relock _) = m.sem_lock ≡ none
Tested {m} (v_lock _) = m.sem_lock ≡ none
Tested {m} (sleep _) = m.sem_count ≡ 0
Tested {m} (take_fails _) = m.sem_count ≡ 0
Tested {m} (add_fails _) = m.sem_count ≡ 0
Tested {m} (pass _) = m.sem_count ≢ 0
Tested {m} (take _) = 0 < m.sem_count
Tested {m} (add_holds _) = 0 < m.sem_count
Tested {m} (wake_none _) = m.sem_wchan ≡ []
Tested {m} (wake_one {target} {rest} _) = m.sem_wchan ≡ target ∷ rest
Tested _ = Unit

pub tested :
    {i : ℕ} {m m' : Semaphore} {p p' : Pc} {woken : Option ℕ} (mv : Move i m p m' p' woken)
    → Tested mv
tested (p_lock g) = g
tested (relock g) = g
tested (v_lock g) = g
tested (sleep g) = g
tested (take_fails g) = g
tested (add_fails g) = g
tested (pass g) = g
tested (take g) = g
tested (add_holds g) = g
tested (wake_none g) = g
tested (wake_one g) = g
tested _ = tt

module _ {n : ℕ} {m : Semaphore} {pc : ℕ → Pc} (inv : Inv n m pc) (i : ℕ) (below : i < n) where
  open inv use {holder, held, queued, distinct, passed, raised, fits, known, served}

  -- The thread that is woken was asleep, on the channel, and is not the one that wakes it.
  pub head-asleep :
      {target : ℕ} {rest : List ℕ} → m.sem_wchan ≡ target ∷ rest → is_asleep (pc target) ≡ true
  head-asleep {target} e = ground (arith, e, queued target)

  Move-holder :
      {p p' : Pc} {m' : Semaphore} {woken : Option ℕ}
      → Move i m p m' p' woken
      → pc i ≡ p
      → (j : ℕ) → holds_lock (make_runnable woken (update pc i p') j) ≡ true
      → m'.sem_lock ≡ some j
  unfolding make_runnable
  Move-holder (wake_one tst) e j h = ground (arith, holder i, holder j)
  Move-holder mv e j h = ground (arith, tested mv, holder i, holder j)

  Move-held :
      {p p' : Pc} {m' : Semaphore} {woken : Option ℕ}
      → Move i m p m' p' woken
      → pc i ≡ p
      → (j : ℕ) → m'.sem_lock ≡ some j
      → holds_lock (make_runnable woken (update pc i p') j) ≡ true
  unfolding make_runnable
  Move-held (wake_one {target} tst) e j h =
      ground (arith, held i, held j, holder i, head-asleep tst)
  Move-held mv e j h = ground (arith, tested mv, held i, held j, holder i)

  Move-queued :
      {p p' : Pc} {m' : Semaphore} {woken : Option ℕ}
      → Move i m p m' p' woken
      → pc i ≡ p
      → (j : ℕ) → is_member j m'.sem_wchan ≡ is_asleep (make_runnable woken (update pc i p') j)
  unfolding make_runnable
  Move-queued (sleep tst) e j = ground (arith, queued j, is_member-append j i m.sem_wchan)
  Move-queued (wake_one {target} tst) e j =
      ground (arith, tst, queued j, queued i, queued target, distinct)
  Move-queued mv e j = ground (arith, tested mv, queued i, queued j)

  Move-Distinct :
      {p p' : Pc} {m' : Semaphore} {woken : Option ℕ}
      → Move i m p m' p' woken
      → pc i ≡ p
      → Distinct m'.sem_wchan
  Move-Distinct (sleep tst) e = Distinct-append i m.sem_wchan (ground (arith, queued i)) distinct
  Move-Distinct (wake_one tst) e = ground (arith, tst, distinct)
  Move-Distinct mv e = ground (arith, distinct)

  Move-counts :
      {p p' : Pc} {m' : Semaphore} {woken : Option ℕ} → Move i m p m' p' woken → pc i ≡ p → record {
        passed : (j : ℕ) → make_runnable woken (update pc i p') j ≡ p_take → 0 < m'.sem_count;
        raised : (j : ℕ) → make_runnable woken (update pc i p') j ≡ v_wake → 0 < m'.sem_count;
        fits : m'.sem_count < 2 ^ 32;
        known : (j : ℕ) → n ≤ j → make_runnable woken (update pc i p') j ≡ outside;
      }
  unfolding make_runnable
  Move-counts (wake_one {target} tst) e = record {
    passed = λ j h. ground (arith, passed j, raised i);
    raised = λ j h. ground (arith, raised j, raised i);
    fits = fits;
    known = λ j a. ground (arith, known j, head-asleep tst);
  }
  Move-counts mv e = record {
    passed = λ j h. ground (arith, tested mv, passed j, passed i, holder i, holder j);
    raised = λ j h. ground (arith, tested mv, raised j, raised i, holder i, holder j);
    fits = ground (arith, fits);
    known = λ j a. ground (arith, known j, known i);
  }

  -- The weight of the thread that moves is exchanged.
  moved :
      (p' : Pc) → serves (pc i) + weigh serves (update pc i p') n ≡ serves p' + weigh serves pc n
  moved p' = weigh-update serves pc p' {i = i} n below

  Move-served :
      {p p' : Pc} {m' : Semaphore} {woken : Option ℕ}
      → Move i m p m' p' woken
      → pc i ≡ p
      → (m'.sem_wchan ≡ []) ⊎ (m'.sem_count ≤ weigh serves (make_runnable woken (update pc i p')) n)
  unfolding make_runnable
  Move-served (wake_one {target} tst) e = ground (
    arith,
    tst,
    served,
    moved v_leave,
    head-asleep tst,
    known target,
    weigh-update serves (update pc i v_leave) p_woken {i = target} n,
  )
  Move-served {p'} mv e = ground (arith, tested mv, served, moved p')

  pub Move-Inv :
      {p' : Pc} {m' : Semaphore} {woken : Option ℕ}
      → Move i m (pc i) m' p' woken
      → Inv n m' (make_runnable woken (update pc i p'))
  Move-Inv mv = record {
    holder = Move-holder mv refl;
    held = Move-held mv refl;
    queued = Move-queued mv refl;
    distinct = Move-Distinct mv refl;
    passed = passed';
    raised = raised';
    fits = fits';
    known = known';
    served = Move-served mv refl;
  }
    where
      open (Move-counts mv refl) use {
        passed as passed', raised as raised', fits as fits', known as known',
      }

created-Inv : (n count : ℕ) → count < 2 ^ 32 → Inv n (created count).sem (created count).pc
created-Inv n count fits = record {
  holder = λ i h. cc;
  held = λ i h. cc;
  queued = λ i. refl;
  distinct = tt;
  passed = λ i h. cc;
  raised = λ i h. cc;
  fits = fits;
  known = λ i a. refl;
  served = inl refl;
}

-- Every step of every thread keeps the invariant.
pub Turn-Inv : {n : ℕ} {s t : System} → Turn n s t → Inv n s.sem s.pc → Inv n t.sem t.pc
Turn-Inv (runs i below mv) inv = Move-Inv inv i below mv

pub Reach-Inv : {n count : ℕ} {s : System} → count < 2 ^ 32 → Reach n count s → Inv n s.sem s.pc
Reach-Inv {n} {count} small begins = created-Inv n count small
Reach-Inv small (goes_on r st) = Turn-Inv st (Reach-Inv small r)
