-- ===== src/Synch/Lock.antt =====
-- The lock of kern/thread/synch.c, in the form that the kernel compiles: a wait channel and an
-- owner under a spinlock (USE_SEMAPHORE_FOR_LOCK is 0). lock_do_i_hold is a routine of its own, run
-- by lock_acquire (twice) and by lock_release, and every access to the lock is a step.
pub mod Invariant
pub mod Moves
pub mod Safety
pub mod Refine
mod Tests
use os161_project_c.Base.{
  ℕ, ◌<◌, ◌≡◌, ◌≢◌, Bool, true, false, Option, none, some, List, [], ◌∷◌, ◌++◌, ◌==◌, update,
}

-- `struct lock`, with the threads on its wait channel in their order
pub record Lock : Type 0 where
  pub lk_wchan : List ℕ
  pub lk_lock : Option ℕ
  pub lk_owner : Option ℕ

abbrev pub new_lock : Lock
new_lock = record { lk_wchan = []; lk_lock = none; lk_owner = none }

-- Memory for the lock, its name and its wait channel is asked for in this order.
unfoldable pub lock_create : (lock_mem name_mem wchan_mem : Bool) → Option Lock
lock_create false name_mem wchan_mem = none
lock_create true false wchan_mem = none
lock_create true true false = none
lock_create true true true = some new_lock

-- `lk_owner == curthread`
unfoldable pub is_owner : ℕ → Option ℕ → Bool
is_owner i none = false
is_owner i (some j) = i == j

-- The places that call lock_do_i_hold.
pub data Query : Type 0 where
  warns : Query  -- the `if` of lock_acquire
  acquires : Query  -- the assertion of lock_acquire
  releases : Query  -- the assertion of lock_release

-- Where a thread stands with respect to the lock. `was` says whether it has the lock: whether its
-- last call that returned was lock_acquire.
pub data Pc : Type 0 where
  client : (was : Bool) → Pc
  hold_spin : Query → (was : Bool) → Pc
  hold_read : Query → (was : Bool) → Pc
  hold_leave : Query → (was res : Bool) → Pc
  acquire_spin : Pc
  acquire_test : Pc  -- the test of the `while`
  acquire_asleep : Pc  -- in `thread_switch`, on the wait channel
  acquire_woken : Pc  -- runnable again, before the `spinlock_acquire` of `wchan_sleep`
  acquire_own : Pc  -- behind the loop
  acquire_leave : Pc
  release_spin : Pc
  release_clear : Pc
  release_wake : Pc
  release_leave : Pc
  misused : Query → (was : Bool) → Pc  -- an assertion on lock_do_i_hold has failed
  stopped : Pc  -- the assertion on the owner has failed

-- What follows lock_do_i_hold.
unfoldable pub after_hold : Query → (was res : Bool) → Pc
after_hold warns was res = hold_spin acquires was
after_hold acquires was true = misused acquires was
after_hold acquires was false = acquire_spin
after_hold releases was true = release_spin
after_hold releases was false = misused releases was

-- One step of thread `i`, and the thread that it makes runnable. A client may call either routine
-- whether it has the lock or not.
pub data Move (i : ℕ) (s : Lock) : Pc → Lock → Pc → Option ℕ → Type 0 where
  call_acquire : {was : Bool} → Move i s (client was) s (hold_spin warns was) none
  call_release : {was : Bool} → Move i s (client was) s (hold_spin releases was) none
  hold_lock :
      {q : Query} {was : Bool}
      → s.lk_lock ≡ none
      → Move i s (hold_spin q was) (record s { lk_lock = some i }) (hold_read q was) none
  hold_look :
      {q : Query} {was : Bool}
      → Move i s (hold_read q was) s (hold_leave q was (is_owner i s.lk_owner)) none
  hold_unlock :
      {q : Query} {was res : Bool}
      → Move i s (hold_leave q was res) (record s { lk_lock = none }) (after_hold q was res) none
  acquire_lock :
      s.lk_lock ≡ none → Move i s acquire_spin (record s { lk_lock = some i }) acquire_test none
  sleep :
      s.lk_owner ≢ none
      → Move i s acquire_test
          (record s { lk_wchan = s.lk_wchan ++ (i ∷ []); lk_lock = none })
          acquire_asleep
          none
  relock :
      s.lk_lock ≡ none → Move i s acquire_woken (record s { lk_lock = some i }) acquire_test none
  pass : s.lk_owner ≡ none → Move i s acquire_test s acquire_own none
  own : s.lk_owner ≡ none → Move i s acquire_own (record s { lk_owner = some i }) acquire_leave none
  own_fails : s.lk_owner ≢ none → Move i s acquire_own s stopped none
  acquire_unlock : Move i s acquire_leave (record s { lk_lock = none }) (client true) none
  release_lock :
      s.lk_lock ≡ none → Move i s release_spin (record s { lk_lock = some i }) release_clear none
  clear : Move i s release_clear (record s { lk_owner = none }) release_wake none
  wake_none : s.lk_wchan ≡ [] → Move i s release_wake s release_leave none
  wake_one :
      {target : ℕ} {rest : List ℕ}
      → s.lk_wchan ≡ target ∷ rest
      → Move i s release_wake (record s { lk_wchan = rest }) release_leave (some target)
  release_unlock : Move i s release_leave (record s { lk_lock = none }) (client false) none

-- `thread_make_runnable`, on the thread that was woken
unfoldable pub make_runnable : Option ℕ → (ℕ → Pc) → ℕ → Pc
make_runnable none pc = pc
make_runnable (some target) pc = update pc target acquire_woken

-- Threads 0 to n - 1; any other index never calls.
pub record System : Type 0 where
  pub lock : Lock
  pub pc : ℕ → Pc

pub data Turn (n : ℕ) (s : System) : System → Type 0 where
  runs :
      (i : ℕ)
      → i < n
      → {woken : Option ℕ} {p : Pc} {m : Lock} → Move i s.lock (s.pc i) m p woken
      → Turn n s (record { pc = make_runnable woken (update s.pc i p); lock = m })

abbrev pub created : System
created = record { lock = new_lock; pc = λ _. client false }

-- What `n` threads reach from a new lock, whatever they call and however they interleave.
pub data Reach (n : ℕ) : System → Type 0 where
  begins : Reach n created
  goes_on : {s t : System} → Reach n s → Turn n s t → Reach n t
