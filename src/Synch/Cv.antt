-- ===== src/Synch/Cv.antt =====
-- The condition variable of kern/thread/synch.c, with the wait channel of kern/thread/thread.c, and
-- the lock that goes with it. The lock is the one that Synch/Lock/Refine shows lock_acquire and
-- lock_release to implement: an owner that changes hands through nobody. The spinlock of the
-- condition variable is taken and given back in steps of their own.
pub mod Invariant
pub mod Moves
pub mod Safety
mod Tests
use os161_project_c.Base.{
  ℕ, ◌<◌, ◌≡◌, Bool, true, false, Option, none, some, List, [], ◌∷◌, ◌++◌, update,
}
use os161_project_c.Synch.Lock.{is_owner}

-- `struct cv`, with the threads on its wait channel in their order, the owner of the lock, and the
-- private list of wchan_wakeall, which the thread that has the spinlock fills and empties.
pub record Cv : Type 0 where
  pub cv_wchan : List ℕ
  pub cv_lock : Option ℕ
  pub lk_owner : Option ℕ
  pub private_list : List ℕ

abbrev pub new_cv : Cv
new_cv = record { cv_wchan = []; cv_lock = none; lk_owner = none; private_list = [] }

-- Memory for the variable, its name and its wait channel is asked for in this order.
unfoldable pub cv_create : (cv_mem name_mem wchan_mem : Bool) → Option Cv
cv_create false name_mem wchan_mem = none
cv_create true false wchan_mem = none
cv_create true true false = none
cv_create true true true = some new_cv

-- Where a thread stands. A client has the lock (`was`) or has not.
pub data Pc : Type 0 where
  client : (was : Bool) → Pc
  wait_spin : Pc
  wait_release : Pc  -- before `lock_release`
  wait_sleep : Pc  -- before `wchan_sleep`
  wait_asleep : Pc
  wait_woken : Pc  -- runnable again, before the `spinlock_acquire` of `wchan_sleep`
  wait_leave : Pc
  wait_acquire : Pc  -- before `lock_acquire`
  signal_spin : Pc
  signal_wake : Pc
  signal_leave : Pc
  broadcast_spin : Pc
  broadcast_grab : Pc  -- the first loop of `wchan_wakeall`
  broadcast_wake : Pc  -- the second loop of `wchan_wakeall`
  broadcast_leave : Pc
  stopped : Pc  -- an assertion has failed

-- One step of thread `i`, and the thread that it makes runnable.
pub data Move (i : ℕ) (s : Cv) : Pc → Cv → Pc → Option ℕ → Type 0 where
  acquire :
      s.lk_owner ≡ none
      → Move i s (client false) (record s { lk_owner = some i }) (client true) none
  release : Move i s (client true) (record s { lk_owner = none }) (client false) none
  call_wait : {was : Bool} → is_owner i s.lk_owner ≡ true → Move i s (client was) s wait_spin none
  call_signal :
      {was : Bool} → is_owner i s.lk_owner ≡ true → Move i s (client was) s signal_spin none
  call_broadcast :
      {was : Bool} → is_owner i s.lk_owner ≡ true → Move i s (client was) s broadcast_spin none
  call_fails : {was : Bool} → is_owner i s.lk_owner ≡ false → Move i s (client was) s stopped none
  wait_lock :
      s.cv_lock ≡ none → Move i s wait_spin (record s { cv_lock = some i }) wait_release none
  let_go :
      is_owner i s.lk_owner ≡ true
      → Move i s wait_release (record s { lk_owner = none }) wait_sleep none
  let_go_fails : is_owner i s.lk_owner ≡ false → Move i s wait_release s stopped none
  sleep :
      Move i s wait_sleep
        (record s { cv_wchan = s.cv_wchan ++ (i ∷ []); cv_lock = none })
        wait_asleep
        none
  relock : s.cv_lock ≡ none → Move i s wait_woken (record s { cv_lock = some i }) wait_leave none
  wait_unlock : Move i s wait_leave (record s { cv_lock = none }) wait_acquire none
  reacquire :
      s.lk_owner ≡ none → Move i s wait_acquire (record s { lk_owner = some i }) (client true) none
  signal_lock :
      s.cv_lock ≡ none → Move i s signal_spin (record s { cv_lock = some i }) signal_wake none
  wake_none : s.cv_wchan ≡ [] → Move i s signal_wake s signal_leave none
  wake_one :
      {target : ℕ} {rest : List ℕ}
      → s.cv_wchan ≡ target ∷ rest
      → Move i s signal_wake (record s { cv_wchan = rest }) signal_leave (some target)
  signal_unlock : Move i s signal_leave (record s { cv_lock = none }) (client true) none
  broadcast_lock :
      s.cv_lock ≡ none → Move i s broadcast_spin (record s { cv_lock = some i }) broadcast_grab none
  grab :
      {target : ℕ} {rest : List ℕ}
      → s.cv_wchan ≡ target ∷ rest
      → Move i s broadcast_grab
          (record s { cv_wchan = rest; private_list = s.private_list ++ (target ∷ []) })
          broadcast_grab
          none
  grab_done : s.cv_wchan ≡ [] → Move i s broadcast_grab s broadcast_wake none
  wake :
      {target : ℕ} {rest : List ℕ}
      → s.private_list ≡ target ∷ rest
      → Move i s broadcast_wake (record s { private_list = rest }) broadcast_wake (some target)
  wake_done : s.private_list ≡ [] → Move i s broadcast_wake s broadcast_leave none
  broadcast_unlock : Move i s broadcast_leave (record s { cv_lock = none }) (client true) none

-- `thread_make_runnable`, on the thread that was woken
unfoldable pub make_runnable : Option ℕ → (ℕ → Pc) → ℕ → Pc
make_runnable none pc = pc
make_runnable (some target) pc = update pc target wait_woken

-- Threads 0 to n - 1; any other index never calls.
pub record System : Type 0 where
  pub cv : Cv
  pub pc : ℕ → Pc

pub data Turn (n : ℕ) (s : System) : System → Type 0 where
  runs :
      (i : ℕ)
      → i < n
      → {woken : Option ℕ} {p : Pc} {m : Cv} → Move i s.cv (s.pc i) m p woken
      → Turn n s (record { pc = make_runnable woken (update s.pc i p); cv = m })

abbrev pub created : System
created = record { cv = new_cv; pc = λ _. client false }

-- What `n` threads reach from a new variable and lock, however they interleave.
pub data Reach (n : ℕ) : System → Type 0 where
  begins : Reach n created
  goes_on : {s t : System} → Reach n s → Turn n s t → Reach n t
