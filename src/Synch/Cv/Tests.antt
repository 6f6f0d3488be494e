-- ===== src/Synch/Cv/Tests.antt =====
-- Runs of a condition variable on two threads.
use os161_project_c.Base.{◌≡◌, refl, true, false, some, arith}
use os161_project_c.Base.Members.{is_member}
use os161_project_c.Synch.Lock.{is_owner}
use os161_project_c.Synch.Cv.{
  cv_create, acquire, call_wait, call_signal, call_broadcast, wait_lock, let_go, sleep, signal_lock,
  broadcast_lock, grab, grab_done, wake, wake_done, make_runnable, System, runs, Reach, begins,
  goes_on, created,
}
use os161_project_c.Synch.Cv.Safety.{in_wait, cv_signal-finds, cv_broadcast-wakes}

cv_create-new : cv_create true true true ≡ some created.cv
unfolding cv_create
cv_create-new = refl

abbrev Run : Type 0
Run = (s : System) × Reach 2 s

-- Thread 0 sleeps in cv_wait, and thread 1 has the lock.
abbrev waited : Run
unfolding make_runnable is_owner
waited = (
  _,
  goes_on
      (goes_on
        (goes_on
          (goes_on
            (goes_on (goes_on begins (runs 0 (omega arith) (acquire refl)))
              (runs 0 (omega arith) (call_wait refl)))
            (runs 0 (omega arith) (wait_lock refl)))
          (runs 0 (omega arith) (let_go refl)))
        (runs 0 (omega arith) sleep))
      (runs 1 (omega arith) (acquire refl)),
)

abbrev signalling : Run
unfolding make_runnable is_owner
signalling = (
  _,
  goes_on (goes_on waited.1 (runs 1 (omega arith) (call_signal refl)))
      (runs 1 (omega arith) (signal_lock refl)),
)

abbrev all_woken : Run
unfolding make_runnable is_owner
all_woken = (
  _,
  goes_on
      (goes_on
        (goes_on
          (goes_on
            (goes_on (goes_on waited.1 (runs 1 (omega arith) (call_broadcast refl)))
              (runs 1 (omega arith) (broadcast_lock refl)))
            (runs 1 (omega arith) (grab refl)))
          (runs 1 (omega arith) (grab_done refl)))
        (runs 1 (omega arith) (wake refl)))
      (runs 1 (omega arith) (wake_done refl)),
)

cv_signal-finds_example : is_member 0 signalling.0.cv.cv_wchan ≡ true
unfolding make_runnable is_owner
cv_signal-finds_example = cv_signal-finds signalling.1 0 1 refl refl

cv_broadcast-wakes_example : in_wait (all_woken.0.pc 0) ≡ false
unfolding make_runnable is_owner
cv_broadcast-wakes_example = cv_broadcast-wakes all_woken.1 0 1 refl
