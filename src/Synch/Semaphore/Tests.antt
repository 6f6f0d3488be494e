-- ===== src/Synch/Semaphore/Tests.antt =====
-- Runs of a semaphore on two threads.
use os161_project_c.Base.{ℕ, ◌+◌, ◌≤◌, ◌≡◌, refl, ◌≢◌, true, some, arith}
use os161_project_c.Synch.Semaphore.{
  sem_create, stopped, call_p, p_lock, sleep, call_v, v_lock, add, make_runnable, System, runs,
  Reach, begins, goes_on, created,
}
use os161_project_c.Synch.Semaphore.Safety.{Progress, sem_no_lost_wakeup}
use os161_project_c.Synch.Semaphore.Ledger.{takes, gives, sem_count-bounded, sem_count-balanced}

sem_create-new : sem_create true true true 7 ≡ some (created 7).sem
unfolding sem_create
sem_create-new = refl

-- Thread 0 sleeps in P.
abbrev sleeping : (s : System) × Reach 2 0 s
unfolding make_runnable
sleeping = (
  _,
  goes_on
      (goes_on (goes_on begins (runs 0 (omega arith) call_p)) (runs 0 (omega arith) (p_lock refl)))
      (runs 0 (omega arith) (sleep refl)),
)

-- Then thread 1 adds a unit in V.
abbrev adding : (s : System) × Reach 2 0 s
unfolding make_runnable
adding = (
  _,
  goes_on
      (goes_on (goes_on sleeping.1 (runs 1 (omega arith) call_v))
        (runs 1 (omega arith) (v_lock refl)))
      (runs 1 (omega arith) add),
)

adding-runs : (i : ℕ) → adding.0.pc i ≢ stopped
unfolding make_runnable
adding-runs i e = ground arith

sem_no_lost_wakeup_example : Progress 2 adding.0
unfolding make_runnable
sem_no_lost_wakeup_example =
    sem_no_lost_wakeup (omega arith) adding.1 adding-runs 0 refl (omega arith)

sem_count-bounded_example : takes adding.1 ≤ 0 + gives adding.1
sem_count-bounded_example = sem_count-bounded (omega arith) adding.1

sem_count-balanced_example : sleeping.0.sem.sem_count + takes sleeping.1 ≡ 0 + gives sleeping.1
unfolding make_runnable
sem_count-balanced_example =
    sem_count-balanced (omega arith) sleeping.1 λ j. (λ e. ground arith, λ e. ground arith)
