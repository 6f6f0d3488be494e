-- ===== src/Synch/Lock/Tests.antt =====
-- Runs of a lock on two threads.
use os161_project_c.Base.{ℕ, ◌≡◌, refl, true, false, some, arith}
use os161_project_c.Synch.Lock.{
  lock_create, is_owner, call_acquire, call_release, hold_lock, hold_look, hold_unlock,
  acquire_lock, sleep, pass, own, acquire_unlock, release_lock, clear, after_hold, make_runnable,
  System, runs, Reach, begins, goes_on, created,
}
use os161_project_c.Synch.Lock.Safety.{fails, lock-exclusive, lock_no_lost_wakeup, Progress}
use os161_project_c.Synch.Lock.Refine.{Spec, history, lock-Spec}

lock_create-new : lock_create true true true ≡ some created.lock
unfolding lock_create
lock_create-new = refl

abbrev Run : Type 0
Run = (s : System) × Reach 2 s

-- Thread 0 has the lock.
abbrev held_by_0 : Run
unfolding make_runnable after_hold is_owner
held_by_0 = (
  _,
  goes_on
      (goes_on
        (goes_on
          (goes_on
            (goes_on
              (goes_on
                (goes_on
                  (goes_on
                    (goes_on
                      (goes_on (goes_on begins (runs 0 (omega arith) call_acquire))
                        (runs 0 (omega arith) (hold_lock refl)))
                      (runs 0 (omega arith) hold_look))
                    (runs 0 (omega arith) hold_unlock))
                  (runs 0 (omega arith) (hold_lock refl)))
                (runs 0 (omega arith) hold_look))
              (runs 0 (omega arith) hold_unlock))
            (runs 0 (omega arith) (acquire_lock refl)))
          (runs 0 (omega arith) (pass refl)))
        (runs 0 (omega arith) (own refl)))
      (runs 0 (omega arith) acquire_unlock),
)

-- Then thread 1 sleeps in lock_acquire.
abbrev contended : Run
unfolding make_runnable after_hold is_owner
contended = (
  _,
  goes_on
      (goes_on
        (goes_on
          (goes_on
            (goes_on
              (goes_on
                (goes_on
                  (goes_on (goes_on held_by_0.1 (runs 1 (omega arith) call_acquire))
                    (runs 1 (omega arith) (hold_lock refl)))
                  (runs 1 (omega arith) hold_look))
                (runs 1 (omega arith) hold_unlock))
              (runs 1 (omega arith) (hold_lock refl)))
            (runs 1 (omega arith) hold_look))
          (runs 1 (omega arith) hold_unlock))
        (runs 1 (omega arith) (acquire_lock refl)))
      (runs 1 (omega arith) (sleep λ e. cc)),
)

-- Then thread 0 has cleared the owner.
abbrev freed : Run
unfolding make_runnable after_hold is_owner
freed = (
  _,
  goes_on
      (goes_on
        (goes_on
          (goes_on
            (goes_on (goes_on contended.1 (runs 0 (omega arith) call_release))
              (runs 0 (omega arith) (hold_lock refl)))
            (runs 0 (omega arith) hold_look))
          (runs 0 (omega arith) hold_unlock))
        (runs 0 (omega arith) (release_lock refl)))
      (runs 0 (omega arith) clear),
)

lock-exclusive_example : ◌≡◌ {A = ℕ} 0 0
unfolding make_runnable after_hold is_owner
lock-exclusive_example = lock-exclusive contended.1 0 0 refl refl

freed-runs : (i : ℕ) → fails (freed.0.pc i) ≡ false
unfolding make_runnable after_hold is_owner
freed-runs i = ground arith

lock_no_lost_wakeup_example : Progress 2 freed.0
unfolding make_runnable after_hold is_owner
lock_no_lost_wakeup_example = lock_no_lost_wakeup freed.1 freed-runs 1 refl refl

lock-Spec_example : Spec (history freed.1) freed.0.lock.lk_owner
lock-Spec_example = lock-Spec freed.1
