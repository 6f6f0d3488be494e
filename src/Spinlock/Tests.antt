-- ===== src/Spinlock/Tests.antt =====
-- Runs of a spinlock on two processors.
use os161_project_c.Base.{ℕ, ◌+◌, ◌≡◌, refl, Outcome}
use os161_project_c.Spinlock.{
  spinlock_init, spinlock_cleanup, spinlock_do_i_hold, is_free, call_acquire, count, read_free,
  test_free, set, System, runs, Reach, begins, goes_on,
}
use os161_project_c.Spinlock.Invariant.{holds, counted}
use os161_project_c.Spinlock.Safety.{spinlock_do_i_hold-right}

abbrev none_held : ℕ → ℕ
none_held i = 0

spinlock_cleanup-init : spinlock_cleanup (spinlock_init none_held) ≡ Outcome.ok tt
unfolding spinlock_cleanup spinlock_init is_free
spinlock_cleanup-init = refl

-- Processor 0 has the spinlock.
abbrev taken : (s : System) × Reach none_held s
unfolding spinlock_init
taken = (
  _,
  goes_on
      (goes_on
        (goes_on (goes_on (goes_on begins (runs 0 (call_acquire λ e. cc))) (runs 0 count))
          (runs 0 (read_free refl)))
        (runs 0 (test_free refl)))
      (runs 0 set),
)

spinlock_do_i_hold-right_example :
    (spinlock_do_i_hold 0 taken.0.splk ≡ holds (taken.0.pc 0))
    × (taken.0.splk.c_spinlocks 0 ≡ none_held 0 + counted (taken.0.pc 0))
spinlock_do_i_hold-right_example = spinlock_do_i_hold-right taken.1 0
