-- ===== src/Spinlock.antt =====
-- kern/thread/spinlock.c: one spinlock and the processors that take and give it back, an access to
-- memory at a time. The hangman hooks are left out, and CURCPU_EXISTS holds: the kernel has started.
pub mod Invariant
pub mod Safety
mod Tests
use os161_project_c.Base.{
  ℕ, ◌+◌, ◌-◌, ◌<◌, ◌≡◌, ◌≢◌, Bool, true, false, not, Option, none, some, ◌==◌, update, Outcome,
  kassert, ◌>>◌, ok,
}

-- `struct spinlock`, and `c_spinlocks` of each processor
pub record Spinlock : Type 0 where
  pub splk_lock : ℕ
  pub splk_holder : Option ℕ
  pub c_spinlocks : ℕ → ℕ

unfoldable pub spinlock_init : (ℕ → ℕ) → Spinlock
spinlock_init counts = record { splk_lock = 0; splk_holder = none; c_spinlocks = counts }

unfoldable pub is_free : Option ℕ → Bool
is_free none = true
is_free (some i) = false

unfoldable pub spinlock_cleanup : Spinlock → Outcome (Unit {0})
spinlock_cleanup s = kassert (is_free s.splk_holder) >> kassert (s.splk_lock == 0)

-- `splk_holder == curcpu->c_self`
unfoldable pub held_by : ℕ → Option ℕ → Bool
held_by i none = false
held_by i (some j) = i == j

unfoldable pub spinlock_do_i_hold : ℕ → Spinlock → Bool
spinlock_do_i_hold i s = held_by i s.splk_holder

-- Where a processor stands with respect to the lock.
pub data Pc : Type 0 where
  outside : Pc
  counts : Pc  -- spinlock_acquire: before `c_spinlocks++`
  reads : Pc  -- before the read of the lock word
  tests : Pc  -- before the test-and-set
  sets : Pc  -- before the holder is set
  inside : Pc
  uncounts : Pc  -- spinlock_release: before the assertion on `c_spinlocks`
  clears : Pc  -- before the holder is cleared
  frees : Pc  -- before the lock word is cleared
  deadlocked : Pc  -- the panic of spinlock_acquire
  stopped : Pc  -- an assertion of spinlock_release has failed

-- One step of processor `i`. A processor may call either routine whether it has the lock or not.
pub data Move (i : ℕ) (s : Spinlock) : Pc → Spinlock → Pc → Type 0 where
  call_acquire : s.splk_holder ≢ some i → Move i s outside s counts
  acquire_again : s.splk_holder ≡ some i → Move i s inside s deadlocked
  acquire_held : s.splk_holder ≡ some i → Move i s outside s deadlocked
  acquire_more : s.splk_holder ≢ some i → Move i s inside s counts
  count :
      Move i s counts
        (record s { c_spinlocks = update s.c_spinlocks i (s.c_spinlocks i + 1) })
        reads
  read_busy : s.splk_lock ≢ 0 → Move i s reads s reads
  read_free : s.splk_lock ≡ 0 → Move i s reads s tests
  test_busy : s.splk_lock ≢ 0 → Move i s tests (record s { splk_lock = 1 }) reads
  test_free : s.splk_lock ≡ 0 → Move i s tests (record s { splk_lock = 1 }) sets
  set : Move i s sets (record s { splk_holder = some i }) inside
  call_release : s.splk_holder ≡ some i → Move i s inside s uncounts
  release_fails : s.splk_holder ≢ some i → Move i s inside s stopped
  release_outside : s.splk_holder ≢ some i → Move i s outside s stopped
  release_held : s.splk_holder ≡ some i → Move i s outside s uncounts
  uncount :
      0 < s.c_spinlocks i
      → Move i s uncounts
          (record s { c_spinlocks = update s.c_spinlocks i (s.c_spinlocks i - 1) })
          clears
  uncount_fails : s.c_spinlocks i ≡ 0 → Move i s uncounts s stopped
  clear : Move i s clears (record s { splk_holder = none }) frees
  free : Move i s frees (record s { splk_lock = 0 }) outside

-- The processors in any order.
pub record System : Type 0 where
  pub splk : Spinlock
  pub pc : ℕ → Pc

pub data Turn (s : System) : System → Type 0 where
  runs :
      (i : ℕ) {p : Pc} {m : Spinlock}
      → Move i s.splk (s.pc i) m p
      → Turn s (record { pc = update s.pc i p; splk = m })

-- What the processors reach from a new spinlock, with the counts of the spinlocks that they hold
-- elsewhere.
pub data Reach (counts : ℕ → ℕ) : System → Type 0 where
  begins : Reach counts (record { splk = spinlock_init counts; pc = λ _. outside })
  goes_on : {s t : System} → Reach counts s → Turn s t → Reach counts t
