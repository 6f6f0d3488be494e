-- ===== src/Synch/Semaphore.antt =====
-- The semaphore of kern/thread/synch.c, with the wait channel of kern/thread/thread.c. The
-- spinlock of the semaphore is taken and given back in steps of their own, so the threads
-- interleave at every access. A thread that holds it runs with interrupts off on its processor, so
-- the processor that holds the spinlock is named by the thread.
pub mod Invariant
pub mod Moves
pub mod Safety
pub mod Ledger
mod Tests
use os161_project_c.Base.{
  ℕ, ◌+◌, ◌-◌, ◌%◌, ◌^◌, ◌<◌, ◌≡◌, ◌≢◌, Bool, true, false, Option, none, some, List, [], ◌∷◌, ◌++◌,
  update, Outcome, ok, panic, ◌>>=◌, deref,
}

-- `struct semaphore`, with the threads on its wait channel in their order
pub record Semaphore : Type 0 where
  pub sem_wchan : List ℕ
  pub sem_lock : Option ℕ
  pub sem_count : ℕ

abbrev pub unsigned : ℕ → ℕ
unsigned x = x % 2 ^ 32

abbrev pub new_sem : ℕ → Semaphore
new_sem initial_count = record { sem_wchan = []; sem_lock = none; sem_count = initial_count }

-- Memory for the semaphore, its name and its wait channel is asked for in this order.
unfoldable pub sem_create : (sem_mem name_mem wchan_mem : Bool) → ℕ → Option Semaphore
sem_create false name_mem wchan_mem initial_count = none
sem_create true false wchan_mem initial_count = none
sem_create true true false initial_count = none
sem_create true true true initial_count = some (new_sem initial_count)

-- Where a thread stands with respect to the semaphore.
pub data Pc : Type 0 where
  outside : Pc
  p_spin : Pc  -- P: before `spinlock_acquire`
  p_test : Pc  -- the test of the `while`
  p_asleep : Pc  -- in `thread_switch`, on the wait channel
  p_woken : Pc  -- runnable again, before the `spinlock_acquire` of `wchan_sleep`
  p_take : Pc  -- behind the loop
  p_leave : Pc  -- before `spinlock_release`
  v_spin : Pc  -- V: before `spinlock_acquire`
  v_add : Pc
  v_check : Pc  -- before the assertion on the new count
  v_wake : Pc  -- before `wchan_wakeone`
  v_leave : Pc
  stopped : Pc  -- an assertion has failed

-- One step of thread `i`, and the thread that it makes runnable.
pub data Move (i : ℕ) (s : Semaphore) : Pc → Semaphore → Pc → Option ℕ → Type 0 where
  call_p : Move i s outside s p_spin none
  p_lock : s.sem_lock ≡ none → Move i s p_spin (record s { sem_lock = some i }) p_test none
  sleep :
      s.sem_count ≡ 0
      → Move i s p_test
          (record s { sem_wchan = s.sem_wchan ++ (i ∷ []); sem_lock = none })
          p_asleep
          none
  relock : s.sem_lock ≡ none → Move i s p_woken (record s { sem_lock = some i }) p_test none
  pass : s.sem_count ≢ 0 → Move i s p_test s p_take none
  take : 0 < s.sem_count → Move i s p_take (record s { sem_count = s.sem_count - 1 }) p_leave none
  take_fails : s.sem_count ≡ 0 → Move i s p_take s stopped none
  p_unlock : Move i s p_leave (record s { sem_lock = none }) outside none
  call_v : Move i s outside s v_spin none
  v_lock : s.sem_lock ≡ none → Move i s v_spin (record s { sem_lock = some i }) v_add none
  add : Move i s v_add (record s { sem_count = unsigned (s.sem_count + 1) }) v_check none
  add_holds : 0 < s.sem_count → Move i s v_check s v_wake none
  add_fails : s.sem_count ≡ 0 → Move i s v_check s stopped none
  wake_none : s.sem_wchan ≡ [] → Move i s v_wake s v_leave none
  wake_one :
      {target : ℕ} {rest : List ℕ}
      → s.sem_wchan ≡ target ∷ rest
      → Move i s v_wake (record s { sem_wchan = rest }) v_leave (some target)
  v_unlock : Move i s v_leave (record s { sem_lock = none }) outside none

-- `thread_make_runnable`, on the thread that was woken
unfoldable pub make_runnable : Option ℕ → (ℕ → Pc) → ℕ → Pc
make_runnable none pc = pc
make_runnable (some target) pc = update pc target p_woken

-- Threads 0 to n - 1; any other index stays outside.
pub record System : Type 0 where
  pub sem : Semaphore
  pub pc : ℕ → Pc

pub data Turn (n : ℕ) (s : System) : System → Type 0 where
  runs :
      (i : ℕ)
      → i < n
      → {woken : Option ℕ} {p : Pc} {m : Semaphore} → Move i s.sem (s.pc i) m p woken
      → Turn n s (record { pc = make_runnable woken (update s.pc i p); sem = m })

abbrev pub created : ℕ → System
created count = record { sem = new_sem count; pc = λ _. outside }

-- What `n` threads reach from a new semaphore, whatever they call and however they interleave.
pub data Reach (n count : ℕ) : System → Type 0 where
  begins : Reach n count (created count)
  goes_on : {s t : System} → Reach n count s → Turn n s t → Reach n count t
