-- ===== src/Synch/Lock/Invariant.antt =====
-- Who holds the spinlock of a lock, who owns the lock, who is on its wait channel, and who will be
-- served.
use os161_project_c.Base.{ℕ, ◌≤◌, ◌≡◌, ◌⊎◌, Bool, true, false, Option, none, some, [], weigh}
use os161_project_c.Base.Members.{is_member, Distinct}
use os161_project_c.Synch.Lock.{
  Lock, warns, acquires, releases, Pc, client, hold_spin, hold_read, hold_leave, acquire_test,
  acquire_asleep, acquire_woken, acquire_own, acquire_leave, release_spin, release_clear,
  release_wake, release_leave, misused, stopped,
}

-- Between taking and giving back the spinlock.
abbrev pub holds_lock : Pc → Bool
holds_lock (hold_read q was) = true
holds_lock (hold_leave q was res) = true
holds_lock acquire_test = true
holds_lock acquire_own = true
holds_lock acquire_leave = true
holds_lock release_clear = true
holds_lock release_wake = true
holds_lock release_leave = true
holds_lock stopped = true
holds_lock _ = false

-- From the assignment of the owner in lock_acquire to the one in lock_release.
abbrev pub owns : Pc → Bool
owns (client was) = was
owns (hold_spin q was) = was
owns (hold_read q was) = was
owns (hold_leave q was res) = was
owns (misused q was) = was
owns acquire_leave = true
owns release_spin = true
owns release_clear = true
owns _ = false

abbrev pub is_asleep : Pc → Bool
is_asleep acquire_asleep = true
is_asleep _ = false

-- A thread that will look at the owner before it sleeps again, or will wake one that does.
abbrev pub serves : Pc → ℕ
serves acquire_test = 1
serves acquire_woken = 1
serves acquire_own = 1
serves release_wake = 1
serves _ = 0

-- The lock as a resource of one unit.
abbrev pub units : Option ℕ → ℕ
units none = 1
units (some i) = 0

-- lock_do_i_hold answers whether the thread has the lock, and an assertion fails on misuse only.
abbrev pub Legal : Pc → Type 0
Legal (hold_leave q was res) = res ≡ was
Legal (misused warns was) = true ≡ false
Legal (misused acquires was) = was ≡ true
Legal (misused releases was) = was ≡ false
Legal stopped = true ≡ false
Legal _ = Unit

pub record Inv (n : ℕ) (m : Lock) (pc : ℕ → Pc) : Type 0 where
  pub holder : (i : ℕ) → holds_lock (pc i) ≡ true → m.lk_lock ≡ some i
  pub held : (i : ℕ) → m.lk_lock ≡ some i → holds_lock (pc i) ≡ true
  pub owner : (i : ℕ) → owns (pc i) ≡ true → m.lk_owner ≡ some i
  pub owned : (i : ℕ) → m.lk_owner ≡ some i → owns (pc i) ≡ true
  pub queued : (i : ℕ) → is_member i m.lk_wchan ≡ is_asleep (pc i)
  pub distinct : Distinct m.lk_wchan
  pub free : (i : ℕ) → pc i ≡ acquire_own → m.lk_owner ≡ none
  pub legal : (i : ℕ) → Legal (pc i)
  pub known : (i : ℕ) → n ≤ i → pc i ≡ client false
  -- A free lock is matched by a thread on its way, while anyone sleeps.
  pub served : (m.lk_wchan ≡ []) ⊎ (units m.lk_owner ≤ weigh serves pc n)
