-- ===== src/Synch/Cv/Invariant.antt =====
-- Who holds the spinlock of a condition variable, who owns the lock, and who waits.
use os161_project_c.Base.{ℕ, ◌≤◌, ◌≡◌, Bool, true, false, Option, none, some, List, [], ◌++◌, arith}
use os161_project_c.Base.Members.{is_member, Distinct}
use os161_project_c.Synch.Lock.{is_owner}
use os161_project_c.Synch.Cv.{
  Cv, Pc, client, wait_spin, wait_release, wait_sleep, wait_asleep, wait_leave, signal_spin,
  signal_wake, signal_leave, broadcast_spin, broadcast_grab, broadcast_wake, broadcast_leave,
}

-- Between taking and giving back the spinlock.
abbrev pub holds_lock : Pc → Bool
holds_lock wait_release = true
holds_lock wait_sleep = true
holds_lock wait_leave = true
holds_lock signal_wake = true
holds_lock signal_leave = true
holds_lock broadcast_grab = true
holds_lock broadcast_wake = true
holds_lock broadcast_leave = true
holds_lock _ = false

abbrev pub owns : Pc → Bool
owns (client was) = was
owns wait_spin = true
owns wait_release = true
owns signal_spin = true
owns signal_wake = true
owns signal_leave = true
owns broadcast_spin = true
owns broadcast_grab = true
owns broadcast_wake = true
owns broadcast_leave = true
owns _ = false

abbrev pub is_asleep : Pc → Bool
is_asleep wait_asleep = true
is_asleep _ = false

-- In wchan_wakeall.
abbrev pub drains : Pc → Bool
drains broadcast_grab = true
drains broadcast_wake = true
drains _ = false

-- Where the channel has been emptied by the thread that holds the spinlock.
abbrev pub has_grabbed : Pc → Bool
has_grabbed broadcast_wake = true
has_grabbed broadcast_leave = true
has_grabbed _ = false

-- The threads to be woken, those first that wchan_wakeall has taken off the channel.
abbrev pub waiting : Cv → List ℕ
waiting m = m.private_list ++ m.cv_wchan

pub record Inv (n : ℕ) (m : Cv) (pc : ℕ → Pc) : Type 0 where
  pub holder : (i : ℕ) → holds_lock (pc i) ≡ true → m.cv_lock ≡ some i
  pub held : (i : ℕ) → m.cv_lock ≡ some i → holds_lock (pc i) ≡ true
  pub owner : (i : ℕ) → owns (pc i) ≡ true → m.lk_owner ≡ some i
  pub owned : (i : ℕ) → m.lk_owner ≡ some i → owns (pc i) ≡ true
  pub queued : (i : ℕ) → is_member i (waiting m) ≡ is_asleep (pc i)
  pub distinct : Distinct (waiting m)
  pub free_empty : m.cv_lock ≡ none → m.private_list ≡ []
  pub held_empty : (i : ℕ) → holds_lock (pc i) ≡ true → drains (pc i) ≡ false → m.private_list ≡ []
  pub grabbed : (i : ℕ) → has_grabbed (pc i) ≡ true → m.cv_wchan ≡ []
  pub known : (i : ℕ) → n ≤ i → pc i ≡ client false

pub is_owner-some : (i : ℕ) (o : Option ℕ) → is_owner i o ≡ true → o ≡ some i
unfolding is_owner
is_owner-some i none h = cc
is_owner-some i (some j) h = ground arith

pub some-is_owner : (i : ℕ) (o : Option ℕ) → o ≡ some i → is_owner i o ≡ true
unfolding is_owner
some-is_owner i none h = cc
some-is_owner i (some j) h = ground arith
