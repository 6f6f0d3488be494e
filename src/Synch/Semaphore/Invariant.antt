-- ===== src/Synch/Semaphore/Invariant.antt =====
-- Who holds the spinlock of a semaphore, who is on its wait channel, and who will be served.
use os161_project_c.Base.{ℕ, ◌^◌, ◌≤◌, ◌<◌, ◌≡◌, ◌⊎◌, Bool, true, false, some, [], weigh}
use os161_project_c.Synch.Semaphore.{
  Semaphore, Pc, outside, p_test, p_asleep, p_woken, p_take, p_leave, v_add, v_check, v_wake,
  v_leave, stopped,
}
use os161_project_c.Base.Members.{is_member, Distinct}

-- Between taking and giving back the spinlock.
abbrev pub holds_lock : Pc → Bool
holds_lock p_test = true
holds_lock p_take = true
holds_lock p_leave = true
holds_lock v_add = true
holds_lock v_check = true
holds_lock v_wake = true
holds_lock v_leave = true
holds_lock stopped = true
holds_lock _ = false

abbrev pub is_asleep : Pc → Bool
is_asleep p_asleep = true
is_asleep _ = false

-- A thread that will look at the count before it sleeps again, or will wake one that does.
abbrev pub serves : Pc → ℕ
serves p_test = 1
serves p_woken = 1
serves p_take = 1
serves v_check = 1
serves v_wake = 1
serves stopped = 0
serves _ = 0

pub record Inv (n : ℕ) (m : Semaphore) (pc : ℕ → Pc) : Type 0 where
  pub holder : (i : ℕ) → holds_lock (pc i) ≡ true → m.sem_lock ≡ some i
  pub held : (i : ℕ) → m.sem_lock ≡ some i → holds_lock (pc i) ≡ true
  pub queued : (i : ℕ) → is_member i m.sem_wchan ≡ is_asleep (pc i)
  pub distinct : Distinct m.sem_wchan
  pub passed : (i : ℕ) → pc i ≡ p_take → 0 < m.sem_count
  pub raised : (i : ℕ) → pc i ≡ v_wake → 0 < m.sem_count
  pub fits : m.sem_count < 2 ^ 32
  pub known : (i : ℕ) → n ≤ i → pc i ≡ outside
  -- Units that may be taken are matched by threads on their way, while anyone sleeps.
  pub served : (m.sem_wchan ≡ []) ⊎ (m.sem_count ≤ weigh serves pc n)
