-- ===== src/UserCopy/Blocks.antt =====
-- What copyin and copyout move.
use os161_project_c.Base.{
  ℕ, ◌+◌, ◌^◌, ◌≤◌, ◌<◌, ◌≡◌, refl, ap, ◌∙◌, ◌↔◌, inl, inr, true, false, arith, ◌==◌, in_run,
  Bool-cases, Option, none, some, find_first, Search, hit, miss, find_first-Search, find_first-none,
}
use os161_project_c.Vfs.{Bytes, slice, copy_in}
use os161_project_c.UserCopy.{
  userspacetop, UserMemory, landed, check_block, copy_guarded, copyin, copyout,
}
use os161_project_c.UserCopy.Check.{check_block_iff}

-- No address of the region faults.
abbrev pub Sound : UserMemory → (start len : ℕ) → Type 0
Sound u start len = (a : ℕ) → start ≤ a → a < start + len → u.faulty a ≡ false

module _ (u : UserMemory) (user len dest : ℕ) (b mem : Bytes) where
  -- Without a fault the block is copied.
  copy_guarded-Sound :
      Sound u user len
      → copy_guarded u user len dest b mem ≡ record { result = 0; mem = copy_in mem dest len b }
  unfolding copy_guarded
  copy_guarded-Sound sound =
      ap (λ o. landed o (u.torn dest len mem) (copy_in mem dest len b))
        (find_first-none len user u.faulty sound)

  -- A result of 0 means that none has happened.
  copy_guarded-result : (copy_guarded u user len dest b mem).result ≡ 0 → Sound u user len
  unfolding copy_guarded
  copy_guarded-result done =
      unharmed (find_first len user u.faulty)
        (find_first-Search len user (user + len) u.faulty refl) done
    where
      unharmed :
          (o : Option ℕ)
          → Search u.faulty user (user + len) o
          → (landed o (u.torn dest len mem) (copy_in mem dest len b)).result ≡ 0
          → Sound u user len
      unharmed none (miss nowhere) done = nowhere
      unharmed (some _) (hit a f) done = absurd (ground arith)

-- copyin answers 0 exactly when the region is not empty, lies in user space and does not fault.
pub copyin_iff :
    (u : UserMemory) (usersrc dest len : ℕ) (mem : Bytes)
    → usersrc < 2 ^ 32
    → len < 2 ^ 32
    → ((copyin u usersrc dest len mem).result ≡ 0)
      ↔ ((0 < len) × (usersrc + len ≤ userspacetop) × Sound u usersrc len)
unfolding copyin
copyin_iff u usersrc dest len mem p l = (to, from)
  where
    b : Bytes
    b = slice u.bytes usersrc

    to :
        (copyin u usersrc dest len mem).result ≡ 0
        → (0 < len) × (usersrc + len ≤ userspacetop) × Sound u usersrc len
    to done = elim (Bool-cases (check_block usersrc len == 0)) [
      | inl passed ↦
          let (some_bytes, in_user) = (check_block_iff usersrc len p l).0 (ground arith) in
          (some_bytes, in_user, copy_guarded-result u usersrc len dest b mem (ground arith))
      | inr refused ↦ absurd (ground arith)
    ]

    from :
        (0 < len) × (usersrc + len ≤ userspacetop) × Sound u usersrc len
        → (copyin u usersrc dest len mem).result ≡ 0
    from (some_bytes, in_user, sound) =
        rw
          (
            (check_block_iff usersrc len p l).1 (some_bytes, in_user),
            copy_guarded-Sound u usersrc len dest b mem sound,
          )
          refl

-- Where copyin answers 0, `dest` has the user's bytes and the rest of the memory is as before.
pub copyin-reads :
    (u : UserMemory) (usersrc dest len : ℕ) (mem : Bytes)
    → usersrc < 2 ^ 32
    → len < 2 ^ 32
    → (copyin u usersrc dest len mem).result ≡ 0
    → (copyin u usersrc dest len mem).mem ≡ copy_in mem dest len (slice u.bytes usersrc)
unfolding copyin
copyin-reads u usersrc dest len mem p l done =
    let (some_bytes, in_user, sound) = (copyin_iff u usersrc dest len mem p l).0 done in
    rw
      (
        (check_block_iff usersrc len p l).1 (some_bytes, in_user),
        copy_guarded-Sound u usersrc len dest (slice u.bytes usersrc) mem sound,
      )
      refl

-- Where copyout answers 0, the region is not empty, lies in user space and has not faulted, and the
-- user has the kernel's bytes.
pub copyout-writes :
    (u : UserMemory) (src userdest len : ℕ) (mem : Bytes)
    → userdest < 2 ^ 32
    → len < 2 ^ 32
    → (copyout u src userdest len mem).result ≡ 0
    → (0 < len)
      × (userdest + len ≤ userspacetop)
      × Sound u userdest len
      × ((copyout u src userdest len mem).mem ≡ copy_in u.bytes userdest len (slice mem src))
unfolding copyout
copyout-writes u src userdest len mem p l done = elim (Bool-cases (check_block userdest len == 0)) [
  | inr refused ↦ absurd (ground arith)
  | inl passed ↦
      let (some_bytes, in_user) = (check_block_iff userdest len p l).0 (ground arith) in
      let sound =
        copy_guarded-result u userdest len userdest (slice mem src) u.bytes (ground arith) in
      (
        some_bytes,
        in_user,
        sound,
        rw
            (
              (check_block_iff userdest len p l).1 (some_bytes, in_user),
              copy_guarded-Sound u userdest len userdest (slice mem src) u.bytes sound,
            )
            refl,
      )
]

-- A copied block has its bytes.
copy_in-at :
    (mem : Bytes) (pa len : ℕ) (b : Bytes) (i : ℕ) → i < len → copy_in mem pa len b (pa + i) ≡ b i
unfolding copy_in
copy_in-at mem pa len b i low = rw inside (ap b (omega arith))
  where
    inside : in_run pa len (pa + i) ≡ true
    inside = ground arith

-- What copyout has given to the user, copyin brings back: the kernel has its own bytes again, at
-- `dest`, and copyin does not fail.
pub copyin-copyout :
    (u : UserMemory) (src addr dest len : ℕ) (mem : Bytes)
    → addr < 2 ^ 32
    → len < 2 ^ 32
    → (copyout u src addr len mem).result ≡ 0
    → let u' = record u { bytes = (copyout u src addr len mem).mem } in
      ((copyin u' addr dest len mem).result ≡ 0)
      × ((i : ℕ) → i < len → (copyin u' addr dest len mem).mem (dest + i) ≡ mem (src + i))
copyin-copyout u src addr dest len mem p l done =
    let (some_bytes, in_user, sound, written) = copyout-writes u src addr len mem p l done in
    let back = (copyin_iff u' addr dest len mem p l).1 (some_bytes, in_user, sound) in
    (
      back,
      λ i low.
          ap (λ m. m (dest + i)) (copyin-reads u' addr dest len mem p l back)
          ∙ copied i low written,
    )
  where
    u' : UserMemory
    u' = record u { bytes = (copyout u src addr len mem).mem }

    copied :
        (i : ℕ)
        → i < len
        → (copyout u src addr len mem).mem ≡ copy_in u.bytes addr len (slice mem src)
        → copy_in mem dest len (slice u'.bytes addr) (dest + i) ≡ mem (src + i)
    copied i low written =
        copy_in-at mem dest len (slice u'.bytes addr) i low
        ∙ ap (λ m. m (addr + i)) written
        ∙ copy_in-at u.bytes addr len (slice mem src) i low
