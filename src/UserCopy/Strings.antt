-- ===== src/UserCopy/Strings.antt =====
-- What copyinstr and copyoutstr move.
use os161_project_c.Base.{
  ℕ, zero, suc, ◌+◌, ◌^◌, ◌≤◌, ◌<◌, ◌≡◌, ◌≢◌, inl, inr, Bool, true, false, arith, ltb, ◌==◌,
  if◌then◌else◌, none, some, update, Bool-cases,
}
use os161_project_c.Vfs.{Bytes, slice}
use os161_project_c.UserCopy.{
  efault, enametoolong, userspacetop, UserMemory, StringCopy, copycheck, copystr_loop, min, copystr,
  copyinstr,
}
use os161_project_c.UserCopy.Check.{copycheck-bounds}

-- A whole string, from character `i` to its NUL at `k`, arrives at `dest`.
pub record Arrives (src : Bytes) (faulty : ℕ → Bool) (dest i end k : ℕ) (mem mem' : Bytes)
    : Type 0 where
  pub from : i ≤ k
  pub below : k < end
  pub nul : src k ≡ 0
  pub chars : (j : ℕ) → i ≤ j → j < k → src j ≢ 0
  pub sound : (j : ℕ) → i ≤ j → j ≤ k → faulty j ≡ false
  pub copied : (j : ℕ) → i ≤ j → j ≤ k → mem' (dest + j) ≡ src j
  pub before : (a : ℕ) → a < dest + i → mem' a ≡ mem a
  pub behind : (a : ℕ) → dest + k < a → mem' a ≡ mem a

-- How the copy of a string ends: with its NUL, at a fault, or at the limit.
pub data Ends (src : Bytes) (faulty : ℕ → Bool) (dest i end at_end : ℕ) (mem : Bytes)
    : StringCopy → Type 0 where
  whole :
      (k : ℕ) (mem' : Bytes)
      → Arrives src faulty dest i end k mem mem'
      → Ends src faulty dest i end at_end mem
          (record { result = 0; gotlen = some (k + 1); mem = mem' })
  faulted :
      (j : ℕ) (mem' : Bytes)
      → (i ≤ j) × (j < end) × (faulty j ≡ true)
      → ((m : ℕ) → i ≤ m → m < j → src m ≢ 0)
      → Ends src faulty dest i end at_end mem
          (record { result = efault; gotlen = none; mem = mem' })
  too_long :
      (mem' : Bytes)
      → ((j : ℕ) → i ≤ j → j < end → (src j ≢ 0) × (faulty j ≡ false))
      → Ends src faulty dest i end at_end mem
          (record { result = at_end; gotlen = none; mem = mem' })

module _ (src : Bytes) (faulty : ℕ → Bool) (dest end at_end : ℕ) where
  -- A character that is not the last one.
  Ends-suc :
      (i : ℕ) (mem : Bytes) (c : StringCopy)
      → i < end
      → src i ≢ 0
      → faulty i ≡ false
      → Ends src faulty dest (i + 1) end at_end (update mem (dest + i) (src i)) c
      → Ends src faulty dest i end at_end mem c
  Ends-suc i mem _ low more sound (whole k mem' a) = whole k mem' (record {
    from = omega (arith, a.from);
    below = a.below;
    nul = a.nul;
    chars = λ j f l. ground (arith, a.chars j);
    sound = λ j f l. ground (arith, a.sound j);
    copied = λ j f l. ground (arith, a.copied j, a.before (dest + i));
    before = λ x l. ground (arith, a.before x);
    behind = λ x l. ground (arith, a.behind x, a.from);
  })
  Ends-suc i mem _ low more sound (faulted j mem' at chars) =
      faulted j mem' (omega (arith, at), omega (arith, at), at.2) λ m f l. ground (arith, chars m)
  Ends-suc i mem _ low more sound (too_long mem' none_ends) =
      too_long mem' λ j f l. ground (arith, none_ends j)

  -- The loop from `i` on.
  copystr_loop-Ends :
      (k i : ℕ) (mem : Bytes)
      → i + k ≡ end
      → Ends src faulty dest i end at_end mem (copystr_loop k i src faulty dest at_end mem)
  unfolding copystr_loop
  copystr_loop-Ends zero i mem e = too_long mem λ j f l. absurd (omega arith)
  copystr_loop-Ends (suc k) i mem e = elim (Bool-cases (faulty i)) [
    | inl faults ↦
        rw faults (faulted i mem (omega arith, omega arith, faults) λ m f l. absurd (omega arith))
    | inr sound ↦ elim (Bool-cases (src i == 0)) [
      | inl last ↦
          rw (sound, last)
            (whole i _ (record {
              from = omega arith;
              below = omega arith;
              nul = ground arith;
              chars = λ j f l. absurd (omega arith);
              sound = λ j f l. let same : j ≡ i = omega arith in rw same sound;
              copied = λ j f l. let same : j ≡ i = omega arith in rw same (ground arith);
              before = λ a l. ground arith;
              behind = λ a l. ground arith;
            }))
      | inr more ↦
          rw (sound, more)
            (Ends-suc i mem _ (omega arith) (ground arith) sound
              (copystr_loop-Ends k (i + 1) (update mem (dest + i) (src i)) (omega arith)))
    ]
  ]

-- copyinstr, for a region that copycheck accepts: it brings the user's string up to and with its NUL
-- and says how long that is; or it answers EFAULT at an address that faults; or, where no character
-- before the limit is a NUL, it answers EFAULT if the limit is the end of user space and
-- ENAMETOOLONG if it is the length asked for. It never reads beyond user space.
pub copyinstr-Ends :
    (u : UserMemory) (usersrc dest len : ℕ) (mem : Bytes)
    → usersrc < 2 ^ 32
    → len < 2 ^ 32
    → 0 < len
    → (copycheck usersrc len).result ≡ 0
    → let stoplen = (copycheck usersrc len).stoplen in
      (usersrc + stoplen ≤ userspacetop)
      × Ends
          (slice u.bytes usersrc)
          (λ i. u.faulty (usersrc + i))
          dest
          0
          stoplen
          (if ltb stoplen len then efault else enametoolong)
          mem
          (copyinstr u usersrc dest len mem)
unfolding copyinstr copystr
copyinstr-Ends u usersrc dest len mem p l some_bytes checked =
    let (_, within, in_user, _) = copycheck-bounds usersrc len p l some_bytes checked in
    let at_end = if ltb stoplen len then efault else enametoolong in
    (
      in_user,
      rw (checked, shorter within)
          (copystr_loop-Ends (slice u.bytes usersrc) (λ i. u.faulty (usersrc + i)) dest stoplen
            at_end stoplen 0 mem (omega arith)),
    )
  where
    stoplen : ℕ
    stoplen = (copycheck usersrc len).stoplen

    shorter : stoplen ≤ len → min len stoplen ≡ stoplen
    shorter within = ground arith
