-- ===== src/Uio/Moves.antt =====
-- How many bytes uiomove moves, and what it leaves of the uio.
use os161_project_c.Base.{
  ℕ, zero, suc, ◌+◌, ◌-◌, ◌%◌, ◌^◌, ◌≤◌, ◌<◌, ◌≡◌, refl, sym, ap, ◌∙◌, ◌≢◌, ◌⊎◌, inl, inr, true,
  false, ◌&&◌, arith, ltb, ◌==◌, List, [], ◌∷◌, Outcome, ok, Bool-cases,
}
use os161_project_c.Base.Members.{length}
use os161_project_c.UserCopy.{word}
use os161_project_c.Uio.{
  UioRw, UioSeg, uio_userispace, uio_userspace, uio_sysspace, Iovec, Uio, Memory, Moved, Go,
  next_iov, advance, after_transfer, size_of, transfer, turn, uiomove_loop, space_for, uiomove,
}

-- The bytes of the buffers.
unfoldable pub total : List Iovec → ℕ
total [] = 0
total (iov ∷ rest) = iov.iov_len + total rest

-- What is to be moved is what the buffers hold.
pub record IsUio (uio : Uio) : Type 0 where
  pub sum : total uio.uio_iov ≡ uio.uio_resid
  pub resid : uio.uio_resid < 2 ^ 32
  pub offset : uio.uio_offset < 2 ^ 64

-- `done` bytes of at most `n` are moved.
pub record Moves (n : ℕ) (uio : Uio) (r : Moved) (done : ℕ) : Type 0 where
  pub some_of : done ≤ n
  pub resid : r.uio.uio_resid + done ≡ uio.uio_resid
  pub offset : r.uio.uio_offset ≡ (uio.uio_offset + done) % 2 ^ 64
  pub wf : IsUio r.uio
  pub seg : r.uio.uio_segflg ≡ uio.uio_segflg
  pub space : r.uio.uio_space ≡ uio.uio_space
  pub all : r.result ≡ 0 → (done ≡ n) ⊎ (r.uio.uio_resid ≡ 0)
  pub in_kernel : uio.uio_segflg ≡ uio_sysspace → r.result ≡ 0

-- An outcome that is a result with the bytes that are moved.
abbrev pub Ends : (n : ℕ) → Uio → Outcome Moved → Type 0
Ends n uio o = (r : Moved) × (done : ℕ) × (o ≡ ok r) × Moves n uio r done

-- The loop ends where nothing is left to move.
stop-Ends :
    (n : ℕ) (uio : Uio) (m : Memory)
    → IsUio uio
    → (ltb 0 n && ltb 0 uio.uio_resid) ≡ false
    → Ends n uio (ok (record { result = 0; uio = uio; memory = m }))
stop-Ends n uio m wf stops = (
  _,
  0,
  refl,
  record {
    some_of = omega arith;
    resid = omega arith;
    offset = omega (arith, wf.offset);
    wf = wf;
    seg = refl;
    space = refl;
    all = λ e. elim (Bool-cases (ltb 0 n)) [
      | inl some ↦ inr (ground arith)
      | inr none ↦ inl (ground arith)
    ];
    in_kernel = λ e. refl;
  },
)

-- A transfer that fails leaves the uio.
error-Ends :
    (n : ℕ) (uio : Uio) (m : Memory) (result : ℕ)
    → IsUio uio
    → result ≢ 0
    → uio.uio_segflg ≢ uio_sysspace
    → Ends n uio (ok (record { result = result; uio = uio; memory = m }))
error-Ends n uio m result wf bad user = (
  _,
  0,
  refl,
  record {
    some_of = omega arith;
    resid = omega arith;
    offset = omega (arith, wf.offset);
    wf = wf;
    seg = refl;
    space = refl;
    all = λ e. absurd (bad e);
    in_kernel = λ e. absurd (user e);
  },
)

module _ (size : ℕ) (iov : Iovec) (rest : List Iovec) (uio : Uio) where
  pub advance-IsUio :
      IsUio uio
      → uio.uio_iov ≡ iov ∷ rest
      → size ≤ iov.iov_len
      → IsUio (advance size iov rest uio)
        × ((advance size iov rest uio).uio_resid + size ≡ uio.uio_resid)
  unfolding advance total
  advance-IsUio wf here low =
      let sum : iov.iov_len + total rest ≡ uio.uio_resid = sym (ap total here) ∙ wf.sum in
      let small = wf.resid in
      (record { sum = ground arith; resid = ground arith; offset = ground arith }, ground arith)

  -- What is moved after the first buffer's `size` bytes counts with them.
  advance-Ends :
      (n : ℕ) (o : Outcome Moved)
      → IsUio uio
      → uio.uio_iov ≡ iov ∷ rest
      → size ≤ iov.iov_len
      → size ≤ n
      → Ends (n - size) (advance size iov rest uio) o
      → Ends n uio o
  unfolding advance
  advance-Ends n o wf here low enough (r, done, e, moves) =
      let left = (advance-IsUio wf here low).1 in
      (
        r,
        size + done,
        e,
        record {
          some_of = omega (arith, moves.some_of);
          resid = omega (arith, moves.resid, left);
          offset = moves.offset ∙ omega arith;
          wf = moves.wf;
          seg = moves.seg;
          space = moves.space;
          all = λ fine. elim (moves.all fine) [
            | inl every ↦ inl (omega arith)
            | inr empty ↦ inr empty
          ];
          in_kernel = moves.in_kernel;
        },
      )

-- In the kernel a transfer does not fail.
transfer-sysspace :
    (seg : UioSeg) (rw : UioRw) (ptr base size : ℕ) (m : Memory)
    → (transfer seg rw ptr base size m).0 ≢ 0
    → seg ≢ uio_sysspace
unfolding transfer
transfer-sysspace uio_sysspace rw ptr base size m bad e = bad refl
transfer-sysspace uio_userspace rw ptr base size m bad e = absurd (ground (arith, e))
transfer-sysspace uio_userispace rw ptr base size m bad e = absurd (ground (arith, e))

-- A count of what is left to do, which each turn lowers.
abbrev effort : (n : ℕ) → List Iovec → ℕ
effort n iovs = n + length iovs

module _ (go : Go) (ptr n : ℕ) (uio : Uio) (m : Memory) (wf : IsUio uio) (some_bytes : 0 < n)
    (some_left : 0 < uio.uio_resid)
    (goes : (ptr' n' : ℕ) (uio' : Uio) (m' : Memory)
      → IsUio uio'
      → effort n' uio'.uio_iov < effort n uio.uio_iov
      → Ends n' uio' (go ptr' n' uio' m')) where
  -- The first buffer is empty.
  next_iov-Ends :
      (iov : Iovec) (rest : List Iovec)
      → uio.uio_iov ≡ iov ∷ rest
      → iov.iov_len ≡ 0
      → Ends n uio (next_iov go ptr n rest uio m)
  unfolding next_iov total
  next_iov-Ends iov [] here empty =
      let sum : iov.iov_len + 0 ≡ uio.uio_resid = sym (ap total here) ∙ wf.sum in
      absurd (omega arith)
  next_iov-Ends iov (iov' ∷ rest) here empty =
      let sum : iov.iov_len + total (iov' ∷ rest) ≡ uio.uio_resid = sym (ap total here) ∙ wf.sum in
      let longer : length uio.uio_iov ≡ length (iov' ∷ rest) + 1 = ap length here in
      let (r, done, e, moves) =
        goes ptr n (record uio { uio_iov = iov' ∷ rest }) m
          (record { sum = omega (arith, sum, empty); resid = wf.resid; offset = wf.offset })
          (omega arith) in
      (
        r,
        done,
        e,
        record {
          some_of = moves.some_of;
          resid = moves.resid;
          offset = moves.offset;
          wf = moves.wf;
          seg = moves.seg;
          space = moves.space;
          all = moves.all;
          in_kernel = moves.in_kernel;
        },
      )

  -- The first buffer has `size` bytes to move.
  after_transfer-Ends :
      (size : ℕ) (iov : Iovec) (rest : List Iovec) (result : ℕ) (m' : Memory)
      → uio.uio_iov ≡ iov ∷ rest
      → size ≤ iov.iov_len
      → size ≤ n
      → 0 < size
      → (result ≢ 0 → uio.uio_segflg ≢ uio_sysspace)
      → Ends n uio (after_transfer go ptr n size iov rest uio (result, m'))
  unfolding after_transfer advance
  after_transfer-Ends size iov rest result m' here low enough pos user =
      elim (Bool-cases (result == 0)) [
        | inr bad ↦ rw bad (error-Ends n uio m' result wf (ground arith) (user (ground arith)))
        | inl fine ↦
            let same : length uio.uio_iov ≡ length rest + 1 = ap length here in
            rw fine (
              advance-Ends size iov rest uio n _ wf here low enough (
                goes (word (ptr + size)) (n - size) (advance size iov rest uio) m'
                  (advance-IsUio size iov rest uio wf here low).0 (omega arith)))
      ]

  turn-Ends : (iovs : List Iovec) → uio.uio_iov ≡ iovs → Ends n uio (turn go ptr n iovs uio m)
  unfolding turn total
  turn-Ends [] here =
      let sum : 0 ≡ uio.uio_resid = sym (ap total here) ∙ wf.sum in absurd (omega arith)
  turn-Ends (iov ∷ rest) here = elim (Bool-cases (size_of n iov == 0)) [
    | inl empty ↦ rw empty (next_iov-Ends iov rest here (ground arith))
    | inr real ↦ rw real (
        after_transfer-Ends (size_of n iov) iov rest _ _ here (ground arith) (ground arith)
          (ground arith)
          (transfer-sysspace uio.uio_segflg uio.uio_rw ptr iov.iov_base (size_of n iov) m))
  ]

uiomove_loop-Ends :
    (fuel ptr n : ℕ) (uio : Uio) (m : Memory)
    → IsUio uio
    → n + length uio.uio_iov < fuel
    → Ends n uio (uiomove_loop fuel ptr n uio m)
unfolding uiomove_loop
uiomove_loop-Ends zero ptr n uio m wf enough = absurd (omega arith)
uiomove_loop-Ends (suc fuel) ptr n uio m wf enough =
    elim (Bool-cases (ltb 0 n && ltb 0 uio.uio_resid)) [
      | inr stops ↦ rw stops (stop-Ends n uio m wf stops)
      | inl on ↦ rw on (
          turn-Ends (uiomove_loop fuel) ptr n uio m wf (ground arith) (ground arith)
            (λ ptr' n' uio' m' wf' less. uiomove_loop-Ends fuel ptr' n' uio' m' wf' (omega arith))
            uio.uio_iov refl)
    ]

-- Where the buffers hold exactly what a uio has left to move, and it names the current address space
-- (or none, in the kernel), uiomove of `n` bytes ends and never stops the kernel. It moves `done`
-- bytes, at most `n`; what is left, the offset and the buffers count them exactly, also where a
-- transfer fails on the way. A result of 0 means that all `n` bytes are moved or nothing is left, and
-- in the kernel the result is 0.
pub uiomove-Ends :
    (curas ptr n : ℕ) (uio : Uio) (m : Memory)
    → IsUio uio
    → uio.uio_space ≡ space_for curas uio.uio_segflg
    → Ends n uio (uiomove curas ptr n uio m)
unfolding uiomove
uiomove-Ends curas ptr n uio m wf space =
    let named : (uio.uio_space == space_for curas uio.uio_segflg) ≡ true = ground arith in
    rw named (uiomove_loop-Ends (suc (n + length uio.uio_iov)) ptr n uio m wf (omega arith))
