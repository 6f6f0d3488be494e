-- ===== src/Uio/Contents.antt =====
-- Which bytes uiomove moves.
use os161_project_c.Base.{
  ℕ, zero, suc, ◌+◌, ◌-◌, ◌^◌, ◌≤◌, ◌<◌, ◌≡◌, refl, sym, ap, ◌∙◌, ◌≢◌, inl, inr, true, false, ◌&&◌,
  arith, ltb, ◌==◌, if◌then◌else◌, List, [], ◌∷◌, Outcome, ok, Bool-cases,
}
use os161_project_c.Base.Members.{length}
use os161_project_c.Vfs.{slice, copy_in}
use os161_project_c.UserCopy.{word}
use os161_project_c.UserCopy.Blocks.{copyin-reads, copyout-writes}
use os161_project_c.Uio.{
  UioRw, uio_read, uio_write, UioSeg, uio_userispace, uio_userspace, uio_sysspace, Iovec, Uio,
  Memory, Moved, Go, next_iov, advance, after_transfer, size_of, user_transfer, kernel_transfer,
  transfer, turn, uiomove_loop, space_for, uiomove,
}
use os161_project_c.Uio.Moves.{total, IsUio, advance-IsUio, Moves, uiomove-Ends}

-- A block of bytes between the kernel's buffer at `ptr` and one buffer of the uio at `base`.
unfoldable pub block : UioSeg → UioRw → (ptr base size : ℕ) → Memory → Memory
block uio_sysspace uio_read ptr base size m = record m {
  kernel = copy_in m.kernel base size (slice m.kernel ptr);
}
block uio_sysspace uio_write ptr base size m = record m {
  kernel = copy_in m.kernel ptr size (slice m.kernel base);
}
block uio_userspace uio_read ptr base size m = record m {
  user = record (m.user) { bytes = copy_in m.user.bytes base size (slice m.kernel ptr) };
}
block uio_userspace uio_write ptr base size m = record m {
  kernel = copy_in m.kernel ptr size (slice m.user.bytes base);
}
block uio_userispace uio_read ptr base size m = record m {
  user = record (m.user) { bytes = copy_in m.user.bytes base size (slice m.kernel ptr) };
}
block uio_userispace uio_write ptr base size m = record m {
  kernel = copy_in m.kernel ptr size (slice m.user.bytes base);
}

-- The first `n` bytes of the buffers, one buffer after the other, against those from `ptr` on.
unfoldable pub in_order : UioSeg → UioRw → (ptr n : ℕ) → List Iovec → Memory → Memory
unfolding block
in_order seg dir ptr n [] m = m
in_order seg dir ptr n (iov ∷ rest) m =
    let size = if ltb n iov.iov_len then n else iov.iov_len in
    let others : (ptr n : ℕ) → Memory → Memory = λ p k m'. in_order seg dir p k rest m' in
    if size == 0
    then others ptr n m
    else others (word (ptr + size)) (n - size) (block seg dir ptr iov.iov_base size m)

-- The addresses of the buffers are words.
unfoldable pub AllWords : List Iovec → Type 0
AllWords [] = Unit {0}
AllWords (iov ∷ rest) = (iov.iov_base < 2 ^ 32) × AllWords rest

module _ (seg : UioSeg) (dir : UioRw) where
  -- Nothing is moved where no byte is asked for, or the buffers are empty.
  in_order-nothing : (ptr : ℕ) (iovs : List Iovec) (m : Memory) → in_order seg dir ptr 0 iovs m ≡ m
  unfolding in_order
  in_order-nothing ptr [] m = refl
  in_order-nothing ptr (iov ∷ rest) m =
      let none_left : ((if ltb 0 iov.iov_len then 0 else iov.iov_len) == 0) ≡ true = ground arith in
      rw none_left (in_order-nothing ptr rest m)

  in_order-empty :
      (ptr n : ℕ) (iovs : List Iovec) (m : Memory)
      → total iovs ≡ 0
      → in_order seg dir ptr n iovs m ≡ m
  unfolding in_order total
  in_order-empty ptr n [] m empty = refl
  in_order-empty ptr n (iov ∷ rest) m empty =
      let none_here : ((if ltb n iov.iov_len then n else iov.iov_len) == 0) ≡ true = ground arith in
      rw none_here (in_order-empty ptr n rest m (omega arith))

-- A transfer that succeeds moves a block.
user_transfer-read :
    (ptr base size : ℕ) (m : Memory)
    → base < 2 ^ 32
    → size < 2 ^ 32
    → (user_transfer uio_read ptr base size m).0 ≡ 0
    → (user_transfer uio_read ptr base size m).1 ≡ block uio_userspace uio_read ptr base size m
unfolding user_transfer block
user_transfer-read ptr base size m b l done =
    let (_, _, _, written) = copyout-writes m.user ptr base size m.kernel b l done in
    ap (λ bytes. record m { user = record (m.user) { bytes = bytes } }) written

user_transfer-write :
    (ptr base size : ℕ) (m : Memory)
    → base < 2 ^ 32
    → size < 2 ^ 32
    → (user_transfer uio_write ptr base size m).0 ≡ 0
    → (user_transfer uio_write ptr base size m).1 ≡ block uio_userspace uio_write ptr base size m
unfolding user_transfer block
user_transfer-write ptr base size m b l done =
    ap (λ k. record m { kernel = k }) (copyin-reads m.user base ptr size m.kernel b l done)

transfer-block :
    (seg : UioSeg) (dir : UioRw) (ptr base size : ℕ) (m : Memory)
    → base < 2 ^ 32
    → size < 2 ^ 32
    → (transfer seg dir ptr base size m).0 ≡ 0
    → (transfer seg dir ptr base size m).1 ≡ block seg dir ptr base size m
unfolding transfer kernel_transfer block
transfer-block uio_sysspace uio_read ptr base size m b l done = refl
transfer-block uio_sysspace uio_write ptr base size m b l done = refl
transfer-block uio_userspace uio_read ptr base size m b l done =
    user_transfer-read ptr base size m b l done
transfer-block uio_userspace uio_write ptr base size m b l done =
    user_transfer-write ptr base size m b l done
transfer-block uio_userispace uio_read ptr base size m b l done =
    user_transfer-read ptr base size m b l done
transfer-block uio_userispace uio_write ptr base size m b l done =
    user_transfer-write ptr base size m b l done

-- What an outcome has done to the memory where its result is 0.
pub record Delivers (ptr n : ℕ) (uio : Uio) (m : Memory) (r : Moved) : Type 0 where
  pub memory : r.result ≡ 0 → r.memory ≡ in_order uio.uio_segflg uio.uio_rw ptr n uio.uio_iov m

-- What an outcome does where it is a result of 0.
abbrev Does : (ptr n : ℕ) → Uio → Memory → Outcome Moved → Type 0
Does ptr n uio m o = (r : Moved) → o ≡ ok r → Delivers ptr n uio m r

stop-Does :
    (ptr n : ℕ) (uio : Uio) (m : Memory)
    → IsUio uio
    → (ltb 0 n && ltb 0 uio.uio_resid) ≡ false
    → Does ptr n uio m (ok (record { result = 0; uio = uio; memory = m }))
stop-Does ptr n uio m wf stops r e = record {
  memory = λ fine.
      let same : r.memory ≡ m = ground (arith, e) in
      same
      ∙ sym (elim (Bool-cases (ltb 0 n)) [
        | inr none_wanted ↦
            let z : n ≡ 0 = ground arith in
            ap (λ k. in_order uio.uio_segflg uio.uio_rw ptr k uio.uio_iov m) z
            ∙ in_order-nothing uio.uio_segflg uio.uio_rw ptr uio.uio_iov m
        | inl some_wanted ↦
            let z : uio.uio_resid ≡ 0 = ground arith in
            in_order-empty uio.uio_segflg uio.uio_rw ptr n uio.uio_iov m (wf.sum ∙ z)
      ]);
}

-- What is left of the first buffer after a block, and the rest, take what the rest takes.
in_order-rejoin :
    (seg : UioSeg) (dir : UioRw) (ptr n base : ℕ) (iov : Iovec) (rest : List Iovec) (m : Memory)
    → let size = size_of n iov in
      in_order seg dir ptr
        (n - size)
        (record { iov_base = base; iov_len = iov.iov_len - size } ∷ rest)
        m
      ≡ in_order seg dir ptr (n - size) rest m
unfolding in_order
in_order-rejoin seg dir ptr n base iov rest m = elim (Bool-cases (ltb n iov.iov_len)) [
  | inl part ↦
      let z : n - size_of n iov ≡ 0 = ground arith in
      ap
        (λ k.
          in_order seg dir ptr k
            (record { iov_base = base; iov_len = iov.iov_len - size_of n iov } ∷ rest) m)
        z
      ∙ in_order-nothing seg dir ptr
          (record { iov_base = base; iov_len = iov.iov_len - size_of n iov } ∷ rest) m
      ∙ sym (in_order-nothing seg dir ptr rest m)
      ∙ sym (ap (λ k. in_order seg dir ptr k rest m) z)
  | inr whole ↦
      let over : ((if ltb (n - size_of n iov) (iov.iov_len - size_of n iov)
              then n - size_of n iov
              else iov.iov_len - size_of n iov)
            == 0)
          ≡ true =
        ground arith in
      rw over refl
]

module _ (go : Go) (ptr n : ℕ) (uio : Uio) (m : Memory) (wf : IsUio uio)
    (goes : (ptr' n' : ℕ) (uio' : Uio) (m' : Memory)
      → IsUio uio'
      → AllWords uio'.uio_iov
      → Does ptr' n' uio' m' (go ptr' n' uio' m')) where
  next_iov-Does :
      (iov : Iovec) (rest : List Iovec)
      → uio.uio_iov ≡ iov ∷ rest
      → AllWords rest
      → iov.iov_len ≡ 0
      → Does ptr n uio m (next_iov go ptr n rest uio m)
  unfolding next_iov total in_order
  next_iov-Does iov [] here words empty r e = absurd (ground (arith, e))
  next_iov-Does iov (iov' ∷ rest) here words empty r e =
      let sum : iov.iov_len + total (iov' ∷ rest) ≡ uio.uio_resid = sym (ap total here) ∙ wf.sum in
      let d =
        goes ptr n (record uio { uio_iov = iov' ∷ rest }) m
          (record { sum = omega (arith, sum, empty); resid = wf.resid; offset = wf.offset }) words r
          e in
      let none_here : (size_of n iov == 0) ≡ true = ground (arith, empty) in
      record {
        memory = λ fine.
            d.memory fine
            ∙ sym
                (ap (λ l. in_order uio.uio_segflg uio.uio_rw ptr n l m) here ∙ (rw none_here refl));
      }

  after_transfer-Does :
      (iov : Iovec) (rest : List Iovec)
      → uio.uio_iov ≡ iov ∷ rest
      → iov.iov_base < 2 ^ 32
      → AllWords rest
      → (size_of n iov == 0) ≡ false
      → Does ptr n uio m (
          after_transfer go ptr n
            (size_of n iov)
            iov
            rest
            uio
            (transfer uio.uio_segflg uio.uio_rw ptr iov.iov_base (size_of n iov) m))
  unfolding after_transfer advance total in_order AllWords
  after_transfer-Does iov rest here base words real r e = elim (Bool-cases (t.0 == 0)) [
    | inr bad ↦ record { memory = λ fine. absurd (stopped bad fine) }
    | inl good ↦ record { memory = λ fine. moved good fine }
  ]
    where
      size : ℕ
      size = size_of n iov

      t : (result : ℕ) × Memory
      t = transfer uio.uio_segflg uio.uio_rw ptr iov.iov_base size m

      sum : iov.iov_len + total rest ≡ uio.uio_resid
      sum = sym (ap total here) ∙ wf.sum

      stopped : (t.0 == 0) ≡ false → r.result ≢ 0
      stopped bad fine =
          let stuck : ok (record { result = t.0; uio = uio; memory = t.1 }) ≡ ok r =
            ground (arith, e, bad) in
          ground (arith, stuck, bad, fine)

      ran :
          (t.0 == 0) ≡ true
          → go (word (ptr + size)) (n - size) (advance size iov rest uio) t.1 ≡ ok r
      ran good = ground (arith, e, good)

      moved :
          (t.0 == 0) ≡ true
          → r.result ≡ 0
          → r.memory ≡ in_order uio.uio_segflg uio.uio_rw ptr n uio.uio_iov m
      moved good fine =
          let low : size ≤ iov.iov_len = ground arith in
          let d =
            goes (word (ptr + size)) (n - size) (advance size iov rest uio) t.1
              (advance-IsUio size iov rest uio wf here low).0 (omega arith, words) r (ran good) in
          d.memory fine
          ∙ in_order-rejoin uio.uio_segflg uio.uio_rw (word (ptr + size)) n
              (word (iov.iov_base + size)) iov rest t.1
          ∙ ap (in_order uio.uio_segflg uio.uio_rw (word (ptr + size)) (n - size) rest) (
              transfer-block uio.uio_segflg uio.uio_rw ptr iov.iov_base size m base
                (omega (arith, low, sum, wf.resid)) (ground (arith, good)))
          ∙ sym (ap (λ l. in_order uio.uio_segflg uio.uio_rw ptr n l m) here ∙ rw real refl)

  turn-Does :
      (iovs : List Iovec)
      → uio.uio_iov ≡ iovs
      → AllWords iovs
      → 0 < n
      → Does ptr n uio m (turn go ptr n iovs uio m)
  unfolding turn AllWords
  turn-Does [] here words some_bytes r e = absurd (ground (arith, e))
  turn-Does (iov ∷ rest) here words some_bytes r e = elim (Bool-cases (size_of n iov == 0)) [
    | inl empty ↦ next_iov-Does iov rest here words.1 (ground arith) r (ground (arith, e, empty))
    | inr real ↦ after_transfer-Does iov rest here words.0 words.1 real r (ground (arith, e, real))
  ]

uiomove_loop-Does :
    (fuel ptr n : ℕ) (uio : Uio) (m : Memory)
    → IsUio uio
    → AllWords uio.uio_iov
    → Does ptr n uio m (uiomove_loop fuel ptr n uio m)
unfolding uiomove_loop
uiomove_loop-Does zero ptr n uio m wf words r e = absurd (ground (arith, e))
uiomove_loop-Does (suc fuel) ptr n uio m wf words r e =
    elim (Bool-cases (ltb 0 n && ltb 0 uio.uio_resid)) [
      | inr stops ↦ stop-Does ptr n uio m wf stops r (ground (arith, e, stops))
      | inl on ↦
          turn-Does (uiomove_loop fuel) ptr n uio m wf
            (λ ptr' n' uio' m' wf' words'. uiomove_loop-Does fuel ptr' n' uio' m' wf' words')
            uio.uio_iov refl words (ground arith) r (ground (arith, e, on))
    ]

-- Where the buffers hold exactly what a uio has left to move, their addresses are words, and it names
-- the current address space (or none, in the kernel), uiomove of `n` bytes ends and never stops the
-- kernel. It moves `done` bytes, at most `n`; what is left, the offset and the buffers count them
-- exactly, also where a transfer fails on the way; in the kernel the result is 0. A result of 0 means
-- that all `n` bytes are moved or nothing is left, and then the memory is what copying the first `n`
-- bytes of the buffers leaves, one buffer after the other: to the buffers for a read, and from them
-- for a write.
pub uiomove-Delivers :
    (curas ptr n : ℕ) (uio : Uio) (m : Memory)
    → IsUio uio
    → AllWords uio.uio_iov
    → uio.uio_space ≡ space_for curas uio.uio_segflg
    → (r : Moved) × (done : ℕ) × (uiomove curas ptr n uio m ≡ ok r)
      × Moves n uio r done
      × Delivers ptr n uio m r
unfolding uiomove
uiomove-Delivers curas ptr n uio m wf words space =
    let (r, done, e, moves) = uiomove-Ends curas ptr n uio m wf space in
    let named : (uio.uio_space == space_for curas uio.uio_segflg) ≡ true = ground arith in
    (
      r,
      done,
      e,
      moves,
      uiomove_loop-Does (suc (n + length uio.uio_iov)) ptr n uio m wf words r
          (ground (arith, e, named)),
    )
