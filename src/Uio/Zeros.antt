-- ===== src/Uio/Zeros.antt =====
-- How many zeros uiomovezeros moves.
use os161_project_c.Base.{
  ℕ, zero, suc, ◌+◌, ◌-◌, ◌≤◌, ◌<◌, ◌≡◌, refl, sym, ap, ◌∙◌, ◌≢◌, inl, inr, true, arith, ltb, ◌==◌,
  if◌then◌else◌, Outcome, ◌>>=◌, Bool-cases,
}
use os161_project_c.Uio.{
  uio_read, Uio, Memory, Moved, space_for, zeros_after, zeros_loop, is_read, uiomovezeros,
}
use os161_project_c.Uio.Moves.{IsUio, Moves, Ends, uiomove-Ends}

module _ (n amt : ℕ) (uio : Uio) (low : amt ≤ n) where
  -- What is moved in two calls.
  both-Moves :
      (r1 r2 : Moved) (done1 done2 : ℕ)
      → Moves amt uio r1 done1
      → r1.result ≡ 0
      → Moves (n - amt) r1.uio r2 done2
      → Moves n uio r2 (done1 + done2)
  both-Moves r1 r2 done1 done2 a fine b = record {
    some_of = omega (arith, a.some_of, b.some_of);
    resid = omega (arith, a.resid, b.resid);
    offset = b.offset ∙ omega (arith, a.offset);
    wf = b.wf;
    seg = b.seg ∙ a.seg;
    space = b.space ∙ a.space;
    all = λ e. elim (a.all fine) [
      | inr empty ↦ inr (omega (arith, b.resid))
      | inl whole ↦ elim (b.all e) [ inr empty ↦ inr empty | inl rest ↦ inl (omega arith) ]
    ];
    in_kernel = λ e. b.in_kernel (a.seg ∙ e);
  }

  -- A call that fails ends the loop.
  first-Moves : (r : Moved) (done : ℕ) → Moves amt uio r done → r.result ≢ 0 → Moves n uio r done
  first-Moves r done a bad = record {
    some_of = omega (arith, a.some_of);
    resid = a.resid;
    offset = a.offset;
    wf = a.wf;
    seg = a.seg;
    space = a.space;
    all = λ e. absurd (bad e);
    in_kernel = a.in_kernel;
  }

  zeros_after-Ends :
      (go : (n : ℕ) → Uio → Memory → Outcome Moved) (o : Outcome Moved)
      → Ends amt uio o
      → ((r : Moved)
          → IsUio r.uio
          → r.uio.uio_segflg ≡ uio.uio_segflg
          → r.uio.uio_space ≡ uio.uio_space
          → Ends (n - amt) r.uio (go (n - amt) r.uio r.memory))
      → Ends n uio (o >>= zeros_after go (n - amt))
  unfolding zeros_after
  zeros_after-Ends go o (r, done, e, a) goes = elim (Bool-cases (r.result == 0)) [
    | inr bad ↦ (r, done, rw (e, bad) refl, first-Moves r done a (ground arith))
    | inl fine ↦
        let (r2, done2, e2, b) = goes r a.wf a.seg a.space in
        (r2, done + done2, rw (e, fine) e2, both-Moves r r2 done done2 a (ground arith) b)
  ]

zeros_loop-Ends :
    (fuel curas source n : ℕ) (uio : Uio) (m : Memory)
    → IsUio uio
    → uio.uio_space ≡ space_for curas uio.uio_segflg
    → n < fuel
    → Ends n uio (zeros_loop fuel curas source n uio m)
unfolding zeros_loop
zeros_loop-Ends zero curas source n uio m wf space enough = absurd (omega arith)
zeros_loop-Ends (suc fuel) curas source n uio m wf space enough = elim (Bool-cases (ltb 0 n)) [
  | inr stops ↦ rw stops (
    _,
    0,
    refl,
    record {
      some_of = omega arith;
      resid = omega arith;
      offset = omega (arith, wf.offset);
      wf = wf;
      seg = refl;
      space = refl;
      all = λ e. inl (ground arith);
      in_kernel = λ e. refl;
    },
  )
  | inl on ↦
      let amt = if ltb n 16 then n else 16 in
      rw on (
        zeros_after-Ends n amt uio (ground arith) (zeros_loop fuel curas source) _
          (uiomove-Ends curas source amt uio m wf space)
          λ r wf' seg same.
            zeros_loop-Ends fuel curas source (n - amt) r.uio r.memory wf'
              (same ∙ space ∙ ap (space_for curas) (sym seg)) (ground arith))
]

-- For a read whose buffers hold exactly what it has left to move, and that names the current address
-- space (or none, in the kernel), uiomovezeros of `n` bytes ends and never stops the kernel. It moves
-- `done` bytes, at most `n`, and counts them exactly over all its calls of uiomove, also where one
-- fails; a result of 0 means that all `n` bytes are moved or nothing is left.
pub uiomovezeros-Ends :
    (curas source n : ℕ) (uio : Uio) (m : Memory)
    → IsUio uio
    → uio.uio_space ≡ space_for curas uio.uio_segflg
    → uio.uio_rw ≡ uio_read
    → Ends n uio (uiomovezeros curas source n uio m)
unfolding uiomovezeros is_read
uiomovezeros-Ends curas source n uio m wf space reads =
    let reading : is_read uio.uio_rw ≡ true = rw reads refl in
    rw reading (zeros_loop-Ends (suc n) curas source n uio m wf space (omega arith))
