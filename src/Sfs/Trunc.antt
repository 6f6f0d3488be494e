-- ===== src/Sfs/Trunc.antt =====
-- What sfs_itrunc leaves of a file that is cut short by one block.
use os161_project_c.Base.{
  ℕ, zero, suc, ◌+◌, ◌-◌, ◌/◌, ◌≤◌, ◌<◌, ◌≡◌, refl, ◌≢◌, inl, inr, Bool, true, false, arith, ltb,
  leb, ◌==◌, if◌then◌else◌, for_each, Outcome, ok, Bool-cases,
}
use os161_project_c.Sfs.{
  Device, Block, Fs, Inode, Scan, ndirect, dbperidb, blocksize, word, set_size, drop_direct,
  drop_indirect, finish_indirect, trunc_indirect, sfs_itrunc,
}

-- A loop whose body leaves the state alone.
for_each-still :
    {S : Type 0} (n : ℕ) (body : ℕ → S → Outcome S) (s : S)
    → ((i : ℕ) → i < n → body i s ≡ ok s)
    → for_each n body s ≡ ok s
unfolding for_each
for_each-still zero body s still = refl
for_each-still (suc n) body s still =
    rw (for_each-still n body s λ i l. still i (omega arith)) (still n (omega arith))

module _ (dev : Device) (inode : Inode) (s : Fs dev) (blocklen : ℕ) where
  -- No direct block is dropped while the file keeps more than those.
  drop_direct-none :
      (i : ℕ)
      → i < ndirect
      → ndirect ≤ blocklen
      → drop_direct dev blocklen i (inode, s) ≡ ok (inode, s)
  unfolding drop_direct
  drop_direct-none i low long = let kept : leb blocklen i ≡ false = ground arith in rw kept refl

  module _ (idbuf : Block) (only : (j : ℕ) → blocklen < ndirect + j → idbuf j ≡ 0) where
    abbrev scanned : Bool → Scan dev
    scanned seen = record { idbuf = idbuf; hasnonzero = seen; iddirty = false; fs = s }

    -- A turn only notes whether the entry is there.
    drop_indirect-none :
        (j : ℕ) (seen : Bool)
        → drop_indirect dev blocklen j (scanned seen)
          ≡ ok (scanned (if idbuf j == 0 then seen else true))
    unfolding drop_indirect
    drop_indirect-none j seen = elim (Bool-cases (ltb blocklen (ndirect + j))) [
      | inl beyond ↦
          let hole : (idbuf j == 0) ≡ true = ground (arith, only j) in rw (beyond, hole) refl
      | inr inside ↦ elim (Bool-cases (idbuf j == 0)) [
        | inl hole ↦ rw (inside, hole) refl
        | inr there ↦ rw (inside, there) refl
      ]
    ]

    -- Whether one of the first `n` entries is there.
    seen_below : ℕ → Bool
    seen_below zero = false
    seen_below (suc n) = if idbuf n == 0 then seen_below n else true

    drop_indirect-scans :
        (n : ℕ)
        → for_each n (drop_indirect dev blocklen) (scanned false) ≡ ok (scanned (seen_below n))
    unfolding for_each seen_below
    drop_indirect-scans zero = refl
    drop_indirect-scans (suc n) = rw (drop_indirect-scans n) (drop_indirect-none n (seen_below n))

    seen_below-has : (n j : ℕ) → j < n → (idbuf j == 0) ≡ false → seen_below n ≡ true
    unfolding seen_below
    seen_below-has zero j low there = absurd (omega arith)
    seen_below-has (suc n) j low there = elim (Bool-cases (idbuf n == 0)) [
      | inr here ↦ rw here refl
      | inl hole ↦ rw hole (
          seen_below-has n j
            (elim (Bool-cases (j == n)) [
              | inl same ↦ let e : j ≡ n = ground arith in absurd (ground (arith, e))
              | inr other ↦ ground arith
            ])
            there)
    ]

-- A file whose last block is in the indirect block, cut short by that one block, keeps it: where
-- `last` is the number of the block behind the new end and no entry behind `last` is there, sfs_itrunc
-- answers 0 and changes the size only, so block `last` of the file is still mapped, with its old
-- contents.
pub sfs_itrunc-keeps_last :
    (dev : Device) (inode : Inode) (s : Fs dev) (len : ℕ)
    → let last = (len + (blocksize - 1)) / blocksize in
      let idbuf = (dev.read s.disk inode.sfi_indirect).1 in
      ndirect ≤ last
      → last < ndirect + dbperidb
      → inode.sfi_indirect ≢ 0
      → (dev.read s.disk inode.sfi_indirect).0 ≡ 0
      → idbuf (last - ndirect) ≢ 0
      → ((j : ℕ) → last < ndirect + j → idbuf j ≡ 0)
      → sfs_itrunc dev len inode s ≡ ok (set_size dev len inode s)
unfolding sfs_itrunc trunc_indirect finish_indirect
sfs_itrunc-keeps_last dev inode s len from below there readable mapped only =
    rw (whole, directs)
      (elim (Bool-cases (ltb last (ndirect + dbperidb - 1))) [
        | inl inside ↦ rw (inside, has_indirect, is_readable, scans, seen) refl
        | inr highest ↦ rw highest refl
      ])
  where
    last : ℕ
    last = (len + (blocksize - 1)) / blocksize

    idbuf : Block
    idbuf = (dev.read s.disk inode.sfi_indirect).1

    whole : word last ≡ last
    whole = omega arith

    directs : for_each ndirect (drop_direct dev last) (inode, s) ≡ ok (inode, s)
    directs =
        for_each-still ndirect (drop_direct dev last) (inode, s)
          λ i low. drop_direct-none dev inode s last i low from

    has_indirect : (inode.sfi_indirect == 0) ≡ false
    has_indirect = ground arith

    is_readable : ((dev.read s.disk inode.sfi_indirect).0 == 0) ≡ true
    is_readable = ground arith

    scans :
        for_each dbperidb
          (drop_indirect dev last)
          (record { idbuf = idbuf; hasnonzero = false; iddirty = false; fs = s })
        ≡ ok (record {
          idbuf = idbuf;
          hasnonzero = seen_below dev inode s last idbuf only dbperidb;
          iddirty = false;
          fs = s;
        })
    scans = drop_indirect-scans dev inode s last idbuf only dbperidb

    seen : seen_below dev inode s last idbuf only dbperidb ≡ true
    seen =
        seen_below-has dev inode s last idbuf only dbperidb (last - ndirect) (omega arith)
          (ground arith)
