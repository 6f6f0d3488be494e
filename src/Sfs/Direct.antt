-- ===== src/Sfs/Direct.antt =====
-- What sfs_itrunc does to the direct blocks of a file.
use mathlib.Core.Path.{subst}
use os161_project_c.Base.{
  ℕ, zero, suc, ◌+◌, ◌-◌, ◌/◌, ◌≤◌, ◌<◌, ◌^◌, ◌≡◌, refl, sym, ◌∙◌, ◌≢◌, inl, inr, true, false, not,
  ◌&&◌, arith, ltb, leb, ◌==◌, if◌then◌else◌, update, for_each, ok, Bool-cases,
}
use os161_project_c.Bitmap.{bitmap_isset}
use os161_project_c.Bitmap.Bits.{Changed}
use os161_project_c.Sfs.{
  Device, Fs, Inode, ndirect, blocksize, word, set_size, sfs_bfree, drop_direct, trunc_indirect,
  sfs_itrunc,
}
use os161_project_c.Sfs.Balloc.{IsMounted, sfs_bfree-frees}

-- Each direct block of the file is a block of the disk in use, and none is there twice.
pub record Owns (dev : Device) (inode : Inode) (s : Fs dev) : Type 0 where
  pub used :
      (i : ℕ)
      → i < ndirect
      → inode.sfi_direct i ≢ 0
      → (inode.sfi_direct i < s.sb_nblocks)
        × (bitmap_isset s.sfs_freemap (inode.sfi_direct i) ≡ true)
  pub once :
      (i j : ℕ)
      → i < ndirect
      → j < ndirect
      → inode.sfi_direct i ≢ 0
      → inode.sfi_direct i ≡ inode.sfi_direct j
      → i ≡ j

-- The direct blocks from `blocklen` on and below `n` are dropped, and nothing else.
pub record Dropped (dev : Device) (blocklen n : ℕ) (inode inode' : Inode) (s s' : Fs dev)
    : Type 0 where
  pub directs :
      (i : ℕ) → inode'.sfi_direct i ≡ (if ltb i n && leb blocklen i then 0 else inode.sfi_direct i)
  pub indirect : inode'.sfi_indirect ≡ inode.sfi_indirect
  pub freed :
      (i : ℕ)
      → i < n
      → blocklen ≤ i
      → inode.sfi_direct i ≢ 0
      → bitmap_isset s'.sfs_freemap (inode.sfi_direct i) ≡ false
  pub kept :
      (b : ℕ)
      → ((i : ℕ) → i < n → blocklen ≤ i → inode.sfi_direct i ≢ b)
      → bitmap_isset s'.sfs_freemap b ≡ bitmap_isset s.sfs_freemap b
  pub mounted : IsMounted dev s'
  pub blocks : s'.sb_nblocks ≡ s.sb_nblocks
  pub same_disk : s'.disk ≡ s.disk

module _ (dev : Device) (blocklen : ℕ) (inode : Inode) (s : Fs dev) (owns : Owns dev inode s) where
  -- A turn on a block that stays, or on a place without one.
  skip-Dropped :
      (n : ℕ) (inode1 : Inode) (s1 : Fs dev)
      → Dropped dev blocklen n inode inode1 s s1
      → (leb blocklen n && not (inode.sfi_direct n == 0)) ≡ false
      → Dropped dev blocklen (suc n) inode inode1 s s1
  skip-Dropped n inode1 s1 d stays = record {
    directs = λ i. elim (Bool-cases (i == n)) [
      | inl same ↦ let e : i ≡ n = ground arith in rw e (ground (arith, d.directs n))
      | inr other ↦ ground (arith, d.directs i)
    ];
    indirect = d.indirect;
    freed = λ i l b r. elim (Bool-cases (i == n)) [
      | inl same ↦ let e : i ≡ n = ground arith in absurd (ground (arith, e))
      | inr other ↦ d.freed i (ground arith) b r
    ];
    kept = λ b away. d.kept b λ i l. away i (omega arith);
    mounted = d.mounted;
    blocks = d.blocks;
    same_disk = d.same_disk;
  }

  -- A turn on a block that goes.
  drop-Dropped :
      (n : ℕ) (inode1 : Inode) (s1 s2 : Fs dev)
      → n < ndirect
      → Dropped dev blocklen n inode inode1 s s1
      → blocklen ≤ n
      → inode.sfi_direct n ≢ 0
      → IsMounted dev s2
      → Changed s1.sfs_freemap (inode.sfi_direct n) false s2.sfs_freemap
      → s2.disk ≡ s1.disk
      → s2.sb_nblocks ≡ s1.sb_nblocks
      → Dropped dev blocklen
          (suc n)
          inode
          (record inode1 { sfi_direct = update inode1.sfi_direct n 0; sv_dirty = true })
          s
          s2
  drop-Dropped n inode1 s1 s2 low d beyond there mounted c disk blocks = record {
    directs = λ i. elim (Bool-cases (i == n)) [
      | inl same ↦ let e : i ≡ n = ground arith in rw e (ground arith)
      | inr other ↦ ground (arith, d.directs i)
    ];
    indirect = d.indirect;
    freed = λ i l b r. elim (Bool-cases (i == n)) [
      | inl same ↦ let e : i ≡ n = ground arith in rw e c.now
      | inr other ↦
          c.others (inode.sfi_direct i)
            (λ twice. ground (arith, owns.once i n (omega arith) low r twice))
          ∙ d.freed i (ground arith) b r
    ];
    kept = λ b away.
        c.others b (λ same. away n (omega arith) beyond (sym same))
        ∙ d.kept b λ i l. away i (omega arith);
    mounted = mounted;
    blocks = blocks ∙ d.blocks;
    same_disk = disk ∙ d.same_disk;
  }

  -- The block that goes is still in use when its turn comes.
  still_used :
      (n : ℕ) (inode1 : Inode) (s1 : Fs dev)
      → n < ndirect
      → Dropped dev blocklen n inode inode1 s s1
      → inode.sfi_direct n ≢ 0
      → (inode.sfi_direct n < s1.sb_nblocks)
        × (bitmap_isset s1.sfs_freemap (inode.sfi_direct n) ≡ true)
  still_used n inode1 s1 low d there =
      let (on_disk, used) = owns.used n low there in
      (
        omega (arith, d.blocks),
        d.kept (inode.sfi_direct n)
              (λ i l b twice. ground (arith, owns.once n i low (omega arith) there (sym twice)))
            ∙ used,
      )

  -- One turn never stops the kernel.
  turn-Dropped :
      (n : ℕ) (inode1 : Inode) (s1 : Fs dev)
      → n < ndirect
      → Dropped dev blocklen n inode inode1 s s1
      → (inode2 : Inode) × (s2 : Fs dev) × (drop_direct dev blocklen n (inode1, s1)
          ≡ ok (inode2, s2))
        × Dropped dev blocklen (suc n) inode inode2 s s2
  unfolding drop_direct
  turn-Dropped n inode1 s1 low d =
      elim (Bool-cases (leb blocklen n && not (inode.sfi_direct n == 0))) [
        | inr stays ↦ (inode1, s1, rw (here, stays) refl, skip-Dropped n inode1 s1 d stays)
        | inl goes ↦
            let there : inode.sfi_direct n ≢ 0 = ground arith in
            let (on_disk, used) = still_used n inode1 s1 low d there in
            let (s2, bfree, mounted, c, disk, blocks) =
              sfs_bfree-frees s1 (inode.sfi_direct n) d.mounted (omega arith) on_disk used in
            (
              record inode1 { sfi_direct = update inode1.sfi_direct n 0; sv_dirty = true },
              s2,
              freeing s2 goes bfree,
              drop-Dropped n inode1 s1 s2 low d (ground arith) there mounted c disk blocks,
            )
      ]
    where
      here : inode1.sfi_direct n ≡ inode.sfi_direct n
      here = ground (arith, d.directs n)

      freeing :
          (s2 : Fs dev)
          → (leb blocklen n && not (inode.sfi_direct n == 0)) ≡ true
          → sfs_bfree dev (inode.sfi_direct n) s1 ≡ ok s2
          → drop_direct dev blocklen n (inode1, s1)
            ≡ ok (record inode1 { sfi_direct = update inode1.sfi_direct n 0; sv_dirty = true }, s2)
      freeing s2 goes bfree =
          rw (subst (λ k. (leb blocklen n && not (k == 0)) ≡ true) (sym here) goes)
            (rw (subst (λ k. sfs_bfree dev k s1 ≡ ok s2) (sym here) bfree) refl)

  -- The loop over the direct blocks never stops the kernel.
  drop_direct-Dropped :
      (n : ℕ)
      → n ≤ ndirect
      → IsMounted dev s
      → (inode' : Inode) × (s' : Fs dev) × (for_each n (drop_direct dev blocklen) (inode, s)
          ≡ ok (inode', s'))
        × Dropped dev blocklen n inode inode' s s'
  unfolding for_each
  drop_direct-Dropped zero low h = (
    inode,
    s,
    refl,
    record {
      directs = λ i. ground arith;
      indirect = refl;
      freed = λ i l. absurd (omega arith);
      kept = λ b away. refl;
      mounted = h;
      blocks = refl;
      same_disk = refl;
    },
  )
  drop_direct-Dropped (suc n) low h =
      let (inode1, s1, done, d) = drop_direct-Dropped n (omega arith) h in
      let (inode2, s2, turned, d') = turn-Dropped n inode1 s1 (omega arith) d in
      (inode2, s2, rw done turned, d')

-- sfs_itrunc of a file without an indirect block, whose direct blocks are in use and all different, to
-- a length of fewer than 2^32 blocks:
-- it answers 0, sets the size, takes out of the file and frees exactly the blocks behind the new
-- end, and leaves every other block of the disk and of the file as it was.
pub sfs_itrunc-Dropped :
    (dev : Device) (inode : Inode) (s : Fs dev) (len : ℕ)
    → (len + (blocksize - 1)) / blocksize < 2 ^ 32
    → IsMounted dev s
    → Owns dev inode s
    → inode.sfi_indirect ≡ 0
    → (inode' : Inode) × (s' : Fs dev) × (sfs_itrunc dev len inode s
        ≡ ok (set_size dev len inode' s'))
      × Dropped dev ((len + (blocksize - 1)) / blocksize) ndirect inode inode' s s'
unfolding sfs_itrunc trunc_indirect
sfs_itrunc-Dropped dev inode s len short h owns direct_only =
    let (inode', s', done, d) =
      drop_direct-Dropped dev ((len + (blocksize - 1)) / blocksize) inode s owns ndirect
        (omega arith) h in
    (inode', s', rw (whole, done) (finishes inode' s' (d.indirect ∙ direct_only)), d)
  where
    whole : word ((len + (blocksize - 1)) / blocksize) ≡ (len + (blocksize - 1)) / blocksize
    whole = omega arith

    blocklen : ℕ
    blocklen = (len + (blocksize - 1)) / blocksize

    finishes :
        (inode' : Inode) (s' : Fs dev)
        → inode'.sfi_indirect ≡ 0
        → trunc_indirect dev len blocklen (inode', s') ≡ ok (set_size dev len inode' s')
    finishes inode' s' e = elim (Bool-cases (ltb blocklen 142)) [
      | inl inside ↦
          let null : (inode'.sfi_indirect == 0) ≡ true = ground arith in rw (inside, null) refl
      | inr outside ↦ rw outside refl
    ]
