-- ===== src/Sfs/Balloc.antt =====
-- What allocating, freeing and checking a block do to the free map.
use os161_project_c.Base.{
  ℕ, ◌≤◌, ◌<◌, ◌≡◌, refl, ◌≢◌, inl, inr, Bool, true, false, arith, ltb, ◌==◌, Option, Outcome, ok,
  ◌>>=◌, Bool-cases,
}
use os161_project_c.Bitmap.{Bitmap, bitmap_alloc, bitmap_isset}
use os161_project_c.Bitmap.Bits.{IsWf, Changed, Changed-IsWf, bitmap_unmark-ok}
use os161_project_c.Bitmap.Alloc.{Allocates, allocated, no_space, bitmap_alloc-Allocates}
use os161_project_c.Sfs.{
  Device, Fs, Allocation, enospc, zeros, clear_new, take_block, sfs_balloc, sfs_bfree,
}

-- The free map covers the disk, and marks the superblock and what is beyond the disk as used.
pub record IsMounted (dev : Device) (s : Fs dev) : Type 0 where
  pub wf : IsWf s.sfs_freemap
  pub covers : s.sb_nblocks ≤ s.sfs_freemap.nbits
  pub beyond :
      (i : ℕ) → s.sb_nblocks ≤ i → i < s.sfs_freemap.nbits → bitmap_isset s.sfs_freemap i ≡ true
  pub superblock : bitmap_isset s.sfs_freemap 0 ≡ true

-- A state whose free map differs in one bit, and not on the blocks that are beyond the disk.
Changed-IsMounted :
    {dev : Device} (s : Fs dev) (b : ℕ) (value : Bool) (freemap : Bitmap) (disk : dev.Disk)
    (dirty : Bool)
    → IsMounted dev s
    → b < s.sb_nblocks
    → 0 < b
    → Changed s.sfs_freemap b value freemap
    → IsMounted dev (record s { sfs_freemap = freemap; disk = disk; sfs_freemapdirty = dirty })
Changed-IsMounted s b value freemap disk dirty h low pos c = record {
  wf = Changed-IsWf h.wf (omega (arith, h.covers)) c;
  covers = omega (arith, h.covers, c.size);
  beyond = λ i beyond inside. ground (arith, c.others i, h.beyond i, c.size);
  superblock = ground (arith, c.others 0, h.superblock);
}

-- How sfs_balloc ends: with a block that was free and is zeroed, with an error of the device, or with
-- a disk that is full.
pub data Takes (dev : Device) (s : Fs dev) : Outcome (Allocation dev) → Type 0 where
  took :
      (b : ℕ) (s' : Fs dev)
      → (0 < b) × (b < s.sb_nblocks)
      → bitmap_isset s.sfs_freemap b ≡ false
      → Changed s.sfs_freemap b true s'.sfs_freemap
      → dev.write s.disk b zeros ≡ (0, s'.disk)
      → s'.sb_nblocks ≡ s.sb_nblocks
      → IsMounted dev s'
      → Takes dev s (ok (record { result = 0; diskblock = b; fs = s' }))
  failed :
      (result b : ℕ) (s' : Fs dev)
      → result ≢ 0
      → ((i : ℕ) → bitmap_isset s'.sfs_freemap i ≡ bitmap_isset s.sfs_freemap i)
      → IsMounted dev s'
      → Takes dev s (ok (record { result = result; diskblock = b; fs = s' }))
  full :
      ((i : ℕ) → i < s.sb_nblocks → bitmap_isset s.sfs_freemap i ≡ true)
      → Takes dev s (ok (record { result = enospc; diskblock = 0; fs = s }))

module _ {dev : Device} (s : Fs dev) (h : IsMounted dev s) where
  -- A block that the free map calls free is one of the disk, and not the superblock.
  on_disk :
      (b : ℕ)
      → b < s.sfs_freemap.nbits
      → bitmap_isset s.sfs_freemap b ≡ false
      → (0 < b) × (b < s.sb_nblocks)
  on_disk b low free = elim (Bool-cases (ltb b s.sb_nblocks)) [
    | inl inside ↦ elim (Bool-cases (b == 0)) [
      | inl first ↦ let e : b ≡ 0 = ground arith in absurd (ground (arith, h.superblock, e))
      | inr later ↦ (ground arith, ground arith)
    ]
    | inr outside ↦ absurd (ground (arith, h.beyond b))
  ]

  clear_new-Takes :
      (b : ℕ) (freemap : Bitmap)
      → (0 < b) × (b < s.sb_nblocks)
      → bitmap_isset s.sfs_freemap b ≡ false
      → Changed s.sfs_freemap b true freemap
      → Takes dev s (clear_new dev b (record s { sfs_freemap = freemap; sfs_freemapdirty = true }))
  unfolding clear_new
  clear_new-Takes b freemap range free c = elim (Bool-cases ((dev.write s.disk b zeros).0 == 0)) [
    | inl written ↦ rw written (
        let e : (dev.write s.disk b zeros).0 ≡ 0 = ground arith in
        took b _ range free c (ground arith) refl (
          Changed-IsMounted s b true freemap (dev.write s.disk b zeros).1 true h range.1 range.0 c))
    | inr fails ↦
        let (back, unmarked, c') =
          bitmap_unmark-ok freemap b (omega (arith, h.covers, c.size, range)) c.now in
        rw (fails, unmarked)
          (failed (dev.write s.disk b zeros).0 b _ (ground arith)
            (λ i. elim (Bool-cases (i == b)) [
              | inl same ↦ let e : i ≡ b = ground arith in rw e (ground (arith, c'.now, free))
              | inr other ↦ ground (arith, c'.others i, c.others i)
            ])
            (Changed-IsMounted (record s { sfs_freemap = freemap; sfs_freemapdirty = true }) b false
              back (dev.write s.disk b zeros).1 true
              (Changed-IsMounted s b true freemap s.disk true h range.1 range.0 c) range.1 range.0
              c'))
  ]

  take_block-Takes :
      (o : Outcome (Option (ℕ × Bitmap)))
      → Allocates s.sfs_freemap o
      → Takes dev s (o >>= take_block dev s)
  unfolding take_block
  take_block-Takes _ (allocated b freemap low free before c wf) =
      let range = on_disk b low free in
      let inside : ltb b s.sb_nblocks ≡ true = ground (arith, range) in
      rw inside (clear_new-Takes b freemap range free c)
  take_block-Takes _ (no_space all) = full λ i low. all i (omega (arith, h.covers))

-- On a mounted file system sfs_balloc never stops the kernel: it takes a block of the disk that was
-- free, zeroed, and marks it alone; or the device fails and the free map is as before; or no block
-- of the disk is free.
pub sfs_balloc-Takes :
    {dev : Device} (s : Fs dev) → IsMounted dev s → Takes dev s (sfs_balloc dev s)
unfolding sfs_balloc
sfs_balloc-Takes s h =
    take_block-Takes s h (bitmap_alloc s.sfs_freemap) (bitmap_alloc-Allocates s.sfs_freemap h.wf)

-- sfs_bfree of a block that sfs_balloc may have given makes it free again, alone, and keeps the file
-- system mounted.
pub sfs_bfree-frees :
    {dev : Device} (s : Fs dev) (b : ℕ)
    → IsMounted dev s
    → 0 < b
    → b < s.sb_nblocks
    → bitmap_isset s.sfs_freemap b ≡ true
    → (s' : Fs dev) × (sfs_bfree dev b s ≡ ok s')
      × IsMounted dev s'
      × Changed s.sfs_freemap b false s'.sfs_freemap
      × (s'.disk ≡ s.disk)
      × (s'.sb_nblocks ≡ s.sb_nblocks)
unfolding sfs_bfree
sfs_bfree-frees s b h pos low used =
    let (freemap, unmarked, c) = bitmap_unmark-ok s.sfs_freemap b (omega (arith, h.covers)) used in
    (
      record s { sfs_freemap = freemap; sfs_freemapdirty = true },
      rw unmarked refl,
      Changed-IsMounted s b false freemap s.disk true h low pos c,
      c,
      refl,
      refl,
    )
