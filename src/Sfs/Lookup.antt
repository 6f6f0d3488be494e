-- ===== src/Sfs/Lookup.antt =====
-- Where sfs_bmap finds the blocks of a file.
use os161_project_c.Base.{
  ℕ, ◌-◌, ◌/◌, ◌<◌, ◌≡◌, refl, ap, ◌≢◌, inl, inr, Bool, true, false, arith, ltb, leb, ◌==◌,
  if◌then◌else◌, ok, Bool-cases,
}
use os161_project_c.Bitmap.{bitmap_isset}
use os161_project_c.Sfs.{
  Device, Block, Fs, Inode, ndirect, dbperidb, sfs_bused, hand_back, indirect_block, sfs_bmap,
}

-- What the block device documents: a block that was written reads back, and the others are as
-- before.
pub record IsDevice (dev : Device) : Type 0 where
  pub read_back :
      (d d' : dev.Disk) (b : ℕ) (blk : Block)
      → dev.write d b blk ≡ (0, d')
      → dev.read d' b ≡ (0, blk)
  pub read_other :
      (d d' : dev.Disk) (b c : ℕ) (blk : Block)
      → dev.write d b blk ≡ (0, d')
      → c ≢ b
      → dev.read d' c ≡ dev.read d c

-- The blocks that a file can have.
abbrev pub max_blocks : ℕ
max_blocks = 143

-- The block of the disk that holds a block of the file, 0 for none.
unfoldable pub block_of : (dev : Device) → Inode → dev.Disk → ℕ → ℕ
block_of dev inode disk fileblock =
    if ltb fileblock ndirect
    then inode.sfi_direct fileblock
    else if inode.sfi_indirect == 0
    then 0
    else (dev.read disk inode.sfi_indirect).1 (fileblock - ndirect)

-- The blocks of the file are blocks of the disk in use, and the indirect block can be read.
pub record IsFile (dev : Device) (inode : Inode) (s : Fs dev) : Type 0 where
  pub mapped :
      (fileblock : ℕ)
      → fileblock < max_blocks
      → let b = block_of dev inode s.disk fileblock in
        b ≢ 0 → (b < s.sb_nblocks) × (bitmap_isset s.sfs_freemap b ≡ true)
  pub indirect :
      inode.sfi_indirect ≢ 0
      → (bitmap_isset s.sfs_freemap inode.sfi_indirect ≡ true)
        × ((dev.read s.disk inode.sfi_indirect).0 ≡ 0)

module _ (dev : Device) where
  pub block_of-direct :
      (inode : Inode) (d : dev.Disk) (fb : ℕ)
      → ltb fb ndirect ≡ true
      → block_of dev inode d fb ≡ inode.sfi_direct fb
  unfolding block_of
  block_of-direct inode d fb e = rw e refl

  pub block_of-indirect :
      (inode : Inode) (d : dev.Disk) (fb : ℕ)
      → ltb fb ndirect ≡ false
      → (inode.sfi_indirect == 0) ≡ false
      → block_of dev inode d fb ≡ (dev.read d inode.sfi_indirect).1 (fb - ndirect)
  unfolding block_of
  block_of-indirect inode d fb e e' = rw (e, e') refl

  -- Behind the direct blocks, sfs_bmap goes to the entry of the indirect block.
  pub sfs_bmap-indirect :
      (inode : Inode) (s : Fs dev) (fb : ℕ) (doalloc : Bool)
      → ltb fb ndirect ≡ false
      → fb < max_blocks
      → sfs_bmap dev fb doalloc inode s ≡ indirect_block dev (fb - ndirect) doalloc inode s
  unfolding sfs_bmap
  sfs_bmap-indirect inode s fb doalloc e low =
      let here : leb 1 ((fb - ndirect) / dbperidb) ≡ false = ground arith in
      rw (e, here) (ap (λ k. indirect_block dev k doalloc inode s) (ground arith))

  -- A block in use is handed back.
  pub hand_back-ok :
      (b : ℕ) (inode : Inode) (s : Fs dev)
      → (b ≢ 0 → (b < s.sb_nblocks) × (bitmap_isset s.sfs_freemap b ≡ true))
      → hand_back dev b inode s ≡ ok (record { result = 0; diskblock = b; inode = inode; fs = s })
  unfolding hand_back sfs_bused
  hand_back-ok b inode s used = elim (Bool-cases (b == 0)) [
    | inl null ↦ rw null refl
    | inr there ↦
        let (low, set) = used (ground arith) in
        let inside : ltb b s.sb_nblocks ≡ true = ground arith in rw (there, inside, set) refl
  ]
