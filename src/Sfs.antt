-- ===== src/Sfs.antt =====
-- kern/fs/sfs/sfs_balloc.c and kern/fs/sfs/sfs_bmap.c: the blocks of the simple file system and the
-- map from a file's blocks to the disk's. The free map is a Bitmap. The block device below
-- (sfs_readblock and sfs_writeblock) is a parameter. A block is 128 words. The big lock of the file
-- system is held over each routine, so each is one step.
pub mod Balloc
pub mod Lookup
pub mod Bmap
pub mod Trunc
pub mod Direct
mod Tests
use os161_project_c.Base.{
  ℕ, zero, suc, ◌+◌, ◌-◌, ◌*◌, ◌/◌, ◌%◌, ◌^◌, Bool, true, false, not, ◌&&◌, ltb, leb, ◌==◌,
  if◌then◌else◌, update, for_below, for_each, Option, none, some, Outcome, ok, panic, ◌>>=◌, ◌>>◌,
  kassert,
}
use os161_project_c.Bitmap.{Bitmap, bitmap_alloc, bitmap_unmark, bitmap_isset}

abbrev pub ndirect : ℕ
ndirect = 15

abbrev pub dbperidb : ℕ
dbperidb = 128

abbrev pub blocksize : ℕ
blocksize = 512

abbrev pub enospc : ℕ
enospc = 36

abbrev pub efbig : ℕ
efbig = 38

-- A `uint32_t`
abbrev pub word : ℕ → ℕ
word x = x % 2 ^ 32

abbrev pub Block : Type 0
Block = ℕ → ℕ

abbrev pub zeros : Block
zeros i = 0

-- sfs_readblock and sfs_writeblock, with their results
pub record Device : Type 1 where
  pub Disk : Type 0
  pub read : Disk → ℕ → (result : ℕ) × Block
  pub write : Disk → ℕ → Block → (result : ℕ) × Disk

-- `struct sfs_inode`, as far as the block map reads it, with `sv_dirty`
pub record Inode : Type 0 where
  pub sfi_direct : ℕ → ℕ
  pub sfi_indirect : ℕ
  pub sfi_size : ℕ
  pub sv_dirty : Bool

module _ (dev : Device) where
  -- `struct sfs_fs` and the disk
  pub record Fs : Type 0 where
    pub sfs_freemap : Bitmap
    pub sfs_freemapdirty : Bool
    pub sb_nblocks : ℕ
    pub disk : dev.Disk

  -- A result, with the block that was handed out.
  pub record Allocation : Type 0 where
    pub result : ℕ
    pub diskblock : ℕ
    pub fs : Fs

  -- The new block is zeroed; where that fails it is given back.
  unfoldable pub clear_new : (diskblock : ℕ) → Fs → Outcome Allocation
  clear_new diskblock s =
      let (result, disk) = dev.write s.disk diskblock zeros in
      let s1 = record s { disk = disk } in
      if result == 0
      then ok (record { result = 0; diskblock = diskblock; fs = s1 })
      else bitmap_unmark s.sfs_freemap diskblock >>= λ freemap. ok (record {
        result = result;
        diskblock = diskblock;
        fs = record s1 { sfs_freemap = freemap };
      })

  -- What follows bitmap_alloc.
  unfoldable pub take_block : Fs → Option (ℕ × Bitmap) → Outcome Allocation
  unfolding clear_new
  take_block s none = ok (record { result = enospc; diskblock = 0; fs = s })
  take_block s (some (diskblock, freemap)) =
      kassert (ltb diskblock s.sb_nblocks)
      >> clear_new diskblock (record s { sfs_freemap = freemap; sfs_freemapdirty = true })

  unfoldable pub sfs_balloc : Fs → Outcome Allocation
  unfolding take_block
  sfs_balloc s = bitmap_alloc s.sfs_freemap >>= take_block s

  unfoldable pub sfs_bfree : (diskblock : ℕ) → Fs → Outcome Fs
  sfs_bfree diskblock s = bitmap_unmark s.sfs_freemap diskblock >>= λ freemap.
      ok (record s { sfs_freemap = freemap; sfs_freemapdirty = true })

  unfoldable pub sfs_bused : (diskblock : ℕ) → Fs → Outcome Bool
  sfs_bused diskblock s =
      kassert (ltb diskblock s.sb_nblocks) >> ok (bitmap_isset s.sfs_freemap diskblock)

  -- A result, with the block of the disk, 0 for none.
  pub record Mapping : Type 0 where
    pub result : ℕ
    pub diskblock : ℕ
    pub inode : Inode
    pub fs : Fs

  -- The check before a block is handed back.
  unfoldable pub hand_back : (block : ℕ) → Inode → Fs → Outcome Mapping
  unfolding sfs_bused
  hand_back block inode s =
      let found : Mapping = record { result = 0; diskblock = block; inode = inode; fs = s } in
      let checked = sfs_bused block s in
      if block == 0 then ok found else checked >>= λ used. kassert used >> ok found

  -- A failure, with the state that it leaves.
  abbrev pub fail : (result : ℕ) → Inode → Fs → Outcome Mapping
  fail result inode s = ok (record { result = result; diskblock = 0; inode = inode; fs = s })

  -- A new direct block is remembered in the inode.
  unfoldable pub new_direct : (fileblock : ℕ) → Inode → Allocation → Outcome Mapping
  unfolding hand_back
  new_direct fileblock inode a =
      if a.result == 0
      then hand_back a.diskblock
          (record inode {
            sfi_direct = update inode.sfi_direct fileblock a.diskblock;
            sv_dirty = true;
          })
          a.fs
      else fail a.result inode a.fs

  -- The branch on a direct block.
  unfoldable pub direct_block : (fileblock : ℕ) (doalloc : Bool) → Inode → Fs → Outcome Mapping
  unfolding sfs_balloc hand_back new_direct
  direct_block fileblock doalloc inode s =
      let block = inode.sfi_direct fileblock in
      if (block == 0) && doalloc
      then sfs_balloc s >>= new_direct fileblock inode
      else hand_back block inode s

  -- A new block is remembered in the indirect block, which is written back.
  unfoldable pub new_entry :
      (idblock idoff : ℕ) (idbuf : Block) → Inode → Allocation → Outcome Mapping
  unfolding hand_back
  new_entry idblock idoff idbuf inode a =
      let (result, disk) = dev.write a.fs.disk idblock (update idbuf idoff a.diskblock) in
      let s1 : Fs = record (a.fs) { disk = disk } in
      if a.result == 0
      then if result == 0 then hand_back a.diskblock inode s1 else fail result inode s1
      else fail a.result inode a.fs

  -- With the indirect block in `idbuf`.
  unfoldable pub indirect_entry :
      (idblock idoff : ℕ) (doalloc : Bool) (idbuf : Block) → Inode → Fs → Outcome Mapping
  unfolding sfs_balloc hand_back new_entry
  indirect_entry idblock idoff doalloc idbuf inode s =
      let block = idbuf idoff in
      if (block == 0) && doalloc
      then sfs_balloc s >>= new_entry idblock idoff idbuf inode
      else hand_back block inode s

  -- A new indirect block is remembered in the inode, and begins with zeros.
  unfoldable pub new_indirect : (idoff : ℕ) → Inode → Allocation → Outcome Mapping
  unfolding indirect_entry
  new_indirect idoff inode a =
      if a.result == 0
      then indirect_entry a.diskblock idoff true zeros
          (record inode { sfi_indirect = a.diskblock; sv_dirty = true }) a.fs
      else fail a.result inode a.fs

  -- The branch on the indirect block: none and none wanted, a new one, or the one that is there.
  unfoldable pub indirect_block : (idoff : ℕ) (doalloc : Bool) → Inode → Fs → Outcome Mapping
  unfolding sfs_balloc indirect_entry new_indirect
  indirect_block idoff doalloc inode s =
      let idblock = inode.sfi_indirect in
      let (result, idbuf) = dev.read s.disk idblock in
      if idblock == 0
      then if not doalloc
        then ok (record { result = 0; diskblock = 0; inode = inode; fs = s })
        else sfs_balloc s >>= new_indirect idoff inode
      else if result == 0
      then indirect_entry idblock idoff doalloc idbuf inode s
      else fail result inode s

  unfoldable pub sfs_bmap : (fileblock : ℕ) (doalloc : Bool) → Inode → Fs → Outcome Mapping
  unfolding direct_block indirect_block
  sfs_bmap fileblock doalloc inode s =
      let idnum = (fileblock - ndirect) / dbperidb in
      let idoff = (fileblock - ndirect) % dbperidb in
      if ltb fileblock ndirect
      then direct_block fileblock doalloc inode s
      else if leb 1 idnum
      then fail efbig inode s
      else indirect_block idoff doalloc inode s

  -- One turn of the first loop of sfs_itrunc.
  unfoldable pub drop_direct : (blocklen i : ℕ) → Inode × Fs → Outcome (Inode × Fs)
  unfolding sfs_bfree
  drop_direct blocklen i (inode, s) =
      let block = inode.sfi_direct i in
      if leb blocklen i && not (block == 0)
      then (sfs_bfree block s >>= λ s1.
          ok (record inode { sfi_direct = update inode.sfi_direct i 0; sv_dirty = true }, s1))
      else ok (inode, s)

  -- The state of the second loop, over the entries of the indirect block.
  pub record Scan : Type 0 where
    pub idbuf : Block
    pub hasnonzero : Bool
    pub iddirty : Bool
    pub fs : Fs

  -- One turn of the second loop.
  unfoldable pub drop_indirect : (blocklen j : ℕ) → Scan → Outcome Scan
  unfolding sfs_bfree
  drop_indirect blocklen j c =
      let see : Scan → Outcome Scan =
        λ c'. ok (if c'.idbuf j == 0 then c' else record c' { hasnonzero = true }) in
      if ltb blocklen (ndirect + j) && not (c.idbuf j == 0)
      then (sfs_bfree (c.idbuf j) c.fs >>= λ s1.
          see (record c { idbuf = update c.idbuf j 0; iddirty = true; fs = s1 }))
      else see c

  -- A result of sfs_itrunc.
  pub record Truncation : Type 0 where
    pub result : ℕ
    pub inode : Inode
    pub fs : Fs

  abbrev pub set_size : (len : ℕ) → Inode → Fs → Truncation
  set_size len inode s = record {
    result = 0;
    inode = record inode { sfi_size = word len; sv_dirty = true };
    fs = s;
  }

  -- The end of the second loop: the indirect block goes, or is written back, or stays.
  unfoldable pub finish_indirect : (len idblock : ℕ) → Inode → Scan → Outcome Truncation
  unfolding sfs_bfree
  finish_indirect len idblock inode c =
      let (result, disk) = dev.write c.fs.disk idblock c.idbuf in
      let s1 : Fs = record (c.fs) { disk = disk } in
      if not c.hasnonzero
      then (sfs_bfree idblock c.fs >>= λ s2.
          ok (set_size len (record inode { sfi_indirect = 0; sv_dirty = true }) s2))
      else if c.iddirty
      then if result == 0
        then ok (set_size len inode s1)
        else ok (record { result = result; inode = inode; fs = s1 })
      else ok (set_size len inode c.fs)

  -- The indirect block, where there is one and the file may end before its highest entry.
  unfoldable pub trunc_indirect : (len blocklen : ℕ) → Inode × Fs → Outcome Truncation
  unfolding drop_indirect finish_indirect
  trunc_indirect len blocklen (inode, s) =
      let idblock = inode.sfi_indirect in
      let (result, idbuf) = dev.read s.disk idblock in
      let highblock = ndirect + dbperidb - 1 in
      if ltb blocklen highblock && not (idblock == 0)
      then if result == 0
        then for_each dbperidb (drop_indirect blocklen)
            (record { idbuf = idbuf; hasnonzero = false; iddirty = false; fs = s })
          >>= finish_indirect len idblock inode
        else ok (record { result = result; inode = inode; fs = s })
      else ok (set_size len inode s)

  unfoldable pub sfs_itrunc : (len : ℕ) → Inode → Fs → Outcome Truncation
  unfolding drop_direct trunc_indirect
  sfs_itrunc len inode s =
      let blocklen = word ((len + (blocksize - 1)) / blocksize) in
      for_each ndirect (drop_direct blocklen) (inode, s) >>= trunc_indirect len blocklen
