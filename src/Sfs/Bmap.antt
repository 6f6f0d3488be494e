-- ===== src/Sfs/Bmap.antt =====
-- What sfs_bmap allocates.
use os161_project_c.Base.{
  ℕ, ◌-◌, ◌<◌, ◌≡◌, refl, ap, ◌∙◌, ◌≢◌, inl, inr, true, false, arith, ltb, ◌==◌, update, Outcome,
  ok, ◌>>=◌, Bool-cases,
}
use os161_project_c.Bitmap.{bitmap_isset}
use os161_project_c.Bitmap.Bits.{Changed}
use os161_project_c.Sfs.{
  Device, Block, Fs, Inode, Allocation, Mapping, ndirect, zeros, enospc, sfs_balloc, new_direct,
  direct_block, new_entry, indirect_entry, new_indirect, indirect_block, sfs_bmap,
}
use os161_project_c.Sfs.Balloc.{IsMounted, Takes, took, failed, full, sfs_balloc-Takes}
use os161_project_c.Sfs.Lookup.{
  IsDevice, max_blocks, block_of, IsFile, block_of-direct, block_of-indirect, sfs_bmap-indirect,
  hand_back-ok,
}

-- How sfs_bmap ends where the block of the file is missing and it is asked to allocate: with a new
-- block at that place alone, or with an error.
pub data Maps (dev : Device) (inode : Inode) (s : Fs dev) (fileblock : ℕ)
    : Outcome (Mapping dev) → Type 0 where
  maps :
      (b : ℕ) (inode' : Inode) (s' : Fs dev)
      → 0 < b
      → bitmap_isset s.sfs_freemap b ≡ false
      → bitmap_isset s'.sfs_freemap b ≡ true
      → block_of dev inode' s'.disk fileblock ≡ b
      → ((fb : ℕ) → fb ≢ fileblock → block_of dev inode' s'.disk fb ≡ block_of dev inode s.disk fb)
      → Maps dev inode s fileblock
          (ok (record { result = 0; diskblock = b; inode = inode'; fs = s' }))
  fails :
      (result : ℕ) (inode' : Inode) (s' : Fs dev)
      → result ≢ 0
      → Maps dev inode s fileblock
          (ok (record { result = result; diskblock = 0; inode = inode'; fs = s' }))

-- How the entry of the indirect block is set.
data Enters (dev : Device) (idblock idoff : ℕ) (idbuf : Block) (inode : Inode) (s : Fs dev)
    : Outcome (Mapping dev) → Type 0 where
  enters :
      (b : ℕ) (s' : Fs dev)
      → 0 < b
      → bitmap_isset s.sfs_freemap b ≡ false
      → bitmap_isset s'.sfs_freemap b ≡ true
      → dev.read s'.disk idblock ≡ (0, update idbuf idoff b)
      → Enters dev idblock idoff idbuf inode s
          (ok (record { result = 0; diskblock = b; inode = inode; fs = s' }))
  refuses :
      (result : ℕ) (s' : Fs dev)
      → result ≢ 0
      → Enters dev idblock idoff idbuf inode s
          (ok (record { result = result; diskblock = 0; inode = inode; fs = s' }))

module _ (dev : Device) (sound : IsDevice dev) where
  new_entry-Enters :
      (idblock idoff : ℕ) (idbuf : Block) (inode : Inode) (s : Fs dev)
      (o : Outcome (Allocation dev))
      → Takes dev s o
      → Enters dev idblock idoff idbuf inode s (o >>= new_entry dev idblock idoff idbuf inode)
  unfolding new_entry
  new_entry-Enters idblock idoff idbuf inode s _ (took b s1 range free c written size mounted) =
      elim (Bool-cases ((dev.write s1.disk idblock (update idbuf idoff b)).0 == 0)) [
        | inl stored ↦
            let e : (dev.write s1.disk idblock (update idbuf idoff b)).0 ≡ 0 = ground arith in
            rw
              (
                stored,
                hand_back-ok dev b inode
                    (record s1 { disk = (dev.write s1.disk idblock (update idbuf idoff b)).1 })
                    (λ real. (ground (arith, size, range), c.now)),
              )
              (enters b _ range.0 free c.now
                (sound.read_back s1.disk _ idblock (update idbuf idoff b) (ground arith)))
        | inr lost ↦ rw lost (refuses _ _ (ground arith))
      ]
  new_entry-Enters idblock idoff idbuf inode s _ (failed result b s1 bad same mounted) =
      let refused : (result == 0) ≡ false = ground arith in rw refused (refuses result s1 bad)
  new_entry-Enters idblock idoff idbuf inode s _ (full all) = refuses enospc s (omega arith)

  module _ (inode : Inode) (s : Fs dev) (fileblock : ℕ) (file : IsFile dev inode s) where
    -- Zeroing a new block leaves the indirect block alone.
    indirect_kept :
        (b : ℕ) (d : dev.Disk)
        → bitmap_isset s.sfs_freemap b ≡ false
        → dev.write s.disk b zeros ≡ (0, d)
        → (inode.sfi_indirect == 0) ≡ false
        → dev.read d inode.sfi_indirect ≡ dev.read s.disk inode.sfi_indirect
    indirect_kept b d free written there =
        sound.read_other s.disk d b inode.sfi_indirect zeros written
          λ same. ground (arith, (file.indirect (ground arith)).0, same, free)

    direct_others :
        (b : ℕ) (d : dev.Disk)
        → bitmap_isset s.sfs_freemap b ≡ false
        → dev.write s.disk b zeros ≡ (0, d)
        → ltb fileblock ndirect ≡ true
        → (fb : ℕ) → fb ≢ fileblock
        → block_of dev
            (record inode { sfi_direct = update inode.sfi_direct fileblock b; sv_dirty = true })
            d
            fb
          ≡ block_of dev inode s.disk fb
    unfolding block_of
    direct_others b d free written direct fb other = elim (Bool-cases (ltb fb ndirect)) [
      | inl low ↦ ground arith
      | inr behind ↦ elim (Bool-cases (inode.sfi_indirect == 0)) [
        | inl null ↦ rw (behind, null) refl
        | inr there ↦
            rw (behind, there) (ap (λ r. r.1 (fb - ndirect)) (indirect_kept b d free written there))
      ]
    ]

    new_direct-Maps :
        (o : Outcome (Allocation dev))
        → Takes dev s o
        → ltb fileblock ndirect ≡ true
        → Maps dev inode s fileblock (o >>= new_direct dev fileblock inode)
    unfolding new_direct block_of
    new_direct-Maps _ (took b s1 range free c written size mounted) direct =
        rw
          (hand_back-ok dev b
            (record inode { sfi_direct = update inode.sfi_direct fileblock b; sv_dirty = true }) s1
            (λ real. (ground (arith, size, range), c.now)))
          (maps b _ s1 range.0 free c.now (ground arith)
            (direct_others b s1.disk free written direct))
    new_direct-Maps _ (failed result b s1 bad same mounted) direct =
        let refused : (result == 0) ≡ false = ground arith in rw refused (fails result inode s1 bad)
    new_direct-Maps _ (full all) direct = fails enospc inode s (omega arith)

    -- An entry of the indirect block that is there.
    new_entry-Maps :
        (m : Outcome (Mapping dev))
        → Enters dev inode.sfi_indirect
            (fileblock - ndirect)
            (dev.read s.disk inode.sfi_indirect).1
            inode
            s
            m
        → ltb fileblock ndirect ≡ false
        → (inode.sfi_indirect == 0) ≡ false
        → Maps dev inode s fileblock m
    unfolding block_of
    new_entry-Maps _ (enters b s' pos free used entry) behind there =
        maps b inode s' pos free used
          (rw (behind, there) (ap (λ r. r.1 (fileblock - ndirect)) entry ∙ ground arith))
          λ fb other. elim (Bool-cases (ltb fb ndirect)) [
            | inl low ↦ rw low refl
            | inr also ↦ rw (also, there) (ap (λ r. r.1 (fb - ndirect)) entry ∙ ground arith)
          ]
    new_entry-Maps _ (refuses result s' bad) behind there = fails result inode s' bad

    -- The first entry of a new indirect block.
    first_entry-Maps :
        (ib : ℕ) (s1 : Fs dev) (m : Outcome (Mapping dev))
        → 0 < ib
        → Changed s.sfs_freemap ib true s1.sfs_freemap
        → Enters dev ib
            (fileblock - ndirect)
            zeros
            (record inode { sfi_indirect = ib; sv_dirty = true })
            s1
            m
        → ltb fileblock ndirect ≡ false
        → (inode.sfi_indirect == 0) ≡ true
        → Maps dev inode s fileblock m
    unfolding block_of
    first_entry-Maps ib s1 _ pos_ib c (enters b s' pos free used entry) behind null =
        let fresh : (ib == 0) ≡ false = ground arith in
        maps b _ s' pos (ground (arith, c.now, c.others b, free)) used
          (rw (behind, fresh) (ap (λ r. r.1 (fileblock - ndirect)) entry ∙ ground arith))
          λ fb other. elim (Bool-cases (ltb fb ndirect)) [
            | inl low ↦ rw low refl
            | inr also ↦ rw (also, fresh, null) (ap (λ r. r.1 (fb - ndirect)) entry ∙ ground arith)
          ]
    first_entry-Maps ib s1 _ pos_ib c (refuses result s' bad) behind null = fails result _ s' bad

    new_indirect-Maps :
        (o : Outcome (Allocation dev))
        → Takes dev s o
        → ltb fileblock ndirect ≡ false
        → (inode.sfi_indirect == 0) ≡ true
        → Maps dev inode s fileblock (o >>= new_indirect dev (fileblock - ndirect) inode)
    unfolding new_indirect indirect_entry
    new_indirect-Maps _ (took ib s1 range free c written size mounted) behind null =
        first_entry-Maps ib s1 _ range.0 c
          (new_entry-Enters ib (fileblock - ndirect) zeros _ s1 (sfs_balloc dev s1)
            (sfs_balloc-Takes s1 mounted))
          behind null
    new_indirect-Maps _ (failed result b s1 bad same mounted) behind null =
        let refused : (result == 0) ≡ false = ground arith in rw refused (fails result inode s1 bad)
    new_indirect-Maps _ (full all) behind null = fails enospc inode s (omega arith)

-- Asked to allocate for a block of the file that is missing, sfs_bmap never stops the kernel: it takes
-- a block of the disk that was free, puts it at that place of the file, through a new indirect block
-- where one is needed, and leaves every other block of the file where it was; or it answers an error.
pub sfs_bmap-Maps :
    (dev : Device) (inode : Inode) (s : Fs dev) (fileblock : ℕ)
    → IsDevice dev
    → IsMounted dev s
    → IsFile dev inode s
    → fileblock < max_blocks
    → block_of dev inode s.disk fileblock ≡ 0
    → Maps dev inode s fileblock (sfs_bmap dev fileblock true inode s)
unfolding sfs_bmap direct_block indirect_block indirect_entry
sfs_bmap-Maps dev inode s fileblock sound mounted file low missing =
    elim (Bool-cases (ltb fileblock ndirect)) [
      | inl direct ↦
          let hole : (inode.sfi_direct fileblock == 0) ≡ true =
            ground (arith, block_of-direct dev inode s.disk fileblock direct, missing) in
          rw (direct, hole)
            (new_direct-Maps dev sound inode s fileblock file (sfs_balloc dev s)
              (sfs_balloc-Takes s mounted) direct)
      | inr behind ↦ rw (sfs_bmap-indirect dev inode s fileblock true behind low) (entry behind)
    ]
  where
    entry :
        ltb fileblock ndirect ≡ false
        → Maps dev inode s fileblock (indirect_block dev (fileblock - ndirect) true inode s)
    entry behind = elim (Bool-cases (inode.sfi_indirect == 0)) [
      | inl null ↦ rw null (
          new_indirect-Maps dev sound inode s fileblock file (sfs_balloc dev s)
            (sfs_balloc-Takes s mounted) behind null)
      | inr there ↦
          let readable : ((dev.read s.disk inode.sfi_indirect).0 == 0) ≡ true =
            ground (arith, (file.indirect (ground arith)).1) in
          let hole : ((dev.read s.disk inode.sfi_indirect).1 (fileblock - ndirect) == 0) ≡ true =
            ground (arith, block_of-indirect dev inode s.disk fileblock behind there, missing) in
          rw (there, readable, hole)
            (new_entry-Maps dev sound inode s fileblock file _
              (new_entry-Enters dev sound inode.sfi_indirect (fileblock - ndirect)
                (dev.read s.disk inode.sfi_indirect).1 inode s (sfs_balloc dev s)
                (sfs_balloc-Takes s mounted))
              behind there)
    ]
