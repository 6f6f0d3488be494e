-- ===== src/Sfs/Tests.antt =====
-- Files on a disk of eight blocks.
use os161_project_c.Base.{
  ℕ, ◌+◌, ◌-◌, ◌/◌, ◌≡◌, refl, sym, ap, ◌∙◌, ◌≢◌, true, false, ◌&&◌, arith, ltb, ◌==◌, update, ok,
}
use os161_project_c.Bitmap.{bitmap_isset}
use os161_project_c.Sfs.{
  Device, Block, Fs, Inode, zeros, set_size, sfs_bmap, sfs_itrunc, ndirect, blocksize,
}
use os161_project_c.Sfs.Balloc.{IsMounted}
use os161_project_c.Sfs.Lookup.{IsDevice, IsFile, block_of}
use os161_project_c.Sfs.Bmap.{Maps, sfs_bmap-Maps}
use os161_project_c.Sfs.Trunc.{sfs_itrunc-keeps_last}
use os161_project_c.Sfs.Direct.{Owns, Dropped, sfs_itrunc-Dropped}

-- A disk in memory that never fails.
abbrev memory_disk : Device
memory_disk = record {
  Disk = ℕ → Block;
  read = λ d b. (0, d b);
  write = λ d b blk. (0, update d b blk);
}

memory_disk-IsDevice : IsDevice memory_disk
memory_disk-IsDevice = record {
  read_back = λ d d' b blk e. ap (λ x. (0, x)) (ap (λ r. r.1 b) (sym e) ∙ same b blk d);
  read_other =
      λ d d' b c blk e other. ap (λ x. (0, x)) (ap (λ r. r.1 c) (sym e) ∙ apart b c blk d other);
}
  where
    same : (b : ℕ) (blk : Block) (d : ℕ → Block) → update d b blk b ≡ blk
    same b blk d = ground arith

    apart : (b c : ℕ) (blk : Block) (d : ℕ → Block) → c ≢ b → update d b blk c ≡ d c
    apart b c blk d other = ground arith

-- Blocks 0 to 4 are in use.
abbrev five_used : Fs memory_disk
five_used = record {
  sfs_freemap = record { nbits = 8; v = λ ix offset. (ix == 0) && ltb offset 5 };
  sfs_freemapdirty = false;
  sb_nblocks = 8;
  disk = update (λ b. zeros) 4 (update zeros 0 3);
}

five_used-IsMounted : IsMounted memory_disk five_used
unfolding bitmap_isset
five_used-IsMounted = record {
  wf = λ i beyond inside. absurd (omega arith);
  covers = omega arith;
  beyond = λ i beyond inside. absurd (omega arith);
  superblock = refl;
}

-- One direct block, and an indirect block with one entry.
abbrev short_file : Inode
short_file = record {
  sfi_direct = update (λ i. 0) 0 2;
  sfi_indirect = 4;
  sfi_size = 8192;
  sv_dirty = false;
}

short_file-IsFile : IsFile memory_disk short_file five_used
unfolding block_of bitmap_isset
short_file-IsFile = record {
  mapped = λ fileblock low there. ground arith;
  indirect = λ there. (refl, refl);
}

sfs_bmap-Maps_example :
    Maps memory_disk short_file five_used 20 (sfs_bmap memory_disk 20 true short_file five_used)
unfolding block_of
sfs_bmap-Maps_example =
    sfs_bmap-Maps memory_disk short_file five_used 20 memory_disk-IsDevice five_used-IsMounted
      short_file-IsFile (omega arith) refl

-- Cut to 15 blocks, the file keeps its sixteenth.
sfs_itrunc-keeps_last_example :
    sfs_itrunc memory_disk 7680 short_file five_used
    ≡ ok (set_size memory_disk 7680 short_file five_used)
sfs_itrunc-keeps_last_example =
    sfs_itrunc-keeps_last memory_disk short_file five_used 7680 (omega arith) (omega arith)
      (omega arith) refl (omega arith) (λ j beyond. ground arith)

abbrev direct_file : Inode
direct_file = record short_file { sfi_indirect = 0 }

direct_file-Owns : Owns memory_disk direct_file five_used
unfolding bitmap_isset
direct_file-Owns = record {
  used = λ i low there. ground arith;
  once = λ i j low_i low_j there same. ground arith;
}

sfs_itrunc-Dropped_example :
    (inode' : Inode) × (s' : Fs memory_disk) × (sfs_itrunc memory_disk 0 direct_file five_used
      ≡ ok (set_size memory_disk 0 inode' s'))
    × Dropped memory_disk
        ((0 + (blocksize - 1)) / blocksize)
        ndirect
        direct_file
        inode'
        five_used
        s'
sfs_itrunc-Dropped_example =
    sfs_itrunc-Dropped memory_disk direct_file five_used 0 (omega arith) five_used-IsMounted
      direct_file-Owns refl
