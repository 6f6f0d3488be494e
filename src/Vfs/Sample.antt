-- ===== src/Vfs/Sample.antt =====
-- A file layer for the tests: every file is the one disk, which keeps a buffer at each offset.
use os161_project_c.Base.{ℕ, ◌%◌, ap, update, arith}
use os161_project_c.Vfs.{Vfs, Bytes, IsPageStore}

abbrev pub page_disk : Vfs
page_disk = record {
  Disk = ℕ → Bytes;
  open_swapfile = λ d. (0, 1, d);
  vop_read = λ d v offset len. record { result = 0; resid = 0; bytes = d offset };
  vop_write = λ d v offset len b. (0, update d offset b);
}

abbrev pub blank_disk : ℕ → Bytes
blank_disk offset i = 0

-- Memory in which each byte is its own address.
abbrev pub sample_mem : Bytes
sample_mem a = a % 256

pub page_disk-IsPageStore : IsPageStore page_disk 1
page_disk-IsPageStore = record {
  read_back = λ d d' i b e. rw (← ap (λ r. r.1) e) (ground arith);
  read_other = λ d d' i j b e ne. rw (← ap (λ r. r.1) e) (ground (arith, ne));
}
