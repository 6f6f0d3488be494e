-- ===== src/Vfs.antt =====
-- The file layer below the memory system, as a parameter: `vfs_open`, `VOP_READ` and `VOP_WRITE`
-- reach devices through it. A vnode is a number, 0 for NULL, and a buffer is a function from
-- positions to bytes. Memory is addressed by bytes.
pub mod Sample
use os161_project_c.Base.{
  ℕ, ◌+◌, ◌-◌, ◌*◌, ◌≡◌, ◌≢◌, Bool, in_run, if◌then◌else◌, Option, page_size,
}

abbrev pub Bytes : Type 0
Bytes = ℕ → ℕ

-- What `VOP_READ` leaves: its result, `uio_resid`, and the bytes that it delivered.
pub record Reading : Type 0 where
  pub result : ℕ
  pub resid : ℕ
  pub bytes : Bytes

pub record Vfs : Type 1 where
  pub Disk : Type 0
  pub open_swapfile : Disk → (result : ℕ) × (vnode : ℕ) × Disk
  pub vop_read : Disk → (vnode offset len : ℕ) → Reading
  pub vop_write : Disk → (vnode offset len : ℕ) → Bytes → (resid : ℕ) × Disk

-- The documented behaviour of one file that is written and read a page at a time: what a complete
-- write stored is what a read at that offset delivers, and other pages are not touched.
pub record IsPageStore (vfs : Vfs) (v : ℕ) : Type 0 where
  pub read_back :
      (d d' : vfs.Disk) (i : ℕ) (b : Bytes)
      → vfs.vop_write d v (i * page_size) page_size b ≡ (0, d')
      → vfs.vop_read d' v (i * page_size) page_size ≡ record { result = 0; resid = 0; bytes = b }
  pub read_other :
      (d d' : vfs.Disk) (i j : ℕ) (b : Bytes)
      → vfs.vop_write d v (i * page_size) page_size b ≡ (0, d')
      → i ≢ j
      → vfs.vop_read d' v (j * page_size) page_size ≡ vfs.vop_read d v (j * page_size) page_size

-- `len` bytes of memory from `pa` on.
abbrev pub slice : Bytes → ℕ → Bytes
slice mem pa i = mem (pa + i)

-- `len` bytes copied to `pa`.
unfoldable pub copy_in : Bytes → (pa len : ℕ) → Bytes → Bytes
copy_in mem pa len b a = if in_run pa len a then b (a - pa) else mem a
