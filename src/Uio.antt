-- ===== src/Uio.antt =====
-- kern/lib/uio.c: transfers between a kernel buffer and the buffers of a uio. The list of a uio is
-- what is left of its array of buffers. An address of the kernel and one of the user are both words.
pub mod Moves
pub mod Contents
pub mod Zeros
mod Tests
use os161_project_c.Base.{
  ℕ, zero, suc, ◌+◌, ◌-◌, ◌%◌, ◌^◌, Bool, true, false, ◌&&◌, ltb, ◌==◌, if◌then◌else◌, List, [],
  ◌∷◌, Outcome, ok, panic, ◌>>=◌, ◌>>◌, kassert,
}
use os161_project_c.Base.Members.{length}
use os161_project_c.Vfs.{Bytes, slice, copy_in}
use os161_project_c.UserCopy.{UserMemory, Copied, copyin, copyout, word}

-- `enum uio_rw`
pub data UioRw : Type 0 where
  uio_read : UioRw
  uio_write : UioRw

-- `enum uio_seg`
pub data UioSeg : Type 0 where
  uio_userispace : UioSeg
  uio_userspace : UioSeg
  uio_sysspace : UioSeg

-- `struct iovec`; its base is `iov_ubase` or `iov_kbase`
pub record Iovec : Type 0 where
  pub iov_base : ℕ
  pub iov_len : ℕ

-- `struct uio`; an address space is its address, 0 for NULL, and `uio_iovcnt` the length of the list.
pub record Uio : Type 0 where
  pub uio_iov : List Iovec
  pub uio_offset : ℕ
  pub uio_resid : ℕ
  pub uio_segflg : UioSeg
  pub uio_rw : UioRw
  pub uio_space : ℕ

-- The memory of the kernel and of the user.
pub record Memory : Type 0 where
  pub kernel : Bytes
  pub user : UserMemory

-- A result, with what is left of the uio.
pub record Moved : Type 0 where
  pub result : ℕ
  pub uio : Uio
  pub memory : Memory

-- A transfer by copyout or copyin.
unfoldable pub user_transfer : UioRw → (ptr base size : ℕ) → Memory → (result : ℕ) × Memory
unfolding copyin copyout
user_transfer uio_read ptr base size m =
    let c = copyout m.user ptr base size m.kernel in
    (c.result, record m { user = record (m.user) { bytes = c.mem } })
user_transfer uio_write ptr base size m =
    let c = copyin m.user base ptr size m.kernel in (c.result, record m { kernel = c.mem })

-- A transfer by memmove.
unfoldable pub kernel_transfer : UioRw → (ptr base size : ℕ) → Memory → Memory
kernel_transfer uio_read ptr base size m = record m {
  kernel = copy_in m.kernel base size (slice m.kernel ptr);
}
kernel_transfer uio_write ptr base size m = record m {
  kernel = copy_in m.kernel ptr size (slice m.kernel base);
}

unfoldable pub transfer : UioSeg → UioRw → (ptr base size : ℕ) → Memory → (result : ℕ) × Memory
unfolding user_transfer kernel_transfer
transfer uio_sysspace rw ptr base size m = (0, kernel_transfer rw ptr base size m)
transfer uio_userspace rw ptr base size m = user_transfer rw ptr base size m
transfer uio_userispace rw ptr base size m = user_transfer rw ptr base size m

-- The loop from a pointer and a count on.
abbrev pub Go : Type 0
Go = (ptr n : ℕ) → Uio → Memory → Outcome Moved

-- `uio_iov++`
unfoldable pub next_iov : Go → (ptr n : ℕ) → List Iovec → Uio → Memory → Outcome Moved
next_iov go ptr n [] uio m = panic
next_iov go ptr n (iov ∷ rest) uio m = go ptr n (record uio { uio_iov = iov ∷ rest }) m

-- The uio after `size` bytes of its first buffer.
unfoldable pub advance : (size : ℕ) → Iovec → List Iovec → Uio → Uio
advance size iov rest uio = record uio {
  uio_iov = record { iov_base = word (iov.iov_base + size); iov_len = iov.iov_len - size } ∷ rest;
  uio_offset = (uio.uio_offset + size) % 2 ^ 64;
  uio_resid = word (uio.uio_resid + (2 ^ 32 - size));
}

unfoldable pub after_transfer :
    Go → (ptr n size : ℕ) → Iovec → List Iovec → Uio → (result : ℕ) × Memory → Outcome Moved
unfolding advance
after_transfer go ptr n size iov rest uio (result, m) =
    if result == 0
    then go (word (ptr + size)) (n - size) (advance size iov rest uio) m
    else ok (record { result = result; uio = uio; memory = m })

abbrev pub size_of : (n : ℕ) → Iovec → ℕ
size_of n iov = if ltb n iov.iov_len then n else iov.iov_len

-- One turn, with the buffers that are left.
unfoldable pub turn : Go → (ptr n : ℕ) → List Iovec → Uio → Memory → Outcome Moved
unfolding next_iov after_transfer transfer
turn go ptr n [] uio m = panic
turn go ptr n (iov ∷ rest) uio m =
    let size = size_of n iov in
    if size == 0
    then next_iov go ptr n rest uio m
    else after_transfer go ptr n size iov rest uio
        (transfer uio.uio_segflg uio.uio_rw ptr iov.iov_base size m)

-- The loop; each turn leaves a buffer behind or moves a byte.
unfoldable pub uiomove_loop : (fuel : ℕ) → Go
unfolding turn
uiomove_loop zero ptr n uio m = panic
uiomove_loop (suc fuel) ptr n uio m =
    if ltb 0 n && ltb 0 uio.uio_resid
    then turn (uiomove_loop fuel) ptr n uio.uio_iov uio m
    else ok (record { result = 0; uio = uio; memory = m })

-- The address space that the uio has to name.
unfoldable pub space_for : (curas : ℕ) → UioSeg → ℕ
space_for curas uio_sysspace = 0
space_for curas uio_userspace = curas
space_for curas uio_userispace = curas

unfoldable pub uiomove : (curas : ℕ) → (ptr n : ℕ) → Uio → Memory → Outcome Moved
unfolding uiomove_loop space_for
uiomove curas ptr n uio m =
    kassert (uio.uio_space == space_for curas uio.uio_segflg)
    >> uiomove_loop (suc (n + length uio.uio_iov)) ptr n uio m

-- The loop of uiomovezeros from what a call of uiomove has left on.
unfoldable pub zeros_after :
    (go : (n : ℕ) → Uio → Memory → Outcome Moved) → (n : ℕ) → Moved → Outcome Moved
zeros_after go n r = if r.result == 0 then go n r.uio r.memory else ok r

-- `source` is the address of sixteen bytes that are 0.
unfoldable pub zeros_loop : (fuel curas source n : ℕ) → Uio → Memory → Outcome Moved
unfolding uiomove zeros_after
zeros_loop zero curas source n uio m = panic
zeros_loop (suc fuel) curas source n uio m =
    let amt = if ltb n 16 then n else 16 in
    let rest =
      uiomove curas source amt uio m >>= zeros_after (zeros_loop fuel curas source) (n - amt) in
    if ltb 0 n then rest else ok (record { result = 0; uio = uio; memory = m })

unfoldable pub is_read : UioRw → Bool
is_read uio_read = true
is_read uio_write = false

unfoldable pub uiomovezeros : (curas source n : ℕ) → Uio → Memory → Outcome Moved
unfolding zeros_loop is_read
uiomovezeros curas source n uio m =
    kassert (is_read uio.uio_rw) >> zeros_loop (suc n) curas source n uio m

-- A uio on one buffer of the kernel.
unfoldable pub uio_kinit : (kbuf len pos : ℕ) → UioRw → Uio
uio_kinit kbuf len pos rw = record {
  uio_iov = record { iov_base = kbuf; iov_len = len } ∷ [];
  uio_offset = pos;
  uio_resid = len;
  uio_segflg = uio_sysspace;
  uio_rw = rw;
  uio_space = 0;
}
