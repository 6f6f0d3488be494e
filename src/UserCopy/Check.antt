-- ===== src/UserCopy/Check.antt =====
-- Which regions copycheck and the block copies accept.
use os161_project_c.Base.{ℕ, ◌+◌, ◌^◌, ◌≤◌, ◌<◌, ◌≡◌, ◌↔◌, ◌⊎◌, arith}
use os161_project_c.UserCopy.{userspacetop, copycheck, check_block}

-- For a region that is not empty, copycheck answers 0 exactly when it begins in user space and does
-- not pass the end of the address space.
pub copycheck_iff :
    (userptr len : ℕ)
    → userptr < 2 ^ 32
    → len < 2 ^ 32
    → 0 < len
    → ((copycheck userptr len).result ≡ 0) ↔ ((userptr < userspacetop) × (userptr + len ≤ 2 ^ 32))
unfolding copycheck
copycheck_iff userptr len p l some_bytes = ground arith

-- The length that copycheck then allows stays in user space, and is cut only where the region
-- reaches into the kernel.
pub copycheck-bounds :
    (userptr len : ℕ)
    → userptr < 2 ^ 32
    → len < 2 ^ 32
    → 0 < len
    → (copycheck userptr len).result ≡ 0
    → let stoplen = (copycheck userptr len).stoplen in
      (0 < stoplen)
      × (stoplen ≤ len)
      × (userptr + stoplen ≤ userspacetop)
      × ((stoplen ≡ len) ⊎ ((userptr + stoplen ≡ userspacetop) × (userspacetop < userptr + len)))
unfolding copycheck
copycheck-bounds userptr len p l some_bytes checked = ground arith

-- copyin and copyout accept a region exactly when it is not empty and lies in user space: an empty
-- one is refused, wherever it is.
pub check_block_iff :
    (userptr len : ℕ)
    → userptr < 2 ^ 32
    → len < 2 ^ 32
    → (check_block userptr len ≡ 0) ↔ ((0 < len) × (userptr + len ≤ userspacetop))
unfolding check_block copycheck
check_block_iff userptr len p l = ground arith
