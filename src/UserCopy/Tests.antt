-- ===== src/UserCopy/Tests.antt =====
-- Copies of a short string at user address 4096.
use os161_project_c.Base.{
  ℕ, ◌+◌, ◌≤◌, ◌<◌, ◌≡◌, refl, ◌↔◌, ◌⊎◌, false, some, arith, ltb, if◌then◌else◌, find_first, update,
}
use os161_project_c.Vfs.{Bytes, slice}
use os161_project_c.UserCopy.{
  efault, enametoolong, userspacetop, UserMemory, copycheck, check_block, copyin, copyout,
  copyinstr,
}
use os161_project_c.UserCopy.Check.{copycheck-bounds, check_block_iff}
use os161_project_c.UserCopy.Blocks.{Sound, copyin_iff, copyin-copyout}
use os161_project_c.UserCopy.Strings.{Ends, copyinstr-Ends}

-- The string "ab" at 4096.
abbrev user : UserMemory
user = record {
  bytes = update (update (λ a. 0) 4096 97) 4097 98;
  faulty = λ a. false;
  torn = λ dest len mem. mem;
}

abbrev kernel : Bytes
kernel = λ a. a

copycheck-bounds_example :
    let stoplen = (copycheck 0x7ffffff0 32).stoplen in
    (0 < stoplen)
    × (stoplen ≤ 32)
    × (0x7ffffff0 + stoplen ≤ userspacetop)
    × ((stoplen ≡ 32) ⊎ ((0x7ffffff0 + stoplen ≡ userspacetop) × (userspacetop < 0x7ffffff0 + 32)))
unfolding copycheck
copycheck-bounds_example =
    copycheck-bounds 0x7ffffff0 32 (omega arith) (omega arith) (omega arith) refl

check_block_iff_example : (check_block 4096 0 ≡ 0) ↔ ((0 < 0) × (4096 + 0 ≤ userspacetop))
check_block_iff_example = check_block_iff 4096 0 (omega arith) (omega arith)

copyin_iff_example :
    ((copyin user 4096 64 3 kernel).result ≡ 0)
    ↔ ((0 < 3) × (4096 + 3 ≤ userspacetop) × Sound user 4096 3)
copyin_iff_example = copyin_iff user 4096 64 3 kernel (omega arith) (omega arith)

copied_out : (copyout user 64 4096 3 kernel).result ≡ 0
unfolding copyout find_first
copied_out = refl

copyin-copyout_example :
    let u' = record user { bytes = (copyout user 64 4096 3 kernel).mem } in
    ((copyin u' 4096 200 3 kernel).result ≡ 0)
    × ((i : ℕ) → i < 3 → (copyin u' 4096 200 3 kernel).mem (200 + i) ≡ kernel (64 + i))
copyin-copyout_example =
    copyin-copyout user 64 4096 200 3 kernel (omega arith) (omega arith) copied_out

copyinstr-two : (copyinstr user 4096 64 16 kernel).gotlen ≡ some 3
unfolding copyinstr
copyinstr-two = refl

copyinstr-Ends_example :
    let stoplen = (copycheck 4096 16).stoplen in
    (4096 + stoplen ≤ userspacetop)
    × Ends
        (slice user.bytes 4096)
        (λ i. user.faulty (4096 + i))
        64
        0
        stoplen
        (if ltb stoplen 16 then efault else enametoolong)
        kernel
        (copyinstr user 4096 64 16 kernel)
unfolding copycheck
copyinstr-Ends_example =
    copyinstr-Ends user 4096 64 16 kernel (omega arith) (omega arith) (omega arith) refl
