-- ===== src/UserCopy.antt =====
-- kern/vm/copyinout.c: copies between the kernel and user memory. A `longjmp` out of a copy is the
-- result EFAULT; which addresses fault is a parameter, as is what a block copy that faults leaves
-- behind.
pub mod Check
pub mod Blocks
pub mod Strings
mod Tests
use os161_project_c.Base.{
  ℕ, zero, suc, ◌+◌, ◌-◌, ◌%◌, ◌^◌, ◌≤◌, ◌<◌, ◌≡◌, Bool, true, false, not, ltb, leb, ◌==◌,
  if◌then◌else◌, update, Option, none, some, find_first,
}
use os161_project_c.Vfs.{Bytes, slice, copy_in}

abbrev pub efault : ℕ
efault = 6

abbrev pub enametoolong : ℕ
enametoolong = 7

-- MIPS_KSEG0
abbrev pub userspacetop : ℕ
userspacetop = 0x80000000

abbrev pub word : ℕ → ℕ
word x = x % 2 ^ 32

-- The result, and `*stoplen`.
pub record Checked : Type 0 where
  pub result : ℕ
  pub stoplen : ℕ

unfoldable pub copycheck : (userptr len : ℕ) → Checked
copycheck userptr len =
    let top = word (userptr + len + (2 ^ 32 - 1)) in
    if ltb top userptr
    then record { result = efault; stoplen = len }
    else if leb userspacetop userptr
    then record { result = efault; stoplen = len }
    else record {
      result = 0;
      stoplen = if leb userspacetop top then userspacetop - userptr else len;
    }

-- User memory: its bytes, the addresses that fault, and what a block copy that faults leaves of the
-- memory that it writes.
pub record UserMemory : Type 0 where
  pub bytes : Bytes
  pub faulty : ℕ → Bool
  pub torn : (dest len : ℕ) → Bytes → Bytes

-- A result with the memory that was written.
pub record Copied : Type 0 where
  pub result : ℕ
  pub mem : Bytes

-- What comes back from the calls of setjmp: the fault, or the end of the copy.
abbrev pub landed : (fault : Option ℕ) → (torn copied : Bytes) → Copied
landed (some a) torn copied = record { result = efault; mem = torn }
landed none torn copied = record { result = 0; mem = copied }

-- The `memcpy` between the calls of setjmp.
unfoldable pub copy_guarded : (u : UserMemory) (user len : ℕ) (dest : ℕ) → Bytes → Bytes → Copied
copy_guarded u user len dest b mem =
    landed (find_first len user u.faulty) (u.torn dest len mem) (copy_in mem dest len b)

-- The checks that both block copies begin with.
unfoldable pub check_block : (userptr len : ℕ) → ℕ
unfolding copycheck
check_block userptr len =
    let c = copycheck userptr len in
    if c.result == 0 then if c.stoplen == len then 0 else efault else c.result

-- From user memory to `dest` in the kernel's memory.
unfoldable pub copyin : UserMemory → (usersrc dest len : ℕ) → Bytes → Copied
unfolding check_block copy_guarded
copyin u usersrc dest len mem =
    let result = check_block usersrc len in
    if result == 0
    then copy_guarded u usersrc len dest (slice u.bytes usersrc) mem
    else record { result = result; mem = mem }

-- From `src` in the kernel's memory; what is written is the user's memory.
unfoldable pub copyout : UserMemory → (src userdest len : ℕ) → Bytes → Copied
unfolding check_block copy_guarded
copyout u src userdest len mem =
    let result = check_block userdest len in
    if result == 0
    then copy_guarded u userdest len userdest (slice mem src) u.bytes
    else record { result = result; mem = u.bytes }

-- A result, `*gotlen`, and the memory that was written.
pub record StringCopy : Type 0 where
  pub result : ℕ
  pub gotlen : Option ℕ
  pub mem : Bytes

-- The loop of copystr from `i` on, over `k` characters, between any two memories; an access to
-- character `j` of the user's string faults where `faulty j` says so.
unfoldable pub copystr_loop :
    (k i : ℕ) (src : Bytes) (faulty : ℕ → Bool) (dest : ℕ) (at_end : ℕ) → Bytes → StringCopy
copystr_loop zero i src faulty dest at_end mem = record {
  result = at_end;
  gotlen = none;
  mem = mem;
}
copystr_loop (suc k) i src faulty dest at_end mem =
    let mem' = update mem (dest + i) (src i) in
    let rest = copystr_loop k (i + 1) src faulty dest at_end mem' in
    if faulty i
    then record { result = efault; gotlen = none; mem = mem }
    else if src i == 0
    then record { result = 0; gotlen = some (i + 1); mem = mem' }
    else rest

abbrev pub min : ℕ → ℕ → ℕ
min a b = if ltb a b then a else b

unfoldable pub copystr :
    (dest : ℕ) (src : Bytes) (faulty : ℕ → Bool) (maxlen stoplen : ℕ) → Bytes → StringCopy
unfolding copystr_loop
copystr dest src faulty maxlen stoplen mem =
    copystr_loop (min maxlen stoplen) 0 src faulty dest
      (if ltb stoplen maxlen then efault else enametoolong) mem

unfoldable pub copyinstr : UserMemory → (usersrc dest len : ℕ) → Bytes → StringCopy
unfolding copycheck copystr
copyinstr u usersrc dest len mem =
    let c = copycheck usersrc len in
    if c.result == 0
    then copystr dest (slice u.bytes usersrc) (λ i. u.faulty (usersrc + i)) len c.stoplen mem
    else record { result = c.result; gotlen = none; mem = mem }

unfoldable pub copyoutstr : UserMemory → (src userdest len : ℕ) → Bytes → StringCopy
unfolding copycheck copystr
copyoutstr u src userdest len mem =
    let c = copycheck userdest len in
    if c.result == 0
    then copystr userdest (slice mem src) (λ i. u.faulty (userdest + i)) len c.stoplen u.bytes
    else record { result = c.result; gotlen = none; mem = u.bytes }
