-- ===== src/FileCalls.antt =====
-- kern/syscall/file_syscalls.c: the system calls on files. A `struct openfile *` is its address, 0
-- for NULL, and slot `i` of systemFileTable has the address i + 1; the tables of the processes and
-- the counts of references are those of Proc. The file layer, the console and user memory are a
-- parameter, since VOP_READ and VOP_WRITE move the bytes themselves.
pub mod Counts
pub mod Opening
mod Tests
use os161_project_c.Base.{
  ℕ, zero, suc, ◌+◌, ◌-◌, ◌%◌, ◌^◌, Bool, true, false, ◌||◌, ltb, leb, ◌==◌, if◌then◌else◌, update,
  Option, none, some, find_first, ℤ, pos, negsuc, minus_one, is_nonneg,
}
use os161_project_c.Proc.{OpenFiles, open_max}

abbrev pub system_open_max : ℕ
system_open_max = 1280

abbrev pub enoent : ℕ
enoent = 19

abbrev pub emfile : ℕ
emfile = 28

abbrev pub enfile : ℕ
enfile = 29

-- A `size_t` as the `int` that the calls return.
abbrev pub to_int : ℕ → ℤ
to_int x = if ltb x (2 ^ 31) then pos x else negsuc (2 ^ 32 - 1 - x)

abbrev pub unsigned : ℕ → ℕ
unsigned x = x % 2 ^ 32

-- What a transfer leaves: its result, `uio_resid`, and `uio_offset`.
pub record Transfer (World : Type 0) : Type 0 where
  pub result : ℕ
  pub resid : ℕ
  pub next_offset : ℕ
  pub world : World

pub record FileLayer : Type 1 where
  pub World : Type 0
  pub vfs_open : World → (path openflags mode : ℕ) → (result : ℕ) × (v : ℕ) × World
  pub vfs_close : World → ℕ → World
  pub vop_read : World → (vn offset buf_ptr size : ℕ) → Transfer World
  pub vop_write : World → (vn offset buf_ptr size : ℕ) → Transfer World
  pub getch : World → ℤ × World
  pub putch : World → ℤ → World
  pub load : World → ℕ → ℤ
  pub store : World → ℕ → ℤ → World

-- What sys_open answers: the descriptor, or -1 and the error.
pub data Opened : Type 0 where
  opened : (fd : ℕ) → Opened
  refused : (err : ℕ) → Opened

module _ (fl : FileLayer) where
  -- systemFileTable, the tables of the processes, and the world below
  pub record Files : Type 0 where
    pub vn : ℕ → ℕ
    pub offset : ℕ → ℕ
    pub open_files : OpenFiles
    pub world : fl.World

  -- The test at the head of the calls on a descriptor, and the file that it names. Descriptor
  -- OPEN_MAX passes the test.
  unfoldable pub file_of : (curproc : ℕ) (fd : ℤ) → Files → Option ℕ
  file_of curproc (negsuc k) s = none
  file_of curproc (pos fd) s =
      let of = s.open_files.file_table curproc fd in
      if ltb open_max fd then none else if of == 0 then none else some of

  -- VOP_READ or VOP_WRITE, then the offset and the number of bytes moved. An error is returned as it
  -- is.
  unfoldable pub finish_transfer : (of size : ℕ) → Transfer fl.World → Files → ℤ × Files
  finish_transfer of size t s =
      let after = record s { world = t.world } in
      if t.result == 0
      then (
        to_int (unsigned (size + 2 ^ 32 - t.resid)),
        record after { offset = update s.offset of t.next_offset },
      )
      else (to_int t.result, after)

  unfoldable pub read_open : (of buf_ptr size : ℕ) → Files → ℤ × Files
  unfolding finish_transfer
  read_open of buf_ptr size s =
      if s.vn of == 0
      then (minus_one, s)
      else finish_transfer of size (fl.vop_read s.world (s.vn of) (s.offset of) buf_ptr size) s

  unfoldable pub write_open : (of buf_ptr size : ℕ) → Files → ℤ × Files
  unfolding finish_transfer
  write_open of buf_ptr size s =
      if s.vn of == 0
      then (minus_one, s)
      else finish_transfer of size (fl.vop_write s.world (s.vn of) (s.offset of) buf_ptr size) s

  unfoldable pub file_read : (curproc : ℕ) (fd : ℤ) (buf_ptr size : ℕ) → Files → ℤ × Files
  unfolding file_of read_open
  file_read curproc fd buf_ptr size s = elim (file_of curproc fd s) [
    | none ↦ (minus_one, s)
    | some of ↦ read_open of buf_ptr size s
  ]

  unfoldable pub file_write : (curproc : ℕ) (fd : ℤ) (buf_ptr size : ℕ) → Files → ℤ × Files
  unfolding file_of write_open
  file_write curproc fd buf_ptr size s = elim (file_of curproc fd s) [
    | none ↦ (minus_one, s)
    | some of ↦ write_open of buf_ptr size s
  ]

  -- `fd` from STDERR_FILENO + 1 on.
  unfoldable pub enter_descriptor : (curproc of v : ℕ) → Files → Opened × Files
  enter_descriptor curproc of v s =
      elim (find_first (open_max - 3) 3 (λ fd. s.open_files.file_table curproc fd == 0)) [
        | none ↦ (refused emfile, record s { world = fl.vfs_close s.world v })
        | some fd ↦ (
          opened fd,
          record s {
            open_files = record (s.open_files) {
              file_table =
                  update s.open_files.file_table curproc
                    (update (s.open_files.file_table curproc) fd of);
            };
          },
        )
      ]

  -- The entry in systemFileTable, then the one in the table of the process.
  unfoldable pub enter_file : (curproc v : ℕ) → Files → Opened × Files
  unfolding enter_descriptor
  enter_file curproc v s = elim (find_first system_open_max 0 (λ i. s.vn (i + 1) == 0)) [
    | none ↦ (refused enfile, record s { world = fl.vfs_close s.world v })
    | some i ↦ enter_descriptor curproc (i + 1) v (record s {
      vn = update s.vn (i + 1) v;
      offset = update s.offset (i + 1) 0;
      open_files = record (s.open_files) { count_ref = update s.open_files.count_ref (i + 1) 1 };
    })
  ]

  unfoldable pub sys_open : (curproc path openflags mode : ℕ) → Files → Opened × Files
  unfolding enter_file
  sys_open curproc path openflags mode s =
      let (result, v, world) = fl.vfs_open s.world path openflags mode in
      let after = record s { world = world } in
      if result == 0 then enter_file curproc v after else (refused enoent, after)

  -- The last reference closes the vnode.
  unfoldable pub drop_reference : (of : ℕ) → Files → ℤ × Files
  drop_reference of s =
      let count = unsigned (s.open_files.count_ref of + 2 ^ 32 - 1) in
      let s1 = record s {
        open_files = record (s.open_files) { count_ref = update s.open_files.count_ref of count };
      } in
      let s2 = record s1 { vn = update s.vn of 0 } in
      if ltb 0 count
      then (pos 0, s1)
      else if s.vn of == 0
      then (minus_one, s2)
      else (pos 0, record s2 { world = fl.vfs_close s2.world (s.vn of) })

  -- `curproc->fileTable[fd] = NULL`
  unfoldable pub clear_descriptor : (curproc fd : ℕ) → Files → Files
  clear_descriptor curproc fd s = record s {
    open_files = record (s.open_files) {
      file_table =
          update s.open_files.file_table curproc (update (s.open_files.file_table curproc) fd 0);
    };
  }

  unfoldable pub sys_close : (curproc : ℕ) (fd : ℤ) → Files → ℤ × Files
  unfolding drop_reference clear_descriptor
  sys_close curproc (negsuc k) s = (minus_one, s)
  sys_close curproc (pos fd) s =
      let of = s.open_files.file_table curproc fd in
      if ltb open_max fd
      then (minus_one, s)
      else if of == 0
      then (minus_one, s)
      else drop_reference of (clear_descriptor curproc fd s)

  -- The rounds of a loop up to `(int)size`.
  abbrev rounds : ℤ → ℕ
  rounds (pos n) = n
  rounds (negsuc k) = 0

  -- The loop of sys_write, from character `i` on.
  unfoldable pub put_all : (k i buf_ptr : ℕ) → fl.World → fl.World
  put_all zero i buf_ptr w = w
  put_all (suc k) i buf_ptr w = put_all k (i + 1) buf_ptr (fl.putch w (fl.load w (buf_ptr + i)))

  unfoldable pub sys_write : (curproc : ℕ) (fd : ℤ) (buf_ptr size : ℕ) → Files → ℤ × Files
  unfolding file_write put_all
  sys_write curproc fd buf_ptr size s =
      if is_console_out fd
      then (to_int size, record s { world = put_all (rounds (to_int size)) 0 buf_ptr s.world })
      else file_write curproc fd buf_ptr size s
    where
      is_console_out : ℤ → Bool
      is_console_out (pos n) = (n == 1) || (n == 2)
      is_console_out (negsuc k) = false

  -- The loop of sys_read, from character `i` on; a negative character ends it.
  unfoldable pub get_all : (k i buf_ptr : ℕ) → fl.World → ℕ × fl.World
  get_all zero i buf_ptr w = (i, w)
  get_all (suc k) i buf_ptr w =
      let (c, w') = fl.getch w in
      let w2 = fl.store w' (buf_ptr + i) c in
      let rest = get_all k (i + 1) buf_ptr w2 in if is_nonneg c then rest else (i, w2)

  unfoldable pub sys_read : (curproc : ℕ) (fd : ℤ) (buf_ptr size : ℕ) → Files → ℤ × Files
  unfolding file_read get_all
  sys_read curproc (negsuc k) buf_ptr size s = file_read curproc (negsuc k) buf_ptr size s
  sys_read curproc (pos zero) buf_ptr size s =
      let n = rounds (to_int size) in
      let (i, w) = get_all n 0 buf_ptr s.world in
      (if i == n then to_int size else pos i, record s { world = w })
  sys_read curproc (pos (suc fd)) buf_ptr size s = file_read curproc (pos (suc fd)) buf_ptr size s
