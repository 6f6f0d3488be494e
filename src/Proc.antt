-- ===== src/Proc.antt =====
-- The table of processes and the copy of open files: kern/proc/proc.c (its waitpid and file
-- support) and the file count of kern/syscall/file_syscalls.c. A `struct proc *` or a
-- `struct openfile *` is its address, 0 for NULL, and a field of such a struct is a function of
-- the address. The spinlock of the table is held over the whole search, so it is one step.
pub mod Pids
pub mod Files
mod Tests
use os161_project_c.Base.{
  ◌%◌, ◌^◌, ℕ, zero, suc, ◌+◌, Bool, true, false, not, ◌&&◌, ltb, leb, ◌==◌, if◌then◌else◌, update,
  for_below, Outcome, ok, panic, out_of_fuel, ◌>>=◌, ◌>>◌, kassert,
}

abbrev pub max_proc : ℕ
max_proc = 100

abbrev pub open_max : ℕ
open_max = 128

pub record ProcTable : Type 0 where
  pub proc : ℕ → ℕ
  pub last_i : ℕ
  pub p_pid : ℕ → ℕ
  pub p_status : ℕ → ℕ

-- `if (i > MAX_PROC) i = 1;`
abbrev pub wrap : ℕ → ℕ
wrap i = if ltb max_proc i then 1 else i

-- The `while` of `proc_init_waitpid`: the free index, or 0 when it comes back to `last_i`.
unfoldable pub search_index : ℕ → (proc : ℕ → ℕ) → (last_i i : ℕ) → Outcome ℕ
search_index zero proc last_i i = if i == last_i then ok 0 else out_of_fuel
search_index (suc k) proc last_i i =
    let rest = search_index k proc last_i (wrap (i + 1)) in
    if i == last_i then ok 0 else if proc i == 0 then ok i else rest

-- Its end: the new entry, or a full table.
unfoldable pub enter_proc : (proc i : ℕ) → ProcTable → Outcome ProcTable
enter_proc proc zero t = panic
enter_proc proc (suc i) t = ok (record t {
  proc = update t.proc (suc i) proc;
  last_i = suc i;
  p_pid = update t.p_pid proc (suc i);
  p_status = update t.p_status proc 0;
})

-- The search looks at each index at most once (Proc/Pids.antt).
unfoldable pub proc_init_waitpid : (proc : ℕ) → ProcTable → Outcome ProcTable
proc_init_waitpid proc t = do
  i ← search_index max_proc t.proc t.last_i (wrap (t.last_i + 1))
  enter_proc proc i t

unfoldable pub proc_end_waitpid : (proc : ℕ) → ProcTable → Outcome ProcTable
proc_end_waitpid proc t = do
  let i = t.p_pid proc
  kassert (ltb 0 i && leb i max_proc)
  ok (record t { proc = update t.proc i 0 })

-- A NULL entry faults at its `p_pid`.
unfoldable pub proc_search_pid : (pid : ℕ) → ProcTable → Outcome ℕ
proc_search_pid pid t = do
  kassert (ltb pid max_proc)
  let p = t.proc pid
  kassert (not (p == 0))
  kassert (t.p_pid p == pid)
  ok p

-- The open files of each process, and the count of references of each file.
pub record OpenFiles : Type 0 where
  pub file_table : ℕ → ℕ → ℕ
  pub count_ref : ℕ → ℕ

unfoldable pub open_file_incr_ref_count : (of : ℕ) → OpenFiles → OpenFiles
open_file_incr_ref_count of s =
    if of == 0
    then s
    else record s { count_ref = update s.count_ref of ((s.count_ref of + 1) % 2 ^ 32) }

-- One turn of the loop of `proc_file_table_copy`.
unfoldable pub copy_file : (psrc pdest fd : ℕ) → OpenFiles → OpenFiles
copy_file psrc pdest fd s = open_file_incr_ref_count (s.file_table psrc fd) (record s {
  file_table = update s.file_table pdest (update (s.file_table pdest) fd (s.file_table psrc fd));
})

unfoldable pub proc_file_table_copy : (psrc pdest : ℕ) → OpenFiles → OpenFiles
proc_file_table_copy psrc pdest s = for_below open_max (copy_file psrc pdest) s

-- The part of `sys_fork` and of `proc_create` that deals with open files: the new process starts
-- with none, then the table is copied.
unfoldable pub fork_files : (curproc newp : ℕ) → OpenFiles → OpenFiles
fork_files curproc newp s =
    proc_file_table_copy newp curproc (record s { file_table = update s.file_table newp (λ _. 0) })
