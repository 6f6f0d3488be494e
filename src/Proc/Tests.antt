-- ===== src/Proc/Tests.antt =====
-- Processes on small inputs.
use os161_project_c.Base.{◌≡◌, refl, ok, panic, arith, ◌==◌, if◌then◌else◌, update}
use os161_project_c.Proc.{
  ProcTable, OpenFiles, max_proc, search_index, enter_proc, proc_init_waitpid, proc_search_pid,
  fork_files,
}
use os161_project_c.Proc.Pids.{IsWf, proc_init_waitpid-IsWf}
use os161_project_c.Proc.Files.{fork_files-loses}

-- Process 640 has the identifier 1, which was handed out last.
abbrev one_process : ProcTable
one_process = record {
  proc = λ i. if i == 1 then 640 else 0;
  last_i = 1;
  p_pid = λ p. if p == 640 then 1 else 0;
  p_status = λ p. 0;
}

abbrev two_processes : ProcTable
two_processes = record {
  proc = update one_process.proc 2 768;
  last_i = 2;
  p_pid = update one_process.p_pid 768 2;
  p_status = update one_process.p_status 768 0;
}

one_process-IsWf : IsWf one_process
one_process-IsWf = record {
  within = omega arith;
  fresh = λ none. absurd (omega arith);
  named = λ i a b used. ground (arith, used);
}

two_processes-proc_init_waitpid : proc_init_waitpid 768 one_process ≡ ok two_processes
unfolding proc_init_waitpid search_index enter_proc
two_processes-proc_init_waitpid = refl

proc_init_waitpid-IsWf_example :
    IsWf two_processes
    × (proc_search_pid (two_processes.p_pid 768) two_processes
        ≡ (if two_processes.p_pid 768 == max_proc then panic else ok 768))
proc_init_waitpid-IsWf_example =
    proc_init_waitpid-IsWf one_process two_processes 768 one_process-IsWf (ground arith)
      (λ j. ground arith) two_processes-proc_init_waitpid

-- Process 640 has the file 32 open twice.
abbrev one_file : OpenFiles
one_file = record {
  file_table = λ p fd. if p == 640 then (if fd == 3 then 32 else if fd == 4 then 32 else 0) else 0;
  count_ref = λ of. if of == 32 then 2 else 0;
}

fork_files-loses_example :
    ((fork_files 640 768 one_file).file_table 640 3 ≡ 0)
    × ((fork_files 640 768 one_file).file_table 768 3 ≡ 0)
fork_files-loses_example = fork_files-loses 640 768 one_file (ground arith) 3 (omega arith)
