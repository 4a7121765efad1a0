-- ===== src/Sys/Process/Search.antt =====
-- What a search of the table of the processes finds.
use ferrite_c.Common.{ℕ, ◌==◌}
use ferrite_c.Sys.Timer.{num_proc}
use ferrite_c.Common.Search.{First, first_index-First}
use ferrite_c.Sys.Process.{Table, find_process}

pub find_process-First :
    (t : Table) (pid : ℕ) → First 0 num_proc (λ i. (t.procs i).pid == pid) (find_process t pid)
unfolding find_process
find_process-First t pid = first_index-First num_proc 0 (λ i. (t.procs i).pid == pid)
