-- ===== src/Sys/Signal/Tests.antt =====
-- signal.c on a process that runs and one that sleeps.
use ferrite_c.Common.{ℕ, ◌≡◌, refl, false, ◌&&◌, [], ◌∷◌, has, arith, ◌==◌, if◌then◌else◌}
use ferrite_c.Common.Int.{pos}
use ferrite_c.Sys.Cred.{Cred}
use ferrite_c.Sys.Timer.{ProcState, unused, sleeping, running, ready}
use ferrite_c.Sys.Process.{Proc}
use ferrite_c.Sys.Signal.{
  Signals, Ends, returned, switched, do_kill, handle_signal, kernel_handlers,
}
use ferrite_c.Sys.Signal.Kill.{Kill, do_kill-Kill}
use ferrite_c.Sys.Signal.Handle.{Handled, NoCustom, handle_signal-Handled}

abbrev root : Cred
root = record { uid = 0; euid = 0; suid = 0; gid = 0; egid = 0; sgid = 0; groups = [] }

abbrev proc : (pid : ℕ) → ProcState → Proc
proc pid st = record {
  pid = pid;
  state = st;
  parent = 0;
  channel = 0;
  status = pos 0;
  cred = root;
  kstack = 0;
  pgdir = 0;
  root = 0;
  pwd = 0;
  open_files = λ fd. 0;
}

-- Signals 17, which is ignored, and 9 are pending for process 3, at index 1.
abbrev two : Signals
two = record {
  table = record {
    procs =
        λ i. if i == 0 then proc 2 sleeping else if i == 1 then proc 3 running else proc 0 unused;
    pid_counter = 4;
    calls = [];
  };
  pending = λ i b. i == 1 && has b (9 ∷ 17 ∷ []);
  need_resched = false;
}

do_kill-Kill_example : Kill two 2 (pos 15) (do_kill two 2 (pos 15))
do_kill-Kill_example = do_kill-Kill two 2 (pos 15)

kernel_handlers-NoCustom : NoCustom kernel_handlers
kernel_handlers-NoCustom sig = ground arith

handle_signal-Handled_example :
    Handled 1 1 32 two (handle_signal kernel_handlers (λ h sig s. s) 1 two)
handle_signal-Handled_example =
    handle_signal-Handled kernel_handlers (λ h sig s. s) 1 two kernel_handlers-NoCustom

abbrev state_after : Ends → ProcState
state_after (returned s) = (s.table.procs 1).state
state_after (switched s) = (s.table.procs 1).state

-- The killed process is ready to run.
killed_is_ready : state_after (handle_signal kernel_handlers (λ h sig s. s) 1 two) ≡ ready
unfolding handle_signal
killed_is_ready = refl
