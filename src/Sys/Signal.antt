-- ===== src/Sys/Signal.antt =====
-- kernel/src/sys/signal/signal.c: `do_kill` and `handle_signal`, with `yield` of
-- kernel/src/sys/process/process.c.
--
-- `pending` has the bits of `pending_signals` of each process of the table. A handler is the number that
-- stands for it in `sigaction`, 0 for SIG_DFL, 1 for SIG_IGN and 2 ^ 32 - 1 for SIG_ERR; any other is a
-- function pointer, and `custom` says what its function does. A call that switches to the scheduler ends
-- there; what is printed is left out.
pub mod Kill
pub mod Handle
mod Tests
use ferrite_c.Common.{
  ℕ, zero, suc, ◌+◌, ◌^◌, Bool, true, false, not, ◌&&◌, ◌||◌, Option, none, some, ltb, ◌==◌,
  if◌then◌else◌, update, List, [], ◌∷◌, has, Run, ok, fault,
}
use ferrite_c.Common.Int.{ℤ, pos, negsuc, neg}
use ferrite_c.Sys.Timer.{ProcState, sleeping, ready, zombie, is_sleeping}
use ferrite_c.Sys.Process.{Proc, Table, write_proc, find_process}

abbrev pub nsig : ℕ
nsig = 32

pub record Signals : Type 0 where
  pub table : Table
  pub pending : ℕ → ℕ → Bool
  pub need_resched : Bool

abbrev pub set_state : (i : ℕ) → ProcState → Signals → Signals
set_state i st s = record s {
  table = write_proc s.table i (record (s.table.procs i) { state = st });
}

abbrev pub set_pending : (i sig : ℕ) → Bool → Signals → Signals
set_pending i sig b s = record s { pending = update s.pending i (update (s.pending i) sig b) }

-- The part of `do_kill` behind its tests; a shift by 32, the width, is undefined.
pub send : (found : Option ℕ) → (sig : ℕ) → Signals → Run (Signals × ℤ)
send none sig s = ok (s, neg 1)
send (some i) sig s =
    if sig == 32
    then fault
    else (let s1 = set_pending i sig true s in
        ok ((if is_sleeping (s1.table.procs i).state then set_state i ready s1 else s1), pos 0))

pub do_kill : Signals → (pid : ℕ) → (sig : ℤ) → Run (Signals × ℤ)
unfolding send
do_kill s pid (negsuc n) = ok (s, neg 1)
do_kill s pid (pos sig) =
    if ltb sig 1 || ltb nsig sig then ok (s, neg 1) else send (find_process s.table pid) sig s

-- A function that returns, or that switches to the scheduler.
pub data Ends : Type 0 where
  returned : Signals → Ends
  switched : Signals → Ends

abbrev pub yield : (me : ℕ) → Signals → Ends
yield me s = switched (set_state me ready (record s { need_resched = false }))

-- What the switch over the signals does where the handler is SIG_DFL.
pub data Action : Type 0 where
  stop kill continue core term unknown : Action

abbrev pub default_action : (sig : ℕ) → Action
default_action sig =
    if has sig (19 ∷ 20 ∷ 21 ∷ 22 ∷ [])
    then stop
    else if has sig (9 ∷ 15 ∷ 2 ∷ [])
    then kill
    else if sig == 18
    then continue
    else if has sig (4 ∷ 5 ∷ 6 ∷ 8 ∷ 11 ∷ 7 ∷ [])
    then core
    else if has sig (13 ∷ 14 ∷ 12 ∷ 1 ∷ 3 ∷ [])
    then term
    else unknown

abbrev pub perform : Action → (me : ℕ) → Signals → Ends
perform stop me s = yield me (set_state me sleeping s)
perform kill me s = yield me (set_state me zombie s)
perform continue me s =
    returned (if is_sleeping (s.table.procs me).state then set_state me ready s else s)
perform core me s = yield me (set_state me zombie s)
perform term me s = yield me (set_state me zombie s)
perform unknown me s = returned s

abbrev pub sig_ign : ℕ
sig_ign = 1

abbrev pub sig_err : ℕ
sig_err = 0xffffffff

-- One round of the loop of `handle_signal`.
pub take_signal :
    (sigaction : ℕ → ℕ) → (custom : ℕ → ℕ → Signals → Signals) → (me sig : ℕ) → Signals → Ends
take_signal sigaction custom me sig s =
    if not (s.pending me sig)
    then returned s
    else (let s1 = set_pending me sig false s in
        if sigaction sig == sig_ign || sigaction sig == sig_err
        then returned s1
        else if sigaction sig == 0
        then perform (default_action sig) me s1
        else returned (custom (sigaction sig) sig s1))

pub signal_loop :
    (count sig : ℕ)
    → (sigaction : ℕ → ℕ) → (custom : ℕ → ℕ → Signals → Signals) → (me : ℕ) → Signals
    → Ends
unfolding take_signal
signal_loop zero sig sigaction custom me s = returned s
signal_loop (suc k) sig sigaction custom me s = elim (take_signal sigaction custom me sig s) [
  | returned s' ↦ signal_loop k (sig + 1) sigaction custom me s'
  | switched s' ↦ switched s'
]

abbrev pub any_pending : (count sig : ℕ) → (ℕ → Bool) → Bool
any_pending zero sig bits = false
any_pending (suc k) sig bits = bits sig || any_pending k (sig + 1) bits

pub handle_signal :
    (sigaction : ℕ → ℕ) → (custom : ℕ → ℕ → Signals → Signals) → (me : ℕ) → Signals → Ends
unfolding signal_loop
handle_signal sigaction custom me s =
    if not (any_pending 32 0 (s.pending me))
    then returned s
    else signal_loop 31 1 sigaction custom me s

-- The handlers that the kernel starts with, and never changes: signals that are ignored.
abbrev pub kernel_handlers : ℕ → ℕ
kernel_handlers sig =
    if has sig (7 ∷ 10 ∷ 11 ∷ 12 ∷ 13 ∷ 14 ∷ 17 ∷ 23 ∷ 28 ∷ []) then sig_ign else 0
