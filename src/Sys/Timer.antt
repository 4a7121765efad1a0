-- ===== src/Sys/Timer.antt =====
-- kernel/src/sys/timer/timer.c: sleeping, and the timers that wake a process.
--
-- The state has the array `timers` as the list of its NUM_TIMERS = 16 slots, `none` where the slot's
-- `function` is NULL; the only function that is ever stored is `wake_up_process`, and `data` is then the
-- index of a process in `ptables`. Of a process the model keeps the state and the channel, as arrays by
-- this index; channels are addresses, 0 is NULL. `ticks` is the interrupt counter, 64 bits wide.
-- A call that switches to the scheduler ends there: what follows the switch is a function of its own.
pub mod Channel
pub mod Fire
pub mod Sleep
mod Tests
use ferrite_c.Common.{
  ℕ, zero, suc, ◌+◌, ◌*◌, ◌/◌, ◌%◌, ◌^◌, Bool, true, false, ◌&&◌, List, [], ◌∷◌, Option, none, some,
  leb, ltb, ◌==◌, if◌then◌else◌, update,
}
use ferrite_c.Common.Int.{ℤ, pos, neg, ltb_zero}

pub data ProcState : Type 0 where
  unused embryo sleeping ready running zombie : ProcState

pub record Timer : Type 0 where
  pub expires : ℕ
  pub proc : ℕ

pub record Sched : Type 0 where
  pub timers : List (Option Timer)
  pub state : ℕ → ProcState
  pub channel : ℕ → ℕ

abbrev pub hz : ℕ
hz = 100

abbrev pub set_state : Sched → ℕ → ProcState → Sched
set_state s p v = record s { state = update s.state p v }

pub wake_up_process : Sched → (p : ℕ) → Sched
wake_up_process s p = set_state s p ready

-- The slots with the timer in the first free one; `none` where all are in use.
pub place : Timer → List (Option Timer) → Option (List (Option Timer))
place t [] = none
place t (none ∷ ts) = some (some t ∷ ts)
place t (some u ∷ ts) = elim (place t ts) [ none ↦ none | some us ↦ some (some u ∷ us) ]

pub add_timer : Sched → Timer → Sched × ℤ
unfolding place
add_timer s t = elim (place t s.timers) [
  | some ts ↦ (record s { timers = ts }, pos 0)
  | none ↦ (s, neg 1)
]

-- Up to the switch to the scheduler, or the return of -1.
pub knanosleep : Sched → (ticks current ms : ℕ) → Sched × ℤ
unfolding add_timer
knanosleep s ticks current ms =
    let t : Timer = record { expires = (ticks + ms * hz / 1000) % 2 ^ 64; proc = current } in
    let (s', r) = add_timer s t in
    if ltb_zero r then (s', neg 1) else (set_state s' current sleeping, pos 0)

abbrev pub is_due : (ticks : ℕ) → Timer → Bool
is_due ticks t = leb t.expires ticks

-- The slots after the loop of `check_timers`, and the processes' states.
pub fire :
    (ticks : ℕ) → List (Option Timer) → (ℕ → ProcState) → List (Option Timer) × (ℕ → ProcState)
fire ticks [] st = ([], st)
fire ticks (none ∷ ts) st = let (us, st') = fire ticks ts st in (none ∷ us, st')
fire ticks (some t ∷ ts) st =
    let st1 = if is_due ticks t then update st t.proc ready else st in
    let (us, st') = fire ticks ts st1 in ((if is_due ticks t then none else some t) ∷ us, st')

pub check_timers : Sched → (ticks : ℕ) → Sched
unfolding fire
check_timers s ticks =
    let (ts, st) = fire ticks s.timers s.state in record s { timers = ts; state = st }

-- `waitchan` up to the switch to the scheduler, and what it does when the process runs again.
pub waitchan : Sched → (current channel : ℕ) → Sched
waitchan s current channel =
    set_state (record s { channel = update s.channel current channel }) current sleeping

pub waitchan_done : Sched → (current : ℕ) → Sched
waitchan_done s current = record s { channel = update s.channel current 0 }

abbrev pub num_proc : ℕ
num_proc = 32

abbrev pub is_sleeping : ProcState → Bool
is_sleeping sleeping = true
is_sleeping _ = false

-- kernel/src/sys/process/process.c: no slot of the loop reads what another one writes.
pub wakeup : Sched → (channel : ℕ) → Sched
wakeup s channel = record s {
  state = λ p.
      if ltb p num_proc && (s.channel p == channel && is_sleeping (s.state p))
      then ready
      else s.state p;
}
