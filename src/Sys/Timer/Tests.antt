-- ===== src/Sys/Timer/Tests.antt =====
-- timer.c on three slots: one in use, and two that are free.
use ferrite_c.Common.{ℕ, ◌≡◌, refl, false, List, [], ◌∷◌, none, some, arith, ◌==◌, if◌then◌else◌}
use ferrite_c.Sys.Timer.{unused, sleeping, ready, running, zombie, Sched, check_timers}
use ferrite_c.Sys.Timer.Fire.{has_due, keep, check_timers-has_due}
use ferrite_c.Sys.Timer.Sleep.{IsAsleep, check_all, AllBelow, check_all-IsAsleep}
use ferrite_c.Sys.Timer.Channel.{NoneIs}

-- Process 1 sleeps until tick 40, and process 2 runs.
abbrev two_procs : Sched
two_procs = record {
  timers = some (record { expires = 40; proc = 1 }) ∷ none ∷ none ∷ [];
  state = λ p. if p == 1 then sleeping else if p == 2 then running else unused;
  channel = λ p. 0;
}

-- Process 1 has left since, and its timer is still there.
abbrev gone : Sched
gone = record two_procs { state = λ p. if p == 1 then zombie else unused }

check_timers-has_due_example :
    ((p : ℕ)
      → (check_timers gone 41).state p ≡ (if has_due 41 p gone.timers then ready else gone.state p))
    × ((check_timers gone 41).timers ≡ keep 41 gone.timers)
    × ((check_timers gone 41).channel ≡ gone.channel)
check_timers-has_due_example = check_timers-has_due gone 41

-- The zombie is ready again.
zombie_is_ready : (check_timers gone 41).state 1 ≡ ready
unfolding check_timers
zombie_is_ready = refl

fresh : (t : ℕ) → has_due t 2 two_procs.timers ≡ false
unfolding has_due
fresh t = refl

IsAsleep-until_40 : IsAsleep 1 40 two_procs
unfolding has_due
IsAsleep-until_40 = record { due = λ t. ground arith; state = refl }

abbrev early_ticks : List ℕ
early_ticks = 31 ∷ 39 ∷ []

early : AllBelow 40 early_ticks
unfolding AllBelow
early = (omega arith, (omega arith, tt))

check_all-IsAsleep_example :
    ((check_all two_procs early_ticks).state 1 ≡ sleeping)
    × ((check_timers (check_all two_procs early_ticks) 41).state 1 ≡ ready)
check_all-IsAsleep_example =
    check_all-IsAsleep 1 40 two_procs early_ticks 41 IsAsleep-until_40 early (omega arith)

abbrev others : List ℕ
others = 0x100 ∷ 0x300 ∷ []

others_differ : NoneIs 0x200 others
unfolding NoneIs
others_differ = (ground arith, (ground arith, tt))
