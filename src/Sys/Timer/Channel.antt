-- ===== src/Sys/Timer/Channel.antt =====
-- A process that waits on a channel wakes when the channel is woken.
use ferrite_c.Common.{ℕ, ◌<◌, ◌≡◌, ◌≢◌, refl, true, List, [], ◌∷◌, ltb, ◌==◌, arith}
use ferrite_c.Sys.Timer.{ready, sleeping, Sched, waitchan, wakeup, num_proc}

pub wakeup_all : Sched → List ℕ → Sched
wakeup_all s [] = s
wakeup_all s (c ∷ cs) = wakeup_all (wakeup s c) cs

unfoldable pub NoneIs : ℕ → List ℕ → Type 0
NoneIs c [] = Unit
NoneIs c (d ∷ ds) = (d ≢ c) × NoneIs c ds

record IsWaiting (p c : ℕ) (s : Sched) : Type 0 where
  channel : s.channel p ≡ c
  state : s.state p ≡ sleeping

wakeup-IsWaiting : (p c d : ℕ) (s : Sched) → d ≢ c → IsWaiting p c s → IsWaiting p c (wakeup s d)
unfolding wakeup
wakeup-IsWaiting p c d s ne w = record { channel = w.channel; state = ground arith }

woken : (p c : ℕ) (s : Sched) → p < num_proc → IsWaiting p c s → (wakeup s c).state p ≡ ready
unfolding wakeup
woken p c s few w =
    rw
      (
        (let e : ltb p num_proc ≡ true = ground arith in e),
        (let e : (s.channel p == c) ≡ true = ground arith in e),
        w.state,
      )
      refl

waits_through :
    (p c : ℕ) (s : Sched) (ds : List ℕ)
    → p < num_proc
    → IsWaiting p c s
    → NoneIs c ds
    → ((wakeup_all s ds).state p ≡ sleeping) × ((wakeup (wakeup_all s ds) c).state p ≡ ready)
unfolding wakeup_all NoneIs
waits_through p c s [] few w h = (w.state, woken p c s few w)
waits_through p c s (d ∷ ds) few w (ne, h) =
    waits_through p c (wakeup s d) ds few (wakeup-IsWaiting p c d s ne w) h

waitchan-IsWaiting : (s : Sched) (p c : ℕ) → IsWaiting p c (waitchan s p c)
unfolding waitchan
waitchan-IsWaiting s p c = record { channel = ground arith; state = ground arith }

-- A process that calls `waitchan` sleeps through the wakeups of every other channel, however many,
-- and the first `wakeup` of its channel makes it ready.
pub wakeup-waitchan :
    (s : Sched) (p c : ℕ) (ds : List ℕ)
    → p < num_proc
    → NoneIs c ds
    → ((wakeup_all (waitchan s p c) ds).state p ≡ sleeping)
      × ((wakeup (wakeup_all (waitchan s p c) ds) c).state p ≡ ready)
wakeup-waitchan s p c ds few h =
    waits_through p c (waitchan s p c) ds few (waitchan-IsWaiting s p c) h
