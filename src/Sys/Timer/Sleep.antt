-- ===== src/Sys/Timer/Sleep.antt =====
-- A process that sleeps for a time wakes when it is over.
use ferrite_c.Common.{
  ℕ, ◌+◌, ◌*◌, ◌/◌, ◌%◌, ◌^◌, ◌≤◌, ◌<◌, ◌≡◌, ◌≢◌, refl, false, List, [], ◌∷◌, Option, none, some,
  leb, if◌then◌else◌, arith, ap, ◌∙◌, le→leb,
}
use ferrite_c.Common.Int.{ℤ, pos, neg, ltb_zero}
use ferrite_c.Sys.Timer.{
  ready, sleeping, Timer, Sched, set_state, check_timers, place, add_timer, knanosleep, hz,
}
use ferrite_c.Sys.Timer.Fire.{
  has_due, check_timers-has_due, has_due-keep, InUse, Placed, no_place, placed, place-Placed,
}

-- The process sleeps, and the least `expires` of its timers is e: it has one at most t exactly from e on.
pub record IsAsleep (p e : ℕ) (s : Sched) : Type 0 where
  pub due : (t : ℕ) → has_due t p s.timers ≡ leb e t
  pub state : s.state p ≡ sleeping

-- What a call of `knanosleep` does up to the switch.
pub data Slept (s : Sched) (e p : ℕ) : Sched × ℤ → Type 0 where
  no_timer : InUse s.timers → Slept s e p (s, neg 1)
  asleep :
      (s' : Sched)
      → IsAsleep p e s'
      → ((q : ℕ) → q ≢ p → s'.state q ≡ s.state q)
      → Slept s e p (s', pos 0)

Placed-Slept :
    (s : Sched) (p e : ℕ) (r : Option (List (Option Timer)))
    → ((t : ℕ) → has_due t p s.timers ≡ false)
    → Placed (record { expires = e; proc = p }) s.timers r
    → Slept s e p (
        let (s', k) : Sched × ℤ = elim r [
          | some ts ↦ (record s { timers = ts }, pos 0)
          | none ↦ (s, neg 1)
        ] in
        if ltb_zero k then (s', neg 1) else (set_state s' p sleeping, pos 0))
Placed-Slept s p e none fresh (no_place h) = no_timer h
Placed-Slept s p e (some r) fresh (placed us h) =
    asleep (set_state (record s { timers = us }) p sleeping)
      (record { due = λ t. h t p ∙ rw (fresh t) (ground arith); state = ground arith })
      (λ q ne. ground arith)

-- A process without a timer that calls `knanosleep`: where every slot is in use the call returns -1
-- and nothing changes; otherwise the process sleeps, with a timer that expires at the end of the time
-- and not before, and no other process changes its state.
pub knanosleep-Slept :
    (s : Sched) (ticks p ms : ℕ)
    → ((t : ℕ) → has_due t p s.timers ≡ false)
    → Slept s ((ticks + ms * hz / 1000) % 2 ^ 64) p (knanosleep s ticks p ms)
unfolding knanosleep add_timer
knanosleep-Slept s ticks p ms fresh =
    Placed-Slept s p _ (place _ s.timers) fresh (place-Placed _ s.timers)

pub check_all : Sched → List ℕ → Sched
check_all s [] = s
check_all s (t ∷ ts) = check_all (check_timers s t) ts

unfoldable pub AllBelow : ℕ → List ℕ → Type 0
AllBelow e [] = Unit
AllBelow e (t ∷ ts) = (t < e) × AllBelow e ts

check_timers-IsAsleep :
    (p e t : ℕ) (s : Sched) → t < e → IsAsleep p e s → IsAsleep p e (check_timers s t)
check_timers-IsAsleep p e t s early a =
    let (states, slots, _) = check_timers-has_due s t in
    let n : has_due t p s.timers ≡ false = a.due t ∙ ground arith in
    record {
      due = λ t'. ap (has_due t' p) slots ∙ has_due-keep t t' p s.timers n ∙ a.due t';
      state = states p ∙ rw n a.state;
    }

-- A sleeping process stays asleep over any number of checks before its time, and the first check at or
-- after its time makes it ready.
pub check_all-IsAsleep :
    (p e : ℕ) (s : Sched) (ts : List ℕ) (t : ℕ)
    → IsAsleep p e s
    → AllBelow e ts
    → e ≤ t
    → ((check_all s ts).state p ≡ sleeping) × ((check_timers (check_all s ts) t).state p ≡ ready)
unfolding check_all AllBelow
check_all-IsAsleep p e s [] t a early late =
    let (states, _, _) = check_timers-has_due s t in
    (a.state, states p ∙ rw (a.due t, le→leb e t late) refl)
check_all-IsAsleep p e s (t' ∷ ts) t a (b, early) late =
    check_all-IsAsleep p e (check_timers s t') ts t (check_timers-IsAsleep p e t' s b a) early late
