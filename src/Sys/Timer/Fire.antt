-- ===== src/Sys/Timer/Fire.antt =====
-- What a check of the timers does to every process and every slot.
use ferrite_c.Common.{
  ℕ, ◌≡◌, refl, Bool, true, false, ◌&&◌, ◌||◌, List, [], ◌∷◌, Option, none, some, ◌==◌,
  if◌then◌else◌, leb, update, arith, Bool-cases, inl, inr, ◌∙◌,
}
use ferrite_c.Sys.Timer.{ProcState, ready, Timer, Sched, fire, check_timers, place}

-- A slot holds a timer of the process whose time is at or before `ticks`.
unfoldable pub has_due : (ticks p : ℕ) → List (Option Timer) → Bool
has_due ticks p [] = false
has_due ticks p (none ∷ ts) = has_due ticks p ts
has_due ticks p (some t ∷ ts) = t.proc == p && leb t.expires ticks || has_due ticks p ts

-- The slots, with those whose time is at or before `ticks` cleared.
pub keep : (ticks : ℕ) → List (Option Timer) → List (Option Timer)
keep ticks [] = []
keep ticks (none ∷ ts) = none ∷ keep ticks ts
keep ticks (some t ∷ ts) = (if leb t.expires ticks then none else some t) ∷ keep ticks ts

fire-keep :
    (ticks : ℕ) (ts : List (Option Timer)) (st : ℕ → ProcState)
    → (fire ticks ts st).0 ≡ keep ticks ts
unfolding fire keep
fire-keep ticks [] st = refl
fire-keep ticks (none ∷ ts) st = rw (fire-keep ticks ts st) refl
fire-keep ticks (some t ∷ ts) st =
    rw (fire-keep ticks ts (if leb t.expires ticks then update st t.proc ready else st)) refl

due_first :
    (ticks p : ℕ) (t : Timer) (more : Bool) (st : ℕ → ProcState)
    → (if more then ready else (if leb t.expires ticks then update st t.proc ready else st) p)
      ≡ (if t.proc == p && leb t.expires ticks || more then ready else st p)
due_first ticks p t more st = ground arith

fire-has_due :
    (ticks p : ℕ) (ts : List (Option Timer)) (st : ℕ → ProcState)
    → (fire ticks ts st).1 p ≡ (if has_due ticks p ts then ready else st p)
unfolding fire has_due
fire-has_due ticks p [] st = refl
fire-has_due ticks p (none ∷ ts) st = fire-has_due ticks p ts st
fire-has_due ticks p (some t ∷ ts) st =
    fire-has_due ticks p ts (if leb t.expires ticks then update st t.proc ready else st)
    ∙ due_first ticks p t (has_due ticks p ts) st

-- A check of the timers at `ticks` makes every process ready that has a timer whose `expires` is at most
-- `ticks`, whatever the process was before, and changes the state of no other; exactly the slots of these
-- timers are cleared, and no channel changes.
pub check_timers-has_due :
    (s : Sched) (ticks : ℕ)
    → ((p : ℕ)
        → (check_timers s ticks).state p ≡ (if has_due ticks p s.timers then ready else s.state p))
      × ((check_timers s ticks).timers ≡ keep ticks s.timers)
      × ((check_timers s ticks).channel ≡ s.channel)
unfolding check_timers
check_timers-has_due s ticks =
    ((λ p. fire-has_due ticks p s.timers s.state), fire-keep ticks s.timers s.state, refl)

-- Where no timer of a process has expired, clearing the expired slots takes none of its timers.
pub has_due-keep :
    (ticks later p : ℕ) (ts : List (Option Timer))
    → has_due ticks p ts ≡ false
    → has_due later p (keep ticks ts) ≡ has_due later p ts
unfolding has_due keep
has_due-keep ticks later p [] h = refl
has_due-keep ticks later p (none ∷ ts) h = has_due-keep ticks later p ts h
has_due-keep ticks later p (some t ∷ ts) h =
    let r : has_due ticks p ts ≡ false = ground arith in
    let i = has_due-keep ticks later p ts r in
    elim (Bool-cases (leb t.expires ticks)) [
      | inl d ↦ rw (d, i) (ground arith)
      | inr d ↦ rw (d, i) refl
    ]

-- Every slot is in use.
pub InUse : List (Option Timer) → Type 0
InUse [] = Unit
InUse (none ∷ ts) = ⊥
InUse (some t ∷ ts) = InUse ts

-- What the search for a free slot finds.
pub data Placed (t : Timer) (ts : List (Option Timer)) : Option (List (Option Timer)) → Type 0 where
  no_place : InUse ts → Placed t ts none
  placed :
      (us : List (Option Timer))
      → ((later p : ℕ)
          → has_due later p us ≡ (t.proc == p && leb t.expires later || has_due later p ts))
      → Placed t ts (some us)

swapped : (a b c : Bool) → (a || (b || c)) ≡ (b || (a || c))
swapped true true c = refl
swapped true false c = refl
swapped false b c = refl

Placed-behind :
    (t u : Timer) (ts : List (Option Timer)) (r : Option (List (Option Timer)))
    → Placed t ts r
    → Placed t (some u ∷ ts) (elim r [ none ↦ none | some us ↦ some (some u ∷ us) ])
unfolding has_due InUse
Placed-behind t u ts none (no_place h) = no_place h
Placed-behind t u ts (some r) (placed us h) = placed (some u ∷ us) (λ later p. rw (h later p) (
    swapped (u.proc == p && leb u.expires later) (t.proc == p && leb t.expires later)
      (has_due later p ts)))

pub place-Placed : (t : Timer) (ts : List (Option Timer)) → Placed t ts (place t ts)
unfolding place InUse has_due
place-Placed t [] = no_place tt
place-Placed t (none ∷ ts) = placed (some t ∷ ts) (λ later p. refl)
place-Placed t (some u ∷ ts) = Placed-behind t u ts (place t ts) (place-Placed t ts)
