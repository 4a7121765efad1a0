-- ===== src/Sys/Signal/Handle.antt =====
-- What `handle_signal` does to the calling process.
use ferrite_c.Common.{
  ℕ, zero, suc, ◌+◌, ◌≤◌, ◌<◌, ◌≡◌, ◌≢◌, ◌⊎◌, inl, inr, refl, Bool, true, false, ◌&&◌, leb, ltb,
  ◌==◌, if◌then◌else◌, arith, Bool-cases, ◌∙◌, sym, ap,
}
use ferrite_c.Sys.Timer.{ProcState, sleeping, ready, zombie, is_sleeping}
use ferrite_c.Sys.Process.Reparent.{is_sleeping-eq}
use ferrite_c.Sys.Signal.{
  Signals, set_state, set_pending, Ends, returned, switched, yield, Action, stop, kill, continue,
  core, term, unknown, default_action, perform, sig_ign, sig_err, take_signal, signal_loop,
  any_pending, handle_signal,
}

-- The signals from `low` up to `high` are not pending any more; every other process is as it was.
pub record Cleared (me low high : ℕ) (s s' : Signals) : Type 0 where
  pub bits : (b : ℕ) → s'.pending me b ≡ (if leb low b && ltb b high then false else s.pending me b)
  pub other_bits : (j : ℕ) → j ≢ me → s'.pending j ≡ s.pending j
  pub other_procs : (j : ℕ) → j ≢ me → s'.table.procs j ≡ s.table.procs j

-- The state is as it was, or the process slept and is ready.
abbrev pub Resumed : ProcState → ProcState → Type 0
Resumed st st' = (st' ≡ st) ⊎ ((st ≡ sleeping) × (st' ≡ ready))

-- What the signals from `low` up to `high` come to: each was taken, or one made the process yield, which
-- left it READY.
pub data Handled (me low high : ℕ) (s : Signals) : Ends → Type 0 where
  all_taken :
      (s' : Signals)
      → Cleared me low high s s'
      → Resumed (s.table.procs me).state (s'.table.procs me).state
      → Handled me low high s (returned s')
  yielded :
      (s' : Signals) (sig : ℕ)
      → low ≤ sig
      → sig < high
      → s.pending me sig ≡ true
      → Cleared me low (sig + 1) s s'
      → (s'.table.procs me).state ≡ ready
      → Handled me low high s (switched s')

Cleared-set_pending :
    (me sig : ℕ) (s : Signals) → Cleared me sig (sig + 1) s (set_pending me sig false s)
Cleared-set_pending me sig s = record {
  bits = λ b. ground arith;
  other_bits = λ j ne. ground arith;
  other_procs = λ j ne. refl;
}

not_pending :
    (sig b : ℕ) (bits : ℕ → Bool)
    → bits sig ≡ false
    → bits b ≡ (if leb sig b && ltb b (sig + 1) then false else bits b)
not_pending sig b bits e = elim (Bool-cases (b == sig)) [
  | inl same ↦
      let h : b ≡ sig = ground arith in let z : bits b ≡ false = ap bits h ∙ e in ground arith
  | inr other ↦ ground arith
]

Cleared-set_state :
    (me low high : ℕ) (st : ProcState) (s s' : Signals)
    → Cleared me low high s s'
    → Cleared me low high s (set_state me st s')
Cleared-set_state me low high st s s' c = record {
  bits = c.bits;
  other_bits = c.other_bits;
  other_procs = λ j ne. let h = c.other_procs j ne in ground arith;
}

Cleared-yield :
    (me low high : ℕ) (s s' : Signals)
    → Cleared me low high s s'
    → Cleared me low high s (set_state me ready (record s' { need_resched = false }))
Cleared-yield me low high s s' c = record {
  bits = c.bits;
  other_bits = c.other_bits;
  other_procs = λ j ne. let h = c.other_procs j ne in ground arith;
}

state-set_state :
    (me : ℕ) (st : ProcState) (s : Signals) → ((set_state me st s).table.procs me).state ≡ st
state-set_state me st s = ground arith

yields :
    (me sig : ℕ) (st : ProcState) (s s' : Signals)
    → s.pending me sig ≡ true
    → Cleared me sig (sig + 1) s s'
    → Handled me sig (sig + 1) s (yield me (set_state me st s'))
yields me sig st s s' p c =
    yielded _ sig (omega arith) (omega arith) p
      (Cleared-yield me sig (sig + 1) s (set_state me st s')
        (Cleared-set_state me sig (sig + 1) st s s' c))
      (state-set_state me ready (record (set_state me st s') { need_resched = false }))

perform-Handled :
    (a : Action) (me sig : ℕ) (s s' : Signals)
    → s.pending me sig ≡ true
    → Cleared me sig (sig + 1) s s'
    → (s'.table.procs me).state ≡ (s.table.procs me).state
    → Handled me sig (sig + 1) s (perform a me s')
perform-Handled stop me sig s s' p c st = yields me sig sleeping s s' p c
perform-Handled kill me sig s s' p c st = yields me sig zombie s s' p c
perform-Handled continue me sig s s' p c st =
    elim (Bool-cases (is_sleeping (s'.table.procs me).state)) [
      | inl e ↦ rw e (
          all_taken _ (Cleared-set_state me sig (sig + 1) ready s s' c) (
            inr (sym st ∙ is_sleeping-eq (s'.table.procs me).state e, state-set_state me ready s')))
      | inr e ↦ rw e (all_taken _ c (inl st))
    ]
perform-Handled core me sig s s' p c st = yields me sig zombie s s' p c
perform-Handled term me sig s s' p c st = yields me sig zombie s s' p c
perform-Handled unknown me sig s s' p c st = all_taken _ c (inl st)

-- None of the handlers is a function.
abbrev pub NoCustom : (sigaction : ℕ → ℕ) → Type 0
NoCustom sigaction =
    (sig : ℕ) → (sigaction sig ≡ 0) ⊎ ((sigaction sig ≡ sig_ign) ⊎ (sigaction sig ≡ sig_err))

take_signal-Handled :
    (sigaction : ℕ → ℕ) (custom : ℕ → ℕ → Signals → Signals) (me sig : ℕ) (s : Signals)
    → NoCustom sigaction
    → Handled me sig (sig + 1) s (take_signal sigaction custom me sig s)
unfolding take_signal
take_signal-Handled sigaction custom me sig s plain =
    let c = Cleared-set_pending me sig s in
    elim (Bool-cases (s.pending me sig)) [
      | inl p ↦ elim (plain sig) [
        | inl d ↦ rw (p, d) (perform-Handled (default_action sig) me sig s _ p c refl)
        | inr (inl i) ↦ rw (p, i) (all_taken _ c (inl refl))
        | inr (inr i) ↦ rw (p, i) (all_taken _ c (inl refl))
      ]
      | inr p ↦ rw p (
          all_taken s
            (record {
              bits = λ b. not_pending sig b (s.pending me) p;
              other_bits = λ j ne. refl;
              other_procs = λ j ne. refl;
            })
            (inl refl))
    ]

bits_trans :
    (low b end high : ℕ) (x y z : Bool)
    → low < end
    → end ≤ high
    → y ≡ (if leb low b && ltb b (low + 1) then false else x)
    → z ≡ (if leb (low + 1) b && ltb b end then false else y)
    → z ≡ (if leb low b && ltb b end then false else x)
bits_trans low b end high x y z l m f g = ground arith

Cleared-trans :
    (me low end : ℕ) (s s1 s2 : Signals)
    → low < end
    → Cleared me low (low + 1) s s1
    → Cleared me (low + 1) end s1 s2
    → Cleared me low end s s2
Cleared-trans me low end s s1 s2 l a c = record {
  bits = λ b.
      bits_trans low b end end (s.pending me b) (s1.pending me b) (s2.pending me b) l (omega arith)
        (a.bits b) (c.bits b);
  other_bits = λ j ne. c.other_bits j ne ∙ a.other_bits j ne;
  other_procs = λ j ne. c.other_procs j ne ∙ a.other_procs j ne;
}

Resumed-trans : (a b c : ProcState) → Resumed a b → Resumed b c → Resumed a c
Resumed-trans a b c (inl e) (inl f) = inl (f ∙ e)
Resumed-trans a b c (inl e) (inr (x, y)) = inr (sym e ∙ x, y)
Resumed-trans a b c (inr (x, y)) (inl f) = inr (x, f ∙ y)
Resumed-trans a b c (inr (x, y)) (inr (z, w)) = inr (x, w)

was_pending :
    (low sig : ℕ) (x y : Bool)
    → low < sig
    → y ≡ (if leb low sig && ltb sig (low + 1) then false else x)
    → y ≡ true
    → x ≡ true
was_pending low sig x y l e p = ground arith

Handled-behind :
    (me low high : ℕ) (s s1 : Signals) (r : Ends)
    → low < high
    → Cleared me low (low + 1) s s1
    → Resumed (s.table.procs me).state (s1.table.procs me).state
    → Handled me (low + 1) high s1 r
    → Handled me low high s r
Handled-behind me low high s s1 (returned s2) l a st (all_taken _ c st') =
    all_taken s2 (Cleared-trans me low high s s1 s2 l a c) (
      Resumed-trans (s.table.procs me).state (s1.table.procs me).state (s2.table.procs me).state st
        st')
Handled-behind me low high s s1 (switched s2) l a st (yielded _ sig b d p c e) =
    yielded s2 sig (omega (arith, b)) d
      (was_pending low sig (s.pending me sig) (s1.pending me sig) (omega (arith, b)) (a.bits sig) p)
      (Cleared-trans me low (sig + 1) s s1 s2 (omega (arith, b)) a c) e

behind_first :
    (k low : ℕ) (sigaction : ℕ → ℕ) (custom : ℕ → ℕ → Signals → Signals) (me : ℕ) (s : Signals)
    (r : Ends)
    → ((s1 : Signals)
        → Handled me (low + 1) (low + 1 + k) s1 (signal_loop k (low + 1) sigaction custom me s1))
    → Handled me low (low + 1) s r
    → Handled me low (low + 1 + k) s (elim r [
      | returned s' ↦ signal_loop k (low + 1) sigaction custom me s'
      | switched s' ↦ switched s'
    ])
behind_first k low sigaction custom me s (returned s1) rest (all_taken _ c st) =
    Handled-behind me low (low + 1 + k) s s1 (signal_loop k (low + 1) sigaction custom me s1)
      (omega arith) c st (rest s1)
behind_first k low sigaction custom me s (switched s1) rest (yielded _ sig b d p c e) =
    yielded s1 sig b (omega (arith, d)) p c e

round : (low k : ℕ) → low + suc k ≡ low + 1 + k
round low k = omega arith

signal_loop-Handled :
    (count low : ℕ) (sigaction : ℕ → ℕ) (custom : ℕ → ℕ → Signals → Signals) (me : ℕ) (s : Signals)
    → NoCustom sigaction
    → Handled me low (low + count) s (signal_loop count low sigaction custom me s)
unfolding signal_loop
signal_loop-Handled zero low sigaction custom me s plain =
    all_taken s
      (record { bits = λ b. ground arith; other_bits = λ j ne. refl; other_procs = λ j ne. refl })
      (inl refl)
signal_loop-Handled (suc k) low sigaction custom me s plain = rw (round low k) (
    behind_first k low sigaction custom me s (take_signal sigaction custom me low s)
      (λ s1. signal_loop-Handled k (low + 1) sigaction custom me s1 plain)
      (take_signal-Handled sigaction custom me low s plain))

none_pending :
    (count low : ℕ) (bits : ℕ → Bool)
    → any_pending count low bits ≡ false
    → (b : ℕ) → low ≤ b
    → b < low + count
    → bits b ≡ false
none_pending zero low bits e b l h = absurd (omega (arith, l, h))
none_pending (suc k) low bits e b l h = elim (Bool-cases (b == low)) [
  | inl same ↦ let x : b ≡ low = ground arith in ap bits x ∙ ground arith
  | inr other ↦ none_pending k (low + 1) bits (ground arith) b (ground arith) (omega (arith, h))
]

quiet : (b : ℕ) (x : Bool) → (b < 32 → x ≡ false) → x ≡ (if leb 1 b && ltb b 32 then false else x)
quiet b x h = elim (Bool-cases (ltb b 32)) [
  | inl l ↦ let e = h (ground arith) in ground arith
  | inr l ↦ ground arith
]

-- Where no handler is a function, `handle_signal` returns with every signal from 1 to 31 taken and the
-- state as it was, or READY where it was SLEEPING; or it switches to the scheduler at a pending signal,
-- with that one and those before it taken, and then the process is READY: no signal leaves it ended or
-- stopped. The other processes and their signals are as before.
pub handle_signal-Handled :
    (sigaction : ℕ → ℕ) (custom : ℕ → ℕ → Signals → Signals) (me : ℕ) (s : Signals)
    → NoCustom sigaction
    → Handled me 1 32 s (handle_signal sigaction custom me s)
unfolding handle_signal
handle_signal-Handled sigaction custom me s plain =
    elim (Bool-cases (any_pending 32 0 (s.pending me))) [
      | inl e ↦ rw e (signal_loop-Handled 31 1 sigaction custom me s plain)
      | inr e ↦ rw e (
          all_taken s
            (record {
              bits = λ b.
                  quiet b (s.pending me b)
                    (λ l. none_pending 32 0 (s.pending me) e b (omega arith) (omega (arith, l)));
              other_bits = λ j ne. refl;
              other_procs = λ j ne. refl;
            })
            (inl refl))
    ]
