-- ===== src/Sys/Process/Wait.antt =====
-- The wait of a parent for a child that exits.
use ferrite_c.Common.{
  ℕ, zero, suc, ◌+◌, ◌≤◌, ◌<◌, ◌≡◌, ◌≢◌, inl, inr, refl, Bool, true, false, ◌&&◌, ◌==◌, arith,
  Bool-cases, ◌∙◌, sym, ap,
}
use ferrite_c.Common.Int.{ℤ}
use ferrite_c.Sys.Timer.{ProcState, unused, embryo, sleeping, ready, running, zombie, num_proc}
use ferrite_c.Sys.Process.{
  Proc, Table, addr, do_exit, is_zombie, Round, reaped, reap, wait_scan, do_wait_round,
}
use ferrite_c.Sys.Process.Exit.{do_exit-Exited}

-- The wait of a parent after the exit: what a round of `do_wait` does is reap a zombie child.
pub data Reaps (q : ℕ) (t : Table) : Round → Type 0 where
  reaps :
      (i : ℕ)
      → i < num_proc
      → (t.procs i).parent ≡ addr q
      → (t.procs i).state ≡ zombie
      → ((j : ℕ) → j < i → (t.procs j).parent ≡ addr q → (t.procs j).state ≢ zombie)
      → Reaps q t (reaped (t.procs i).pid (t.procs i).status (reap i t))

is_zombie-eq : (s : ProcState) → is_zombie s ≡ true → s ≡ zombie
is_zombie-eq unused e = cc
is_zombie-eq embryo e = cc
is_zombie-eq sleeping e = cc
is_zombie-eq ready e = cc
is_zombie-eq running e = cc
is_zombie-eq zombie e = refl

passed :
    (r : Proc) (a : ℕ)
    → (r.parent == a && is_zombie r.state) ≡ false
    → r.parent ≡ a
    → r.state ≢ zombie
passed r a e p z = let h : (r.parent == a) ≡ true = ground arith in cc

passed_below :
    (t : Table) (q low : ℕ)
    → ((t.procs low).parent == addr q && is_zombie (t.procs low).state) ≡ false
    → ((j : ℕ) → j < low → (t.procs j).parent ≡ addr q → (t.procs j).state ≢ zombie)
    → (j : ℕ) → j < low + 1
    → (t.procs j).parent ≡ addr q
    → (t.procs j).state ≢ zombie
passed_below t q low e before j l p z = elim (Bool-cases (j == low)) [
  | inl same ↦
      let h : j ≡ low = ground arith in
      passed (t.procs low) (addr q) e (ap (λ (i : ℕ). (t.procs i).parent) (sym h) ∙ p)
        (ap (λ (i : ℕ). (t.procs i).state) (sym h) ∙ z)
  | inr other ↦ before j (ground arith) p z
]

wait_scan-Reaps :
    (count low q : ℕ) (kids : Bool) (t : Table) (me : ℕ)
    → low ≤ me
    → me < low + count
    → low + count ≤ num_proc
    → (t.procs me).parent ≡ addr q
    → (t.procs me).state ≡ zombie
    → ((j : ℕ) → j < low → (t.procs j).parent ≡ addr q → (t.procs j).state ≢ zombie)
    → Reaps q t (wait_scan count low (addr q) kids t)
unfolding wait_scan
wait_scan-Reaps zero low q kids t me a b c par z before = absurd (omega arith)
wait_scan-Reaps (suc k) low q kids t me a b c par z before =
    elim (Bool-cases ((t.procs low).parent == addr q && is_zombie (t.procs low).state)) [
      | inl e ↦ rw e (
          reaps low (omega (arith, c)) (ground arith)
            (is_zombie-eq (t.procs low).state (ground arith)) before)
      | inr e ↦
          let here : low ≢ me = λ h.
            passed (t.procs low) (addr q) e (ap (λ (i : ℕ). (t.procs i).parent) h ∙ par)
              (ap (λ (i : ℕ). (t.procs i).state) h ∙ z) in
          rw e (
            wait_scan-Reaps k (low + 1) q _ t me (omega (arith, a, here)) (omega (arith, b))
              (omega (arith, c)) par z (passed_below t q low e before))
    ]

-- After the exit of a child, a round of the parent's `do_wait` reaps a zombie child, the first in the
-- table, with its pid and its status: the parent does not go to sleep, and does not report that it has
-- no children.
pub do_wait_round-do_exit :
    (t : Table) (has_release : ℕ → Bool) (me q init : ℕ) (status : ℤ)
    → me < num_proc
    → init ≢ addr me
    → q ≢ me
    → (t.procs me).parent ≡ addr q
    → Reaps q
        (do_exit t has_release me init status)
        (do_wait_round (do_exit t has_release me init status) q)
unfolding do_wait_round
do_wait_round-do_exit t has_release me q init status mine other ne par =
    let e = do_exit-Exited t has_release me init status mine other (ground arith) in
    wait_scan-Reaps num_proc 0 q false (do_exit t has_release me init status) me (omega arith)
      (omega (arith, mine)) (omega arith) (e.same_parent ∙ par) e.is_zombie
      (λ j l p. absurd (omega arith))
