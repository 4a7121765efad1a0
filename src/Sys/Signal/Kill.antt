-- ===== src/Sys/Signal/Kill.antt =====
-- What `do_kill` does to the table and to the pending signals.
use ferrite_c.Common.{
  ℕ, ◌≤◌, ◌<◌, ◌≡◌, ◌≢◌, ◌⊎◌, inl, inr, refl, true, false, ◌||◌, Option, none, some, ltb, ◌==◌,
  if◌then◌else◌, arith, Bool-cases, ◌∙◌, Run, ok, fault,
}
use ferrite_c.Common.Int.{ℤ, pos, negsuc, neg}
use ferrite_c.Sys.Timer.{ready, num_proc, is_sleeping}
use ferrite_c.Sys.Process.{find_process}
use ferrite_c.Common.Search.{First, none_passes, first}
use ferrite_c.Sys.Process.Search.{find_process-First}
use ferrite_c.Sys.Signal.{Signals, nsig, set_state, set_pending, send, do_kill}

-- The signal is pending for the process i, which does not sleep any more, and no other bit, no other field of
-- it, no other process and nothing else of the table or of the signals changed.
pub record Sent (s : Signals) (i sig : ℕ) (s' : Signals) : Type 0 where
  pub pending : s'.pending i sig ≡ true
  pub other_bits : (j b : ℕ) → (j ≢ i) ⊎ (b ≢ sig) → s'.pending j b ≡ s.pending j b
  pub proc_is : s'.table.procs i ≡ record (s.table.procs i) {
    state = if is_sleeping (s.table.procs i).state then ready else (s.table.procs i).state;
  }
  pub other_procs : (j : ℕ) → j ≢ i → s'.table.procs j ≡ s.table.procs j
  pub rest_of_table : record s'.table { procs = s.table.procs } ≡ s.table
  pub same_need_resched : s'.need_resched ≡ s.need_resched

-- What a call comes to: the signal is out of range, no process has the pid, the first process with the
-- pid gets it, or the bit of the word does not exist.
pub data Kill (s : Signals) (pid : ℕ) : ℤ → Run (Signals × ℤ) → Type 0 where
  negative : (n : ℕ) → Kill s pid (negsuc n) (ok (s, neg 1))
  out_of_range : (sig : ℕ) → (sig < 1) ⊎ (nsig < sig) → Kill s pid (pos sig) (ok (s, neg 1))
  no_process :
      (sig : ℕ)
      → ((j : ℕ) → j < num_proc → (s.table.procs j).pid ≢ pid)
      → Kill s pid (pos sig) (ok (s, neg 1))
  sent :
      (sig i : ℕ) (s' : Signals)
      → 1 ≤ sig
      → sig < nsig
      → i < num_proc
      → (s.table.procs i).pid ≡ pid
      → ((j : ℕ) → j < i → (s.table.procs j).pid ≢ pid)
      → Sent s i sig s'
      → Kill s pid (pos sig) (ok (s', pos 0))
  shifted_by_width : (i : ℕ) → (s.table.procs i).pid ≡ pid → Kill s pid (pos 32) fault

written_at :
    (s : Signals) (i sig : ℕ)
    → (set_state i ready (set_pending i sig true s)).table.procs i
      ≡ record (s.table.procs i) { state = ready }
written_at s i sig = let e : (i == i) ≡ true = ground arith in rw e refl

Sent-send :
    (s : Signals) (i sig : ℕ)
    → Sent s i sig (
        if is_sleeping (s.table.procs i).state
        then set_state i ready (set_pending i sig true s)
        else set_pending i sig true s)
Sent-send s i sig = elim (Bool-cases (is_sleeping (s.table.procs i).state)) [
  | inl e ↦ rw e (record {
    pending = ground arith;
    other_bits = λ j b ne. ground arith;
    proc_is = written_at s i sig ∙ rw e refl;
    other_procs = λ j ne. ground arith;
    rest_of_table = refl;
    same_need_resched = refl;
  })
  | inr e ↦ rw e (record {
    pending = ground arith;
    other_bits = λ j b ne. ground arith;
    proc_is = rw e refl;
    other_procs = λ j ne. refl;
    rest_of_table = refl;
    same_need_resched = refl;
  })
]

differs : (a b : ℕ) → (a == b) ≡ false → a ≢ b
differs a b e = ground arith

send-Kill :
    (s : Signals) (pid sig : ℕ) (found : Option ℕ)
    → 1 ≤ sig
    → sig ≤ nsig
    → First 0 num_proc (λ i. (s.table.procs i).pid == pid) found
    → Kill s pid (pos sig) (send found sig s)
unfolding send
send-Kill s pid sig none a b (none_passes h) =
    no_process sig (λ j l. differs (s.table.procs j).pid pid (h j (omega arith) l))
send-Kill s pid sig (some i) a b (first j c d hit before) = elim (Bool-cases (sig == 32)) [
  | inl e ↦ let h : sig ≡ 32 = ground arith in rw h (shifted_by_width i (ground arith))
  | inr e ↦ rw e (
      sent sig i _ a (ground arith) d (ground arith)
        (λ k l. differs (s.table.procs k).pid pid (before k (omega arith) l)) (Sent-send s i sig))
]

-- A call with a signal from 1 to 31 makes it pending for the first process with the pid, which is woken if
-- it sleeps, and changes nothing else; with a signal out of range, or a pid that no process has, it
-- changes nothing and returns -1; the signal 32 passes the test, and the shift by it is undefined.
pub do_kill-Kill : (s : Signals) (pid : ℕ) (sig : ℤ) → Kill s pid sig (do_kill s pid sig)
unfolding do_kill
do_kill-Kill s pid (negsuc n) = negative n
do_kill-Kill s pid (pos sig) = elim (Bool-cases (ltb sig 1 || ltb nsig sig)) [
  | inl e ↦ rw e (out_of_range sig (ground arith))
  | inr e ↦ rw e (
      send-Kill s pid sig (find_process s.table pid) (ground arith) (ground arith)
        (find_process-First s.table pid))
]
