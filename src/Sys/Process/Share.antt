-- ===== src/Sys/Process/Share.antt =====
-- The open files that a new process shares with its parent.
use mathlib.Core.List.{append_assoc, append-nil}
use ferrite_c.Common.{
  ℕ, zero, suc, ◌+◌, ◌<◌, ◌≡◌, ◌≢◌, inl, inr, refl, ◌&&◌, ltb, leb, ◌==◌, if◌then◌else◌, update,
  arith, Bool-cases, ◌∙◌, sym, ap, List, [], ◌∷◌, ◌++◌,
}
use ferrite_c.Sys.Process.{Proc, Table, Call, hold_file, write_proc, call, share_fds}

-- The calls for the descriptor fd.
abbrev pub hold_call : (fd : ℕ) → (files : ℕ → ℕ) → List Call
hold_call fd files = if files fd == 0 then [] else hold_file (files fd) ∷ []

-- The calls for the descriptors from fd on.
pub hold_calls : (count fd : ℕ) → (files : ℕ → ℕ) → List Call
hold_calls zero fd files = []
hold_calls (suc k) fd files = hold_call fd files ++ hold_calls k (fd + 1) files

-- The process q became q', with these files from `low` up to `high`.
pub record Shared (low high : ℕ) (files : ℕ → ℕ) (q q' : Proc) : Type 0 where
  pub pid : q'.pid ≡ q.pid
  pub state : q'.state ≡ q.state
  pub parent : q'.parent ≡ q.parent
  pub root : q'.root ≡ q.root
  pub pwd : q'.pwd ≡ q.pwd
  pub fds :
      (fd : ℕ)
      → q'.open_files fd ≡ (if leb low fd && ltb fd high then files fd else q.open_files fd)

-- The slot i got these files from `low` up to `high`, with the calls cs.
pub record Shares (i low high : ℕ) (files : ℕ → ℕ) (cs : List Call) (t t' : Table) : Type 0 where
  pub mine : Shared low high files (t.procs i) (t'.procs i)
  pub others : (j : ℕ) → j ≢ i → t'.procs j ≡ t.procs j
  pub counter : t'.pid_counter ≡ t.pid_counter
  pub calls : t'.calls ≡ t.calls ++ cs

-- One round of the loop.
abbrev share_fd : (fd i : ℕ) → (files : ℕ → ℕ) → Table → Table
share_fd fd i files t =
    let t1 =
      write_proc t i
        (record (t.procs i) { open_files = update (t.procs i).open_files fd (files fd) }) in
    if files fd == 0 then t1 else call t1 (hold_file (files fd) ∷ [])

at_fd :
    (fd k : ℕ) (files old : ℕ → ℕ)
    → update old fd (files fd) k ≡ (if leb fd k && ltb k (fd + 1) then files k else old k)
at_fd fd k files old = elim (Bool-cases (k == fd)) [
  | inl same ↦ let h : k ≡ fd = ground arith in let z = ap files h in ground arith
  | inr other ↦ ground arith
]

share_fd-Shares :
    (fd i : ℕ) (files : ℕ → ℕ) (t : Table)
    → Shares i fd (fd + 1) files (hold_call fd files) t (share_fd fd i files t)
share_fd-Shares fd i files t =
    let t1 =
      write_proc t i
        (record (t.procs i) { open_files = update (t.procs i).open_files fd (files fd) }) in
    let m : Shared fd (fd + 1) files (t.procs i) (t1.procs i) = record {
      pid = ground arith;
      state = ground arith;
      parent = ground arith;
      root = ground arith;
      pwd = ground arith;
      fds = λ k. let z = at_fd fd k files (t.procs i).open_files in ground arith;
    } in
    elim (Bool-cases (files fd == 0)) [
      | inl e ↦ rw e (record {
        mine = m;
        others = λ j ne. ground arith;
        counter = refl;
        calls = sym (append-nil t.calls);
      })
      | inr e ↦
          rw e (record { mine = m; others = λ j ne. ground arith; counter = refl; calls = refl })
    ]

Shared-trans :
    (low high end : ℕ) (files : ℕ → ℕ) (q r s : Proc)
    → low < high
    → end ≡ high
    → Shared low (low + 1) files q r
    → Shared (low + 1) end files r s
    → Shared low high files q s
Shared-trans low high end files q r s l e a b = record {
  pid = b.pid ∙ a.pid;
  state = b.state ∙ a.state;
  parent = b.parent ∙ a.parent;
  root = b.root ∙ a.root;
  pwd = b.pwd ∙ a.pwd;
  fds = λ fd. let f = a.fds fd in let g = b.fds fd in ground arith;
}

pub share_fds-Shares :
    (count fd i : ℕ) (files : ℕ → ℕ) (t : Table)
    → Shares i fd (fd + count) files (hold_calls count fd files) t (share_fds count fd i files t)
unfolding share_fds hold_calls
share_fds-Shares zero fd i files t = record {
  mine = record {
    pid = refl;
    state = refl;
    parent = refl;
    root = refl;
    pwd = refl;
    fds = λ k. ground arith;
  };
  others = λ j ne. refl;
  counter = refl;
  calls = sym (append-nil t.calls);
}
share_fds-Shares (suc k) fd i files t =
    let t1 = share_fd fd i files t in
    let a = share_fd-Shares fd i files t in
    let b = share_fds-Shares k (fd + 1) i files t1 in
    record {
      mine =
          Shared-trans fd (fd + suc k) (fd + 1 + k) files (t.procs i) (t1.procs i)
            ((share_fds k (fd + 1) i files t1).procs i) (omega arith) (omega arith) a.mine b.mine;
      others = λ j ne. b.others j ne ∙ a.others j ne;
      counter = b.counter ∙ a.counter;
      calls =
          b.calls
          ∙ ap (λ (x : List Call). x ++ hold_calls k (fd + 1) files) a.calls
          ∙ append_assoc t.calls (hold_call fd files) (hold_calls k (fd + 1) files);
    }
