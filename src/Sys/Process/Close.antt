-- ===== src/Sys/Process/Close.antt =====
-- The open files and the directories of a process that exits.
use mathlib.Core.List.{append_assoc, append-nil}
use ferrite_c.Common.{
  ℕ, zero, suc, ◌+◌, ◌≤◌, ◌<◌, ◌≡◌, ◌≢◌, inl, inr, refl, Bool, true, ◌&&◌, ltb, leb, ◌==◌,
  if◌then◌else◌, arith, Bool-cases, ◌∙◌, sym, ap, List, [], ◌++◌,
}
use ferrite_c.Sys.Process.{Proc, Table, Call, closing, close_fd, close_fds}

-- The calls for the descriptor fd.
abbrev pub fd_calls : (fd : ℕ) → (has_release : ℕ → Bool) → (files : ℕ → ℕ) → List Call
fd_calls fd has_release files = if files fd == 0 then [] else closing has_release (files fd)

-- The calls for the open files of the descriptors from fd on.
pub open_calls : (count fd : ℕ) → (has_release : ℕ → Bool) → (files : ℕ → ℕ) → List Call
open_calls zero fd has_release files = []
open_calls (suc k) fd has_release files =
    fd_calls fd has_release files ++ open_calls k (fd + 1) has_release files

-- The process q became q' without open files from `low` up to `high`.
pub record Closed (low high : ℕ) (q q' : Proc) : Type 0 where
  pub pid : q'.pid ≡ q.pid
  pub state : q'.state ≡ q.state
  pub parent : q'.parent ≡ q.parent
  pub channel : q'.channel ≡ q.channel
  pub root : q'.root ≡ q.root
  pub pwd : q'.pwd ≡ q.pwd
  pub files :
      (fd : ℕ) → q'.open_files fd ≡ (if leb low fd && ltb fd high then 0 else q.open_files fd)

-- The descriptors from `low` up to `high` of the process `me` were closed, with the calls cs.
pub record Closes (me low high : ℕ) (cs : List Call) (t t' : Table) : Type 0 where
  pub mine : Closed low high (t.procs me) (t'.procs me)
  pub others : (i : ℕ) → i ≢ me → t'.procs i ≡ t.procs i
  pub calls : t'.calls ≡ t.calls ++ cs

closed_entry :
    (fd i : ℕ) (files : ℕ → ℕ)
    → (files fd == 0) ≡ true
    → files i ≡ (if leb fd i && ltb i (fd + 1) then 0 else files i)
closed_entry fd i files e = elim (Bool-cases (i == fd)) [
  | inl same ↦
      let h : i ≡ fd = ground arith in
      let z : files i ≡ 0 = ap files h ∙ ground arith in ground arith
  | inr other ↦ ground arith
]

close_fd-Closes :
    (has_release : ℕ → Bool) (me fd : ℕ) (t : Table)
    → Closes me fd
        (fd + 1)
        (if (t.procs me).open_files fd == 0
          then []
          else closing has_release ((t.procs me).open_files fd))
        t
        (close_fd has_release me fd t)
unfolding close_fd
close_fd-Closes has_release me fd t = elim (Bool-cases ((t.procs me).open_files fd == 0)) [
  | inl e ↦ rw e (record {
    mine = record {
      pid = refl;
      state = refl;
      parent = refl;
      channel = refl;
      root = refl;
      pwd = refl;
      files = λ i. closed_entry fd i (t.procs me).open_files e;
    };
    others = λ i ne. refl;
    calls = sym (append-nil t.calls);
  })
  | inr e ↦ rw e (record {
    mine = record {
      pid = ground arith;
      state = ground arith;
      parent = ground arith;
      channel = ground arith;
      root = ground arith;
      pwd = ground arith;
      files = λ i. ground arith;
    };
    others = λ i ne. ground arith;
    calls = refl;
  })
]

Closed-trans :
    (low high end : ℕ) (q r s : Proc)
    → low < high
    → end ≡ high
    → Closed low (low + 1) q r
    → Closed (low + 1) end r s
    → Closed low high q s
Closed-trans low high end q r s l e a b = record {
  pid = b.pid ∙ a.pid;
  state = b.state ∙ a.state;
  parent = b.parent ∙ a.parent;
  channel = b.channel ∙ a.channel;
  root = b.root ∙ a.root;
  pwd = b.pwd ∙ a.pwd;
  files = λ fd. let f = a.files fd in let g = b.files fd in ground arith;
}

open_calls-cong :
    (count fd : ℕ) (has_release : ℕ → Bool) (files files' : ℕ → ℕ)
    → ((i : ℕ) → fd ≤ i → files' i ≡ files i)
    → open_calls count fd has_release files' ≡ open_calls count fd has_release files
unfolding open_calls
open_calls-cong zero fd has_release files files' h = refl
open_calls-cong (suc k) fd has_release files files' h =
    rw
      (
        h fd (omega arith),
        open_calls-cong k (fd + 1) has_release files files' (λ i a. h i (omega (arith, a))),
      )
      refl

pub close_fds-Closes :
    (count fd : ℕ) (has_release : ℕ → Bool) (me : ℕ) (t : Table)
    → Closes me fd
        (fd + count)
        (open_calls count fd has_release (t.procs me).open_files)
        t
        (close_fds count fd has_release me t)
unfolding close_fds open_calls
close_fds-Closes zero fd has_release me t = record {
  mine = record {
    pid = refl;
    state = refl;
    parent = refl;
    channel = refl;
    root = refl;
    pwd = refl;
    files = λ i. ground arith;
  };
  others = λ i ne. refl;
  calls = sym (append-nil t.calls);
}
close_fds-Closes (suc k) fd has_release me t =
    let t1 = close_fd has_release me fd t in
    let a = close_fd-Closes has_release me fd t in
    let b = close_fds-Closes k (fd + 1) has_release me t1 in
    record {
      mine =
          Closed-trans fd (fd + suc k) (fd + 1 + k) (t.procs me) (t1.procs me)
            ((close_fds k (fd + 1) has_release me t1).procs me) (omega arith) (omega arith) a.mine
            b.mine;
      others = λ i ne. b.others i ne ∙ a.others i ne;
      calls =
          b.calls
          ∙ ap (λ (x : List Call). x ++ open_calls k (fd + 1) has_release (t1.procs me).open_files)
              a.calls
          ∙ append_assoc t.calls (fd_calls fd has_release (t.procs me).open_files)
              (open_calls k (fd + 1) has_release (t1.procs me).open_files)
          ∙ ap
              (λ (x : List Call). t.calls ++ (fd_calls fd has_release (t.procs me).open_files ++ x))
              (open_calls-cong k (fd + 1) has_release (t.procs me).open_files
                (t1.procs me).open_files (λ i h. a.mine.files i ∙ ground arith));
    }
