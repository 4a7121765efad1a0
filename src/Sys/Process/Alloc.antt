-- ===== src/Sys/Process/Alloc.antt =====
-- A slot for a new process, and who is found under its pid.
use ferrite_c.Common.{
  ℕ, ◌+◌, ◌<◌, ◌≡◌, ◌≢◌, ◌⊎◌, inl, inr, refl, true, false, ◌&&◌, Option, none, some, leb, ltb, ◌==◌,
  if◌then◌else◌, update, arith, Bool-cases, ◌∙◌, sym, ap, List, [], ◌∷◌, ◌++◌,
}
use mathlib.Core.List.{append-nil, append_assoc}
use ferrite_c.Sys.File.{max_open_files}
use ferrite_c.Common.Search.{first_index, First, none_passes, first, first_index-First, only}
use ferrite_c.Sys.Process.Share.{hold_calls, share_fds-Shares}
use ferrite_c.Sys.Timer.{ProcState, unused, embryo, num_proc}
use ferrite_c.Sys.Process.{
  Proc, Table, write_proc, is_unused, find_process, inherit, Call, hold_inode, free_page, up_of,
  top_of, cwd_of, files_of, call, take_slot, alloc_proc,
}

-- The call gave the slot i the next pid: the pid leads to it, and every other process is as it was.
pub record Issued (t : Table) (i : ℕ) (s : ProcState) (t' : Table) : Type 0 where
  pub found : find_process t' t.pid_counter ≡ some i
  pub state : (t'.procs i).state ≡ s
  pub counter : t'.pid_counter ≡ t.pid_counter + 1
  pub others : (j : ℕ) → j ≢ i → t'.procs j ≡ t.procs j

-- The slot i has the caller's directories and open files, or those of a first process, and each was counted.
pub record Inherits (t : Table) (current : Option ℕ) (root_inode i : ℕ) (t' : Table) : Type 0 where
  pub parent : (t'.procs i).parent ≡ up_of current
  pub root : (t'.procs i).root ≡ top_of t current root_inode
  pub pwd : (t'.procs i).pwd ≡ cwd_of t current root_inode
  pub files : (fd : ℕ) → fd < max_open_files → (t'.procs i).open_files fd ≡ files_of t current fd
  pub calls :
      t'.calls
      ≡ t.calls
        ++ (hold_inode (top_of t current root_inode)
            ∷ hold_inode (cwd_of t current root_inode)
            ∷ hold_calls max_open_files 0 (files_of t current))

-- What the call comes to; a kernel stack without a page directory is given back.
pub data Allocation (t : Table) (current : Option ℕ) (root_inode stack kvm : ℕ)
    : Table × Option ℕ → Type 0 where
  full :
      ((j : ℕ) → j < num_proc → is_unused (t.procs j).state ≡ false)
      → Allocation t current root_inode stack kvm (t, none)
  new :
      (i : ℕ) (t' : Table)
      → stack ≢ 0
      → kvm ≢ 0
      → is_unused (t.procs i).state ≡ true
      → Issued t i embryo t'
      → Inherits t current root_inode i t'
      → Allocation t current root_inode stack kvm (t', some i)
  lacking :
      (i : ℕ) (t' : Table)
      → (stack ≡ 0) ⊎ (kvm ≡ 0)
      → is_unused (t.procs i).state ≡ true
      → Issued t i unused t'
      → t'.calls ≡ t.calls ++ (if stack == 0 then [] else free_page stack ∷ [])
      → Allocation t current root_inode stack kvm (t', none)

-- A table of which one slot was written with the next pid.
Issued-write :
    (t : Table) (i : ℕ) (s : ProcState) (t' : Table)
    → i < num_proc
    → ((j : ℕ) → j < num_proc → (t.procs j).pid ≢ t.pid_counter)
    → (t'.procs i).pid ≡ t.pid_counter
    → (t'.procs i).state ≡ s
    → t'.pid_counter ≡ t.pid_counter + 1
    → ((j : ℕ) → j ≢ i → t'.procs j ≡ t.procs j)
    → Issued t i s t'
unfolding find_process
Issued-write t i s t' l fresh e st n others = record {
  found =
      only num_proc i (λ j. (t'.procs j).pid == t.pid_counter)
        (first_index num_proc 0 (λ j. (t'.procs j).pid == t.pid_counter)) l (ground arith)
        (λ j a ne. let f = fresh j a in let g = ap Proc.pid (others j ne) in ground arith)
        (first_index-First num_proc 0 (λ j. (t'.procs j).pid == t.pid_counter));
  state = st;
  counter = n;
  others = others;
}

no_stack :
    (stack : ℕ) (cs : List Call)
    → (stack == 0) ≡ true
    → cs ≡ cs ++ (if stack == 0 then [] else free_page stack ∷ [])
no_stack stack cs e = rw e (sym (append-nil cs))

with_stack :
    (stack : ℕ) (cs : List Call)
    → (stack == 0) ≡ false
    → cs ++ (free_page stack ∷ []) ≡ cs ++ (if stack == 0 then [] else free_page stack ∷ [])
with_stack stack cs e = rw e refl

module _ (t t' : Table) where
  top_of-eq :
      (current : Option ℕ) (root_inode : ℕ)
      → ((c : ℕ) → current ≡ some c → t'.procs c ≡ t.procs c)
      → top_of t' current root_inode ≡ top_of t current root_inode
  top_of-eq none root_inode h = refl
  top_of-eq (some c) root_inode h = ap Proc.root (h c refl)

  cwd_of-eq :
      (current : Option ℕ) (root_inode : ℕ)
      → ((c : ℕ) → current ≡ some c → t'.procs c ≡ t.procs c)
      → cwd_of t' current root_inode ≡ cwd_of t current root_inode
  cwd_of-eq none root_inode h = refl
  cwd_of-eq (some c) root_inode h = ap Proc.pwd (h c refl)

  files_of-eq :
      (current : Option ℕ)
      → ((c : ℕ) → current ≡ some c → t'.procs c ≡ t.procs c)
      → files_of t' current ≡ files_of t current
  files_of-eq none h = refl
  files_of-eq (some c) h = ap Proc.open_files (h c refl)

wrote : (f : ℕ → Proc) (i : ℕ) (q : Proc) → update f i q i ≡ q
wrote f i q = ground arith

elsewhere : (f : ℕ → Proc) (i j : ℕ) (q : Proc) → j ≢ i → update f i q j ≡ f j
elsewhere f i j q ne = ground arith

in_range :
    (fd a b : ℕ)
    → fd < max_open_files
    → (if leb 0 fd && ltb fd (0 + max_open_files) then a else b) ≡ a
in_range fd a b h = ground arith

-- The part behind the last test, for a table in which the slot has its pid.
inherited :
    (t t' : Table) (current : Option ℕ) (root_inode i : ℕ)
    → i < num_proc
    → ((j : ℕ) → j < num_proc → (t.procs j).pid ≢ t.pid_counter)
    → (t'.procs i).pid ≡ t.pid_counter
    → (t'.procs i).state ≡ embryo
    → t'.pid_counter ≡ t.pid_counter + 1
    → t'.calls ≡ t.calls
    → ((j : ℕ) → j ≢ i → t'.procs j ≡ t.procs j)
    → ((c : ℕ) → current ≡ some c → c ≢ i)
    → Issued t i embryo (inherit t' current root_inode i)
      × Inherits t current root_inode i (inherit t' current root_inode i)
unfolding inherit
inherited t t' current root_inode i l fresh p st n cs others busy =
    let same : (c : ℕ) → current ≡ some c → t'.procs c ≡ t.procs c = λ c e. others c (busy c e) in
    let top = top_of t' current root_inode in
    let cwd = cwd_of t' current root_inode in
    let t1 : Table =
      call (write_proc t' i (record (t'.procs i) { parent = up_of current; root = top; pwd = cwd }))
        (hold_inode top ∷ hold_inode cwd ∷ []) in
    let s = share_fds-Shares max_open_files 0 i (files_of t' current) t1 in
    let w =
      wrote t'.procs i (record (t'.procs i) { parent = up_of current; root = top; pwd = cwd }) in
    (
      Issued-write t i embryo _ l fresh (s.mine.pid ∙ ap Proc.pid w ∙ p)
          (s.mine.state ∙ ap Proc.state w ∙ st) (s.counter ∙ n)
          (λ j ne. s.others j ne ∙ elsewhere t'.procs i j _ ne ∙ others j ne),
      record {
        parent = s.mine.parent ∙ ap Proc.parent w;
        root = s.mine.root ∙ ap Proc.root w ∙ top_of-eq t t' current root_inode same;
        pwd = s.mine.pwd ∙ ap Proc.pwd w ∙ cwd_of-eq t t' current root_inode same;
        files = λ fd h.
            s.mine.fds fd
            ∙ in_range fd (files_of t' current fd) ((t1.procs i).open_files fd) h
            ∙ ap (λ (f : ℕ → ℕ). f fd) (files_of-eq t t' current same);
        calls =
            s.calls
            ∙ append_assoc t'.calls _ _
            ∙ rw
                (
                  cs,
                  top_of-eq t t' current root_inode same,
                  cwd_of-eq t t' current root_inode same,
                  files_of-eq t t' current same,
                )
                refl;
      },
    )

busy_slot :
    (t : Table) (c i : ℕ)
    → is_unused (t.procs c).state ≡ false
    → is_unused (t.procs i).state ≡ true
    → c ≢ i
busy_slot t c i a b h = let e = ap (λ (k : ℕ). is_unused (t.procs k).state) h in cc

-- The table that `take_slot` hands to `inherit`: two writes of the slot i.
module _ (t : Table) (i : ℕ) (q q' : Proc) where
  abbrev twice : Table
  twice = write_proc (record (write_proc t i q) { pid_counter = t.pid_counter + 1 }) i q'

  twice-others : (j : ℕ) → j ≢ i → twice.procs j ≡ t.procs j
  twice-others j ne = ground arith

  twice-mine : twice.procs i ≡ q'
  twice-mine = ground arith

new_slot :
    (t : Table) (current : Option ℕ) (root_inode stack kvm i : ℕ) (q q' : Proc)
    → i < num_proc
    → ((j : ℕ) → j < num_proc → (t.procs j).pid ≢ t.pid_counter)
    → q'.pid ≡ t.pid_counter
    → q'.state ≡ embryo
    → (stack == 0) ≡ false
    → (kvm == 0) ≡ false
    → is_unused (t.procs i).state ≡ true
    → ((c : ℕ) → current ≡ some c → is_unused (t.procs c).state ≡ false)
    → Allocation t current root_inode stack kvm
        (inherit (twice t i q q') current root_inode i, some i)
new_slot t current root_inode stack kvm i q q' l fresh p st s v e busy =
    let m = twice-mine t i q q' in
    let both =
      inherited t (twice t i q q') current root_inode i l fresh (ap Proc.pid m ∙ p)
        (ap Proc.state m ∙ st) refl refl (twice-others t i q q')
        (λ c h. busy_slot t c i (busy c h) e) in
    new i _ (ground arith) (ground arith) e both.0 both.1

take_slot-Allocation :
    (t : Table) (current : Option ℕ) (root_inode stack kvm : ℕ) (slot : Option ℕ)
    → ((j : ℕ) → j < num_proc → (t.procs j).pid ≢ t.pid_counter)
    → First 0 num_proc (λ i. is_unused (t.procs i).state) slot
    → ((c : ℕ) → current ≡ some c → is_unused (t.procs c).state ≡ false)
    → Allocation t current root_inode stack kvm (take_slot t current root_inode stack kvm slot)
unfolding take_slot
take_slot-Allocation t current root_inode stack kvm none fresh (none_passes h) busy =
    full (λ j. h j (omega arith))
take_slot-Allocation t current root_inode stack kvm (some i) fresh (first j a b e before) busy =
    elim (Bool-cases (stack == 0)) [
      | inl s ↦ rw s (
          lacking i _ (inl (ground arith)) e
            (Issued-write t i unused _ b fresh (ground arith) (ground arith) refl
              (λ k ne. ground arith))
            (no_stack stack t.calls s))
      | inr s ↦ elim (Bool-cases (kvm == 0)) [
        | inl v ↦
            rw (s, v)
              (lacking i _ (inr (ground arith)) e
                (Issued-write t i unused _ b fresh (ground arith) (ground arith) refl
                  (λ k ne. ground arith))
                (with_stack stack t.calls s))
        | inr v ↦
            rw (s, v) (new_slot t current root_inode stack kvm i _ _ b fresh refl refl s v e busy)
      ]
    ]

-- Where no process has the next pid, a call of `__alloc_proc` that finds an unused slot gives it that pid,
-- and the pid leads to it; this holds too where memory is lacking, and then the slot stays unused.
-- A new process has its caller for its parent and the caller's directories and open files, each counted.
pub alloc_proc-Allocation :
    (t : Table) (current : Option ℕ) (root_inode stack kvm : ℕ)
    → ((j : ℕ) → j < num_proc → (t.procs j).pid ≢ t.pid_counter)
    → ((c : ℕ) → current ≡ some c → is_unused (t.procs c).state ≡ false)
    → Allocation t current root_inode stack kvm (alloc_proc t current root_inode stack kvm)
unfolding alloc_proc
alloc_proc-Allocation t current root_inode stack kvm fresh busy =
    take_slot-Allocation t current root_inode stack kvm
      (first_index num_proc 0 (λ i. is_unused (t.procs i).state)) fresh
      (first_index-First num_proc 0 (λ i. is_unused (t.procs i).state)) busy
