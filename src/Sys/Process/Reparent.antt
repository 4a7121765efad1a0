-- ===== src/Sys/Process/Reparent.antt =====
-- What the loop of `do_exit` over the table does to each process.
use ferrite_c.Common.{
  ℕ, zero, suc, ◌+◌, ◌≡◌, ◌≢◌, ◌⊎◌, inl, inr, refl, true, ◌&&◌, ltb, leb, ◌==◌, if◌then◌else◌,
  arith, Bool-cases, ◌∙◌, sym,
}
use ferrite_c.Sys.Timer.{
  ProcState, unused, embryo, sleeping, ready, running, zombie, num_proc, is_sleeping,
}
use ferrite_c.Sys.Process.{Proc, Table, write_proc, wake, wakeup_procs, adopt, reparent, is_zombie}

-- The state is as it was, or the process slept on the channel and is ready now.
abbrev pub Woken : (channel : ℕ) → Proc → Proc → Type 0
Woken channel q q' =
    (q'.state ≡ q.state) ⊎ ((q.state ≡ sleeping) × (q.channel ≡ channel) × (q'.state ≡ ready))

-- The process q became q': it may have been woken on the channel, and nothing but its parent changed.
pub record Kept (channel : ℕ) (q q' : Proc) : Type 0 where
  pub pid : q'.pid ≡ q.pid
  pub status : q'.status ≡ q.status
  pub cred : q'.cred ≡ q.cred
  pub same_channel : q'.channel ≡ q.channel
  pub root : q'.root ≡ q.root
  pub pwd : q'.pwd ≡ q.pwd
  pub files : q'.open_files ≡ q.open_files
  pub state : Woken channel q q'

Kept-same : (channel : ℕ) (q : Proc) → Kept channel q q
Kept-same channel q = record {
  pid = refl;
  status = refl;
  cred = refl;
  same_channel = refl;
  root = refl;
  pwd = refl;
  files = refl;
  state = inl refl;
}

Kept-trans : (channel : ℕ) (q r s : Proc) → Kept channel q r → Kept channel r s → Kept channel q s
Kept-trans channel q r s a b = record {
  pid = b.pid ∙ a.pid;
  status = b.status ∙ a.status;
  cred = b.cred ∙ a.cred;
  same_channel = b.same_channel ∙ a.same_channel;
  root = b.root ∙ a.root;
  pwd = b.pwd ∙ a.pwd;
  files = b.files ∙ a.files;
  state = elim a.state [
    | inl e ↦ elim b.state [
      | inl f ↦ inl (f ∙ e)
      | inr (x, y, z) ↦ inr (sym e ∙ x, sym a.same_channel ∙ y, z)
    ]
    | inr (x, y, z) ↦ elim b.state [ inl f ↦ inr (x, y, f ∙ z) | inr (x', y', z') ↦ inr (x, y, z') ]
  ];
}

pub is_sleeping-eq : (s : ProcState) → is_sleeping s ≡ true → s ≡ sleeping
is_sleeping-eq unused e = cc
is_sleeping-eq embryo e = cc
is_sleeping-eq sleeping e = refl
is_sleeping-eq ready e = cc
is_sleeping-eq running e = cc
is_sleeping-eq zombie e = cc

pub wake-Woken : (channel : ℕ) (q : Proc) → Woken channel q (wake channel q)
wake-Woken channel q = elim (Bool-cases (q.channel == channel && is_sleeping q.state)) [
  | inl e ↦ inr (is_sleeping-eq q.state (ground arith), ground arith, rw e refl)
  | inr e ↦ inl (rw e refl)
]

-- After the rounds from `low` on up to `high`: the orphans among them have the new parent.
pub record Adopted (p init low high : ℕ) (t t' : Table) : Type 0 where
  pub calls : t'.calls ≡ t.calls
  pub kept : (i : ℕ) → Kept init (t.procs i) (t'.procs i)
  pub parents :
      (i : ℕ)
      → (t'.procs i).parent ≡ (
          if (leb low i && ltb i high) && (t.procs i).parent == p then init else (t.procs i).parent)

-- Waking a table on a channel changes no more than the states.
pub wakeup_procs-Kept :
    (t : Table) (channel j : ℕ) → Kept channel (t.procs j) ((wakeup_procs t channel).procs j)
unfolding wakeup_procs
wakeup_procs-Kept t channel j = record {
  pid = ground arith;
  status = ground arith;
  cred = ground arith;
  same_channel = ground arith;
  root = ground arith;
  pwd = ground arith;
  files = ground arith;
  state = elim (Bool-cases (ltb j num_proc)) [
    | inl e ↦ rw e (wake-Woken channel (t.procs j))
    | inr e ↦ rw e (inl refl)
  ];
}

pub parent-wakeup_procs :
    (t : Table) (channel j : ℕ) → ((wakeup_procs t channel).procs j).parent ≡ (t.procs j).parent
unfolding wakeup_procs
parent-wakeup_procs t channel j = ground arith

moved :
    (init i : ℕ) (t : Table) (j : ℕ)
    → Kept init (t.procs j) ((write_proc t i (record (t.procs i) { parent = init })).procs j)
moved init i t j = record {
  pid = ground arith;
  status = ground arith;
  cred = ground arith;
  same_channel = ground arith;
  root = ground arith;
  pwd = ground arith;
  files = ground arith;
  state = inl (ground arith);
}

adopt-Kept : (p init i : ℕ) (t : Table) (j : ℕ) → Kept init (t.procs j) ((adopt p init i t).procs j)
unfolding adopt
adopt-Kept p init i t j =
    let t1 = write_proc t i (record (t.procs i) { parent = init }) in
    let first = moved init i t j in
    elim (Bool-cases ((t.procs i).parent == p)) [
      | inl e ↦ elim (Bool-cases (is_zombie (t.procs i).state)) [
        | inl z ↦
            rw (e, z)
              (Kept-trans init (t.procs j) (t1.procs j) ((wakeup_procs t1 init).procs j) first
                (wakeup_procs-Kept t1 init j))
        | inr z ↦ rw (e, z) first
      ]
      | inr e ↦ rw e (Kept-same init (t.procs j))
    ]

parent-adopt :
    (p init i : ℕ) (t : Table) (j : ℕ)
    → ((adopt p init i t).procs j).parent
      ≡ (if i == j && (t.procs j).parent == p then init else (t.procs j).parent)
unfolding adopt wakeup_procs
parent-adopt p init i t j = ground arith

calls-adopt : (p init i : ℕ) (t : Table) → (adopt p init i t).calls ≡ t.calls
unfolding adopt wakeup_procs
calls-adopt p init i t = ground arith

parent_step :
    (low k i p init par par1 : ℕ)
    → init ≢ p
    → par1 ≡ (if low == i && par == p then init else par)
    → (if (leb (low + 1) i && ltb i (low + 1 + k)) && par1 == p then init else par1)
      ≡ (if (leb low i && ltb i (low + suc k)) && par == p then init else par)
parent_step low k i p init par par1 ne g = ground arith

-- The loop from `low` on, of `count` rounds, where the new parent is not the old one.
pub reparent-Adopted :
    (count low : ℕ) (p init : ℕ) (t : Table)
    → init ≢ p
    → Adopted p init low (low + count) t (reparent count low p init t)
unfolding reparent
reparent-Adopted zero low p init t ne = record {
  kept = λ i. Kept-same init (t.procs i);
  calls = refl;
  parents = λ i. ground arith;
}
reparent-Adopted (suc k) low p init t ne =
    let t1 = adopt p init low t in
    let a = reparent-Adopted k (low + 1) p init t1 ne in
    record {
      calls = a.calls ∙ calls-adopt p init low t;
      kept = λ i.
          Kept-trans init (t.procs i) (t1.procs i) ((reparent k (low + 1) p init t1).procs i)
            (adopt-Kept p init low t i) (a.kept i);
      parents = λ i.
          a.parents i
          ∙ parent_step low k i p init (t.procs i).parent (t1.procs i).parent ne
              (parent-adopt p init low t i);
    }
