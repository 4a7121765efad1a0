-- ===== src/Fs/Calls/Invariant.antt =====
-- The references of the inodes over a sequence of calls on paths.
use ferrite_c.Common.{
  ℕ, ◌≡◌, refl, Bool, List, [], ◌∷◌, Run, ok, fault, panic, out_of_fuel, ◌>>=◌, arith,
}
use ferrite_c.Common.Int.{ℤ}
use ferrite_c.Fs.Refs.{Refs, Holding, Holding-pos}
use ferrite_c.Fs.Lookup.Create.{Settled, settled, stuck_at}
use ferrite_c.Fs.Calls.{Tree, sys_mkdir, sys_rmdir, sys_unlink, sys_truncate, sys_mknod, sys_chdir}
use ferrite_c.Fs.Calls.Keep.{KeepsRefs, Broken}
use ferrite_c.Fs.Calls.Pwd.{Stays, stays, stays_stuck, sys_chdir-Stays}
use ferrite_c.Fs.Calls.Effect.{
  sys_mkdir-Settled, sys_rmdir-Settled, sys_unlink-Settled, sys_truncate-Settled, sys_mknod-Settled,
}

pub data Request : Type 0 where
  mkdir_of rmdir_of : (path : List ℕ) (mode : ℕ) → Request
  unlink_of chdir_of : (path : List ℕ) → Request
  truncate_of : (path : List ℕ) (len : ℤ) → Request
  mknod_of : (path : List ℕ) (mode dev : ℕ) → Request

-- A request with the tree that it finds.
pub record PathCall : Type 0 where
  pub tree : Tree
  pub memory : Bool
  pub request : Request

-- The tree, with the working directory of the process.
abbrev pub with_pwd : Tree → (pwd : ℕ) → Tree
with_pwd t pwd = record {
  space = record {
    caller = t.space.caller;
    node = t.space.node;
    i_mount = t.space.i_mount;
    lookup = t.space.lookup;
    mknod = t.space.mknod;
    room = t.space.room;
    can = t.space.can;
    root = t.space.root;
    pwd = pwd;
  };
  mkdir = t.mkdir;
  rmdir = t.rmdir;
  unlink = t.unlink;
  has_i_op = t.has_i_op;
  truncate = t.truncate;
}

abbrev pub keep_pwd : (pwd : ℕ) → Refs × ℤ → Run (ℕ × Refs × ℤ)
keep_pwd pwd (r, result) = ok (pwd, r, result)

pub perform : Request → Tree → (memory : Bool) → Refs → Run (ℕ × Refs × ℤ)
perform (mkdir_of path mode) t memory r = sys_mkdir t memory path mode r >>= keep_pwd t.space.pwd
perform (rmdir_of path mode) t memory r = sys_rmdir t memory path r >>= keep_pwd t.space.pwd
perform (unlink_of path) t memory r = sys_unlink t path r >>= keep_pwd t.space.pwd
perform (chdir_of path) t memory r = sys_chdir t path r
perform (truncate_of path len) t memory r = sys_truncate t path len r >>= keep_pwd t.space.pwd
perform (mknod_of path mode dev) t memory r = sys_mknod t path mode dev r >>= keep_pwd t.space.pwd

-- The other calls, behind a call with its result.
abbrev pub resume : (rest : ℕ → Refs → Run (ℕ × Refs)) → ℕ × Refs × ℤ → Run (ℕ × Refs)
resume rest (pwd, r, result) = rest pwd r

-- The calls of a process, one after another, from its working directory and the counts.
pub perform_all : List PathCall → (pwd : ℕ) → Refs → Run (ℕ × Refs)
perform_all [] pwd r = ok (pwd, r)
perform_all (c ∷ cs) pwd r =
    perform c.request (with_pwd c.tree pwd) c.memory r >>= resume (λ p s. perform_all cs p s)

pub data Lawful : List PathCall → Type 0 where
  lawful_nil : Lawful []
  lawful_cons : (c : PathCall) (cs : List PathCall) → KeepsRefs c.tree → Lawful cs → Lawful (c ∷ cs)

abbrev pub path_of : Request → List ℕ
path_of (mkdir_of path mode) = path
path_of (rmdir_of path mode) = path
path_of (unlink_of path) = path
path_of (chdir_of path) = path
path_of (truncate_of path len) = path
path_of (mknod_of path mode dev) = path

-- One of the calls goes through NULL, from the working directory and the counts that it finds.
pub data Breaks : List PathCall → (pwd : ℕ) → Refs → Type 0 where
  breaks_here :
      (c : PathCall) (cs : List PathCall) (pwd : ℕ) (r : Refs)
      → Broken (with_pwd c.tree pwd) c.memory r (path_of c.request)
      → Breaks (c ∷ cs) pwd r
  breaks_later :
      (c : PathCall) (cs : List PathCall) (pwd pwd' : ℕ) (r r' : Refs) (result : ℤ)
      → perform c.request (with_pwd c.tree pwd) c.memory r ≡ ok (pwd', r', result)
      → Breaks cs pwd' r'
      → Breaks (c ∷ cs) pwd r

-- The counts of `base` and one reference of the working directory, or NULL was read.
pub data Accounted (N : Type 0) (base : Refs) : Run (ℕ × Refs) → Type 0 where
  accounted : (pwd : ℕ) (r : Refs) → Holding base (pwd ∷ []) r → Accounted N base (ok (pwd, r))
  broke : N → Accounted N base fault

with_pwd-KeepsRefs : (t : Tree) (pwd : ℕ) → KeepsRefs t → KeepsRefs (with_pwd t pwd)
with_pwd-KeepsRefs t pwd law = record {
  lookups = law.lookups;
  mknods = law.mknods;
  mkdirs = law.mkdirs;
  rmdirs = law.rmdirs;
  unlinks = law.unlinks;
  truncates = law.truncates;
}

keep_pwd-Stays :
    {N : Type 0}
    → (base r : Refs) (pwd : ℕ) (run : Run (Refs × ℤ)) → Holding base (pwd ∷ []) r
    → Settled N r run
    → Stays N base (run >>= keep_pwd pwd)
keep_pwd-Stays base r pwd (ok (r', v)) h (settled _ _ k) =
    stays pwd r' v (λ j. omega (arith, h j, k j))
keep_pwd-Stays base r pwd fault h (stuck_at n) = stays_stuck n
keep_pwd-Stays base r pwd panic h x = elim x [ ]
keep_pwd-Stays base r pwd out_of_fuel h x = elim x [ ]

perform-Stays :
    (q : Request) (t : Tree) (memory : Bool) (base r : Refs)
    → KeepsRefs t
    → Holding base (t.space.pwd ∷ []) r
    → Stays (Broken t memory r (path_of q)) base (perform q t memory r)
unfolding perform
perform-Stays (mkdir_of path mode) t memory base r law h =
    keep_pwd-Stays base r t.space.pwd _ h
      (sys_mkdir-Settled t memory path mode r law (Holding-pos base [] r t.space.pwd h))
perform-Stays (rmdir_of path mode) t memory base r law h =
    keep_pwd-Stays base r t.space.pwd _ h
      (sys_rmdir-Settled t memory path r law (Holding-pos base [] r t.space.pwd h))
perform-Stays (unlink_of path) t memory base r law h =
    keep_pwd-Stays base r t.space.pwd _ h (sys_unlink-Settled t memory path r law)
perform-Stays (chdir_of path) t memory base r law h = sys_chdir-Stays t memory path base r law h
perform-Stays (truncate_of path len) t memory base r law h =
    keep_pwd-Stays base r t.space.pwd _ h (sys_truncate-Settled t memory path len r law)
perform-Stays (mknod_of path mode dev) t memory base r law h =
    keep_pwd-Stays base r t.space.pwd _ h (sys_mknod-Settled t memory path mode dev r law)

resume-Accounted :
    {N M : Type 0}
    → (base : Refs) (rest : ℕ → Refs → Run (ℕ × Refs)) (run : Run (ℕ × Refs × ℤ)) → (N → M)
    → ((p : ℕ) (s : Refs) (v : ℤ)
        → run ≡ ok (p, s, v)
        → Holding base (p ∷ []) s
        → Accounted M base (rest p s))
    → Stays N base run
    → Accounted M base (run >>= resume rest)
resume-Accounted base rest (ok (p, s, v)) f go (stays _ _ _ h) = go p s v refl h
resume-Accounted base rest fault f go (stays_stuck n) = broke (f n)
resume-Accounted base rest panic f go x = elim x [ ]
resume-Accounted base rest out_of_fuel f go x = elim x [ ]

later-Accounted :
    {N M : Type 0}
    → (base : Refs) (run : Run (ℕ × Refs)) → (N → M)
    → Accounted N base run
    → Accounted M base run
later-Accounted base (ok (p, s)) f (accounted _ _ h) = accounted p s h
later-Accounted base fault f (broke n) = broke (f n)
later-Accounted base panic f x = elim x [ ]
later-Accounted base out_of_fuel f x = elim x [ ]

-- Where the operations behind `i_op` keep the counts as KeepsRefs says, after every sequence of calls from
-- a working directory of which there is a reference, each count is as before but for the one reference that
-- moved to the working directory then; or one of the calls goes through NULL: in a lookup of its path or of
-- that of its parent, for want of memory for the parent's path, or at an inode without `i_op`.
pub perform_all-Accounted :
    (calls : List PathCall) (base r : Refs) (pwd : ℕ)
    → Lawful calls
    → Holding base (pwd ∷ []) r
    → Accounted (Breaks calls pwd r) base (perform_all calls pwd r)
unfolding perform_all
perform_all-Accounted [] base r pwd lawful_nil h = accounted pwd r h
perform_all-Accounted (c ∷ cs) base r pwd (lawful_cons _ _ law laws) h =
    resume-Accounted base (λ p s. perform_all cs p s)
      (perform c.request (with_pwd c.tree pwd) c.memory r) (λ n. breaks_here c cs pwd r n)
      (λ p s v e k.
        later-Accounted base (perform_all cs p s) (λ n. breaks_later c cs pwd p r s v e n)
          (perform_all-Accounted cs base s p laws k))
      (perform-Stays c.request (with_pwd c.tree pwd) c.memory base r
        (with_pwd-KeepsRefs c.tree pwd law) h)
