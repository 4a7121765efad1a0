-- ===== src/Fs/Calls/Tests.antt =====
-- fs_interface.c on the directories of Fs/Lookup/Tests.
use mathlib.Core.Option.{some-injective}
use mathlib.Core.Path.{subst}
use ferrite_c.Common.{
  ℕ, ◌≡◌, refl, true, false, List, [], ◌∷◌, none, some, ◌==◌, if◌then◌else◌, arith, Bool,
}
use ferrite_c.Common.Int.{ℤ, pos}
use ferrite_c.Fs.Refs.{Refs}
use ferrite_c.Fs.Lookup.{slash}
use ferrite_c.Fs.Lookup.Tests.{small, counts, path, small-LookupTakes, small-MknodPuts, only}
use ferrite_c.Fs.Calls.{Tree, vfs_normalize_path, trim, sys_stat}
use ferrite_c.Fs.Lookup.Balance.{Null}
use ferrite_c.Fs.Calls.Keep.{KeepsRefs}
use ferrite_c.Fs.Calls.Effect.{Leaks, sys_stat-Leaks}
use ferrite_c.Fs.Calls.Invariant.{
  PathCall, Request, mkdir_of, chdir_of, truncate_of, perform_all, Lawful, lawful_nil, lawful_cons,
  Breaks, Accounted, perform_all-Accounted,
}

abbrev in_dir : (dir : ℕ) → List ℕ → (mode : ℕ) → Refs → Refs × ℤ
in_dir dir name mode r = (r, pos 0)

abbrev cut : (node : ℕ) → (len : ℤ) → Refs → Refs × ℤ
cut node len r = (r, pos 0)

abbrev pub tree : Tree
tree = record {
  space = small;
  mkdir = λ i. if i == 3 then none else some in_dir;
  rmdir = λ i. if i == 3 then none else some in_dir;
  unlink = λ i. if i == 3 then none else some in_dir;
  has_i_op = λ i. true;
  truncate = λ i. if i == 3 then some cut else none;
}

in_dir_keeps :
    (i : ℕ) (op : ℕ → List ℕ → ℕ → Refs → Refs × ℤ)
    → (if i == 3 then none else some in_dir) ≡ some op
    → (dir : ℕ) (name : List ℕ) (mode : ℕ) (r : Refs) (j : ℕ) → (op dir name mode r).0 j ≡ r j
in_dir_keeps i op e dir name mode r j =
    subst (λ f. (f dir name mode r).0 j ≡ r j) (only (i == 3) in_dir op e) refl

cut_keeps :
    (c : Bool) (op : ℕ → ℤ → Refs → Refs × ℤ)
    → (if c then some cut else none) ≡ some op
    → (node : ℕ) (len : ℤ) (r : Refs) (j : ℕ) → (op node len r).0 j ≡ r j
cut_keeps true op e node len r j =
    subst (λ f. (f node len r).0 j ≡ r j) (some-injective cut op e) refl
cut_keeps false op e node len r j = absurd (ground arith)

pub tree-KeepsRefs : KeepsRefs tree
tree-KeepsRefs = record {
  lookups = small-LookupTakes;
  mknods = small-MknodPuts;
  mkdirs = in_dir_keeps;
  rmdirs = in_dir_keeps;
  unlinks = in_dir_keeps;
  truncates = λ i op e. cut_keeps (i == 3) op e;
}

abbrev ask : Request → PathCall
ask q = record { tree = tree; memory = true; request = q }

-- chdir("/"), mkdir("/x/"), truncate("/b", 9), chdir("a").
abbrev calls : List PathCall
calls =
    ask (chdir_of (slash ∷ []))
    ∷ ask (mkdir_of (slash ∷ b'x' ∷ slash ∷ []) 0o755)
    ∷ ask (truncate_of (slash ∷ b'b' ∷ []) (pos 9))
    ∷ ask (chdir_of (b'a' ∷ []))
    ∷ []

-- The counts without the reference of the working directory.
abbrev others : Refs
others i = if i == 1 then 1 else 0

calls-Lawful : Lawful calls
calls-Lawful = lawful_cons _ _ tree-KeepsRefs (
    lawful_cons _ _ tree-KeepsRefs
      (lawful_cons _ _ tree-KeepsRefs (lawful_cons _ _ tree-KeepsRefs lawful_nil)))

perform_all-Accounted_example :
    Accounted (Breaks calls 2 counts) others (perform_all calls 2 counts)
perform_all-Accounted_example =
    perform_all-Accounted calls others counts 2 calls-Lawful (λ j. ground arith)

-- "a//"
abbrev trailing : List ℕ
trailing = b'a' ∷ slash ∷ slash ∷ []

normalized : vfs_normalize_path trailing 256 ≡ some (b'a' ∷ [])
unfolding vfs_normalize_path trim
normalized = refl

sys_stat-Leaks_example : Leaks (Null small path) counts (sys_stat tree path counts)
sys_stat-Leaks_example = sys_stat-Leaks tree path counts small-LookupTakes
