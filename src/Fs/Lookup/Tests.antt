-- ===== src/Fs/Lookup/Tests.antt =====
-- namei.c on a root directory 1 with the directory "a" = 2 and the file "b" = 3 in it.
use mathlib.Core.Option.{some-injective}
use mathlib.Core.Path.{subst}
use ferrite_c.Common.{
  ℕ, ◌≡◌, refl, true, false, List, [], ◌∷◌, Option, none, some, ◌==◌, if◌then◌else◌, ok, replicate,
  arith, Bool,
}
use ferrite_c.Common.Int.{ℤ, pos, neg}
use ferrite_c.Sys.Cred.{Cred, nogroup}
use ferrite_c.Fs.Permission.{Protected}
use ferrite_c.Fs.Permission.Tests.{root_may}
use ferrite_c.Fs.Refs.{Refs, get_ref, put_ref}
use ferrite_c.Fs.Lookup.{Space, may, lookup_from, skip_slashes, vfs_lookup, vfs_mknod, slash}
use ferrite_c.Fs.Lookup.Balance.{LookupTakes, Took, took, kept, Found, Null, vfs_lookup-Found}
use ferrite_c.Fs.Lookup.Create.{NullFront, MknodPuts, Settled, vfs_mknod-Settled, mknod_in_root}

abbrev pub root_user : Cred
root_user = record {
  uid = 0;
  euid = 0;
  suid = 0;
  gid = 0;
  egid = 0;
  sgid = 0;
  groups = replicate 32 nogroup;
}

abbrev pub inode_at : ℕ → Protected
inode_at i = record {
  i_mode = if i == 3 then 0o100644 else 0o40755;
  i_uid = 0;
  i_gid = 0;
  permission = none;
}

-- The entries of the root.
abbrev pub entry_of : List ℕ → Option ℕ
entry_of [] = none
entry_of (x ∷ xs) = if x == b'a' then some 2 else if x == b'b' then some 3 else none

abbrev pub answer : Option ℕ → Refs → Refs × Option ℕ
answer none r = (r, none)
answer (some i) r = (get_ref i r, some i)

abbrev pub look : List ℕ → Refs → Refs × Option ℕ
look name r = answer (entry_of name) r

abbrev pub make : (dir : ℕ) → List ℕ → (mode dev : ℕ) → Refs → Refs × ℤ
make dir name mode dev r = (put_ref dir r, pos 0)

abbrev pub small : Space
small = record {
  caller = root_user;
  node = inode_at;
  i_mount = λ i. none;
  lookup = λ i. if i == 3 then none else some look;
  mknod = λ i. if i == 3 then none else some (make i);
  room = λ r. true;
  can = λ i. true;
  root = 1;
  pwd = 2;
}

abbrev pub counts : Refs
counts i = if i == 1 then 1 else if i == 2 then 1 else 0

answer-Took : (o : Option ℕ) (r : Refs) → Took r (answer o r)
answer-Took none r = kept r (λ j. refl)
answer-Took (some i) r = took i _ (λ j. refl)

-- An operation that is not NULL.
pub only {ℓ} :
    {A : Type ℓ} → (c : Bool) (a op : A) → (if c then none else some a) ≡ some op → a ≡ op
only true a op e = absurd (ground arith)
only false a op e = some-injective a op e

pub small-LookupTakes : LookupTakes small
small-LookupTakes dir op e name r =
    subst (λ f. Took r (f name r)) (only (dir == 3) look op e) (answer-Took (entry_of name) r)

pub small-MknodPuts : MknodPuts small
small-MknodPuts dir op e name mode dev r j =
    subst (λ f. (f name mode dev r).0 j ≡ put_ref dir r j) (only (dir == 3) (make dir) op e) refl

-- "/a/b"
abbrev pub path : List ℕ
path = slash ∷ b'a' ∷ slash ∷ b'b' ∷ []

vfs_lookup-Found_example : Found (Null small path) counts (vfs_lookup small path counts)
vfs_lookup-Found_example = vfs_lookup-Found small path counts small-LookupTakes

vfs_mknod-Settled_example :
    Settled (NullFront small path) counts (vfs_mknod small path 0o20644 5 counts)
vfs_mknod-Settled_example =
    vfs_mknod-Settled small path 0o20644 5 counts small-LookupTakes small-MknodPuts

mknod_in_root_example :
    vfs_mknod small (slash ∷ b'x' ∷ []) 0o20644 5 counts ≡ ok (put_ref 1 (get_ref 1 counts), neg 2)
mknod_in_root_example =
    mknod_in_root small (b'x' ∷ []) 0o20644 5 counts refl (λ e. absurd (ground arith))

pub lookup_root : (r : Refs) → vfs_lookup small (slash ∷ []) r ≡ ok (get_ref 1 r, some 1)
unfolding vfs_lookup lookup_from skip_slashes
lookup_root r = ground arith

pub root_user_may : (i mask : ℕ) → may small i mask ≡ true
unfolding may
root_user_may i mask =
    let e = root_may root_user (if i == 3 then 0o100644 else 0o40755) 0 0 mask refl in rw e refl
