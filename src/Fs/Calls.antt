-- ===== src/Fs/Calls.antt =====
-- kernel/src/fs/fs_interface.c: the system calls on paths, over the counts of Fs/Refs.
--
-- `Tree` adds the other operations behind `i_op` to the `Space` of Fs/Lookup: each takes the directory,
-- the name and the mode, or the new length. A path is the list of its bytes, not NULL, and `memory` says
-- whether the call of `kmalloc` for the path of the parent returns memory. `has_i_op` says of which inodes
-- `i_op` is not NULL, for the calls that read an operation without a test of it. A read through NULL is a
-- fault.
pub mod Path
pub mod Keep
pub mod Effect
pub mod Pwd
pub mod Invariant
pub mod Tests
use Prim.Native.Nat.{bit_and}
use ferrite_c.Common.{
  ℕ, zero, suc, ◌+◌, ◌-◌, ◌/◌, ◌%◌, ◌*◌, Bool, true, false, not, ◌&&◌, ◌||◌, List, [], ◌∷◌, Option,
  none, some, ltb, leb, ◌==◌, if◌then◌else◌, length, take, get_elem?, Run, ok, fault, ◌>>=◌,
}
use ferrite_c.Common.Int.{ℤ, pos, negsuc, neg}
use ferrite_c.Sys.Cred.{Cred, root_uid}
use ferrite_c.Fs.Refs.{Refs, get_ref, put_ref, can_get}
use ferrite_c.Fs.Lookup.{
  Space, is_dir, may, may_exec, may_write, slash, vfs_lookup, last_slash, Parent, parent, error,
  vfs_mknod,
}

pub record Tree : Type 0 where
  pub space : Space
  pub mkdir : ℕ → Option ((dir : ℕ) → List ℕ → (mode : ℕ) → Refs → Refs × ℤ)
  pub rmdir : ℕ → Option ((dir : ℕ) → List ℕ → (mode : ℕ) → Refs → Refs × ℤ)
  pub unlink : ℕ → Option ((dir : ℕ) → List ℕ → (mode : ℕ) → Refs → Refs × ℤ)
  pub has_i_op : ℕ → Bool
  pub truncate : ℕ → Option ((node : ℕ) → (len : ℤ) → Refs → Refs × ℤ)

abbrev pub is_slash : Option ℕ → Bool
is_slash none = false
is_slash (some x) = x == slash

-- The loop of `vfs_normalize_path` over the slashes at the end: the length that is left.
pub trim : (path : List ℕ) → (len : ℕ) → ℕ
trim path zero = 0
trim path (suc k) =
    let shorter = trim path k in if ltb 0 k && is_slash (get_elem? path k) then shorter else suc k

-- `size` is that of the buffer; `none` is -EINVAL.
pub vfs_normalize_path : (path : List ℕ) → (size : ℕ) → Option (List ℕ)
unfolding trim
vfs_normalize_path path size =
    if length path == 0 || leb size (length path)
    then none
    else some (take (trim path (length path)) path)

-- The path of the parent: what stands before the last slash, or the slash itself.
abbrev pub parent_path : List ℕ → List ℕ
parent_path [] = slash ∷ []
parent_path (x ∷ xs) = x ∷ xs

-- The parent that was looked up, or the error of the call.
pub found_parent : (missing : ℤ) → (name : List ℕ) → Refs × Option ℕ → Run (Refs × Parent)
found_parent missing name (r, none) = ok (r, error missing)
found_parent missing name (r, some dir) = ok (r, parent dir name)

-- The parent of a clean path, as `sys_mkdir` and `sys_rmdir` find it.
pub find_parent :
    Tree → (memory : Bool) → (missing : ℤ) → (clean : List ℕ) → Refs → Run (Refs × Parent)
find_parent t memory missing clean r = elim (last_slash clean) [
  | none ↦
      if can_get t.space.room t.space.pwd r
      then ok (get_ref t.space.pwd r, parent t.space.pwd clean)
      else fault
  | some (front, name) ↦
      if memory
      then vfs_lookup t.space (parent_path front) r >>= found_parent missing name
      else fault
]

-- The end of `sys_mkdir` and `sys_rmdir`: the operation in the parent.
pub edit :
    Tree
    → (op : ℕ → Option (ℕ → List ℕ → ℕ → Refs → Refs × ℤ)) → (mode : ℕ) → Refs × Parent
    → Run (Refs × ℤ)
edit t op mode (r, error e) = ok (r, e)
edit t op mode (r, parent dir name) =
    if length name == 0
    then ok (put_ref dir r, neg 17)
    else if not (may t.space dir 3)
    then ok (put_ref dir r, neg 13)
    else elim (op dir) [
      | none ↦ ok (put_ref dir r, neg 20)
      | some f ↦ ok (put_ref dir (f dir name mode r).0, (f dir name mode r).1)
    ]

-- S_IFDIR | (mode & 0777)
abbrev pub dir_mode : (mode : ℕ) → ℕ
dir_mode mode = 0o40000 + mode % 0o1000

-- `sys_mkdir` behind the lookup of the path itself.
pub make_dir :
    Tree → (memory : Bool) → (mode : ℕ) → (clean : List ℕ) → Refs × Option ℕ → Run (Refs × ℤ)
make_dir t memory mode clean (r, some i) = ok (put_ref i r, neg 17)
make_dir t memory mode clean (r, none) =
    find_parent t memory (neg 2) clean r >>= edit t t.mkdir (dir_mode mode)

pub sys_mkdir : Tree → (memory : Bool) → (path : List ℕ) → (mode : ℕ) → Refs → Run (Refs × ℤ)
sys_mkdir t memory path mode r = elim (vfs_normalize_path path 256) [
  | none ↦ ok (r, neg 22)
  | some clean ↦ vfs_lookup t.space clean r >>= make_dir t memory mode clean
]

pub sys_rmdir : Tree → (memory : Bool) → (path : List ℕ) → Refs → Run (Refs × ℤ)
sys_rmdir t memory path r = elim (vfs_normalize_path path 256) [
  | none ↦ ok (r, neg 22)
  | some clean ↦ find_parent t memory (neg 20) clean r >>= edit t t.rmdir 0
]

-- `sys_unlink` behind the lookup of the parent; the operation is that of the root directory.
pub unlink_in :
    Tree
    → (op : ℕ → List ℕ → ℕ → Refs → Refs × ℤ) → (name : List ℕ) → Refs × Option ℕ
    → Run (Refs × ℤ)
unlink_in t op name (r, none) = ok (r, neg 20)
unlink_in t op name (r, some dir) =
    if not (may t.space dir 3)
    then ok (put_ref dir r, neg 13)
    else ok (put_ref dir (op dir name 0 r).0, (op dir name 0 r).1)

pub sys_unlink : Tree → (path : List ℕ) → Refs → Run (Refs × ℤ)
sys_unlink t path r = elim (t.unlink t.space.root) [
  | none ↦ ok (r, neg 1)
  | some op ↦ elim (last_slash path) [
    | none ↦ ok (r, neg 1)
    | some (front, name) ↦ vfs_lookup t.space (parent_path front) r >>= unlink_in t op name
  ]
]

pub truncate_at : Tree → (len : ℤ) → Refs × Option ℕ → Run (Refs × ℤ)
truncate_at t len (r, none) = ok (r, neg 2)
truncate_at t len (r, some i) =
    if is_dir t.space i || not (may t.space i may_write)
    then ok (put_ref i r, neg 13)
    else if not (t.has_i_op i)
    then fault
    else elim (t.truncate i) [
      | none ↦ ok (put_ref i r, neg 38)
      | some f ↦ ok (put_ref i (f i len r).0, (f i len r).1)
    ]

pub sys_truncate : Tree → (path : List ℕ) → (len : ℤ) → Refs → Run (Refs × ℤ)
sys_truncate t path len r = vfs_lookup t.space path r >>= truncate_at t len

-- The file types of the mode: S_ISDIR, S_ISFIFO, and `mode & S_IFMT`.
abbrev pub file_type : (mode : ℕ) → ℕ
file_type mode = mode / 0x1000 % 16

pub sys_mknod : Tree → (path : List ℕ) → (mode dev : ℕ) → Refs → Run (Refs × ℤ)
sys_mknod t path mode dev r =
    if file_type mode == 4 || (not (file_type mode == 1) && not (t.space.caller.euid == root_uid))
    then ok (r, neg 1)
    else if file_type mode == 0
    then vfs_mknod t.space path (mode + 0o100000) dev r
    else if file_type mode == 8 || (file_type mode == 2 || file_type mode == 6)
    then vfs_mknod t.space path mode dev r
    else ok (r, neg 22)

-- The working directory, the counts and the result.
pub chdir_to : Tree → Refs × Option ℕ → Run (ℕ × Refs × ℤ)
chdir_to t (r, none) = ok (t.space.pwd, r, neg 2)
chdir_to t (r, some i) =
    if not (is_dir t.space i)
    then ok (t.space.pwd, put_ref i r, neg 20)
    else if not (may t.space i may_exec)
    then ok (t.space.pwd, put_ref i r, neg 13)
    else ok (i, put_ref t.space.pwd r, pos 0)

pub sys_chdir : Tree → (path : List ℕ) → Refs → Run (ℕ × Refs × ℤ)
sys_chdir t path r = vfs_lookup t.space path r >>= chdir_to t

-- `sys_stat`: what is copied to the caller is left out.
pub stat_at : Refs × Option ℕ → Run (Refs × ℤ)
stat_at (r, none) = ok (r, neg 2)
stat_at (r, some i) = ok (r, pos 0)

pub sys_stat : Tree → (path : List ℕ) → Refs → Run (Refs × ℤ)
sys_stat t path r = vfs_lookup t.space path r >>= stat_at
