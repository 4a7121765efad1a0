-- ===== src/Fs/Lookup.antt =====
-- kernel/src/fs/namei.c: `vfs_lookup`, `dir_namei` and `vfs_mknod`, over the counts of Fs/Refs.
--
-- `Space` has what these functions read: the fields of the inodes, the mounts on them, the operations
-- behind `i_op`, the caller with its directories, and where `kmalloc` returns memory. An operation takes
-- the counts and returns them with the inode that it found, `none` where its result is negative. A path is
-- the list of its bytes, not NULL. A call or a read through NULL is a fault.
pub mod Balance
pub mod Create
pub mod Tests
use ferrite_c.Common.{
  ℕ, zero, suc, ◌+◌, ◌-◌, ◌/◌, ◌%◌, Bool, true, false, not, ◌&&◌, List, [], ◌∷◌, Option, none, some,
  ◌==◌, if◌then◌else◌, length, take, drop, Run, ok, fault, ◌>>=◌,
}
use ferrite_c.Common.Int.{ℤ, pos, negsuc, neg}
use ferrite_c.Sys.Cred.{Cred}
use ferrite_c.Fs.Permission.{Protected, vfs_permission}
use ferrite_c.Fs.Refs.{Refs, get_ref, put_ref, can_get, try_get}
use ferrite_c.Strings.{split}

abbrev pub may_exec : ℕ
may_exec = 1

abbrev pub may_write : ℕ
may_write = 2

abbrev pub may_read : ℕ
may_read = 4

abbrev pub slash : ℕ
slash = b'/'

pub record Space : Type 0 where
  pub caller : Cred
  pub node : ℕ → Protected
  pub i_mount : ℕ → Option ℕ
  pub lookup : ℕ → Option (List ℕ → Refs → Refs × Option ℕ)
  pub mknod : ℕ → Option (List ℕ → (mode dev : ℕ) → Refs → Refs × ℤ)
  pub room : Refs → Bool
  pub can : ℕ → Bool
  pub root : ℕ
  pub pwd : ℕ

-- S_ISDIR of the mode.
abbrev pub is_dir : Space → ℕ → Bool
is_dir fs i = (fs.node i).i_mode / 0x1000 % 16 == 4

-- A result of `vfs_permission` as a condition.
abbrev pub granted : ℤ → Bool
granted (pos n) = not (n == 0)
granted (negsuc n) = true

pub may : Space → (i mask : ℕ) → Bool
may fs i mask = granted (vfs_permission fs.caller (fs.node i) mask)

-- Onto the file system that is mounted on the inode; where its root is not to be had, NULL is read.
pub cross : Space → (new : ℕ) → Refs → Run (Refs × ℕ)
cross fs new r = elim (fs.i_mount new) [
  | none ↦ ok (r, new)
  | some m ↦ if can_get fs.room m r then ok (put_ref new (get_ref m r), m) else fault
]

abbrev pub is_last : List (List ℕ) → Bool
is_last [] = true
is_last (w ∷ ws) = false

-- The end of a round of the loop over the components, at an inode; `rest` are the other rounds.
pub arrive :
    Space
    → (last : Bool) → (rest : ℕ → Refs → Run (Refs × Option ℕ)) → Refs × ℕ
    → Run (Refs × Option ℕ)
unfolding may
arrive fs last rest (r, i) =
    if is_dir fs i && (not last && not (may fs i may_exec))
    then ok (put_ref i r, none)
    else rest i r

-- A round behind the call of `lookup`.
pub advance :
    Space
    → (last : Bool) → (rest : ℕ → Refs → Run (Refs × Option ℕ)) → (current : ℕ) → Refs × Option ℕ
    → Run (Refs × Option ℕ)
unfolding cross arrive
advance fs last rest current (r, none) = ok (put_ref current r, none)
advance fs last rest current (r, some new) =
    cross fs new (put_ref current r) >>= arrive fs last rest

-- The loop over the components, with a reference of `current`.
pub walk : Space → List (List ℕ) → (current : ℕ) → Refs → Run (Refs × Option ℕ)
unfolding advance
walk fs [] current r = ok (r, some current)
walk fs (w ∷ ws) current r =
    let skipped = walk fs ws current r in
    if length w == 0 then skipped else elim (fs.lookup current) [
      | none ↦ fault
      | some op ↦ advance fs (is_last ws) (λ i s. walk fs ws i s) current (op w r)
    ]

-- The slashes at the head of an absolute path.
pub skip_slashes : List ℕ → List ℕ
skip_slashes [] = []
skip_slashes (x ∷ xs) = if x == slash then skip_slashes xs else x ∷ xs

abbrev pub is_absolute : List ℕ → Bool
is_absolute [] = false
is_absolute (x ∷ xs) = x == slash

-- `vfs_lookup` of a path that is not empty, from the directory `base`.
pub lookup_from : Space → (base : ℕ) → (search_path : List ℕ) → Refs → Run (Refs × Option ℕ)
unfolding walk
lookup_from fs base search_path r =
    if length search_path == 0
    then ok (try_get fs.room base r)
    else if not (may fs base may_exec)
    then ok (r, none)
    else elim (split fs.can search_path slash) [
      | none ↦ ok (r, none)
      | some ws ↦ if can_get fs.room base r then walk fs ws base (get_ref base r) else ok (r, none)
    ]

pub vfs_lookup : Space → (path : List ℕ) → Refs → Run (Refs × Option ℕ)
vfs_lookup fs path r =
    if length path == 0
    then ok (r, none)
    else if is_absolute path
    then lookup_from fs fs.root (skip_slashes path) r
    else lookup_from fs fs.pwd path r

-- `strrchr(path, '/')`: the bytes before the last slash, and those behind it.
pub last_slash : List ℕ → Option (List ℕ × List ℕ)
last_slash [] = none
last_slash (x ∷ xs) = elim (last_slash xs) [
  | some (front, name) ↦ some (x ∷ front, name)
  | none ↦ if x == slash then some ([], xs) else none
]

-- What `dir_namei` comes to: the directory and the name, or an error.
pub data Parent : Type 0 where
  parent : (dir : ℕ) (name : List ℕ) → Parent
  error : ℤ → Parent

-- The part of `dir_namei` behind the lookup of the directory.
pub named_in : Space → (name : List ℕ) → Refs × Option ℕ → Run (Refs × Parent)
named_in fs name (r, none) = ok (put_ref fs.root r, error (neg 2))
named_in fs name (r, some dir) =
    let r2 = put_ref fs.root r in
    if is_dir fs dir then ok (r2, parent dir name) else ok (put_ref dir r2, error (neg 20))

-- The call with the base NULL, as `vfs_mknod` makes it.
pub dir_namei : Space → (path : List ℕ) → Refs → Run (Refs × Parent)
dir_namei fs path r =
    let r1 = get_ref fs.root r in
    elim (last_slash path) [
      | none ↦ ok (r1, parent fs.root path)
      | some (front, name) ↦
          if length name == 0
          then ok (put_ref fs.root r1, error (neg 21))
          else vfs_lookup fs front r1 >>= named_in fs name
    ]

-- The part of `vfs_mknod` behind `dir_namei`.
pub mknod_in : Space → (mode dev : ℕ) → Refs × Parent → Run (Refs × ℤ)
mknod_in fs mode dev (r, error e) = ok (r, e)
mknod_in fs mode dev (r, parent dir name) =
    if length name == 0
    then ok (put_ref dir r, neg 2)
    else if not (may fs dir 3)
    then ok (put_ref dir r, neg 13)
    else elim (fs.mknod dir) [
      | none ↦ ok (put_ref dir r, neg 1)
      | some op ↦ ok (op name mode dev r)
    ]

pub vfs_mknod : Space → (path : List ℕ) → (mode dev : ℕ) → Refs → Run (Refs × ℤ)
vfs_mknod fs path mode dev r = dir_namei fs path r >>= mknod_in fs mode dev
