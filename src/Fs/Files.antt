-- ===== src/Fs/Files.antt =====
-- kernel/src/fs/fs_interface.c: the system calls that open and close files, and `file_put` of
-- kernel/src/sys/file/file.c, over the open files of Sys/File and the counts of Fs/Refs.
--
-- A file is named by its address, the list `kfreed` records the calls of `kfree` of files, and a table of
-- file operations is named by a number. An operation takes the counts and returns them changed. A read
-- through NULL is a fault.
pub mod Find
pub mod Open
pub mod Close
mod Tests
use ferrite_c.Common.{
  ℕ, zero, suc, ◌+◌, ◌-◌, ◌/◌, ◌%◌, Bool, true, false, not, ◌&&◌, ◌||◌, List, [], ◌∷◌, Option, none,
  some, ◌==◌, if◌then◌else◌, length, set, update, Run, ok, fault, ◌>>=◌,
}
use ferrite_c.Common.Int.{ℤ, pos, negsuc, neg}
use ferrite_c.Sys.File.{fd_alloc, fd_get}
use ferrite_c.Fs.Refs.{Refs, put_ref}
use ferrite_c.Fs.Lookup.{may, may_exec, may_read, may_write, is_dir, last_slash, vfs_lookup}
use ferrite_c.Fs.Calls.{Tree, parent_path}

pub record File : Type 0 where
  pub f_inode : Option ℕ
  pub f_op : Option ℕ
  pub f_pos : ℤ
  pub f_mode : ℕ
  pub f_flags : ℕ
  pub f_count : ℕ

-- What a process and its files are to these calls.
pub record Files : Type 0 where
  pub open_files : List (Option ℕ)
  pub file : ℕ → File
  pub kfreed : List ℕ
  pub refs : Refs

pub record FileOps : Type 0 where
  pub on_open : Option ((node : ℕ) → File → Refs → File × Refs × ℤ)
  pub on_release : Option ((node : Option ℕ) → File → Refs → File × Refs)

-- The operations on inodes, with `create` and the file operations of an inode.
pub record Vfs : Type 0 where
  pub tree : Tree
  pub create : ℕ → Option (List ℕ → (mode : ℕ) → Refs → Refs × ℤ × Option ℕ)
  pub default_file_ops : ℕ → Option ℕ
  pub ops : ℕ → FileOps

-- O_ACCMODE of the flags, and a bit of them.
abbrev pub accmode : (flags : ℕ) → ℕ
accmode flags = flags % 4

abbrev pub has_flag : (flags bit : ℕ) → Bool
has_flag flags bit = not (flags / bit % 2 == 0)

abbrev pub o_creat : ℕ
o_creat = 0o100

abbrev pub o_excl : ℕ
o_excl = 0o200

abbrev pub o_trunc : ℕ
o_trunc = 0o1000

abbrev pub wants_read : (flags : ℕ) → Bool
wants_read flags = accmode flags == 0 || accmode flags == 2

abbrev pub wants_write : (flags : ℕ) → Bool
wants_write flags = accmode flags == 1 || accmode flags == 2

-- What the lookup and the creation of a file come to: `node`, which may be NULL, or the result.
pub data Target : Type 0 where
  target : Option ℕ → Target
  denied : ℤ → Target

-- `create` returned; the reference of the parent is given back.
pub created_in : (dir : ℕ) → Refs × ℤ × Option ℕ → Refs × Target
created_in dir (r, negsuc n, _) = (put_ref dir r, denied (negsuc n))
created_in dir (r, pos n, node) = (put_ref dir r, target node)

-- `sys_open` behind the lookup of the parent of a new file; S_IFREG | (mode & 0777).
pub create_in : Vfs → (name : List ℕ) → (mode : ℕ) → Refs × Option ℕ → Run (Refs × Target)
create_in v name mode (r, none) = ok (r, denied (neg 2))
create_in v name mode (r, some dir) =
    if not (may v.tree.space dir 3)
    then ok (put_ref dir r, denied (neg 1))
    else elim (v.create dir) [
      | none ↦ fault
      | some op ↦ ok (created_in dir (op name (0o100000 + mode % 0o1000) r))
    ]

abbrev pub truncated : (node : ℕ) → Refs × ℤ → Refs × Target
truncated node (r, negsuc n) = (put_ref node r, denied (negsuc n))
truncated node (r, pos n) = (r, target (some node))

-- `sys_open` behind the lookup of the path.
pub find_target : Vfs → (path : List ℕ) → (flags mode : ℕ) → Refs × Option ℕ → Run (Refs × Target)
find_target v path flags mode (r, none) =
    if not (has_flag flags o_creat) then ok (r, denied (neg 2)) else elim (last_slash path) [
      | none ↦ ok (r, denied (neg 2))
      | some (front, name) ↦ vfs_lookup v.tree.space (parent_path front) r >>= create_in v name mode
    ]
find_target v path flags mode (r, some node) =
    if has_flag flags o_creat && has_flag flags o_excl
    then ok (put_ref node r, denied (neg 17))
    else if not (
        may v.tree.space node (
          (if wants_read flags then may_read else 0)
          + (if wants_write flags then may_write else 0)))
    then ok (put_ref node r, denied (neg 1))
    else if not (has_flag flags o_trunc && not (accmode flags == 0))
    then ok (r, target (some node))
    else if not (v.tree.has_i_op node)
    then fault
    else elim (v.tree.truncate node) [
      | none ↦ ok (r, target (some node))
      | some op ↦ ok (truncated node (op node (pos 0) r))
    ]

abbrev pub put_node : Option ℕ → Refs → Refs
put_node none r = r
put_node (some node) r = put_ref node r

-- `f_count` has 16 bits.
pub file_put : Files → (f : ℕ) → Files
file_put s f =
    let x = s.file f in
    let left = (x.f_count + 0xffff) % 0x10000 in
    let s1 = record s { file = update s.file f (record x { f_count = left }) } in
    if left == 0 then record s1 { refs = put_node x.f_inode s.refs; kfreed = f ∷ s.kfreed } else s1

abbrev pub new_file : Vfs → (flags node : ℕ) → File
new_file v flags node = record {
  f_inode = some node;
  f_op = v.default_file_ops node;
  f_pos = pos 0;
  f_mode = (if wants_read flags then 1 else 0) + (if wants_write flags then 2 else 0);
  f_flags = flags % 0x10000;
  f_count = 1;
}

abbrev pub open_op : Vfs → File → Option ((node : ℕ) → File → Refs → File × Refs × ℤ)
open_op v x = elim x.f_op [ none ↦ none | some t ↦ (v.ops t).on_open ]

abbrev pub release_op : Vfs → File → Option ((node : Option ℕ) → File → Refs → File × Refs)
release_op v x = elim x.f_op [ none ↦ none | some t ↦ (v.ops t).on_release ]

-- The operation `open` returned.
pub opened_by : Files → (node fd f : ℕ) → File × Refs × ℤ → Files × ℤ
unfolding file_put
opened_by s node fd f (x, r, pos n) = (record s { file = update s.file f x; refs = r }, pos fd)
opened_by s node fd f (x, r, negsuc n) =
    let s1 = file_put (record s { file = update s.file f x; refs = r }) f in
    (record s1 { refs = put_ref node s1.refs }, negsuc n)

-- `sys_open` behind `fd_get`.
pub fill : Vfs → (flags node : ℕ) → Files → (fd : ℕ) → Option ℕ → Run (Files × ℤ)
fill v flags node s fd none = ok (record s { refs = put_ref node s.refs }, neg 9)
fill v flags node s fd (some f) =
    if not (v.tree.has_i_op node) then fault else elim (open_op v (new_file v flags node)) [
      | none ↦ ok (record s { file = update s.file f (new_file v flags node) }, pos fd)
      | some op ↦ ok (opened_by s node fd f (op node (new_file v flags node) s.refs))
    ]

-- `sys_open` behind `fd_alloc`; the operations of a node that is NULL are read through NULL.
pub place_file :
    Vfs → (flags : ℕ) → (node : Option ℕ) → Files → List (Option ℕ) × ℤ → Run (Files × ℤ)
place_file v flags node s (fs, negsuc n) =
    ok (record s { open_files = fs; refs = put_node node s.refs }, neg 24)
place_file v flags none s (fs, pos fd) = fault
place_file v flags (some node) s (fs, pos fd) =
    fd_get fs (pos fd) >>= fill v flags node (record s { open_files = fs }) fd

-- `sys_open` with the node.
pub install : Vfs → (flags : ℕ) → (memory : Option ℕ) → Files → Refs × Target → Run (Files × ℤ)
install v flags memory s (r, denied e) = ok (record s { refs = r }, e)
install v flags memory s (r, target node) =
    place_file v flags node (record s { refs = r }) (fd_alloc memory s.open_files)

-- `memory` is what `kmalloc` returns for the file.
pub sys_open :
    Vfs → (path : List ℕ) → (flags mode : ℕ) → (memory : Option ℕ) → Files → Run (Files × ℤ)
sys_open v path flags mode memory s =
    vfs_lookup v.tree.space path s.refs
    >>= find_target v path flags mode
    >>= install v flags memory s

abbrev pub entry : ℤ → ℕ
entry (pos n) = n
entry (negsuc n) = 0

abbrev pub after_release : Files → (f : ℕ) → File × Refs → Files
after_release s f (x, r) = record s { file = update s.file f x; refs = r }

-- `sys_close` behind `fd_get`.
pub close_at : Vfs → Files → (fd : ℤ) → Option ℕ → Run (Files × ℤ)
close_at v s fd none = ok (s, neg 1)
close_at v s fd (some f) =
    let s1 = record s { open_files = set s.open_files (entry fd) none } in
    elim (release_op v (s.file f)) [
      | none ↦ ok (file_put s1 f, pos 0)
      | some op ↦
          ok (file_put (after_release s1 f (op (s.file f).f_inode (s.file f) s.refs)) f, pos 0)
    ]

pub sys_close : Vfs → (fd : ℤ) → Files → Run (Files × ℤ)
sys_close v fd s = fd_get s.open_files fd >>= close_at v s fd
