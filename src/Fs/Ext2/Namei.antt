-- ===== src/Fs/Ext2/Namei.antt =====
-- kernel/src/fs/ext2/namei.c: `ext2_create` and `ext2_lookup`, and `ext2_mknod` and `ext2_mkdir` of
-- kernel/src/fs/ext2/dir.c, over the counts of Fs/Refs.
--
-- `Disk` has the counts, the fields of the inodes that these functions write, the entries of a directory
-- by name, and the inodes that were freed. `Callees` has the functions of the other files that are called, which
-- return the state changed. The times of the inodes are left out, and
-- so is the entry as it is built on the stack: `write_entry` takes the name and the inode.
pub mod Take
pub mod MakeDir
mod Tests
use Prim.Native.Nat.{bit_and}
use ferrite_c.Common.{
  ℕ, zero, suc, ◌+◌, ◌-◌, ◌/◌, ◌%◌, Bool, true, false, not, ◌&&◌, ◌||◌, List, [], ◌∷◌, Option, none,
  some, ◌==◌, if◌then◌else◌, update, Run, ok, fault,
}
use ferrite_c.Common.Int.{ℤ, pos, negsuc, neg, ltb_zero, eqb_ℤ}
use ferrite_c.Sys.Cred.{Cred}
use ferrite_c.Fs.Refs.{Refs, get_ref, put_ref, try_get}

-- The tables of operations.
pub data OpTable : Type 0 where
  file_operations dir_operations chrdev_operations no_operations : OpTable

pub record Meta : Type 0 where
  pub i_mode : ℕ
  pub i_uid : ℕ
  pub i_gid : ℕ
  pub i_rdev : ℕ
  pub i_size : ℕ
  pub i_links_count : ℕ
  pub i_op : OpTable

pub record Disk : Type 0 where
  pub refs : Refs
  pub meta : ℕ → Meta
  pub entries : (dir : ℕ) → List (List ℕ × ℕ)
  pub freed : List ℕ

-- `find_entry` is `none` where the search fails; a result below 0 is an error. `rewrite_inode` is the second
-- write of the new directory, behind that of its block.
pub record Callees : Type 0 where
  pub new_inode : (dir mode : ℕ) → Disk → Disk × Option ℕ × ℤ
  pub new_block : (dir : ℕ) → Disk → Disk × ℤ
  pub write_inode : (node : ℕ) → Disk → ℤ
  pub write_block : (node : ℕ) → Disk → ℤ
  pub rewrite_inode : (node : ℕ) → Disk → ℤ
  pub find_entry : (dir : ℕ) → List ℕ → Disk → Option ℕ
  pub write_entry : (dir : ℕ) → List ℕ → (node : ℕ) → Disk → Disk × ℤ
  pub free_inode : (node : ℕ) → Disk → Disk

abbrev pub drop_ref : (node : ℕ) → Disk → Disk
drop_ref node s = record s { refs = put_ref node s.refs }

abbrev pub set_meta : (node : ℕ) → Meta → Disk → Disk
set_meta node x s = record s { meta = update s.meta node x }

-- The file type of a mode.
abbrev pub format : (mode : ℕ) → ℕ
format mode = mode / 0x1000 % 16

-- `inode_get` of the entry that was found; `room` as in Fs/Refs.
pub ext2_lookup :
    Callees → (room : Refs → Bool) → (node : ℕ) → (name : List ℕ) → Disk → Refs × Option ℕ
ext2_lookup io room node name s =
    if not (format (s.meta node).i_mode == 4)
    then (s.refs, none)
    else elim (io.find_entry node name s) [ none ↦ (s.refs, none) | some i ↦ try_get room i s.refs ]

-- `ext2_create` behind the write of the entry.
pub entered : Callees → (dir new : ℕ) → Disk × ℤ → Disk × ℤ × Option ℕ
entered io dir new (s, negsuc n) = (drop_ref new (io.free_inode new s), pos (n + 1), none)
entered io dir new (s, pos n) =
    if ltb_zero (io.write_inode dir s)
    then (drop_ref new s, io.write_inode dir s, none)
    else (s, pos 0, some new)

-- `ext2_create` behind `ext2_new_inode`.
pub fill_new : Callees → (dir : ℕ) → (name : List ℕ) → Disk × Option ℕ × ℤ → Disk × ℤ × Option ℕ
fill_new io dir name (s, none, err) = (s, err, none)
fill_new io dir name (s, some new, err) =
    let s1 = set_meta new (record (s.meta new) { i_op = file_operations }) s in
    if ltb_zero (io.write_inode new s1)
    then (drop_ref new (io.free_inode new s1), io.write_inode new s1, none)
    else entered io dir new (io.write_entry dir name new s1)

-- The inode is `none` where `*result` is left as it was, which is NULL in `sys_open`.
pub ext2_create : Callees → (dir : ℕ) → (name : List ℕ) → (mode : ℕ) → Disk → Disk × ℤ × Option ℕ
ext2_create io dir name mode s = fill_new io dir name (io.new_inode dir mode s)

-- The end of `ext2_mknod`.
pub listed : (dir node : ℕ) → Disk × ℤ → Disk × ℤ
listed dir node (s, e) = if eqb_ℤ e (pos 0) then (drop_ref node (drop_ref dir s), pos 0) else (
  drop_ref dir (drop_ref node (set_meta node (record (s.meta node) { i_links_count = 0 }) s)),
  e,
)

-- The inode as `ext2_mknod` fills it in, and whether the type of the file is refused.
pub filled : (caller : Cred) → (dir_mode mode rdev : ℕ) → Meta → Meta × Bool
filled caller dir_mode mode rdev x =
    let y = record x {
      i_uid = caller.euid;
      i_gid = caller.egid;
      i_mode = mode;
      i_op = no_operations;
    } in
    if format mode == 8
    then (record y { i_op = file_operations }, false)
    else if format mode == 4
    then (
      record y {
        i_op = dir_operations;
        i_mode =
            if bit_and dir_mode 0o2000 == 0
            then mode
            else if bit_and mode 0o2000 == 0
            then mode + 0o2000
            else mode;
      },
      false,
    )
    else if format mode == 10
    then (y, true)
    else if format mode == 2
    then (record y { i_op = chrdev_operations; i_rdev = rdev }, false)
    else if format mode == 6
    then (record y { i_rdev = rdev }, true)
    else (y, format mode == 1)

-- `ext2_mknod` behind `ext2_new_inode`; `memory` says whether `kmalloc` returns memory for the entry.
pub fill_node :
    Callees
    → (caller : Cred) → (memory : Bool) → (dir : ℕ) → (name : List ℕ) → (mode rdev : ℕ)
    → Disk × Option ℕ × ℤ
    → Run (Disk × ℤ)
fill_node io caller memory dir name mode rdev (s, none, err) =
    ok (drop_ref dir s, if eqb_ℤ err (pos 0) then neg 28 else err)
fill_node io caller memory dir name mode rdev (s, some node, err) =
    let x = filled caller (s.meta dir).i_mode mode rdev (s.meta node) in
    let s1 = set_meta node x.0 s in
    if x.1
    then ok (drop_ref dir (drop_ref node s1), neg 38)
    else if memory
    then ok (listed dir node (io.write_entry dir name node s1))
    else fault

pub ext2_mknod :
    Callees
    → (caller : Cred) → (memory : Bool) → (dir : ℕ) → (name : List ℕ) → (mode rdev : ℕ) → Disk
    → Run (Disk × ℤ)
ext2_mknod io caller memory dir name mode rdev s = elim (io.find_entry dir name s) [
  | some i ↦ ok (drop_ref dir s, neg 17)
  | none ↦ fill_node io caller memory dir name mode rdev (io.new_inode dir mode s)
]

-- `ext2_mkdir` behind the write of the entry.
pub dots : Callees → (dir new : ℕ) → Disk × ℤ → Disk × ℤ
dots io dir new (s, negsuc n) = (drop_ref new s, negsuc n)
dots io dir new (s, pos n) =
    if ltb_zero (io.write_inode new s)
    then (drop_ref new s, io.write_inode new s)
    else if ltb_zero (io.write_block new s)
    then (s, neg 1)
    else if ltb_zero (io.rewrite_inode new s)
    then (s, neg 1)
    else (let s1 = drop_ref new s in
        let s2 =
          set_meta dir (record (s1.meta dir) { i_links_count = (s1.meta dir).i_links_count + 1 })
            s1 in
        (s2, io.write_inode dir s2))

-- `ext2_mkdir` behind `ext2_new_block`.
pub with_block : Callees → (dir new : ℕ) → (name : List ℕ) → (blocksize : ℕ) → Disk × ℤ → Disk × ℤ
with_block io dir new name blocksize (s, negsuc n) = (s, negsuc n)
with_block io dir new name blocksize (s, pos n) =
    let s1 = set_meta new (record (s.meta new) { i_size = blocksize; i_links_count = 2 }) s in
    dots io dir new (io.write_entry dir name new s1)

-- `ext2_mkdir` behind `ext2_new_inode`.
pub with_inode :
    Callees → (dir : ℕ) → (name : List ℕ) → (blocksize : ℕ) → Disk × Option ℕ × ℤ → Disk × ℤ
with_inode io dir name blocksize (s, none, err) = (s, err)
with_inode io dir name blocksize (s, some new, err) =
    with_block io dir new name blocksize (io.new_block dir s)

pub ext2_mkdir :
    Callees → (blocksize : ℕ) → (dir : ℕ) → (name : List ℕ) → (mode : ℕ) → Disk → Disk × ℤ
ext2_mkdir io blocksize dir name mode s =
    if not (format (s.meta dir).i_mode == 4) then (s, neg 1) else elim (io.find_entry dir name s) [
      | some i ↦ (s, neg 1)
      | none ↦ with_inode io dir name blocksize (io.new_inode dir mode s)
    ]
