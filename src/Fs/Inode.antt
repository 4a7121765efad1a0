-- ===== src/Fs/Inode.antt =====
-- kernel/src/fs/vfs/inode.c: the cache of inodes and their reference counts.
--
-- The cache `inode_cache` is the list of its MAX_INODES = 256 slots, and a pointer to an inode is the
-- index of its slot. Of an inode the model keeps what this file reads and writes: `i_sb`, the address
-- of the superblock (0 is NULL), `i_ino`, `i_count` (a u16, which wraps), and `i_mode`. The
-- superblocks are outside of this file: `Super` says of an address whether there is an `s_op`, what
-- the `read_inode` behind it makes of `i_mode`, and which inode is `s_root_node`.
pub mod Balance
pub mod Counts
pub mod Get
pub mod Put
pub mod Stale
pub mod View
mod Tests
use ferrite_c.Common.{
  ℕ, zero, suc, ◌+◌, ◌-◌, ◌/◌, ◌%◌, ◌^◌, Bool, not, ◌&&◌, List, [], ◌∷◌, Option, none, some, ◌==◌,
  if◌then◌else◌, get_elem?, set, Run, ok, fault, panic, ◌>>=◌,
}

pub record Inode : Type 0 where
  pub i_sb : ℕ
  pub i_ino : ℕ
  pub i_count : ℕ
  pub i_mode : ℕ

pub record Super : Type 0 where
  pub has_s_op : ℕ → Bool
  pub read_mode : (sb ino mode : ℕ) → ℕ
  pub s_root_node : ℕ → ℕ

-- S_ISSOCK: the file type of 0140000.
abbrev pub is_sock : ℕ → Bool
is_sock mode = mode / 0x1000 % 16 == 0xc

-- The call of `read_inode`, where the code makes it.
abbrev pub load : Super → Inode → Inode
load s x =
    if not (x.i_sb == 0) && (s.has_s_op x.i_sb && not (is_sock x.i_mode))
    then record x { i_mode = s.read_mode x.i_sb x.i_ino x.i_mode }
    else x

abbrev pub claim : Super → (sb ino : ℕ) → Inode → Inode
claim s sb ino x = load s (record x { i_sb = sb; i_ino = ino; i_count = 1 })

-- The first free slot is taken; `none` is a return of NULL.
pub inode_get_empty : Super → (sb ino : ℕ) → List Inode → Option (ℕ × List Inode)
inode_get_empty s sb ino [] = none
inode_get_empty s sb ino (x ∷ xs) =
    if x.i_count == 0
    then some (0, claim s sb ino x ∷ xs)
    else elim (inode_get_empty s sb ino xs) [ none ↦ none | some (i, ys) ↦ some (suc i, x ∷ ys) ]

abbrev pub holds : (sb ino : ℕ) → Inode → Bool
holds sb ino x = x.i_sb == sb && x.i_ino == ino

abbrev pub retain : Super → Inode → Inode
retain s x = load s (record x { i_count = (x.i_count + 1) % 2 ^ 16 })

-- The loop of `inode_get` over the slots.
pub get_cached : Super → (sb ino : ℕ) → List Inode → Option (ℕ × List Inode)
get_cached s sb ino [] = none
get_cached s sb ino (x ∷ xs) =
    if holds sb ino x
    then some (0, retain s x ∷ xs)
    else elim (get_cached s sb ino xs) [ none ↦ none | some (i, ys) ↦ some (suc i, x ∷ ys) ]

pub inode_get : Super → (sb ino : ℕ) → List Inode → Run (Option (ℕ × List Inode))
inode_get s sb ino xs = if sb == 0 then panic else elim (get_cached s sb ino xs) [
  | some r ↦ ok (some r)
  | none ↦ ok (inode_get_empty s sb ino xs)
]

-- What `inode_put` makes of the inode in slot i.
pub put_slot : Super → (i : ℕ) → Inode → Run Inode
put_slot s i x =
    if x.i_count == 0
    then ok x
    else if not (x.i_count - 1 == 0)
    then ok (record x { i_count = x.i_count - 1 })
    else if x.i_sb == 0
    then fault
    else if s.s_root_node x.i_sb == i
    then panic
    else ok (record x { i_count = 0; i_sb = 0; i_ino = 0 })

-- `none` is a call with NULL.
pub inode_put : Super → Option ℕ → List Inode → Run (List Inode)
unfolding put_slot
inode_put s none xs = ok xs
inode_put s (some i) xs = elim (get_elem? xs i) [
  | none ↦ fault
  | some x ↦ put_slot s i x >>= λ y. ok (set xs i y)
]
