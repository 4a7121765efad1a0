-- ===== src/Fs/Ext2/Entry.antt =====
-- kernel/src/fs/ext2/entry.c: the entries of a directory.
--
-- A block of a directory is a buffer of bytes, a function of the offset; an entry is read where it
-- stands: the inode in 4 bytes, `rec_len` in 2, `name_len` and `file_type` in one each, and the name
-- behind them. `i_size` stands for that of the inode and that of the node on disk, which are read as one
-- value. The block device is an argument: `read` gives the bytes from a sector on, or fails, and
-- `can_write` says whether a write there succeeds. The walks over a block run on fuel, more than the
-- bytes of a block: an entry with `rec_len` 0 makes the code loop for ever.
pub mod Chain
pub mod Delete
pub mod Insert
mod Tests
use ferrite_c.Common.{
  ℕ, zero, suc, ◌+◌, ◌-◌, ◌*◌, ◌/◌, ◌%◌, ◌^◌, Bool, true, false, not, ◌&&◌, ◌||◌, Option, none,
  some, ltb, leb, ◌==◌, if◌then◌else◌, add32, Run, ok, out_of_fuel, ◌>>=◌,
}
use ferrite_c.Common.Int.{ℤ, pos, neg}

-- The fields of the entry at an offset.
abbrev pub inode : (ℕ → ℕ) → ℕ → ℕ
inode b o = b o + 0x100 * b (o + 1) + 0x1_0000 * b (o + 2) + 0x100_0000 * b (o + 3)

abbrev pub rec_len : (ℕ → ℕ) → ℕ → ℕ
rec_len b o = b (o + 4) + 0x100 * b (o + 5)

abbrev pub name_len : (ℕ → ℕ) → ℕ → ℕ
name_len b o = b (o + 6)

abbrev pub sizeof_entry : ℕ
sizeof_entry = 8

-- A write of `rec_len`, which has 16 bits.
abbrev pub set_rec_len : (ℕ → ℕ) → ℕ → ℕ → ℕ → ℕ
set_rec_len b o v x =
    if o + 4 == x then v % 0x100 else if o + 5 == x then v / 0x100 % 0x100 else b x

-- `strncmp` gives 0: equal up to n bytes or the NUL.
pub strncmp_zero : (n : ℕ) → (ℕ → ℕ) → ℕ → (ℕ → ℕ) → ℕ → Bool
strncmp_zero zero l i r j = true
strncmp_zero (suc n) l i r j =
    let rest = strncmp_zero n l (i + 1) r (j + 1) in
    if l i == r j then (if l i == 0 then true else rest) else false

-- ALIGN(sizeof(ext2_entry_t) + e->name_len, sizeof(e->inode))
abbrev pub aligned_size : (ℕ → ℕ) → ℕ → ℕ
aligned_size b o = (sizeof_entry + name_len b o + 3) / 4 * 4

-- The walk over the entries of a block: the first that passes the test, with the one before it.
pub scan :
    (fuel blocksize : ℕ) → (test : ℕ → Bool) → (ℕ → ℕ) → (offset prev : ℕ) → Run (Option (ℕ × ℕ))
scan zero bs test b offset prev = out_of_fuel
scan (suc f) bs test b offset prev =
    let rest = scan f bs test b (add32 offset (rec_len b offset)) offset in
    if not (ltb offset bs) then ok none else if test offset then ok (some (prev, offset)) else rest

-- The test of `ext2_delete_entry`: the name of `entry` is that of the entry at the offset.
pub same_name : (entry b : ℕ → ℕ) → ℕ → Bool
unfolding strncmp_zero
same_name entry b o =
    name_len entry 0 == name_len b o
    && strncmp_zero (name_len b o) entry sizeof_entry b (o + sizeof_entry)

-- The test of `ext2_find_entry`.
pub has_name : (name : ℕ → ℕ) → (len : ℕ) → (ℕ → ℕ) → ℕ → Bool
unfolding strncmp_zero
has_name name len b o =
    len == name_len b o
    && name 0 == b (o + sizeof_entry)
    && strncmp_zero (name_len b o) name 0 b (o + sizeof_entry)

-- The entry before the one found gets its space too.
pub unlink_entry : (ℕ → ℕ) → (prev offset : ℕ) → ℕ → ℕ
unlink_entry b prev offset = set_rec_len b prev (rec_len b prev + rec_len b offset)

-- What the model reads of the directory, its superblock and its device.
pub record Dir : Type 0 where
  pub i_size : ℕ
  pub i_block : ℕ → ℕ
  pub s_blocksize : ℕ
  pub d_sector_size : ℕ

pub record Device : Type 0 where
  pub read : ℕ → Option (ℕ → ℕ)
  pub can_write : ℕ → Bool

abbrev pub sector_pos : Dir → ℕ → ℕ
sector_pos d i = d.i_block i * d.s_blocksize % 2 ^ 32 / d.d_sector_size

-- A write that the device makes: the sector, and the bytes from there on.
abbrev pub Write : Type 0
Write = ℕ × (ℕ → ℕ)

-- The loop of `ext2_delete_entry` over the blocks: the write that it makes, and the result.
pub delete_blocks : (count i blocks : ℕ) → Device → Dir → (entry : ℕ → ℕ) → Run (Option Write × ℤ)
unfolding scan same_name unlink_entry
delete_blocks zero i blocks d dir entry = ok (none, neg 1)
delete_blocks (suc k) i blocks d dir entry =
    let rest = delete_blocks k (i + 1) blocks d dir entry in
    if not (ltb i blocks) || dir.i_block i == 0
    then ok (none, neg 1)
    else elim (d.read (sector_pos dir i)) [
      | none ↦ ok (none, neg 1)
      | some b ↦ scan (suc dir.s_blocksize) dir.s_blocksize (same_name entry b) b 0 0 >>= λ r.
          elim r [
            | none ↦ rest
            | some (prev, o) ↦
                if d.can_write (sector_pos dir i)
                then ok (some (sector_pos dir i, unlink_entry b prev o), pos 0)
                else ok (none, neg 1)
          ]
    ]

abbrev pub block_count : Dir → ℕ
block_count dir = (dir.i_size + dir.s_blocksize - 1) % 2 ^ 32 / dir.s_blocksize

pub ext2_delete_entry : Device → Dir → (entry : ℕ → ℕ) → Run (Option Write × ℤ)
unfolding delete_blocks
ext2_delete_entry d dir entry = delete_blocks 12 0 (block_count dir) d dir entry

-- The loop of `ext2_find_entry` and `ext2_find_entry_by_ino`: the block and the offset of the entry.
pub find_blocks :
    (count i blocks : ℕ) → Device → Dir → (test : (ℕ → ℕ) → ℕ → Bool) → Run (Option ((ℕ → ℕ) × ℕ))
unfolding scan
find_blocks zero i blocks d dir test = ok none
find_blocks (suc k) i blocks d dir test =
    let rest = find_blocks k (i + 1) blocks d dir test in
    if not (ltb i blocks) || dir.i_block i == 0 then ok none else elim (d.read (sector_pos dir i)) [
      | none ↦ ok none
      | some b ↦ scan (suc dir.s_blocksize) dir.s_blocksize (test b) b 0 0 >>= λ r. elim r [
        | none ↦ rest
        | some (prev, o) ↦ ok (some (b, o))
      ]
    ]

pub ext2_find_entry : Device → Dir → (name : ℕ → ℕ) → (len : ℕ) → Run (Option ((ℕ → ℕ) × ℕ))
unfolding find_blocks has_name
ext2_find_entry d dir name len = find_blocks 12 0 (block_count dir) d dir (has_name name len)

pub ext2_find_entry_by_ino : Device → Dir → (ino : ℕ) → Run (Option ((ℕ → ℕ) × ℕ))
unfolding find_blocks
ext2_find_entry_by_ino d dir ino =
    find_blocks 12 0 (block_count dir) d dir (λ b o. inode b o == ino)

-- The walk of `ext2_write_entry`: where it stops, and the last entry that it looked at. `base` is the
-- offset of the block in the directory, and `i_size` the size of the inode on disk.
pub room_scan :
    (fuel blocksize base i_size : ℕ) → (ℕ → ℕ) → (offset : ℕ) → (e : Option ℕ) → Run (ℕ × Option ℕ)
room_scan zero bs base size b offset e = out_of_fuel
room_scan (suc f) bs base size b offset e =
    let rest = room_scan f bs base size b (add32 offset (rec_len b offset)) (some offset) in
    if not (ltb offset bs && leb (base + offset) size)
    then ok (offset, e)
    else if ltb (aligned_size b offset) (rec_len b offset)
    then ok (offset, some offset)
    else rest

-- A copy of `len` bytes of the entry to an offset.
abbrev pub copy_to : (ℕ → ℕ) → (offset : ℕ) → (entry : ℕ → ℕ) → (len : ℕ) → ℕ → ℕ
copy_to b offset entry len x =
    if leb offset x && ltb x (offset + len) then entry (x - offset) else b x

-- The end of `ext2_write_entry`: the entry at e is cut to its size, and the new one put at `offset` and
-- the size, with the rest of the space.
pub put_entry : (ℕ → ℕ) → (offset e : ℕ) → (entry : ℕ → ℕ) → ℕ → ℕ
put_entry b offset e entry =
    let size = aligned_size b e in
    let b1 = set_rec_len b e size in
    let entry1 = set_rec_len entry 0 (rec_len b e + 2 ^ 32 - size) in
    copy_to b1 (offset + rec_len b1 e) entry1 (sizeof_entry + name_len entry 0)

-- The loop of `ext2_write_entry` over the blocks, and what follows it.
pub write_blocks : (count i : ℕ) → Device → Dir → (entry : ℕ → ℕ) → Run (Option Write × ℤ)
unfolding room_scan put_entry
write_blocks zero i d dir entry = ok (none, neg 1)
write_blocks (suc k) i d dir entry =
    let rest = write_blocks k (i + 1) d dir entry in
    elim (d.read (sector_pos dir i)) [
      | none ↦ ok (none, neg 1)
      | some b ↦
          room_scan (suc dir.s_blocksize) dir.s_blocksize (i * dir.s_blocksize) dir.i_size b 0 none
          >>= λ (offset, e). if not (ltb offset dir.s_blocksize) then rest else elim e [
            | none ↦ ok (none, neg 1)
            | some o ↦
                if d.can_write (sector_pos dir i)
                then ok (some (sector_pos dir i, put_entry b offset o entry), pos 0)
                else ok (none, neg 1)
          ]
    ]

-- `dir` is the directory after the `read_inode` at the start, which may fail.
pub ext2_write_entry : (reread : Bool) → Device → Dir → (entry : ℕ → ℕ) → Run (Option Write × ℤ)
unfolding write_blocks
ext2_write_entry reread d dir entry =
    if not reread then ok (none, neg 1) else write_blocks (block_count dir) 0 d dir entry
