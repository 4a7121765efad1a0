-- ===== src/Fs/Ext2/Balloc.antt =====
-- kernel/src/fs/ext2/balloc.c: the blocks of an ext2 file system, by the bit maps of its groups.
--
-- A block is given by its bits, bit k being bit k % 8 of byte k / 8. `Volume` has the superblock and the
-- group descriptors in memory, and the blocks of the device; `Io` says which of its transfers succeed, and
-- the writes of the descriptors and of the superblock, whose contents are left out, may fail too. Block
-- numbers are small enough for their sectors to fit in 32 bits.
pub mod Bits
pub mod New
pub mod Free
mod Tests
use ferrite_c.Common.{
  ℕ, zero, suc, ◌+◌, ◌-◌, ◌*◌, ◌/◌, ◌%◌, ◌^◌, Bool, true, false, not, ◌&&◌, Option, none, some, ltb,
  ◌==◌, if◌then◌else◌, update, Run, ok, out_of_fuel,
}
use ferrite_c.Common.Search.{first_index}
use ferrite_c.Common.Int.{ℤ, pos, neg}

pub record Group : Type 0 where
  pub bg_block_bitmap : ℕ
  pub bg_free_blocks_count : ℕ

pub record Volume : Type 0 where
  pub s_blocks_count : ℕ
  pub s_blocks_per_group : ℕ
  pub s_first_data_block : ℕ
  pub s_blocksize : ℕ
  pub s_free_blocks_count : ℕ
  pub s_group_desc : ℕ → Group
  pub disk : ℕ → ℕ → Bool

pub record Io : Type 0 where
  pub can_read : ℕ → Bool
  pub can_write : ℕ → Bool
  pub can_write_bgd : ℕ → Bool
  pub can_write_super : Bool

abbrev pub enospc : ℕ
enospc = 28

abbrev pub eio : ℕ
eio = 5

abbrev pub einval : ℕ
einval = 22

-- The byte i is 0xFF.
abbrev pub all_set : (i : ℕ) → (bitmap : ℕ → Bool) → Bool
all_set i bitmap = elim (first_index 8 0 (λ j. not (bitmap (i * 8 + j)))) [
  | none ↦ true
  | some j ↦ false
]

-- The bytes from i on of a bit map.
pub free_bit : (count i : ℕ) → (bitmap : ℕ → Bool) → Option ℕ
unfolding first_index
free_bit zero i bitmap = none
free_bit (suc k) i bitmap =
    let rest = free_bit k (i + 1) bitmap in
    if all_set i bitmap then rest else elim (first_index 8 0 (λ j. not (bitmap (i * 8 + j)))) [
      | none ↦ rest
      | some j ↦ some (i * 8 + j)
    ]

pub find_free_bit_in_bitmap : (bitmap : ℕ → Bool) → (size : ℕ) → Option ℕ
unfolding free_bit
find_free_bit_in_bitmap bitmap size = free_bit size 0 bitmap

-- The result and the error that is stored through `err`.
pub record Answer : Type 0 where
  pub result : ℤ
  pub err : Option ℤ

abbrev pub group_count : Volume → ℕ
group_count v = (v.s_blocks_count + v.s_blocks_per_group - 1) / v.s_blocks_per_group

abbrev pub write_block : Volume → (block : ℕ) → (ℕ → Bool) → Volume
write_block v b bits = record v { disk = update v.disk b bits }

-- The counts and the writes of `ext2_new_block`, for the bit of the group g.
pub take_block : Io → (g bit : ℕ) → Volume → Volume × Answer
take_block io g bit v =
    let d = v.s_group_desc g in
    let block_num = bit + v.s_blocks_per_group * g + v.s_first_data_block in
    let v1 = record v {
      s_group_desc =
          update v.s_group_desc g (record d { bg_free_blocks_count = d.bg_free_blocks_count - 1 });
      s_free_blocks_count = v.s_free_blocks_count - 1;
    } in
    if not (io.can_write d.bg_block_bitmap)
    then (v1, record { result = neg 1; err = none })
    else (let v2 = write_block v1 d.bg_block_bitmap (update (v.disk d.bg_block_bitmap) bit true) in
        if not (io.can_write_bgd g)
        then (v2, record { result = neg 1; err = some (neg eio) })
        else if not io.can_write_super
        then (v2, record { result = neg 1; err = some (neg eio) })
        else (
          (if io.can_write block_num then write_block v2 block_num (λ k. false) else v2),
          record { result = pos block_num; err = some (pos 0) },
        ))

-- `fuel` bounds the jumps to `retry`.
pub new_block : (fuel : ℕ) → Io → Volume → Run (Volume × Answer)
unfolding take_block find_free_bit_in_bitmap
new_block zero io v = out_of_fuel
new_block (suc f) io v =
    let again = new_block f io v in
    elim (first_index (group_count v) 0 (λ g. not ((v.s_group_desc g).bg_free_blocks_count == 0))) [
      | none ↦ ok (v, record { result = neg 1; err = some (neg enospc) })
      | some g ↦
          let b = (v.s_group_desc g).bg_block_bitmap in
          if not (io.can_read b)
          then ok (v, record { result = neg 1; err = some (neg eio) })
          else elim (find_free_bit_in_bitmap (v.disk b) v.s_blocksize) [
            | none ↦ ok (v, record { result = neg 1; err = some (neg enospc) })
            | some bit ↦ if v.disk b bit then again else ok (take_block io g bit v)
          ]
    ]

pub ext2_new_block : (fuel : ℕ) → Io → Volume → Run (Volume × Answer)
unfolding new_block
ext2_new_block fuel io v =
    if v.s_free_blocks_count == 0
    then ok (v, record { result = pos 0; err = some (neg enospc) })
    else new_block fuel io v

pub ext2_free_block : Io → (block_num : ℕ) → Volume → Volume × ℤ
ext2_free_block io block_num v =
    let g = (block_num + 2 ^ 32 - v.s_first_data_block) % 2 ^ 32 / v.s_blocks_per_group in
    let d = v.s_group_desc g in
    let bit = (block_num + 2 ^ 32 - v.s_first_data_block) % 2 ^ 32 % v.s_blocks_per_group in
    if not (io.can_read d.bg_block_bitmap)
    then (v, neg eio)
    else if not (v.disk d.bg_block_bitmap bit)
    then (v, neg einval)
    else (let v1 = record v {
      s_group_desc =
          update v.s_group_desc g
            (record d { bg_free_blocks_count = (d.bg_free_blocks_count + 1) % 2 ^ 16 });
      s_free_blocks_count = (v.s_free_blocks_count + 1) % 2 ^ 32;
    } in
        if not (io.can_write d.bg_block_bitmap)
        then (v1, neg eio)
        else (let v2 =
              write_block v1 d.bg_block_bitmap (update (v.disk d.bg_block_bitmap) bit false) in
            if not (io.can_write_bgd g)
            then (v2, neg eio)
            else if not io.can_write_super
            then (v2, neg eio)
            else (v2, pos 0)))
