-- ===== src/Fs/Ext2/Balloc/New.antt =====
-- What `ext2_new_block` comes to.
use ferrite_c.Common.{
  ◌+◌, ◌-◌, ◌&&◌, ℕ, ◌*◌, ◌<◌, ◌≡◌, ◌≢◌, Bool, true, false, not, none, some, ◌==◌, if◌then◌else◌,
  arith, Run, ok,
}
use ferrite_c.Common.Int.{pos, neg}
use ferrite_c.Fs.Ext2.Balloc.{Volume, Io, Answer, enospc, eio, group_count}

-- The first group that counts a free block, and its first clear bit.
pub record IsFirstGroup (v : Volume) (g : ℕ) : Type 0 where
  pub group_exists : g < group_count v
  pub has_free : (v.s_group_desc g).bg_free_blocks_count ≢ 0
  pub earlier_full : (h : ℕ) → h < g → (v.s_group_desc h).bg_free_blocks_count ≡ 0

pub record IsFirstBit (v : Volume) (g bit : ℕ) : Type 0 where
  pub bit_exists : bit < v.s_blocksize * 8
  pub bit_clear : v.disk (v.s_group_desc g).bg_block_bitmap bit ≡ false
  pub earlier_set : (k : ℕ) → k < bit → v.disk (v.s_group_desc g).bg_block_bitmap k ≡ true

-- The counts of the group and of the superblock are one lower, and the rest is as before but for the blocks.
pub record IsLowered (g : ℕ) (v w : Volume) : Type 0 where
  pub group_is : w.s_group_desc g ≡ record (v.s_group_desc g) {
    bg_free_blocks_count = (v.s_group_desc g).bg_free_blocks_count - 1;
  }
  pub other_groups : (h : ℕ) → h ≢ g → w.s_group_desc h ≡ v.s_group_desc h
  pub free_blocks : w.s_free_blocks_count ≡ v.s_free_blocks_count - 1
  pub rest :
      record w {
        s_group_desc = v.s_group_desc;
        s_free_blocks_count = v.s_free_blocks_count;
        disk = v.disk;
      }
      ≡ v

-- The bit is set in the bit map of the group, and no other bit of any block changed.
abbrev pub IsMarked : (g bit : ℕ) → Volume → Volume → Type 0
IsMarked g bit v w =
    (b k : ℕ)
    → w.disk b k
      ≡ (if (v.s_group_desc g).bg_block_bitmap == b && bit == k then true else v.disk b k)

-- The same, with the block `cleared` filled with zeros where its write succeeds.
abbrev pub IsMarkedCleared : Io → (g bit cleared : ℕ) → Volume → Volume → Type 0
IsMarkedCleared io g bit cleared v w =
    (b k : ℕ)
    → w.disk b k ≡ (
        if io.can_write cleared && cleared == b
        then false
        else if (v.s_group_desc g).bg_block_bitmap == b && bit == k
        then true
        else v.disk b k)

-- What the writes behind the choice of the group and the bit come to.
pub data Written (io : Io) (g bit : ℕ) (v : Volume) : Volume × Answer → Type 0 where
  all_written :
      (w : Volume)
      → io.can_write (v.s_group_desc g).bg_block_bitmap ≡ true
      → io.can_write_bgd g ≡ true
      → io.can_write_super ≡ true
      → IsLowered g v w
      → IsMarkedCleared io g bit (bit + v.s_blocks_per_group * g + v.s_first_data_block) v w
      → Written io g bit v (
        w,
        record {
          result = pos (bit + v.s_blocks_per_group * g + v.s_first_data_block);
          err = some (pos 0);
        },
      )
  map_only :
      (w : Volume)
      → io.can_write (v.s_group_desc g).bg_block_bitmap ≡ true
      → io.can_write_bgd g && io.can_write_super ≡ false
      → IsLowered g v w
      → IsMarked g bit v w
      → Written io g bit v (w, record { result = neg 1; err = some (neg eio) })
  not_written :
      (w : Volume)
      → io.can_write (v.s_group_desc g).bg_block_bitmap ≡ false
      → IsLowered g v w
      → w.disk ≡ v.disk
      → Written io g bit v (w, record { result = neg 1; err = none })

-- A call changes nothing and returns an error, or goes on with the first clear bit of the first group that
-- counts a free block.
pub data New (io : Io) (v : Volume) : Run (Volume × Answer) → Type 0 where
  none_free :
      v.s_free_blocks_count ≡ 0
      → New io v (ok (v, record { result = pos 0; err = some (neg enospc) }))
  no_group :
      ((g : ℕ) → g < group_count v → (v.s_group_desc g).bg_free_blocks_count ≡ 0)
      → New io v (ok (v, record { result = neg 1; err = some (neg enospc) }))
  unreadable :
      (g : ℕ)
      → IsFirstGroup v g
      → io.can_read (v.s_group_desc g).bg_block_bitmap ≡ false
      → New io v (ok (v, record { result = neg 1; err = some (neg eio) }))
  no_bit :
      (g : ℕ)
      → IsFirstGroup v g
      → ((k : ℕ) → k < v.s_blocksize * 8 → v.disk (v.s_group_desc g).bg_block_bitmap k ≡ true)
      → New io v (ok (v, record { result = neg 1; err = some (neg enospc) }))
  chosen :
      (g bit : ℕ) (res : Volume × Answer)
      → IsFirstGroup v g
      → IsFirstBit v g bit
      → Written io g bit v res
      → New io v (ok res)

pub is_set : (b : Bool) → not b ≡ false → b ≡ true
is_set b e = ground arith

pub is_clear : (b : Bool) → not b ≡ true → b ≡ false
is_clear b e = ground arith

pub is_zero : (n : ℕ) → not (n == 0) ≡ false → n ≡ 0
is_zero n e = ground arith

pub not_zero : (n : ℕ) → not (n == 0) ≡ true → n ≢ 0
not_zero n e = ground arith
