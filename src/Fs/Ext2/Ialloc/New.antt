-- ===== src/Fs/Ext2/Ialloc/New.antt =====
-- What `ext2_new_inode` comes to.
use ferrite_c.Common.{
  ◌-◌, ◌/◌, ◌%◌, ◌^◌, ◌&&◌, ℕ, ◌+◌, ◌*◌, ◌<◌, ◌≡◌, ◌≢◌, Bool, true, false, Option, none, some, [],
  ◌∷◌, ◌==◌, if◌then◌else◌,
}
use ferrite_c.Common.Int.{ℤ, pos, neg}
use ferrite_c.Fs.Refs.{Refs, Holding}
use ferrite_c.Fs.Ext2.Balloc.{Io, enospc, eio}
use ferrite_c.Fs.Ext2.Ialloc.{InodeVolume, NewInode, enomem, failed, inode_group_count}

-- The first group that counts a free inode, and its first clear bit.
pub record IsFirstGroup (v : InodeVolume) (g : ℕ) : Type 0 where
  pub group_exists : g < inode_group_count v
  pub group_has_free : (v.s_group_desc g).bg_free_inodes_count ≢ 0
  pub earlier_full : (h : ℕ) → h < g → (v.s_group_desc h).bg_free_inodes_count ≡ 0

pub record IsFirstBit (v : InodeVolume) (g bit : ℕ) : Type 0 where
  pub bit_exists : bit < v.s_blocksize * 8
  pub bit_clear : v.disk (v.s_group_desc g).bg_inode_bitmap bit ≡ false
  pub earlier_set : (k : ℕ) → k < bit → v.disk (v.s_group_desc g).bg_inode_bitmap k ≡ true

-- The free inodes of the group and of the superblock are one less, the group has one directory more where
-- the mode is that of one, and the rest is as before but for the blocks.
pub record IsLowered (mode g : ℕ) (v w : InodeVolume) : Type 0 where
  pub group_is : w.s_group_desc g ≡ record (v.s_group_desc g) {
    bg_free_inodes_count = (v.s_group_desc g).bg_free_inodes_count - 1;
    bg_used_dirs_count =
        if mode / 0x1000 % 16 == 4
        then ((v.s_group_desc g).bg_used_dirs_count + 1) % 2 ^ 16
        else (v.s_group_desc g).bg_used_dirs_count;
  }
  pub other_groups : (h : ℕ) → h ≢ g → w.s_group_desc h ≡ v.s_group_desc h
  pub free_inodes : w.s_free_inodes_count ≡ (v.s_free_inodes_count + 2 ^ 32 - 1) % 2 ^ 32
  pub rest :
      record w {
        s_group_desc = v.s_group_desc;
        s_free_inodes_count = v.s_free_inodes_count;
        disk = v.disk;
      }
      ≡ v

-- The bit is set in the bit map of the group, and no other bit of any block changed.
abbrev pub IsMarked : (g bit : ℕ) → InodeVolume → InodeVolume → Type 0
IsMarked g bit v w =
    (b k : ℕ)
    → w.disk b k
      ≡ (if (v.s_group_desc g).bg_inode_bitmap == b && bit == k then true else v.disk b k)

-- Every write of the bit map, the descriptors and the superblock succeeds.
abbrev pub writes : Io → (g : ℕ) → InodeVolume → Bool
writes io g v =
    io.can_write (v.s_group_desc g).bg_inode_bitmap && (io.can_write_bgd g && io.can_write_super)

-- What the writes behind the choice of the group and the bit come to, with the error.
pub data Written (io : Io) (mode g bit : ℕ) (v : InodeVolume)
    : InodeVolume × Option ℤ → Type 0 where
  written :
      (w : InodeVolume)
      → writes io g v ≡ true
      → IsLowered mode g v w
      → IsMarked g bit v w
      → Written io mode g bit v (w, none)
  map_only :
      (w : InodeVolume)
      → io.can_write (v.s_group_desc g).bg_inode_bitmap ≡ true
      → writes io g v ≡ false
      → IsLowered mode g v w
      → IsMarked g bit v w
      → Written io mode g bit v (w, some (neg eio))
  not_written :
      (w : InodeVolume)
      → io.can_write (v.s_group_desc g).bg_inode_bitmap ≡ false
      → IsLowered mode g v w
      → w.disk ≡ v.disk
      → Written io mode g bit v (w, some (neg eio))

-- A call changes nothing and stores an error, or goes on with the first free inode: it returns the inode
-- with one more reference, or fails with the counts of the inodes as before behind a change of the volume.
pub data New (io : Io) (mode : ℕ) (v : InodeVolume) (base : Refs)
    : InodeVolume × Refs × NewInode → Type 0 where
  no_group :
      ((g : ℕ) → g < inode_group_count v → (v.s_group_desc g).bg_free_inodes_count ≡ 0)
      → New io mode v base (v, base, failed (neg enospc))
  unreadable :
      (g : ℕ)
      → IsFirstGroup v g
      → io.can_read (v.s_group_desc g).bg_inode_bitmap ≡ false
      → New io mode v base (v, base, failed (neg eio))
  no_bit :
      (g : ℕ)
      → IsFirstGroup v g
      → ((k : ℕ) → k < v.s_blocksize * 8 → v.disk (v.s_group_desc g).bg_inode_bitmap k ≡ true)
      → New io mode v base (v, base, failed (neg enospc))
  taken :
      (g bit : ℕ) (w : InodeVolume) (r : Refs)
      → IsFirstGroup v g
      → IsFirstBit v g bit
      → Written io mode g bit v (w, none)
      → Holding base ((bit + v.s_inodes_per_group * g + 1) ∷ []) r
      → New io mode v base
          (w, r, record { node = some (bit + v.s_inodes_per_group * g + 1); err = some (pos 0) })
  no_memory :
      (g bit : ℕ) (w : InodeVolume) (r : Refs)
      → IsFirstGroup v g
      → IsFirstBit v g bit
      → Written io mode g bit v (w, none)
      → Holding base [] r
      → New io mode v base (w, r, failed (neg enomem))
  not_saved :
      (g bit : ℕ) (w : InodeVolume)
      → IsFirstGroup v g
      → IsFirstBit v g bit
      → Written io mode g bit v (w, some (neg eio))
      → New io mode v base (w, base, failed (neg eio))

-- What `inode_get` returned.
data Tried (base : Refs) (i : ℕ) : Refs × Option ℕ → Type 0 where
  got : (r : Refs) → Holding base (i ∷ []) r → Tried base i (r, some i)
  missed : (r : Refs) → Holding base [] r → Tried base i (r, none)
