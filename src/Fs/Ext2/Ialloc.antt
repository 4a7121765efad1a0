-- ===== src/Fs/Ext2/Ialloc.antt =====
-- kernel/src/fs/ext2/ialloc.c: the inodes of an ext2 file system, by the bit maps of its groups, with the
-- counts of Fs/Refs.
--
-- The blocks and the transfers are as in Fs/Ext2/Balloc; an inode is named by its number. The fields of the
-- new inode and its ext2_inode_t are left out.
pub mod New
pub mod Free
mod Tests
use ferrite_c.Common.{
  ℕ, zero, suc, ◌+◌, ◌-◌, ◌*◌, ◌/◌, ◌%◌, ◌^◌, Bool, true, false, not, Option, none, some, ◌==◌,
  if◌then◌else◌, update,
}
use ferrite_c.Common.Search.{first_index}
use ferrite_c.Common.Int.{ℤ, pos, neg}
use ferrite_c.Fs.Refs.{Refs, put_ref, try_get}
use ferrite_c.Fs.Ext2.Balloc.{Io, enospc, eio, find_free_bit_in_bitmap}

pub record InodeGroup : Type 0 where
  pub bg_inode_bitmap : ℕ
  pub bg_free_inodes_count : ℕ
  pub bg_used_dirs_count : ℕ

pub record InodeVolume : Type 0 where
  pub s_inodes_count : ℕ
  pub s_inodes_per_group : ℕ
  pub s_blocksize : ℕ
  pub s_free_inodes_count : ℕ
  pub s_group_desc : ℕ → InodeGroup
  pub disk : ℕ → ℕ → Bool

-- The inode, and the error that is stored through `err`, `none` where none is.
pub record NewInode : Type 0 where
  pub node : Option ℕ
  pub err : Option ℤ

abbrev pub enomem : ℕ
enomem = 12

abbrev pub failed : ℤ → NewInode
failed e = record { node = none; err = some e }

abbrev pub inode_group_count : InodeVolume → ℕ
inode_group_count v = (v.s_inodes_count + v.s_inodes_per_group - 1) / v.s_inodes_per_group

abbrev pub mode_is_dir : (mode : ℕ) → Bool
mode_is_dir mode = mode / 0x1000 % 16 == 4

-- The counts and the writes of `ext2_new_inode`, with the error where one fails.
pub take_inode : Io → (mode g bit : ℕ) → InodeVolume → InodeVolume × Option ℤ
take_inode io mode g bit v =
    let d = v.s_group_desc g in
    let b = d.bg_inode_bitmap in
    let v1 = record v {
      s_group_desc = update v.s_group_desc g (record d {
        bg_free_inodes_count = d.bg_free_inodes_count - 1;
        bg_used_dirs_count =
            if mode_is_dir mode then (d.bg_used_dirs_count + 1) % 2 ^ 16 else d.bg_used_dirs_count;
      });
      s_free_inodes_count = (v.s_free_inodes_count + 2 ^ 32 - 1) % 2 ^ 32;
    } in
    if not (io.can_write b)
    then (v1, some (neg eio))
    else (let v2 = record v1 { disk = update v.disk b (update (v.disk b) bit true) } in
        if not (io.can_write_bgd g)
        then (v2, some (neg eio))
        else if not io.can_write_super
        then (v2, some (neg eio))
        else (v2, none))

-- `inode_get` returned; `memory` says whether `kmalloc` returns memory for the ext2_inode_t.
pub attach : (memory : Bool) → InodeVolume → Refs × Option ℕ → InodeVolume × Refs × NewInode
attach memory v (r, none) = (v, r, failed (neg enomem))
attach memory v (r, some i) =
    if memory
    then (v, r, record { node = some i; err = some (pos 0) })
    else (v, put_ref i r, failed (neg enomem))

-- The writes are done; `room` as in Fs/Refs.
pub claim_inode :
    (room : Refs → Bool)
    → (memory : Bool) → (node_num : ℕ) → Refs
    → InodeVolume × Option ℤ
    → InodeVolume × Refs × NewInode
claim_inode room memory node_num r (v, some e) = (v, r, failed e)
claim_inode room memory node_num r (v, none) = attach memory v (try_get room node_num r)

pub ext2_new_inode :
    Io
    → (room : Refs → Bool) → (memory : Bool) → (mode : ℕ) → InodeVolume
    → Refs
    → InodeVolume × Refs × NewInode
ext2_new_inode io room memory mode v r =
    elim (first_index (inode_group_count v) 0
      (λ g. not ((v.s_group_desc g).bg_free_inodes_count == 0))) [
        | none ↦ (v, r, failed (neg enospc))
        | some g ↦
            let b = (v.s_group_desc g).bg_inode_bitmap in
            if not (io.can_read b)
            then (v, r, failed (neg eio))
            else elim (find_free_bit_in_bitmap (v.disk b) v.s_blocksize) [
              | none ↦ (v, r, failed (neg enospc))
              | some bit ↦
                  if v.disk b bit
                  then (v, r, record { node = none; err = none })
                  else claim_inode room memory (bit + v.s_inodes_per_group * g + 1) r
                      (take_inode io mode g bit v)
            ]
      ]

-- `mode` is that of the inode.
pub ext2_free_inode : Io → (mode node_num : ℕ) → InodeVolume → InodeVolume × ℤ
ext2_free_inode io mode node_num v =
    let g = (node_num - 1) / v.s_inodes_per_group in
    let bit = (node_num - 1) % v.s_inodes_per_group in
    let d = v.s_group_desc g in
    let b = d.bg_inode_bitmap in
    if not (io.can_read b)
    then (v, neg eio)
    else if not (v.disk b bit)
    then (v, neg 1)
    else (let v1 = record v {
      s_group_desc = update v.s_group_desc g (record d {
        bg_free_inodes_count = (d.bg_free_inodes_count + 1) % 2 ^ 16;
        bg_used_dirs_count =
            if mode_is_dir mode
            then (d.bg_used_dirs_count + 2 ^ 16 - 1) % 2 ^ 16
            else d.bg_used_dirs_count;
      });
      s_free_inodes_count = (v.s_free_inodes_count + 1) % 2 ^ 32;
    } in
        if not (io.can_write b)
        then (v1, neg eio)
        else (let v2 = record v1 { disk = update v.disk b (update (v.disk b) bit false) } in
            if not (io.can_write_bgd g)
            then (v2, neg eio)
            else if not io.can_write_super
            then (v2, neg eio)
            else (v2, pos 0)))
