-- ===== src/Fs/Ext2/Ialloc/Tests.antt =====
-- ialloc.c on two groups of 16 inodes: the first is full, and 9 inodes of the second are in use.
use ferrite_c.Common.{◌*◌, ◌+◌, refl, true, ltb, ◌==◌, if◌then◌else◌, arith}
use ferrite_c.Fs.Ext2.Balloc.{Io}
use ferrite_c.Fs.Ext2.Balloc.Free.{AllGood}
use ferrite_c.Fs.Ext2.Ialloc.{InodeVolume, take_inode, ext2_free_inode}
use ferrite_c.Fs.Ext2.Ialloc.New.{New}
use ferrite_c.Fs.Ext2.Ialloc.Free.{IsFree, Restored, ext2_free_inode-take_inode}

-- The bit maps are the blocks 5 and 6.
abbrev volume : InodeVolume
volume = record {
  s_inodes_count = 32;
  s_inodes_per_group = 16;
  s_blocksize = 2;
  s_free_inodes_count = 7;
  s_group_desc = λ g.
      if g == 0
      then record { bg_inode_bitmap = 5; bg_free_inodes_count = 0; bg_used_dirs_count = 3 }
      else record { bg_inode_bitmap = 6; bg_free_inodes_count = 7; bg_used_dirs_count = 1 };
  disk = λ b k. if b == 5 then true else if b == 6 then ltb k 9 else true;
}

abbrev good : Io
good = record {
  can_read = λ b. true;
  can_write = λ b. true;
  can_write_bgd = λ g. true;
  can_write_super = true;
}

good-AllGood : AllGood good
good-AllGood = record {
  reads = λ b. refl;
  writes = λ b. refl;
  descriptors = λ g. refl;
  super = refl;
}

volume-IsFree : IsFree 1 9 volume
volume-IsFree = record {
  in_group = omega arith;
  clear = refl;
  some_in_group = omega arith;
  group_count_fits = omega arith;
  dirs_fit = omega arith;
  some_free = omega arith;
  count_fits = omega arith;
}

ext2_free_inode-take_inode_example :
    Restored volume
      (ext2_free_inode good 0o40755 (9 + 16 * 1 + 1) (take_inode good 0o40755 1 9 volume).0)
ext2_free_inode-take_inode_example =
    ext2_free_inode-take_inode good 0o40755 1 9 volume good-AllGood volume-IsFree
