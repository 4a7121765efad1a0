-- ===== src/Fs/Ext2/Balloc/Tests.antt =====
-- balloc.c on two groups of 16 blocks: the first is full, and 9 blocks of the second are in use.
use ferrite_c.Common.{◌≡◌, refl, true, ltb, ◌==◌, if◌then◌else◌, arith, ok}
use ferrite_c.Fs.Ext2.Balloc.{Volume, Io, take_block, ext2_new_block, ext2_free_block}
use ferrite_c.Fs.Ext2.Balloc.New.{New}
use ferrite_c.Fs.Ext2.Balloc.Free.{AllGood, Room, Restored, block_of, ext2_free_block-take_block}

-- The bit maps are the blocks 3 and 4.
abbrev volume : Volume
volume = record {
  s_blocks_count = 32;
  s_blocks_per_group = 16;
  s_first_data_block = 1;
  s_blocksize = 2;
  s_free_blocks_count = 7;
  s_group_desc = λ g.
      if g == 0
      then record { bg_block_bitmap = 3; bg_free_blocks_count = 0 }
      else record { bg_block_bitmap = 4; bg_free_blocks_count = 7 };
  disk = λ b k. if b == 3 then true else if b == 4 then ltb k 9 else true;
}

abbrev good : Io
good = record {
  can_read = λ b. true;
  can_write = λ b. true;
  can_write_bgd = λ g. true;
  can_write_super = true;
}

good-AllGood : AllGood good
good-AllGood = record {
  reads = λ b. refl;
  writes = λ b. refl;
  descriptors = λ g. refl;
  super = refl;
}

new_block_is : ext2_new_block 1 good volume ≡ ok (take_block good 1 9 volume)
unfolding ext2_new_block
new_block_is = refl

volume-Room : Room 1 9 volume
volume-Room = record {
  in_group = omega arith;
  fits = omega arith;
  apart = omega arith;
  clear = refl;
  some_in_group = omega arith;
  group_count_fits = omega arith;
  some_free = omega arith;
  count_fits = omega arith;
}

ext2_free_block-take_block_example :
    Restored
      (block_of volume 1 9)
      volume
      (ext2_free_block good (block_of volume 1 9) (take_block good 1 9 volume).0)
ext2_free_block-take_block_example =
    ext2_free_block-take_block good 1 9 volume good-AllGood volume-Room
