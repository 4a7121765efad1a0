-- ===== src/Fs/Ext2/Namei/Tests.antt =====
-- A disk with the directory 2, on which the new inode is 9.
use ferrite_c.Common.{
  ℕ, refl, true, List, [], ◌∷◌, Option, none, some, ◌==◌, if◌then◌else◌, arith, update,
}
use ferrite_c.Common.Int.{ℤ, pos, neg}
use ferrite_c.Fs.Refs.{get_ref, get_ref-Holding}
use ferrite_c.Fs.Lookup.Tests.{root_user, counts}
use ferrite_c.Fs.Ext2.Namei.{
  Meta, dir_operations, no_operations, Disk, Callees, ext2_create, ext2_mknod,
}
use ferrite_c.Fs.Ext2.Namei.Take.{
  KeepsCallees, gained, Creation, Given, ext2_create-Creation, ext2_mknod-Given,
}

abbrev dir_at : ℕ → Meta
dir_at i = record {
  i_mode = if i == 2 then 0o40755 else 0;
  i_uid = 0;
  i_gid = 0;
  i_rdev = 0;
  i_size = 1024;
  i_links_count = 2;
  i_op = if i == 2 then dir_operations else no_operations;
}

abbrev disk : Disk
disk = record { refs = counts; meta = dir_at; entries = λ d. []; freed = [] }

abbrev nine : (dir mode : ℕ) → Disk → Disk × Option ℕ × ℤ
nine dir mode s = (record s { refs = get_ref 9 s.refs }, some 9, pos 0)

-- There is no free block.
abbrev full_disk : Callees
full_disk = record {
  new_inode = nine;
  new_block = λ d s. (s, neg 28);
  write_inode = λ i s. pos 0;
  write_block = λ i s. pos 0;
  rewrite_inode = λ i s. pos 0;
  find_entry = λ d name s. none;
  write_entry =
      λ d name i s. (record s { entries = update s.entries d ((name, i) ∷ s.entries d) }, pos 0);
  free_inode = λ i s. record s { freed = i ∷ s.freed };
}

full_disk-KeepsCallees : KeepsCallees full_disk
full_disk-KeepsCallees = record {
  new_inodes =
      λ dir mode s. gained 9 _ (pos 0) (get_ref-Holding s.refs [] s.refs 9 (λ j. omega arith));
  new_blocks = λ d s j. refl;
  write_entries = λ d name i s j. refl;
  free_inodes = λ i s j. refl;
}

abbrev name : List ℕ
name = b'n' ∷ []

ext2_create-Creation_example : Creation counts (ext2_create full_disk 2 name 0o100644 disk)
ext2_create-Creation_example =
    ext2_create-Creation full_disk 2 name 0o100644 disk full_disk-KeepsCallees

ext2_mknod-Given_example :
    Given counts 2 true (ext2_mknod full_disk root_user true 2 name 0o20666 5 disk)
ext2_mknod-Given_example =
    ext2_mknod-Given full_disk root_user true 2 name 0o20666 5 disk full_disk-KeepsCallees
