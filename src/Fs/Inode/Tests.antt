-- ===== src/Fs/Inode/Tests.antt =====
-- inode.c on a cache of three slots.
use ferrite_c.Common.{◌+◌, ◌^◌, ◌<◌, refl, Bool, true, List, [], ◌∷◌, some, arith}
use ferrite_c.Fs.Inode.{Inode, Super, inode_get, inode_put}
use ferrite_c.Fs.Inode.Counts.{IsCoherent, copies, IdleClear, refs}
use ferrite_c.Fs.Inode.Get.{Got, inode_get-Got}
use ferrite_c.Fs.Inode.Put.{Put}
use ferrite_c.Fs.Inode.View.{Naming, view, SameGet, SamePut, inode_get-try_get, inode_put-put_ref}
use ferrite_c.Fs.Refs.{try_get}

-- One superblock, whose root is in slot 0.
abbrev disk : Super
disk = record { has_s_op = λ sb. true; read_mode = λ sb ino mode. 0x41ed; s_root_node = λ sb. 0 }

abbrev root_slot : Inode
root_slot = record { i_sb = 0x1000; i_ino = 2; i_count = 3; i_mode = 0x41ed }

abbrev socket_slot : Inode
socket_slot = record { i_sb = 0; i_ino = 0; i_count = 1; i_mode = 0xc1b6 }

abbrev free_slot : Inode
free_slot = record { i_sb = 0; i_ino = 0; i_count = 0; i_mode = 0 }

abbrev slots : List Inode
slots = root_slot ∷ socket_slot ∷ free_slot ∷ []

slots-IsCoherent : IsCoherent slots
unfolding copies IdleClear
slots-IsCoherent = record {
  idle = ((λ e. absurd (ground arith)), ((λ e. absurd (ground arith)), ((λ e. refl), tt)));
  once = λ sb ino real. ground arith;
}

few_9 : refs 0x1000 9 slots + 1 < 2 ^ 16
unfolding refs
few_9 = omega arith

few_2 : refs 0x1000 2 slots + 1 < 2 ^ 16
unfolding refs
few_2 = omega arith

inode_get-Got_example : Got 0x1000 9 slots (inode_get disk 0x1000 9 slots)
inode_get-Got_example = inode_get-Got disk 0x1000 9 slots slots-IsCoherent (omega arith) few_9

-- One superblock, an inode under its own number.
abbrev numbers : Naming
numbers = record {
  sb_of = λ i. 0x1000;
  ino_of = λ i. i;
  real = λ i. omega arith;
  distinct = λ i j a b. b;
}

inode_get-try_get_example :
    (room : Bool) × SameGet numbers 9 slots
      (inode_get disk 0x1000 9 slots)
      (try_get (λ r. room) 9 (view numbers slots))
inode_get-try_get_example = inode_get-try_get numbers disk 9 slots slots-IsCoherent few_9

inode_put-put_ref_example : SamePut numbers disk 2 0 root_slot slots (inode_put disk (some 0) slots)
inode_put-put_ref_example =
    inode_put-put_ref numbers disk 2 0 root_slot slots refl refl refl slots-IsCoherent (omega arith)
