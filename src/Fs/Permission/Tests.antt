-- ===== src/Fs/Permission/Tests.antt =====
-- namei.c on a file of the user 1000 that others may not write, as mode 0644 says.
use ferrite_c.Common.{some, ℕ, ◌≡◌, List, [], ◌∷◌, none, refl, arith, replicate}
use ferrite_c.Common.Int.{pos}
use ferrite_c.Sys.Cred.{Cred, nogroup}
use ferrite_c.Sys.Cred.Confine.{IdCall, IsUnprivileged, perform_all, setuid, setresgid}
use ferrite_c.Fs.Permission.{Protected, vfs_permission, ext2_permission, in_groups}
use ferrite_c.Fs.Permission.Confine.{IsStranger, perform_all-refused}

abbrev file : Protected
file = record { i_mode = 0o100644; i_uid = 1000; i_gid = 100; permission = none }

abbrev guest : Cred
guest = record {
  uid = 1001;
  euid = 1001;
  suid = 1002;
  gid = 7;
  egid = 7;
  sgid = 8;
  groups = replicate 32 nogroup;
}

abbrev attempts : List IdCall
attempts = setuid 1000 ∷ setresgid 8 8 7 ∷ setuid 0 ∷ []

guest-IsUnprivileged : IsUnprivileged guest
guest-IsUnprivileged = omega arith

guest-IsStranger : IsStranger guest file
unfolding in_groups
guest-IsStranger = record {
  not_owner = ground arith;
  not_group = ground arith;
  not_in_groups = refl;
}

perform_all-refused_example :
    (vfs_permission (perform_all guest attempts) (record file { permission = none }) 2 ≡ pos 0)
    × (vfs_permission
          (perform_all guest attempts)
          (record file { permission = some (ext2_permission (perform_all guest attempts) file) })
          2
        ≡ pos 0)
perform_all-refused_example =
    perform_all-refused guest attempts file 2 guest-IsUnprivileged guest-IsStranger
      (λ e. absurd (ground arith))

abbrev on_ext2 : Protected
on_ext2 = record { i_mode = 0o100640; i_uid = 1000; i_gid = 7; permission = none }

group_reads : ext2_permission guest on_ext2 4 ≡ pos 1
unfolding ext2_permission
group_reads = refl

pub root_may :
    (c : Cred) (i_mode i_uid i_gid mask : ℕ)
    → c.euid ≡ 0
    → vfs_permission c
        (record { i_mode = i_mode; i_uid = i_uid; i_gid = i_gid; permission = none })
        mask
      ≡ pos 1
unfolding vfs_permission
root_may c i_mode i_uid i_gid mask e = rw e (ground arith)
