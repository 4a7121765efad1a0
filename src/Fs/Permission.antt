-- ===== src/Fs/Permission.antt =====
-- kernel/src/fs/namei.c: who may use an inode, `in_group_p` and `vfs_permission`.
--
-- The caller is `myproc()`, of which the identity is read; `permission` is `node->i_op->permission`
-- where there is one.
pub mod Confine
pub mod Ext2
pub mod Member
pub mod Tests
use Prim.Native.Nat.{bit_and}
use ferrite_c.Common.{
  ℕ, ◌/◌, Bool, true, false, ◌||◌, List, [], ◌∷◌, Option, none, some, ◌==◌, if◌then◌else◌,
}
use ferrite_c.Common.Int.{ℤ, pos, eqb_ℤ}
use ferrite_c.Sys.Cred.{Cred, nogroup, root_uid}

pub record Protected : Type 0 where
  pub i_mode : ℕ
  pub i_uid : ℕ
  pub i_gid : ℕ
  pub permission : Option (ℕ → ℤ)

-- The loop over the supplementary groups.
pub in_groups : (grp : ℕ) → List ℤ → Bool
in_groups grp [] = false
in_groups grp (g ∷ gs) =
    let rest = in_groups grp gs in
    if eqb_ℤ g nogroup then false else if eqb_ℤ g (pos grp) then true else rest

pub in_group_p : Cred → (grp : ℕ) → Bool
unfolding in_groups
in_group_p c grp = if grp == c.egid then true else in_groups grp c.groups

-- The mode, shifted so that its lowest three bits are those of the caller's class.
pub class_mode : Cred → Protected → ℕ
unfolding in_group_p
class_mode c node =
    if c.euid == node.i_uid
    then node.i_mode / 0o100
    else if in_group_p c node.i_gid
    then node.i_mode / 0o10
    else node.i_mode

pub vfs_permission : Cred → Protected → (mask : ℕ) → ℤ
vfs_permission c node mask = elim node.permission [
  | some check ↦ check mask
  | none ↦
      if bit_and (bit_and (class_mode c node) mask) 7 == mask || c.euid == root_uid
      then pos 1
      else pos 0
]

-- fs/ext2/acl.c: the `permission` of the inodes of an ext2 file system.
pub ext2_permission : Cred → Protected → (mask : ℕ) → ℤ
unfolding class_mode
ext2_permission c node mask =
    if c.euid == root_uid
    then pos 1
    else if bit_and (bit_and (class_mode c node) mask) 7 == mask
    then pos 1
    else pos 0
