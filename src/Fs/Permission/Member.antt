-- ===== src/Fs/Permission/Member.antt =====
-- What `vfs_permission` grants to the members of an inode's group.
use Prim.Native.Nat.{bit_and}
use ferrite_c.Common.{
  ℕ, ◌/◌, ◌≡◌, ◌≢◌, inl, inr, refl, true, false, List, ◌∷◌, none, ◌==◌, Bool-cases, arith,
}
use ferrite_c.Common.Int.{ℤ, pos}
use ferrite_c.Sys.Cred.{Cred}
use ferrite_c.Fs.Permission.{Protected, in_groups, in_group_p, class_mode, vfs_permission}

same_group : (g : ℕ) → (g == g) ≡ true
same_group g = ground arith

-- The first supplementary group is one of the caller's.
pub in_group_p-first :
    (c : Cred) (g : ℕ) (gs : List ℤ) → c.groups ≡ pos g ∷ gs → in_group_p c g ≡ true
unfolding in_group_p in_groups
in_group_p-first c g gs e = elim (Bool-cases (g == c.egid)) [
  | inl x ↦ rw x refl
  | inr x ↦ rw (x, e, same_group g) refl
]

pub vfs_permission-member :
    (c : Cred) (node : Protected) (mask : ℕ)
    → node.permission ≡ none
    → in_group_p c node.i_gid ≡ true
    → c.euid ≢ node.i_uid
    → bit_and (bit_and (node.i_mode / 0o10) mask) 7 ≡ mask
    → vfs_permission c node mask ≡ pos 1
unfolding vfs_permission class_mode
vfs_permission-member c node mask unset member uid grants =
    let u : (c.euid == node.i_uid) ≡ false = ground arith in
    rw (unset, u, member, grants, same_group mask) refl
