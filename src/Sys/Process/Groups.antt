-- ===== src/Sys/Process/Groups.antt =====
-- The supplementary groups of a new process, which `inherit_credentials` does not write.
use Prim.Native.Nat.{bit_and}
use ferrite_c.Common.{ℕ, ◌/◌, ◌≡◌, ◌≢◌, refl, List, ◌∷◌, none, some, ◌∙◌, ap}
use ferrite_c.Common.Int.{ℤ, pos}
use ferrite_c.Sys.Cred.{Cred}
use ferrite_c.Fs.Permission.{Protected, in_group_p, vfs_permission, ext2_permission}
use ferrite_c.Fs.Permission.Ext2.{vfs_permission-ext2_permission}
use ferrite_c.Fs.Permission.Member.{in_group_p-first, vfs_permission-member}
use ferrite_c.Sys.Process.{inherit_credentials}

child_plain :
    (c : Cred) (gs : List ℤ) (node : Protected) (mask : ℕ)
    → c.groups ≡ pos 0 ∷ gs
    → node.permission ≡ none
    → node.i_gid ≡ 0
    → c.euid ≢ node.i_uid
    → bit_and (bit_and (node.i_mode / 0o10) mask) 7 ≡ mask
    → vfs_permission c node mask ≡ pos 1
child_plain c gs node mask e unset gid uid grants =
    vfs_permission-member c node mask unset (ap (in_group_p c) gid ∙ in_group_p-first c 0 gs e) uid
      grants

-- A child in a slot whose groups are still zero, as the table is at the start, is granted what the mode
-- of an inode of group 0 grants to its group, whatever the parent's groups, where the parent's effective
-- user does not own the inode: for an inode without an operation `permission`, and for one with
-- `ext2_permission`.
pub child_in_group_zero :
    (child parent : Cred) (gs : List ℤ) (node : Protected) (mask : ℕ)
    → child.groups ≡ pos 0 ∷ gs
    → node.i_gid ≡ 0
    → parent.euid ≢ node.i_uid
    → bit_and (bit_and (node.i_mode / 0o10) mask) 7 ≡ mask
    → (vfs_permission
          (inherit_credentials child (some parent))
          (record node { permission = none })
          mask
        ≡ pos 1)
      × (vfs_permission
            (inherit_credentials child (some parent))
            (record node {
              permission = some (ext2_permission (inherit_credentials child (some parent)) node);
            })
            mask
          ≡ pos 1)
unfolding inherit_credentials
child_in_group_zero child parent gs node mask e gid uid grants =
    let c = inherit_credentials child (some parent) in
    let p = child_plain c gs (record node { permission = none }) mask e refl gid uid grants in
    (p, vfs_permission-ext2_permission c node mask ∙ p)
