-- ===== src/Fs/Permission/Confine.antt =====
-- The identity calls give no access to what a process may not use.
use mathlib.Core.Path.{subst}
use Prim.Native.Nat.{bit_and}
use ferrite_c.Common.{
  ℕ, ◌≡◌, ◌≢◌, false, List, none, some, inl, inr, refl, arith, ◌==◌, sym, ap, ◌∙◌,
}
use ferrite_c.Common.Int.{ℤ, pos}
use ferrite_c.Sys.Cred.{Cred, root_uid}
use ferrite_c.Sys.Cred.Confine.{
  IdCall, perform_all, perform_all-Confined, Confined, IsUnprivileged, UidOf, GidOf,
}
use ferrite_c.Fs.Permission.{
  Protected, in_groups, in_group_p, class_mode, vfs_permission, ext2_permission,
}
use ferrite_c.Fs.Permission.Ext2.{vfs_permission-ext2_permission}

-- The process is neither the owner of the inode nor in its group, under none of its identities.
pub record IsStranger (c : Cred) (node : Protected) : Type 0 where
  pub not_owner : ¬ UidOf c node.i_uid
  pub not_group : ¬ GidOf c node.i_gid
  pub not_in_groups : in_groups node.i_gid c.groups ≡ false

different : (x y : ℕ) → x ≢ y → (x == y) ≡ false
different x y h = ground arith

class_mode-IsStranger :
    (c d : Cred) (node : Protected)
    → IsStranger c node
    → Confined c d
    → class_mode d node ≡ node.i_mode
unfolding class_mode in_group_p
class_mode-IsStranger c d node s k =
    let e : (d.euid == node.i_uid) ≡ false =
      different d.euid node.i_uid (λ q. s.not_owner (subst (UidOf c) q k.euid)) in
    let g : (node.i_gid == d.egid) ≡ false =
      different node.i_gid d.egid (λ q. s.not_group (subst (GidOf c) (sym q) k.egid)) in
    let l : in_groups node.i_gid d.groups ≡ false =
      ap (λ (t : List ℤ). in_groups node.i_gid t) k.groups ∙ s.not_in_groups in
    rw (e, g, l) refl

euid-IsUnprivileged : (c d : Cred) → IsUnprivileged c → Confined c d → d.euid ≢ root_uid
euid-IsUnprivileged c d u k = λ q. elim k.euid [
  | inl e ↦ u.uid (sym e ∙ q)
  | inr (inl e) ↦ u.euid (sym e ∙ q)
  | inr (inr e) ↦ u.suid (sym e ∙ q)
]

refused_plain :
    (c : Cred) (ks : List IdCall) (node : Protected) (mask : ℕ)
    → IsUnprivileged c
    → IsStranger c node
    → node.permission ≡ none
    → bit_and (bit_and node.i_mode mask) 7 ≢ mask
    → vfs_permission (perform_all c ks) node mask ≡ pos 0
unfolding vfs_permission class_mode
refused_plain c ks node mask u s plain denied =
    let d = perform_all c ks in
    let k = perform_all-Confined c ks u in
    let m : class_mode d node ≡ node.i_mode = class_mode-IsStranger c d node s k in
    let r : (d.euid == root_uid) ≡ false =
      different d.euid root_uid (euid-IsUnprivileged c d u k) in
    let b : (bit_and (bit_and node.i_mode mask) 7 == mask) ≡ false = different _ mask denied in
    rw (plain, m, b, r) refl

-- A process without privilege that is neither the owner of an inode nor in its group stays refused whatever
-- the mode denies to the others: after no sequence of the identity calls does `vfs_permission` grant it,
-- neither for an inode without an operation `permission` nor for one with `ext2_permission`.
pub perform_all-refused :
    (c : Cred) (ks : List IdCall) (node : Protected) (mask : ℕ)
    → IsUnprivileged c
    → IsStranger c node
    → bit_and (bit_and node.i_mode mask) 7 ≢ mask
    → (vfs_permission (perform_all c ks) (record node { permission = none }) mask ≡ pos 0)
      × (vfs_permission
            (perform_all c ks)
            (record node { permission = some (ext2_permission (perform_all c ks) node) })
            mask
          ≡ pos 0)
perform_all-refused c ks node mask u s denied =
    let t : IsStranger c (record node { permission = none }) = record {
      not_owner = s.not_owner;
      not_group = s.not_group;
      not_in_groups = s.not_in_groups;
    } in
    let p = refused_plain c ks (record node { permission = none }) mask u t refl denied in
    (p, vfs_permission-ext2_permission (perform_all c ks) node mask ∙ p)
