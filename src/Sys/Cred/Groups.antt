-- ===== src/Sys/Cred/Groups.antt =====
-- `sys_setgroups` and `sys_getgroups` of kernel/src/sys.c: what is set is what is read.
use mathlib.Core.List.{append_assoc}
use ferrite_c.Common.{
  ℕ, suc, ◌+◌, ◌^◌, ◌≤◌, ◌<◌, ◌≡◌, refl, true, false, List, [], ◌∷◌, ◌++◌, ltb, ◌==◌, if◌then◌else◌,
  set, length, arith, ap, ◌∙◌, length-append, le→ltb,
}
use ferrite_c.Common.Int.{ℤ, pos}
use ferrite_c.Sys.Cred.{
  Cred, nogroup, ngroups, root_uid, to_gid, count_groups, copy_groups, store_groups, sys_setgroups,
  sys_getgroups,
}

-- The entries `old` after the list was written over them, with NOGROUP behind it if there is room.
stored : List ℕ → List ℤ → List ℤ
stored [] [] = []
stored [] (o ∷ os) = nogroup ∷ os
stored (g ∷ gs) [] = []
stored (g ∷ gs) (o ∷ os) = pos g ∷ stored gs os

set-append :
    (pre : List ℤ) (o v : ℤ) (os : List ℤ) → set (pre ++ (o ∷ os)) (length pre) v ≡ pre ++ (v ∷ os)
set-append [] o v os = refl
set-append (p ∷ pre) o v os = ap (◌∷◌ p) (set-append pre o v os)

store_groups-stored :
    (gs : List ℕ) (pre old : List ℤ)
    → length gs ≤ length old
    → length pre + length old ≡ ngroups
    → store_groups (length pre) gs (pre ++ old) ≡ pre ++ stored gs old
unfolding store_groups stored
store_groups-stored [] pre [] h e =
    let full : ltb (length pre) ngroups ≡ false = le→ltb _ _ (omega arith) in rw full
store_groups-stored [] pre (o ∷ os) h e =
    let room : ltb (length pre) ngroups ≡ true = ground arith in
    rw room (set-append pre o nogroup os)
store_groups-stored (g ∷ gs) pre [] h e = absurd (omega arith)
store_groups-stored (g ∷ gs) pre (o ∷ os) h e =
    let pre' : List ℤ = pre ++ (pos g ∷ []) in
    let size : length pre + 1 ≡ length pre' = omega (arith, length-append pre (pos g ∷ [])) in
    let again = store_groups-stored gs pre' os (omega arith) (omega (arith, size)) in
    rw (set-append pre o (pos g) os, ← append_assoc pre (pos g ∷ []) os, size)
      (again ∙ append_assoc pre (pos g ∷ []) (stored gs os))

count-stored :
    (gs : List ℕ) (old : List ℤ) → length gs ≤ length old → count_groups (stored gs old) ≡ length gs
unfolding count_groups stored
count-stored [] [] h = refl
count-stored [] (o ∷ os) h = refl
count-stored (g ∷ gs) [] h = absurd (omega arith)
count-stored (g ∷ gs) (o ∷ os) h = ap suc (count-stored gs os (omega arith))

-- Every entry fits a `gid_t`.
abbrev pub AllGids : List ℕ → Type 0
AllGids [] = Unit
AllGids (g ∷ gs) = (g < 2 ^ 16) × AllGids gs

copy-stored :
    (gs : List ℕ) (old : List ℤ)
    → length gs ≤ length old
    → AllGids gs
    → copy_groups (length gs) (stored gs old) ≡ gs
unfolding copy_groups stored
copy-stored [] old h a = refl
copy-stored (g ∷ gs) [] h a = absurd (omega arith)
copy-stored (g ∷ gs) (o ∷ os) h a =
    let e : to_gid (pos g) ≡ g = omega (arith, a.0) in rw (e, copy-stored gs os (omega arith) a.1)

-- For root, a list of at most NGROUPS groups is accepted, and reading the groups afterwards into a
-- buffer that has room gives the same list and its length; a buffer that is too short is refused
-- with -EINVAL as a `gid_t`.
pub getgroups-setgroups :
    (c : Cred) (gs : List ℕ) (len : ℕ)
    → c.euid ≡ root_uid
    → length c.groups ≡ ngroups
    → length gs ≤ ngroups
    → AllGids gs
    → 0 < len
    → ((sys_setgroups c gs).1 ≡ pos 0)
      × (sys_getgroups (sys_setgroups c gs).0 (pos len)
          ≡ (if ltb len (length gs) then (pos 65514, []) else (pos (length gs), gs)))
unfolding sys_setgroups sys_getgroups
getgroups-setgroups c gs len root full fits gids room =
    let e : store_groups 0 gs c.groups ≡ stored gs c.groups =
      store_groups-stored gs [] c.groups (omega arith) (omega arith) in
    let n : count_groups (stored gs c.groups) ≡ length gs =
      count-stored gs c.groups (omega arith) in
    let fine : ltb ngroups (length gs) ≡ false = le→ltb _ _ fits in
    let some_len : (len == 0) ≡ false = ground arith in
    let copied = copy-stored gs c.groups (omega arith) gids in
    rw (root, fine) (refl, rw (e, n, some_len, copied))
