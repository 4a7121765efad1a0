-- ===== src/Sys/Cred.antt =====
-- kernel/src/sys.c: the system calls that read and change the identity of the calling process.
--
-- `Cred` has the identity fields of `proc_t` (kernel/src/sys/process/process.h). A call takes those of
-- the caller, `myproc()`, and returns the new ones and its result. Identifiers are 16 bits wide;
-- `groups` has the NGROUPS = 32 entries of the array, NOGROUP (-1) behind the last group.
pub mod Confine
pub mod Groups
mod Tests
use ferrite_c.Common.{
  ℕ, zero, suc, ◌+◌, ◌-◌, ◌%◌, ◌^◌, Bool, true, false, not, ◌&&◌, ◌||◌, List, [], ◌∷◌, none, some,
  Option, ltb, leb, ◌==◌, if◌then◌else◌, set, get_elem?, length,
}
use ferrite_c.Common.Int.{ℤ, pos, negsuc, neg, eqb_ℤ}

pub record Cred : Type 0 where
  pub uid : ℕ
  pub euid : ℕ
  pub suid : ℕ
  pub gid : ℕ
  pub egid : ℕ
  pub sgid : ℕ
  pub groups : List ℤ

abbrev pub root_uid : ℕ
root_uid = 0

-- (uid_t)-1 and (gid_t)-1: leave this identifier alone
abbrev pub no_id : ℕ
no_id = 0xffff

abbrev pub eperm : ℤ
eperm = neg 1

abbrev pub einval : ℤ
einval = neg 22

abbrev pub nogroup : ℤ
nogroup = neg 1

abbrev pub ngroups : ℕ
ngroups = 32

pub sys_getuid : Cred → ℕ
sys_getuid c = c.uid

pub sys_geteuid : Cred → ℕ
sys_geteuid c = c.euid

pub sys_setuid : Cred → ℕ → Cred × ℤ
sys_setuid c uid =
    if c.euid == root_uid
    then (record c { uid = uid; euid = uid; suid = uid }, pos 0)
    else if uid == c.uid || uid == c.suid
    then (record c { euid = uid }, pos 0)
    else (c, eperm)

pub sys_seteuid : Cred → ℕ → Cred × ℤ
sys_seteuid c uid =
    if c.euid == root_uid
    then (record c { euid = uid }, pos 0)
    else if uid == c.uid || uid == c.suid
    then (record c { euid = uid }, pos 0)
    else (c, eperm)

pub sys_setreuid : Cred → (ruid euid : ℕ) → Cred × ℤ
sys_setreuid c ruid euid =
    let old_ruid = c.uid in
    let old_euid = c.euid in
    let after_ruid = if not (ruid == no_id) then record c { uid = ruid } else c in
    let after_euid =
      if not (euid == no_id)
      then record after_ruid {
        euid = euid;
        suid = if not (euid == old_ruid) then euid else after_ruid.suid;
      }
      else after_ruid in
    if not (ruid == no_id)
      && (not (c.euid == root_uid)
          && not (ruid == old_ruid)
          && not (ruid == old_euid)
          && not (ruid == c.suid))
    then (c, eperm)
    else if not (euid == no_id)
        && (not (c.euid == root_uid)
            && not (euid == old_ruid)
            && not (euid == old_euid)
            && not (euid == c.suid))
    then (c, eperm)
    else (after_euid, pos 0)

-- The test that `sys_setresuid` makes of each of its arguments.
abbrev pub foreign_uid : Cred → ℕ → Bool
foreign_uid c id =
    not (id == no_id) && not (id == c.uid) && not (id == c.euid) && not (id == c.suid)

pub sys_setresuid : Cred → (ruid euid suid : ℕ) → Cred × ℤ
sys_setresuid c ruid euid suid =
    if not (c.euid == root_uid) && (foreign_uid c ruid || foreign_uid c euid || foreign_uid c suid)
    then (c, eperm)
    else (
      record c {
        uid = if not (ruid == no_id) then ruid else c.uid;
        euid = if not (euid == no_id) then euid else c.euid;
        suid = if not (suid == no_id) then suid else c.suid;
      },
      pos 0,
    )

pub sys_getgid : Cred → ℕ
sys_getgid c = c.gid

pub sys_getegid : Cred → ℕ
sys_getegid c = c.egid

pub sys_getsgid : Cred → ℕ
sys_getsgid c = c.sgid

pub sys_setgid : Cred → ℕ → Cred × ℤ
sys_setgid c gid =
    if c.euid == root_uid
    then (record c { gid = gid; egid = gid; sgid = gid }, pos 0)
    else if gid == c.gid || gid == c.sgid
    then (record c { egid = gid }, pos 0)
    else (c, eperm)

-- The test is of the effective group, against ROOT_UID.
pub sys_setegid : Cred → ℕ → Cred × ℤ
sys_setegid c gid =
    if c.egid == root_uid
    then (record c { egid = gid }, pos 0)
    else if gid == c.gid || gid == c.sgid
    then (record c { egid = gid }, pos 0)
    else (c, eperm)

pub sys_setregid : Cred → (rgid egid : ℕ) → Cred × ℤ
sys_setregid c rgid egid =
    let old_rgid = c.gid in
    let old_egid = c.egid in
    let after_rgid = if not (rgid == no_id) then record c { gid = rgid } else c in
    let after_egid =
      if not (egid == no_id)
      then record after_rgid {
        egid = egid;
        sgid = if not (egid == old_rgid) then egid else after_rgid.sgid;
      }
      else after_rgid in
    if not (rgid == no_id)
      && (not (c.euid == root_uid)
          && not (rgid == old_rgid)
          && not (rgid == old_egid)
          && not (rgid == c.sgid))
    then (c, eperm)
    else if not (egid == no_id)
        && (not (c.euid == root_uid)
            && not (egid == old_rgid)
            && not (egid == old_egid)
            && not (egid == c.sgid))
    then (c, eperm)
    else (after_egid, pos 0)

-- The test that `sys_setresgid` makes of each of its arguments.
abbrev pub foreign_gid : Cred → ℕ → Bool
foreign_gid c id =
    not (id == no_id) && not (id == c.gid) && not (id == c.egid) && not (id == c.sgid)

pub sys_setresgid : Cred → (rgid egid sgid : ℕ) → Cred × ℤ
sys_setresgid c rgid egid sgid =
    if not (c.euid == root_uid) && (foreign_gid c rgid || foreign_gid c egid || foreign_gid c sgid)
    then (c, eperm)
    else (
      record c {
        gid = if not (rgid == no_id) then rgid else c.gid;
        egid = if not (egid == no_id) then egid else c.egid;
        sgid = if not (sgid == no_id) then sgid else c.sgid;
      },
      pos 0,
    )

-- The loop that counts the groups up to NOGROUP or the end of the array.
pub count_groups : List ℤ → ℕ
count_groups [] = 0
count_groups (g ∷ gs) = if eqb_ℤ g nogroup then 0 else suc (count_groups gs)

-- An entry of the array, stored into a `gid_t` of the caller: 16 bits of it.
abbrev pub to_gid : ℤ → ℕ
to_gid (pos n) = n % 2 ^ 16
to_gid (negsuc n) = 2 ^ 16 - 1 - n % 2 ^ 16

pub copy_groups : (count : ℕ) → List ℤ → List ℕ
copy_groups zero gs = []
copy_groups (suc n) [] = []
copy_groups (suc n) (g ∷ gs) = to_gid g ∷ copy_groups n gs

-- len < count, with len signed
abbrev pub lt_count : ℤ → ℕ → Bool
lt_count (pos n) count = ltb n count
lt_count (negsuc n) count = true

-- The result is a `gid_t`, so that an error comes back as a number below 2 ^ 16; the list is what was written
-- to that of the caller. `len` is signed.
pub sys_getgroups : Cred → (len : ℤ) → ℤ × List ℕ
unfolding count_groups copy_groups
sys_getgroups c len =
    let count = count_groups c.groups in
    if eqb_ℤ len (pos 0)
    then (pos count, [])
    else if lt_count len count
    then (pos (to_gid einval), [])
    else (pos count, copy_groups count c.groups)

-- The loop that stores the caller's list from entry i on, and the NOGROUP behind it.
pub store_groups : (i : ℕ) → List ℕ → List ℤ → List ℤ
store_groups i [] groups = if ltb i ngroups then set groups i nogroup else groups
store_groups i (g ∷ gs) groups = store_groups (i + 1) gs (set groups i (pos g))

-- The result is a `gid_t` here too. `grouplist` holds the `len` entries that the call reads; a negative `len` reads none, as does 0.
pub sys_setgroups : Cred → (grouplist : List ℕ) → Cred × ℤ
unfolding store_groups
sys_setgroups c grouplist =
    if not (c.euid == root_uid)
    then (c, pos (to_gid eperm))
    else if ltb ngroups (length grouplist)
    then (c, pos (to_gid einval))
    else (record c { groups = store_groups 0 grouplist c.groups }, pos 0)
