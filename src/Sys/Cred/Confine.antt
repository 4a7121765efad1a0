-- ===== src/Sys/Cred/Confine.antt =====
-- What a sequence of the identity calls of kernel/src/sys.c can make of a process.
use ferrite_c.Common.{
  ℕ, ◌≡◌, ◌≢◌, ◌⊎◌, Bool, true, false, not, ◌&&◌, ◌||◌, List, [], ◌∷◌, inl, inr, refl, arith, ◌==◌,
  if◌then◌else◌, Bool-cases, ◌∙◌,
}
use ferrite_c.Common.Int.{ℤ, pos}
use ferrite_c.Sys.Cred.{
  Cred, sys_setuid, sys_seteuid, sys_setreuid, sys_setresuid, sys_setgid, sys_setegid, sys_setregid,
  sys_setresgid, sys_setgroups, foreign_uid, foreign_gid, no_id, root_uid, eperm,
}

-- The calls of sys.c that change the identity of the caller.
pub data IdCall : Type 0 where
  setuid seteuid setgid setegid : ℕ → IdCall
  setreuid setregid : ℕ → ℕ → IdCall
  setresuid setresgid : ℕ → ℕ → ℕ → IdCall
  setgroups : List ℕ → IdCall

pub perform : Cred → IdCall → Cred × ℤ
unfolding sys_setuid sys_seteuid sys_setreuid sys_setresuid sys_setgid sys_setegid sys_setregid
    sys_setresgid sys_setgroups
perform c (setuid u) = sys_setuid c u
perform c (seteuid u) = sys_seteuid c u
perform c (setgid g) = sys_setgid c g
perform c (setegid g) = sys_setegid c g
perform c (setreuid r e) = sys_setreuid c r e
perform c (setregid r e) = sys_setregid c r e
perform c (setresuid r e s) = sys_setresuid c r e s
perform c (setresgid r e s) = sys_setresgid c r e s
perform c (setgroups gs) = sys_setgroups c gs

unfoldable pub perform_all : Cred → List IdCall → Cred
unfolding perform
perform_all c [] = c
perform_all c (k ∷ ks) = perform_all (perform c k).0 ks

abbrev pub UidOf : Cred → ℕ → Type 0
UidOf c x = (x ≡ c.uid) ⊎ ((x ≡ c.euid) ⊎ (x ≡ c.suid))

abbrev pub GidOf : Cred → ℕ → Type 0
GidOf c x = (x ≡ c.gid) ⊎ ((x ≡ c.egid) ⊎ (x ≡ c.sgid))

-- Every identifier of `d` is one of those that `c` had, and the groups are those of `c`.
pub record Confined (c d : Cred) : Type 0 where
  pub uid : UidOf c d.uid
  pub euid : UidOf c d.euid
  pub suid : UidOf c d.suid
  pub gid : GidOf c d.gid
  pub egid : GidOf c d.egid
  pub sgid : GidOf c d.sgid
  pub groups : d.groups ≡ c.groups

-- No identifier is 0.
pub record IsUnprivileged (c : Cred) : Type 0 where
  pub uid : c.uid ≢ 0
  pub euid : c.euid ≢ 0
  pub suid : c.suid ≢ 0
  pub gid : c.gid ≢ 0
  pub egid : c.egid ≢ 0
  pub sgid : c.sgid ≢ 0

-- The test of the three arguments fails on none of them.
no_foreign :
    (a b c d : Bool)
    → a ≡ true
    → (a && (b || c || d)) ≡ false
    → (b ≡ false) × (c ≡ false) × (d ≡ false)
no_foreign a b c d h k = ground arith

-- An argument that passes, or the identifier that it leaves alone.
uid_choice :
    (c : Cred) (id old : ℕ)
    → foreign_uid c id ≡ false
    → UidOf c old
    → UidOf c (if not (id == no_id) then id else old)
uid_choice c id old h o = ground arith

gid_choice :
    (c : Cred) (id old : ℕ)
    → foreign_gid c id ≡ false
    → GidOf c old
    → GidOf c (if not (id == no_id) then id else old)
gid_choice c id old h o = ground arith

Confined-refl : (c : Cred) → Confined c c
Confined-refl c = ground arith

module _ (c : Cred) (u : IsUnprivileged c) where
  setuid-Confined : (n : ℕ) → Confined c (sys_setuid c n).0
  unfolding sys_setuid
  setuid-Confined n = ground arith

  seteuid-Confined : (n : ℕ) → Confined c (sys_seteuid c n).0
  unfolding sys_seteuid
  seteuid-Confined n = ground arith

  setgid-Confined : (n : ℕ) → Confined c (sys_setgid c n).0
  unfolding sys_setgid
  setgid-Confined n = ground arith

  setegid-Confined : (n : ℕ) → Confined c (sys_setegid c n).0
  unfolding sys_setegid
  setegid-Confined n = ground arith

  setreuid-Confined : (r e : ℕ) → Confined c (sys_setreuid c r e).0
  unfolding sys_setreuid
  setreuid-Confined r e = ground arith

  setregid-Confined : (r e : ℕ) → Confined c (sys_setregid c r e).0
  unfolding sys_setregid
  setregid-Confined r e = ground arith

  setresuid-Confined : (r e s : ℕ) → Confined c (sys_setresuid c r e s).0
  unfolding sys_setresuid
  setresuid-Confined r e s =
      let nonroot : not (c.euid == root_uid) ≡ true = ground arith in
      elim (Bool-cases
        (not (c.euid == root_uid) && (foreign_uid c r || foreign_uid c e || foreign_uid c s))) [
          | inl denied ↦ rw denied (Confined-refl c)
          | inr passed ↦
              let f =
                no_foreign _ (foreign_uid c r) (foreign_uid c e) (foreign_uid c s) nonroot passed in
              rw passed (record {
                uid = uid_choice c r c.uid f.0 (inl refl);
                euid = uid_choice c e c.euid f.1 (inr (inl refl));
                suid = uid_choice c s c.suid f.2 (inr (inr refl));
                gid = inl refl;
                egid = inr (inl refl);
                sgid = inr (inr refl);
                groups = refl;
              })
        ]

  setresgid-Confined : (r e s : ℕ) → Confined c (sys_setresgid c r e s).0
  unfolding sys_setresgid
  setresgid-Confined r e s =
      let nonroot : not (c.euid == root_uid) ≡ true = ground arith in
      elim (Bool-cases
        (not (c.euid == root_uid) && (foreign_gid c r || foreign_gid c e || foreign_gid c s))) [
          | inl denied ↦ rw denied (Confined-refl c)
          | inr passed ↦
              let f =
                no_foreign _ (foreign_gid c r) (foreign_gid c e) (foreign_gid c s) nonroot passed in
              rw passed (record {
                uid = inl refl;
                euid = inr (inl refl);
                suid = inr (inr refl);
                gid = gid_choice c r c.gid f.0 (inl refl);
                egid = gid_choice c e c.egid f.1 (inr (inl refl));
                sgid = gid_choice c s c.sgid f.2 (inr (inr refl));
                groups = refl;
              })
        ]

  setgroups-Confined : (gs : List ℕ) → Confined c (sys_setgroups c gs).0
  unfolding sys_setgroups
  setgroups-Confined gs = ground arith

perform-Confined : (c : Cred) (k : IdCall) → IsUnprivileged c → Confined c (perform c k).0
unfolding perform
perform-Confined c (setuid n) u = setuid-Confined c u n
perform-Confined c (seteuid n) u = seteuid-Confined c u n
perform-Confined c (setgid n) u = setgid-Confined c u n
perform-Confined c (setegid n) u = setegid-Confined c u n
perform-Confined c (setreuid r e) u = setreuid-Confined c u r e
perform-Confined c (setregid r e) u = setregid-Confined c u r e
perform-Confined c (setresuid r e s) u = setresuid-Confined c u r e s
perform-Confined c (setresgid r e s) u = setresgid-Confined c u r e s
perform-Confined c (setgroups gs) u = setgroups-Confined c u gs

IsUnprivileged-stays : (c d : Cred) → IsUnprivileged c → Confined c d → IsUnprivileged d
IsUnprivileged-stays c d u k = record {
  uid = λ e. ground (arith, k.uid);
  euid = λ e. ground (arith, k.euid);
  suid = λ e. ground (arith, k.suid);
  gid = λ e. ground (arith, k.gid);
  egid = λ e. ground (arith, k.egid);
  sgid = λ e. ground (arith, k.sgid);
}

UidOf-trans : (c d : Cred) (x : ℕ) → Confined c d → UidOf d x → UidOf c x
UidOf-trans c d x k (inl e) = ground (arith, k.uid)
UidOf-trans c d x k (inr (inl e)) = ground (arith, k.euid)
UidOf-trans c d x k (inr (inr e)) = ground (arith, k.suid)

GidOf-trans : (c d : Cred) (x : ℕ) → Confined c d → GidOf d x → GidOf c x
GidOf-trans c d x k (inl e) = ground (arith, k.gid)
GidOf-trans c d x k (inr (inl e)) = ground (arith, k.egid)
GidOf-trans c d x k (inr (inr e)) = ground (arith, k.sgid)

Confined-trans : (c d f : Cred) → Confined c d → Confined d f → Confined c f
Confined-trans c d f p q = record {
  uid = UidOf-trans c d f.uid p q.uid;
  euid = UidOf-trans c d f.euid p q.euid;
  suid = UidOf-trans c d f.suid p q.suid;
  gid = GidOf-trans c d f.gid p q.gid;
  egid = GidOf-trans c d f.egid p q.egid;
  sgid = GidOf-trans c d f.sgid p q.sgid;
  groups = q.groups ∙ p.groups;
}

-- A process none of whose user and group identifiers is 0 gains nothing by any sequence of the
-- identity calls, whatever their arguments: each of its user identifiers afterwards is one of the
-- three that it had, each of its group identifiers one of the three group identifiers that it had,
-- and its supplementary groups are the same.
pub perform_all-Confined :
    (c : Cred) (ks : List IdCall) → IsUnprivileged c → Confined c (perform_all c ks)
unfolding perform_all
perform_all-Confined c [] u = Confined-refl c
perform_all-Confined c (k ∷ ks) u =
    let p = perform-Confined c k u in
    Confined-trans c (perform c k).0 _ p
      (perform_all-Confined (perform c k).0 ks (IsUnprivileged-stays c (perform c k).0 u p))

-- A process in group 0 sets its effective group to any group, whatever its effective user is, while
-- the two other group calls refuse it a group that it does not have.
pub setegid_of_group_zero :
    (c : Cred) (g : ℕ)
    → c.euid ≢ root_uid
    → c.egid ≡ 0
    → g ≢ c.gid
    → g ≢ c.egid
    → g ≢ c.sgid
    → g ≢ no_id
    → (sys_setegid c g ≡ (record c { egid = g }, pos 0))
      × (sys_setgid c g ≡ (c, eperm))
      × (sys_setregid c no_id g ≡ (c, eperm))
unfolding sys_setegid sys_setgid sys_setregid
setegid_of_group_zero c g h e a b d f = (ground arith, ground arith, ground arith)
