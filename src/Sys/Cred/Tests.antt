-- ===== src/Sys/Cred/Tests.antt =====
-- Runs of the identity calls of kernel/src/sys.c.
use ferrite_c.Common.{◌≡◌, refl, List, [], ◌∷◌, arith, replicate, ℕ}
use ferrite_c.Sys.Cred.{Cred, nogroup}
use ferrite_c.Sys.Cred.Confine.{
  IdCall, setuid, setresuid, setegid, perform_all, Confined, perform_all-Confined,
}

abbrev user : Cred
user = record {
  uid = 1000;
  euid = 1001;
  suid = 1002;
  gid = 100;
  egid = 101;
  sgid = 102;
  groups = replicate 32 nogroup;
}

abbrev calls : List IdCall
calls = setuid 0 ∷ setresuid 1002 1000 1001 ∷ setegid 0 ∷ setuid 1002 ∷ []

perform_all-Confined_example : Confined user (perform_all user calls)
perform_all-Confined_example = perform_all-Confined user calls (omega arith)

after_calls : (perform_all user calls).euid ≡ 1002
unfolding perform_all
after_calls = refl

abbrev wheel : Cred
wheel = record user { egid = 0 }

abbrev root : Cred
root = record user { euid = 0 }

abbrev three : List ℕ
three = 4 ∷ 24 ∷ 27 ∷ []
