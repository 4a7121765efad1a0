-- ===== src/Sys/Process/Tests.antt =====
-- process.c on a table of a first process, a shell that waits, its child and a zombie of the child.
use ferrite_c.Common.{
  ℕ, ◌<◌, ◌≡◌, ◌≢◌, refl, false, [], ◌∷◌, none, some, arith, ◌==◌, if◌then◌else◌, replicate, Bool,
}
use ferrite_c.Common.Int.{pos}
use ferrite_c.Sys.Cred.{Cred, nogroup}
use ferrite_c.Sys.Timer.{unused, sleeping, running, zombie}
use ferrite_c.Fs.Permission.{Protected, vfs_permission, ext2_permission}
use ferrite_c.Sys.Process.{
  Proc, Table, inode_put, release, file_put, do_exit, do_wait_round, find_process, alloc_proc,
  inherit_credentials, is_unused,
}
use ferrite_c.Sys.Process.Exit.{Exited, do_exit-Exited}
use ferrite_c.Sys.Process.Wait.{Reaps, do_wait_round-do_exit}
use ferrite_c.Sys.Process.Alloc.{Allocation, alloc_proc-Allocation}
use ferrite_c.Sys.Process.Groups.{child_in_group_zero}

abbrev no_cred : Cred
no_cred = record {
  uid = 0;
  euid = 0;
  suid = 0;
  gid = 0;
  egid = 0;
  sgid = 0;
  groups = replicate 32 (pos 0);
}

abbrev free_slot : Proc
free_slot = record {
  pid = 0;
  state = unused;
  parent = 0;
  channel = 0;
  status = pos 0;
  cred = no_cred;
  kstack = 0;
  pgdir = 0;
  root = 0;
  pwd = 0;
  open_files = λ fd. 0;
}

-- Index 0 is the first process, 1 the shell, 2 its child, and 3 a zombie of the child.
abbrev family : ℕ → Proc
family i =
    if i == 0
    then record free_slot { pid = 1; state = sleeping; channel = 1; kstack = 4096 }
    else if i == 1
    then record free_slot { pid = 2; state = sleeping; parent = 1; channel = 2; kstack = 8192 }
    else if i == 2
    then record free_slot {
      pid = 3;
      state = running;
      parent = 2;
      root = 70;
      pwd = 71;
      open_files = λ fd. if fd == 0 then 80 else if fd == 5 then 81 else 0;
    }
    else if i == 3
    then record free_slot { pid = 4; state = zombie; parent = 3; status = pos 9 }
    else free_slot

abbrev table : Table
table = record { procs = family; pid_counter = 5; calls = [] }

-- Of the two open files the second has a `release`.
abbrev is_socket : ℕ → Bool
is_socket f = f == 81

do_exit-Exited_example : Exited is_socket 2 1 (pos 7) table (do_exit table is_socket 2 1 (pos 7))
do_exit-Exited_example =
    do_exit-Exited table is_socket 2 1 (pos 7) (omega arith) (omega arith) (omega arith)

exit_calls :
    (do_exit table is_socket 2 1 (pos 7)).calls
    ≡ inode_put 71 ∷ inode_put 70 ∷ file_put 80 ∷ release 81 ∷ file_put 81 ∷ []
unfolding do_exit
exit_calls = refl

do_wait_round-do_exit_example :
    Reaps 1
      (do_exit table is_socket 2 1 (pos 7))
      (do_wait_round (do_exit table is_socket 2 1 (pos 7)) 1)
do_wait_round-do_exit_example =
    do_wait_round-do_exit table is_socket 2 1 1 (pos 7) (omega arith) (omega arith) (omega arith)
      refl

new_pid : (j : ℕ) → j < 32 → (table.procs j).pid ≢ table.pid_counter
new_pid j h = ground arith

caller_in_use : (c : ℕ) → some 2 ≡ some c → is_unused (table.procs c).state ≡ false
caller_in_use c h = ground arith

alloc_proc-Allocation_example :
    Allocation table (some 2) 70 4096 8192 (alloc_proc table (some 2) 70 4096 8192)
alloc_proc-Allocation_example =
    alloc_proc-Allocation table (some 2) 70 4096 8192 new_pid caller_in_use

-- Without memory for the stack the pid still leads to the slot, which is unused.
unused_has_pid : find_process (alloc_proc table none 70 0 0).0 5 ≡ some 4
unfolding find_process alloc_proc
unused_has_pid = refl

abbrev user : Cred
user = record no_cred {
  uid = 1000;
  euid = 1000;
  suid = 1000;
  gid = 1000;
  egid = 1000;
  sgid = 1000;
  groups = replicate 32 nogroup;
}

abbrev disk : Protected
disk = record { i_mode = 0o060660; i_uid = 0; i_gid = 0; permission = none }

child_in_group_zero_example :
    (vfs_permission (inherit_credentials no_cred (some user)) (record disk { permission = none }) 6
      ≡ pos 1)
    × (vfs_permission
          (inherit_credentials no_cred (some user))
          (record disk {
            permission = some (ext2_permission (inherit_credentials no_cred (some user)) disk);
          })
          6
        ≡ pos 1)
child_in_group_zero_example =
    child_in_group_zero no_cred user (replicate 31 (pos 0)) disk 6 refl refl (omega arith) refl
