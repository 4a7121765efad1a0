-- ===== src/Sys/Process.antt =====
-- kernel/src/sys/process/process.c: the table of the processes, `ptables`.
--
-- A pointer to a process is its index in the table plus one, and 0 is NULL; channels are addresses, of
-- which those of the processes matter here. Pages, inodes and open files are addresses, and a call that
-- takes or drops one is recorded, in order; of a process, its context, its name, its signals, its timer
-- and the trap frame are left out. `pid_counter` does not wrap here. A call that switches to the scheduler ends there.
pub mod Reparent
pub mod Close
pub mod Exit
pub mod Search
pub mod Share
pub mod Alloc
pub mod Wait
pub mod Groups
mod Tests
use ferrite_c.Common.{
  ℕ, zero, suc, ◌+◌, ◌-◌, Bool, true, false, not, ◌&&◌, List, [], ◌∷◌, ◌++◌, Option, none, some,
  ltb, ◌==◌, if◌then◌else◌, update,
}
use ferrite_c.Common.Search.{first_index}
use ferrite_c.Common.Int.{ℤ, pos, neg}
use ferrite_c.Sys.File.{max_open_files}
use ferrite_c.Sys.Cred.{Cred, root_uid}
use ferrite_c.Sys.Timer.{
  ProcState, unused, embryo, sleeping, ready, running, zombie, num_proc, is_sleeping,
}

pub record Proc : Type 0 where
  pub pid : ℕ
  pub state : ProcState
  pub parent : ℕ
  pub channel : ℕ
  pub status : ℤ
  pub cred : Cred
  pub kstack : ℕ
  pub pgdir : ℕ
  pub root : ℕ
  pub pwd : ℕ
  pub open_files : ℕ → ℕ

-- The calls into the memory and the file system; `hold_` stands for a count that goes up by 1.
pub data Call : Type 0 where
  inode_put : ℕ → Call
  release : ℕ → Call
  file_put : ℕ → Call
  free_page : ℕ → Call
  vmm_free_pagedir : ℕ → Call
  hold_inode : ℕ → Call
  hold_file : ℕ → Call

pub record Table : Type 0 where
  pub procs : ℕ → Proc
  pub pid_counter : ℕ
  pub calls : List Call

abbrev pub addr : ℕ → ℕ
addr i = suc i

abbrev pub write_proc : Table → ℕ → Proc → Table
write_proc t i q = record t { procs = update t.procs i q }

abbrev pub call : Table → List Call → Table
call t cs = record t { calls = t.calls ++ cs }

abbrev pub is_unused : ProcState → Bool
is_unused unused = true
is_unused _ = false

abbrev pub is_zombie : ProcState → Bool
is_zombie zombie = true
is_zombie _ = false

pub find_process : Table → (pid : ℕ) → Option ℕ
unfolding first_index
find_process t pid = first_index num_proc 0 (λ i. (t.procs i).pid == pid)

abbrev pub wake : (channel : ℕ) → Proc → Proc
wake channel q =
    if q.channel == channel && is_sleeping q.state then record q { state = ready } else q

pub wakeup_procs : Table → (channel : ℕ) → Table
wakeup_procs t channel = record t {
  procs = λ i. if ltb i num_proc then wake channel (t.procs i) else t.procs i;
}

-- One round of the loop of `do_exit`: an orphan gets init for its parent.
pub adopt : (p init i : ℕ) → Table → Table
unfolding wakeup_procs
adopt p init i t =
    if not ((t.procs i).parent == p)
    then t
    else (let t1 = write_proc t i (record (t.procs i) { parent = init }) in
        if is_zombie (t.procs i).state then wakeup_procs t1 init else t1)

pub reparent : (count i : ℕ) → (p init : ℕ) → Table → Table
unfolding adopt
reparent zero i p init t = t
reparent (suc k) i p init t = reparent k (i + 1) p init (adopt p init i t)

-- The directories of the process `me`.
abbrev pub put_dirs : (me : ℕ) → Table → Table
put_dirs me t =
    call (write_proc t me (record (t.procs me) { pwd = 0; root = 0 }))
      (inode_put (t.procs me).pwd ∷ inode_put (t.procs me).root ∷ [])

-- What is called for the open file f; `has_release` says of a file whether it has an inode and an
-- operation `release`.
abbrev pub closing : (has_release : ℕ → Bool) → (f : ℕ) → List Call
closing has_release f = if has_release f then release f ∷ file_put f ∷ [] else file_put f ∷ []

-- One round of the loop of `do_exit` over the descriptors.
pub close_fd : (has_release : ℕ → Bool) → (me fd : ℕ) → Table → Table
close_fd has_release me fd t =
    let f = (t.procs me).open_files fd in
    if f == 0
    then t
    else call
        (write_proc t me (record (t.procs me) { open_files = update (t.procs me).open_files fd 0 }))
        (closing has_release f)

pub close_fds : (count fd : ℕ) → (has_release : ℕ → Bool) → (me : ℕ) → Table → Table
unfolding close_fd
close_fds zero fd has_release me t = t
close_fds (suc k) fd has_release me t =
    close_fds k (fd + 1) has_release me (close_fd has_release me fd t)

-- The end of `do_exit`, from the status on.
abbrev pub leave : (me : ℕ) → (status : ℤ) → Table → Table
leave me status t =
    let t2 = write_proc t me (record (t.procs me) { status = status }) in
    let t3 = wakeup_procs t2 (t2.procs me).parent in
    write_proc t3 me (record (t3.procs me) { state = zombie })

-- `me` is the index of the caller, `init` the address of the first process.
pub do_exit : Table → (has_release : ℕ → Bool) → (me init : ℕ) → (status : ℤ) → Table
unfolding reparent close_fds
do_exit t has_release me init status =
    let t1 = reparent num_proc 0 (addr me) init t in
    leave me status (close_fds max_open_files 0 has_release me (put_dirs me t1))

-- What a round of the loop of `do_wait` comes to.
pub data Round : Type 0 where
  reaped : (pid : ℕ) (status : ℤ) → Table → Round
  no_kids : Round
  must_wait : Round

abbrev pub release_slot : Proc → Proc
release_slot q = record q { kstack = 0; pgdir = 0; state = unused; pid = 0; parent = 0 }

-- A zombie is taken off the table.
abbrev pub reap : (i : ℕ) → Table → Table
reap i t =
    call (write_proc t i (release_slot (t.procs i)))
      (free_page (t.procs i).kstack ∷ vmm_free_pagedir (t.procs i).pgdir ∷ [])

pub wait_scan : (count i : ℕ) → (me : ℕ) → (have_kids : Bool) → Table → Round
wait_scan zero i me kids t = if kids then must_wait else no_kids
wait_scan (suc k) i me kids t =
    let mine = (t.procs i).parent == me in
    let rest = wait_scan k (i + 1) me (if mine then true else kids) t in
    if mine && is_zombie (t.procs i).state
    then reaped (t.procs i).pid (t.procs i).status (reap i t)
    else rest

pub do_wait_round : Table → (me : ℕ) → Round
unfolding wait_scan
do_wait_round t me = wait_scan num_proc 0 (addr me) false t

-- The identifiers of the parent; of a process without a parent those of root.
pub inherit_credentials : Cred → Option Cred → Cred
inherit_credentials child (some parent) = record child {
  uid = parent.uid;
  euid = parent.euid;
  suid = parent.suid;
  gid = parent.gid;
  egid = parent.egid;
  sgid = parent.sgid;
}
inherit_credentials child none = record child {
  uid = root_uid;
  euid = root_uid;
  suid = root_uid;
  gid = root_uid;
  egid = root_uid;
  sgid = root_uid;
}

-- The loop of `__alloc_proc` over the descriptors: the open files of the caller.
pub share_fds : (count fd : ℕ) → (i : ℕ) → (files : ℕ → ℕ) → Table → Table
share_fds zero fd i files t = t
share_fds (suc k) fd i files t =
    let t1 =
      write_proc t i
        (record (t.procs i) { open_files = update (t.procs i).open_files fd (files fd) }) in
    share_fds k (fd + 1) i files (if files fd == 0 then t1 else call t1 (hold_file (files fd) ∷ []))

abbrev pub files_of : Table → (current : Option ℕ) → ℕ → ℕ
files_of t none fd = 0
files_of t (some c) fd = (t.procs c).open_files fd

abbrev pub up_of : (current : Option ℕ) → ℕ
up_of none = 0
up_of (some c) = addr c

abbrev pub top_of : Table → (current : Option ℕ) → (root_inode : ℕ) → ℕ
top_of t none root_inode = root_inode
top_of t (some c) root_inode = (t.procs c).root

abbrev pub cwd_of : Table → (current : Option ℕ) → (root_inode : ℕ) → ℕ
cwd_of t none root_inode = root_inode
cwd_of t (some c) root_inode = (t.procs c).pwd

-- The part of `__alloc_proc` behind the last test, for the slot i.
pub inherit : Table → (current : Option ℕ) → (root_inode : ℕ) → (i : ℕ) → Table
unfolding share_fds
inherit t current root_inode i =
    let top = top_of t current root_inode in
    let cwd = cwd_of t current root_inode in
    let q = record (t.procs i) { parent = up_of current; root = top; pwd = cwd } in
    share_fds max_open_files 0 i (files_of t current)
      (call (write_proc t i q) (hold_inode top ∷ hold_inode cwd ∷ []))

-- The body of the loop of `__alloc_proc`, for the slot that is unused. `current` is the caller, where there
-- is one; `stack` and `kvm` are the page for the kernel stack and the page directory, 0 where there is
-- none. The result is the slot.
pub take_slot :
    Table → (current : Option ℕ) → (root_inode stack kvm : ℕ) → (slot : Option ℕ) → Table × Option ℕ
unfolding inherit_credentials inherit
take_slot t current root_inode stack kvm none = (t, none)
take_slot t current root_inode stack kvm (some i) =
    let creds : Option Cred = elim current [ none ↦ none | some c ↦ some (t.procs c).cred ] in
    let q = record (t.procs i) {
      cred = inherit_credentials (t.procs i).cred creds;
      state = embryo;
      pid = t.pid_counter;
      kstack = stack;
    } in
    let t1 = record (write_proc t i q) { pid_counter = t.pid_counter + 1 } in
    if stack == 0
    then (write_proc t1 i (record q { state = unused }), none)
    else if kvm == 0
    then (
      call (write_proc t1 i (record q { pgdir = 0; state = unused })) (free_page stack ∷ []),
      none,
    )
    else (inherit (write_proc t1 i (record q { pgdir = kvm })) current root_inode i, some i)

pub alloc_proc : Table → (current : Option ℕ) → (root_inode stack kvm : ℕ) → Table × Option ℕ
unfolding first_index take_slot
alloc_proc t current root_inode stack kvm =
    take_slot t current root_inode stack kvm
      (first_index num_proc 0 (λ i. is_unused (t.procs i).state))
