-- ===== src/Sys/Process/Exit.antt =====
-- A process that exits, and the wait of its parent.
use mathlib.Core.List.{append_assoc}
use ferrite_c.Common.{
  ℕ, ◌+◌, ◌<◌, ◌≡◌, ◌≢◌, ◌⊎◌, inl, inr, refl, Bool, true, ◌==◌, if◌then◌else◌, arith, Bool-cases,
  ◌∙◌, sym, ap, ◌∷◌, ◌++◌,
}
use ferrite_c.Common.Int.{ℤ}
use ferrite_c.Sys.File.{max_open_files}
use ferrite_c.Sys.Timer.{sleeping, ready, zombie, num_proc}
use ferrite_c.Sys.Process.{
  Proc, Table, addr, write_proc, wake, wakeup_procs, reparent, inode_put, put_dirs, close_fds,
  do_exit,
}
use ferrite_c.Sys.Process.Close.{Closes, open_calls, close_fds-Closes}
use ferrite_c.Sys.Process.Reparent.{
  Woken, Kept, Adopted, reparent-Adopted, wakeup_procs-Kept, parent-wakeup_procs,
}

-- What an exit of the process `me` leaves in the table.
pub record Exited (has_release : ℕ → Bool) (me init : ℕ) (status : ℤ) (t t' : Table) : Type 0 where
  pub is_zombie : (t'.procs me).state ≡ zombie
  pub exit_status : (t'.procs me).status ≡ status
  pub same_parent : (t'.procs me).parent ≡ (t.procs me).parent
  pub same_pid : (t'.procs me).pid ≡ (t.procs me).pid
  pub no_dirs : ((t'.procs me).root ≡ 0) × ((t'.procs me).pwd ≡ 0)
  pub no_files : (fd : ℕ) → fd < max_open_files → (t'.procs me).open_files fd ≡ 0
  pub calls :
      t'.calls
      ≡ t.calls
        ++ (inode_put (t.procs me).pwd
            ∷ inode_put (t.procs me).root
            ∷ open_calls max_open_files 0 has_release (t.procs me).open_files)
  pub orphans : (i : ℕ) → i < num_proc → (t'.procs i).parent ≢ addr me
  pub adopted : (i : ℕ) → i < num_proc → (t.procs i).parent ≡ addr me → (t'.procs i).parent ≡ init
  pub others_parent :
      (i : ℕ) → (t.procs i).parent ≢ addr me → (t'.procs i).parent ≡ (t.procs i).parent
  pub others :
      (i : ℕ)
      → i ≢ me
      → ((t'.procs i).pid ≡ (t.procs i).pid)
        × ((t'.procs i).status ≡ (t.procs i).status)
        × ((t.procs i).state ≡ zombie → (t'.procs i).state ≡ zombie)
  pub parent_woken :
      (q : ℕ)
      → q < num_proc
      → q ≢ me
      → (t.procs me).parent ≡ addr q
      → (t.procs q).state ≡ sleeping
      → (t.procs q).channel ≡ addr q
      → (t'.procs q).state ≡ ready

Woken-zombie :
    (channel : ℕ) (q q' : Proc) → Woken channel q q' → q.state ≡ zombie → q'.state ≡ zombie
Woken-zombie channel q q' (inl e) z = e ∙ z
Woken-zombie channel q q' (inr (x, y, w)) z = cc

wakes :
    (channel : ℕ) (r : Proc)
    → r.channel ≡ channel
    → (r.state ≡ sleeping) ⊎ (r.state ≡ ready)
    → (wake channel r).state ≡ ready
wakes channel r c (inl s) = let e : (r.channel == channel) ≡ true = ground arith in rw (e, s) refl
wakes channel r c (inr s) = let e : (r.channel == channel) ≡ true = ground arith in rw (e, s) refl

new_parent : (par par' init p : ℕ) → par ≡ p → par' ≡ (if par == p then init else par) → par' ≡ init
new_parent par par' init p e h = ground arith

no_orphan : (par par' init p : ℕ) → init ≢ p → par' ≡ (if par == p then init else par) → par' ≢ p
no_orphan par par' init p ne e h = ground arith

module _ (t : Table) (has_release : ℕ → Bool) (me init : ℕ) (status : ℤ) (mine : me < num_proc)
    (other : init ≢ addr me) (root : (t.procs me).parent ≢ addr me) where
  t1 : Table
  t1 = reparent num_proc 0 (addr me) init t

  shut : Table
  shut = close_fds max_open_files 0 has_release me (put_dirs me t1)

  t2 : Table
  t2 = write_proc shut me (record (shut.procs me) { status = status })

  t3 : Table
  t3 = wakeup_procs t2 (t2.procs me).parent

  middle :
      Closes me 0
        (0 + max_open_files)
        (open_calls max_open_files 0 has_release ((put_dirs me t1).procs me).open_files)
        (put_dirs me t1)
        shut
  unfolding shut
  middle = close_fds-Closes max_open_files 0 has_release me (put_dirs me t1)

  loop : Adopted (addr me) init 0 (0 + num_proc) t t1
  unfolding t1
  loop = reparent-Adopted num_proc 0 (addr me) init t other

  final : Table
  final = write_proc t3 me (record (t3.procs me) { state = zombie })

  t3-Kept : (i : ℕ) → Kept (t2.procs me).parent (t2.procs i) (t3.procs i)
  unfolding t3
  t3-Kept i = wakeup_procs-Kept t2 (t2.procs me).parent i

  t2-t1 : (i : ℕ) → i ≢ me → t2.procs i ≡ t1.procs i
  unfolding t2
  t2-t1 i ne = let h = middle.others i ne in ground arith

  dirs-me : (put_dirs me t1).procs me ≡ record (t1.procs me) { pwd = 0; root = 0 }
  dirs-me = ground arith

  t2-me : t2.procs me ≡ record (shut.procs me) { status = status }
  unfolding t2
  t2-me = ground arith

  t2-parent : (i : ℕ) → (t2.procs i).parent ≡ (t1.procs i).parent
  t2-parent i = elim (Bool-cases (i == me)) [
    | inl same ↦
        let h : i ≡ me = ground arith in
        let e = ap Proc.parent t2-me ∙ middle.mine.parent ∙ ap Proc.parent dirs-me in
        ap (λ (k : ℕ). (t2.procs k).parent) h ∙ e ∙ ap (λ (k : ℕ). (t1.procs k).parent) (sym h)
    | inr other ↦ ap Proc.parent (t2-t1 i (ground arith))
  ]

  t3-parent : (i : ℕ) → (t3.procs i).parent ≡ (t1.procs i).parent
  unfolding t3
  t3-parent i = parent-wakeup_procs t2 (t2.procs me).parent i ∙ t2-parent i

  final-t3 : (i : ℕ) → i ≢ me → final.procs i ≡ t3.procs i
  unfolding final
  final-t3 i ne = ground arith

  parent_kept : (i : ℕ) → (final.procs i).parent ≡ (t3.procs i).parent
  unfolding final
  parent_kept i = ground arith

  final-parent :
      (i : ℕ)
      → i < num_proc
      → (final.procs i).parent
        ≡ (if (t.procs i).parent == addr me then init else (t.procs i).parent)
  final-parent i h = parent_kept i ∙ t3-parent i ∙ loop.parents i ∙ ground arith

  parent_elsewhere :
      (i : ℕ) → (t.procs i).parent ≢ addr me → (final.procs i).parent ≡ (t.procs i).parent
  parent_elsewhere i ne = parent_kept i ∙ t3-parent i ∙ loop.parents i ∙ ground arith

  final-other :
      (i : ℕ)
      → i ≢ me
      → ((final.procs i).pid ≡ (t.procs i).pid)
        × ((final.procs i).status ≡ (t.procs i).status)
        × ((t.procs i).state ≡ zombie → (final.procs i).state ≡ zombie)
  final-other i ne =
      let k = loop.kept i in
      let k3 = t3-Kept i in
      let a = final-t3 i ne in
      let b = t2-t1 i ne in
      (
        ap Proc.pid a ∙ k3.pid ∙ ap Proc.pid b ∙ k.pid,
        ap Proc.status a ∙ k3.status ∙ ap Proc.status b ∙ k.status,
        (λ z.
            ap Proc.state a
            ∙ Woken-zombie (t2.procs me).parent (t2.procs i) (t3.procs i) k3.state
                (ap Proc.state b ∙ Woken-zombie init (t.procs i) (t1.procs i) k.state z)),
      )

  final-me-t3 : final.procs me ≡ record (t3.procs me) { state = zombie }
  unfolding final
  final-me-t3 = ground arith

  final-me :
      ((final.procs me).state ≡ zombie)
      × ((final.procs me).status ≡ status)
      × ((final.procs me).pid ≡ (t.procs me).pid)
  final-me =
      let k = loop.kept me in
      let k3 = t3-Kept me in
      (
        ap Proc.state final-me-t3,
        ap Proc.status final-me-t3 ∙ k3.status ∙ ap Proc.status t2-me,
        ap Proc.pid final-me-t3
            ∙ k3.pid
            ∙ ap Proc.pid t2-me
            ∙ middle.mine.pid
            ∙ ap Proc.pid dirs-me
            ∙ k.pid,
      )

  final-dirs : ((final.procs me).root ≡ 0) × ((final.procs me).pwd ≡ 0)
  final-dirs =
      let k3 = t3-Kept me in
      (
        ap Proc.root final-me-t3
            ∙ k3.root
            ∙ ap Proc.root t2-me
            ∙ middle.mine.root
            ∙ ap Proc.root dirs-me,
        ap Proc.pwd final-me-t3
            ∙ k3.pwd
            ∙ ap Proc.pwd t2-me
            ∙ middle.mine.pwd
            ∙ ap Proc.pwd dirs-me,
      )

  final-files : (fd : ℕ) → fd < max_open_files → (final.procs me).open_files fd ≡ 0
  final-files fd h =
      let k3 = t3-Kept me in
      ap (λ (q : Proc). q.open_files fd) final-me-t3
      ∙ ap (λ (f : ℕ → ℕ). f fd) k3.files
      ∙ ap (λ (q : Proc). q.open_files fd) t2-me
      ∙ middle.mine.files fd
      ∙ ground arith

  dirs-files : ((put_dirs me t1).procs me).open_files ≡ (t.procs me).open_files
  dirs-files = ap Proc.open_files dirs-me ∙ (loop.kept me).files

  final-t2-calls : final.calls ≡ shut.calls
  unfolding final t3 t2 wakeup_procs
  final-t2-calls = refl

  final-calls :
      final.calls
      ≡ t.calls
        ++ (inode_put (t.procs me).pwd
            ∷ inode_put (t.procs me).root
            ∷ open_calls max_open_files 0 has_release (t.procs me).open_files)
  final-calls =
      final-t2-calls
      ∙ middle.calls
      ∙ append_assoc t1.calls _ _
      ∙ rw (dirs-files, (loop.kept me).pwd, (loop.kept me).root, loop.calls) refl

  own_parent : (t2.procs me).parent ≡ (t.procs me).parent
  own_parent = t2-parent me ∙ loop.parents me ∙ ground arith

  t3-wake : (q : ℕ) → q < num_proc → t3.procs q ≡ wake (t2.procs me).parent (t2.procs q)
  unfolding t3 wakeup_procs
  t3-wake q h = ground arith

  woken_parent :
      (q : ℕ)
      → q < num_proc
      → q ≢ me
      → (t.procs me).parent ≡ addr q
      → (t.procs q).state ≡ sleeping
      → (t.procs q).channel ≡ addr q
      → (final.procs q).state ≡ ready
  woken_parent q h ne par asleep chan =
      let k = loop.kept q in
      let b = t2-t1 q ne in
      ap Proc.state (final-t3 q ne)
      ∙ ap Proc.state (t3-wake q h)
      ∙ wakes (t2.procs me).parent (t2.procs q)
          (ap Proc.channel b ∙ k.same_channel ∙ chan ∙ sym par ∙ sym own_parent)
          (elim k.state [
            | inl e ↦ inl (ap Proc.state b ∙ e ∙ asleep)
            | inr (x, y, z) ↦ inr (ap Proc.state b ∙ z)
          ])

  exited : Exited has_release me init status t (do_exit t has_release me init status)
  unfolding do_exit final t3 t2 t1 shut
  exited =
      let (z, x, p) = final-me in
      record {
        is_zombie = z;
        no_dirs = final-dirs;
        no_files = final-files;
        calls = final-calls;
        exit_status = x;
        same_pid = p;
        same_parent = parent_elsewhere me root;
        orphans = λ i h.
            no_orphan (t.procs i).parent (final.procs i).parent init (addr me) other
              (final-parent i h);
        adopted = λ i h e.
            new_parent (t.procs i).parent (final.procs i).parent init (addr me) e
              (final-parent i h);
        others_parent = parent_elsewhere;
        others = final-other;
        parent_woken = woken_parent;
      }

-- A process that exits leaves a zombie with its status and its pid and without directories and open
-- files, each of which was put once, behind its `release` if it has one; no process has it for its parent any
-- more, those that had now have the first process, and no other changes its parent, its pid or its
-- status; a parent that waits for its children is ready.
pub do_exit-Exited :
    (t : Table) (has_release : ℕ → Bool) (me init : ℕ) (status : ℤ)
    → me < num_proc
    → init ≢ addr me
    → (t.procs me).parent ≢ addr me
    → Exited has_release me init status t (do_exit t has_release me init status)
do_exit-Exited t has_release me init status mine other root =
    exited t has_release me init status mine other root
