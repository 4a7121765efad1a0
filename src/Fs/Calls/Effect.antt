-- ===== src/Fs/Calls/Effect.antt =====
-- The references that each of the calls on paths takes and gives back.
use ferrite_c.Common.{
  ◌<◌, ℕ, ◌+◌, ◌≡◌, inl, inr, Bool, true, false, not, ◌||◌, List, [], ◌∷◌, Option, none, some, refl,
  if◌then◌else◌, Run, ok, fault, panic, out_of_fuel, ◌>>=◌, arith, Bool-cases, Option-cases,
}
use ferrite_c.Common.Int.{ℤ, pos, neg}
use ferrite_c.Fs.Refs.{Refs, Holding, put_ref-Holding}
use ferrite_c.Fs.Lookup.{is_dir, may, may_write, last_slash, vfs_lookup, vfs_mknod}
use ferrite_c.Fs.Lookup.Balance.{
  LookupTakes, Found, found, not_found, stuck, Null, vfs_lookup-Found,
}
use ferrite_c.Fs.Lookup.Create.{
  NullFront, null_front, Settled, settled, stuck_at, vfs_mknod-Settled,
}
use ferrite_c.Fs.Calls.{
  Tree, parent_path, find_parent, edit, dir_mode, make_dir, vfs_normalize_path, sys_mkdir,
  sys_rmdir, unlink_in, sys_unlink, truncate_at, sys_truncate, sys_mknod, stat_at, sys_stat,
}
use ferrite_c.Fs.Calls.Keep.{
  KeepsRefs, Broken, in_lookup, no_i_op, itself, clean_of, parent_of, before, held_none, put_after,
  find_parent-Named, edit-Settled,
}

stuck-Settled :
    {N M : Type 0}
    → (base : Refs) (run : Run (Refs × ℤ)) → (N → M)
    → Settled N base run
    → Settled M base run
stuck-Settled base (ok (r, v)) f (settled _ _ h) = settled r v h
stuck-Settled base fault f (stuck_at n) = stuck_at (f n)
stuck-Settled base panic f x = elim x [ ]
stuck-Settled base out_of_fuel f x = elim x [ ]

rebase-Settled :
    {N : Type 0}
    → (base r : Refs) (run : Run (Refs × ℤ)) → Holding base [] r
    → Settled N r run
    → Settled N base run
rebase-Settled base r (ok (r', v)) h (settled _ _ k) = settled r' v (λ j. omega (arith, h j, k j))
rebase-Settled base r fault h (stuck_at n) = stuck_at n
rebase-Settled base r panic h x = elim x [ ]
rebase-Settled base r out_of_fuel h x = elim x [ ]

make_dir-Settled :
    (t : Tree) (memory : Bool) (mode : ℕ) (path clean : List ℕ) (base : Refs)
    (run : Run (Refs × Option ℕ))
    → KeepsRefs t
    → vfs_normalize_path path 256 ≡ some clean
    → 0 < base t.space.pwd
    → Found (Null t.space clean) base run
    → Settled (Broken t memory base path) base (run >>= make_dir t memory mode clean)
unfolding make_dir
make_dir-Settled t memory mode path clean base (ok (r, some i)) law e held (found _ _ h) =
    settled _ (neg 17) (put_ref-Holding base [] r i h)
make_dir-Settled t memory mode path clean base (ok (r, none)) law e held (not_found _ h) =
    rebase-Settled base r (find_parent t memory (neg 2) clean r >>= edit t t.mkdir (dir_mode mode))
      h
      (edit-Settled t (Broken t memory base path) r t.mkdir (dir_mode mode)
        (find_parent t memory (neg 2) clean r) law.mkdirs
        (find_parent-Named t memory (neg 2) path clean base r law e (omega (arith, h t.space.pwd))))
make_dir-Settled t memory mode path clean base fault law e held (stuck n) =
    stuck_at (in_lookup clean (clean_of path clean clean e (itself clean)) n)
make_dir-Settled t memory mode path clean base panic law e held x = elim x [ ]
make_dir-Settled t memory mode path clean base out_of_fuel law e held x = elim x [ ]

pub sys_mkdir-Settled :
    (t : Tree) (memory : Bool) (path : List ℕ) (mode : ℕ) (r : Refs)
    → KeepsRefs t
    → 0 < r t.space.pwd
    → Settled (Broken t memory r path) r (sys_mkdir t memory path mode r)
unfolding sys_mkdir
sys_mkdir-Settled t memory path mode r law held =
    elim (Option-cases (vfs_normalize_path path 256)) [
      | inl e ↦ rw (sys_mkdir, e) (settled r (neg 22) (held_none r))
      | inr (clean, e) ↦
          rw (sys_mkdir, e)
            (make_dir-Settled t memory mode path clean r (vfs_lookup t.space clean r) law e held
              (vfs_lookup-Found t.space clean r law.lookups))
    ]

pub sys_rmdir-Settled :
    (t : Tree) (memory : Bool) (path : List ℕ) (r : Refs)
    → KeepsRefs t
    → 0 < r t.space.pwd
    → Settled (Broken t memory r path) r (sys_rmdir t memory path r)
unfolding sys_rmdir
sys_rmdir-Settled t memory path r law held = elim (Option-cases (vfs_normalize_path path 256)) [
  | inl e ↦ rw (sys_rmdir, e) (settled r (neg 22) (held_none r))
  | inr (clean, e) ↦
      rw (sys_rmdir, e)
        (edit-Settled t (Broken t memory r path) r t.rmdir 0 (find_parent t memory (neg 20) clean r)
          law.rmdirs (find_parent-Named t memory (neg 20) path clean r r law e held))
]

unlink_in-Settled :
    (t : Tree) (N : Type 0) (base : Refs) (op : ℕ → List ℕ → ℕ → Refs → Refs × ℤ) (name : List ℕ)
    (run : Run (Refs × Option ℕ))
    → ((dir : ℕ) (name : List ℕ) (mode : ℕ) (r : Refs) (j : ℕ) → (op dir name mode r).0 j ≡ r j)
    → Found N base run
    → Settled N base (run >>= unlink_in t op name)
unfolding unlink_in
unlink_in-Settled t N base op name (ok (r, none)) law (not_found _ h) = settled r (neg 20) h
unlink_in-Settled t N base op name (ok (r, some dir)) law (found _ _ h) =
    elim (Bool-cases (may t.space dir 3)) [
      | inr m ↦ rw m (settled _ (neg 13) (put_ref-Holding base [] r dir h))
      | inl m ↦ rw m (
          settled _ (op dir name 0 r).1
            (put_after base r (op dir name 0 r).0 dir h (law dir name 0 r)))
    ]
unlink_in-Settled t N base op name fault law (stuck n) = stuck_at n
unlink_in-Settled t N base op name panic law x = elim x [ ]
unlink_in-Settled t N base op name out_of_fuel law x = elim x [ ]

pub sys_unlink-Settled :
    (t : Tree) (memory : Bool) (path : List ℕ) (r : Refs)
    → KeepsRefs t
    → Settled (Broken t memory r path) r (sys_unlink t path r)
unfolding sys_unlink
sys_unlink-Settled t memory path r law = elim (Option-cases (t.unlink t.space.root)) [
  | inl e ↦ rw (sys_unlink, e) (settled r (neg 1) (held_none r))
  | inr (op, e) ↦ elim (Option-cases (last_slash path)) [
    | inl f ↦ rw (sys_unlink, e, f) (settled r (neg 1) (held_none r))
    | inr ((front, name), f) ↦
        rw (sys_unlink, e, f)
          (stuck-Settled r _ (λ n. in_lookup (parent_path front) (parent_of path front name f) n)
            (unlink_in-Settled t (Null t.space (parent_path front)) r op name
              (vfs_lookup t.space (parent_path front) r) (law.unlinks t.space.root op e)
              (vfs_lookup-Found t.space (parent_path front) r law.lookups)))
  ]
]

truncate_at-Settled :
    (t : Tree) (memory : Bool) (path : List ℕ) (base : Refs) (len : ℤ) (run : Run (Refs × Option ℕ))
    → KeepsRefs t
    → vfs_lookup t.space path base ≡ run
    → Found (Null t.space path) base run
    → Settled (Broken t memory base path) base (run >>= truncate_at t len)
unfolding truncate_at
truncate_at-Settled t memory path base len (ok (r, none)) law at (not_found _ h) =
    settled r (neg 2) h
truncate_at-Settled t memory path base len (ok (r, some i)) law at (found _ _ h) =
    let put = put_ref-Holding base [] r i h in
    elim (Bool-cases (is_dir t.space i || not (may t.space i may_write))) [
      | inl e ↦ rw e (settled _ (neg 13) put)
      | inr e ↦ elim (Bool-cases (t.has_i_op i)) [
        | inr g ↦ rw (e, g) (stuck_at (no_i_op r i at g))
        | inl g ↦ elim (Option-cases (t.truncate i)) [
          | inl f ↦ rw (e, g, f) (settled _ (neg 38) put)
          | inr (f, o) ↦
              rw (e, g, o)
                (settled _ (f i len r).1
                  (put_after base r (f i len r).0 i h (law.truncates i f o i len r)))
        ]
      ]
    ]
truncate_at-Settled t memory path base len fault law at (stuck n) =
    stuck_at (in_lookup path (itself path) n)
truncate_at-Settled t memory path base len panic law at x = elim x [ ]
truncate_at-Settled t memory path base len out_of_fuel law at x = elim x [ ]

pub sys_truncate-Settled :
    (t : Tree) (memory : Bool) (path : List ℕ) (len : ℤ) (r : Refs)
    → KeepsRefs t
    → Settled (Broken t memory r path) r (sys_truncate t path len r)
unfolding sys_truncate
sys_truncate-Settled t memory path len r law =
    truncate_at-Settled t memory path r len (vfs_lookup t.space path r) law refl
      (vfs_lookup-Found t.space path r law.lookups)

front-Broken :
    (t : Tree) (memory : Bool) (r : Refs) (path : List ℕ)
    → NullFront t.space path
    → Broken t memory r path
front-Broken t memory r path (null_front front name e n) =
    in_lookup front (before path front name e) n

made-Settled :
    (t : Tree) (memory : Bool) (path : List ℕ) (mode dev : ℕ) (r : Refs)
    → KeepsRefs t
    → Settled (Broken t memory r path) r (vfs_mknod t.space path mode dev r)
made-Settled t memory path mode dev r law =
    stuck-Settled r (vfs_mknod t.space path mode dev r) (front-Broken t memory r path)
      (vfs_mknod-Settled t.space path mode dev r law.lookups law.mknods)

choose-Settled :
    {N : Type 0}
    → (r : Refs) (c : Bool) (a b : Run (Refs × ℤ)) → Settled N r a
    → Settled N r b
    → Settled N r (if c then a else b)
choose-Settled r true a b x y = x
choose-Settled r false a b x y = y

pub sys_mknod-Settled :
    (t : Tree) (memory : Bool) (path : List ℕ) (mode dev : ℕ) (r : Refs)
    → KeepsRefs t
    → Settled (Broken t memory r path) r (sys_mknod t path mode dev r)
unfolding sys_mknod
sys_mknod-Settled t memory path mode dev r law =
    choose-Settled r _ _ _ (settled r (neg 1) (held_none r)) (
      choose-Settled r _ _ _ (made-Settled t memory path (mode + 0o100000) dev r law) (
        choose-Settled r _ _ _ (made-Settled t memory path mode dev r law)
          (settled r (neg 22) (held_none r))))

-- What `sys_stat` leaves: the reference of the inode that it read.
pub data Leaks (N : Type 0) (base : Refs) : Run (Refs × ℤ) → Type 0 where
  leaks : (i : ℕ) (r : Refs) → Holding base (i ∷ []) r → Leaks N base (ok (r, pos 0))
  no_entry : (r : Refs) → Holding base [] r → Leaks N base (ok (r, neg 2))
  leaks_stuck : N → Leaks N base fault

stat_at-Leaks :
    (N : Type 0) (base : Refs) (run : Run (Refs × Option ℕ))
    → Found N base run
    → Leaks N base (run >>= stat_at)
unfolding stat_at
stat_at-Leaks N base (ok (r, some i)) (found _ _ h) = leaks i r h
stat_at-Leaks N base (ok (r, none)) (not_found _ h) = no_entry r h
stat_at-Leaks N base fault (stuck n) = leaks_stuck n
stat_at-Leaks N base panic x = elim x [ ]
stat_at-Leaks N base out_of_fuel x = elim x [ ]

-- Where `lookup` takes a reference of what it finds, a call of `sys_stat` that succeeds leaves one more
-- reference of an inode than before, one that fails leaves the counts of before, and it goes
-- through NULL only where the lookup of its path does.
pub sys_stat-Leaks :
    (t : Tree) (path : List ℕ) (r : Refs)
    → LookupTakes t.space
    → Leaks (Null t.space path) r (sys_stat t path r)
unfolding sys_stat
sys_stat-Leaks t path r law =
    stat_at-Leaks (Null t.space path) r (vfs_lookup t.space path r)
      (vfs_lookup-Found t.space path r law)
