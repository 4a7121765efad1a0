-- ===== src/Fs/Ext2/Namei/Take.antt =====
-- The references that `ext2_create`, `ext2_lookup` and `ext2_mknod` take and give back.
use ferrite_c.Common.{
  zero, suc, ℕ, ◌+◌, ◌≡◌, inl, inr, refl, Bool, true, false, List, [], ◌∷◌, Option, none, some,
  ◌==◌, Run, ok, fault, arith, Bool-cases, Option-cases, ◌∙◌,
}
use ferrite_c.Common.Int.{ℤ, pos, negsuc, ltb_zero, eqb_ℤ}
use ferrite_c.Sys.Cred.{Cred}
use ferrite_c.Fs.Refs.{Refs, put_ref, can_get, Holding, put_ref-Holding}
use ferrite_c.Fs.Lookup.Balance.{Took, took, kept}
use ferrite_c.Fs.Files.Find.{Created, created, uncreated, lost}
use ferrite_c.Fs.Ext2.Namei.{
  file_operations, Disk, Callees, set_meta, format, ext2_lookup, entered, fill_new, ext2_create,
  listed, filled, fill_node, ext2_mknod,
}

-- What `ext2_new_inode` does with the counts.
pub data Gains (base : Refs) : Disk × Option ℕ × ℤ → Type 0 where
  gained :
      (node : ℕ) (s : Disk) (err : ℤ)
      → Holding base (node ∷ []) s.refs
      → Gains base (s, some node, err)
  gained_none : (s : Disk) (err : ℤ) → Holding base [] s.refs → Gains base (s, none, err)

-- What the functions of the other files do with the counts.
pub record KeepsCallees (io : Callees) : Type 0 where
  pub new_inodes : (dir mode : ℕ) (s : Disk) → Gains s.refs (io.new_inode dir mode s)
  pub new_blocks : (dir : ℕ) (s : Disk) (j : ℕ) → (io.new_block dir s).0.refs j ≡ s.refs j
  pub write_entries :
      (dir : ℕ) (name : List ℕ) (node : ℕ) (s : Disk) (j : ℕ)
      → (io.write_entry dir name node s).0.refs j ≡ s.refs j
  pub free_inodes : (node : ℕ) (s : Disk) (j : ℕ) → (io.free_inode node s).refs j ≡ s.refs j

-- The counts, the result and the inode of `ext2_create`, as `create` has them in Fs/Files.
abbrev pub as_create : Disk × ℤ × Option ℕ → Refs × ℤ × Option ℕ
as_create (s, e, node) = (s.refs, e, node)

-- Either the result 0 with an inode, of which there is one more reference, or no inode and the counts of
-- before.
pub data Creation (base : Refs) : Disk × ℤ × Option ℕ → Type 0 where
  made : (new : ℕ) (s : Disk) → Holding base (new ∷ []) s.refs → Creation base (s, pos 0, some new)
  not_made : (s : Disk) (e : ℤ) → Holding base [] s.refs → Creation base (s, e, none)

freed-Holding :
    (io : Callees) (base : Refs) (node : ℕ) (s : Disk)
    → KeepsCallees io
    → Holding base (node ∷ []) s.refs
    → Holding base [] (put_ref node (io.free_inode node s).refs)
freed-Holding io base node s law h =
    put_ref-Holding base [] (io.free_inode node s).refs node (λ j. law.free_inodes node s j ∙ h j)

entered-Creation :
    (io : Callees) (base : Refs) (dir new : ℕ) (res : Disk × ℤ)
    → KeepsCallees io
    → Holding base (new ∷ []) res.0.refs
    → Creation base (entered io dir new res)
unfolding entered
entered-Creation io base dir new (s, negsuc n) law h =
    not_made _ (pos (n + 1)) (freed-Holding io base new s law h)
entered-Creation io base dir new (s, pos n) law h =
    elim (Bool-cases (ltb_zero (io.write_inode dir s))) [
      | inl e ↦ rw e (not_made _ (io.write_inode dir s) (put_ref-Holding base [] s.refs new h))
      | inr e ↦ rw e (made new s h)
    ]

fill_new-Creation :
    (io : Callees) (base : Refs) (dir : ℕ) (name : List ℕ) (res : Disk × Option ℕ × ℤ)
    → KeepsCallees io
    → Gains base res
    → Creation base (fill_new io dir name res)
unfolding fill_new
fill_new-Creation io base dir name (s, none, err) law (gained_none _ _ h) = not_made s err h
fill_new-Creation io base dir name (s, some new, err) law (gained _ _ _ h) =
    let s1 = set_meta new (record (s.meta new) { i_op = file_operations }) s in
    elim (Bool-cases (ltb_zero (io.write_inode new s1))) [
      | inl e ↦ rw e (not_made _ (io.write_inode new s1) (freed-Holding io base new s1 law h))
      | inr e ↦ rw e (
          entered-Creation io base dir new (io.write_entry dir name new s1) law
            (λ j. law.write_entries dir name new s1 j ∙ h j))
    ]

-- Every call of `ext2_create` either returns 0 with an inode, of which it has taken one reference, and changes
-- no other count, or it returns no inode and leaves the counts of before.
pub ext2_create-Creation :
    (io : Callees) (dir : ℕ) (name : List ℕ) (mode : ℕ) (s : Disk)
    → KeepsCallees io
    → Creation s.refs (ext2_create io dir name mode s)
unfolding ext2_create
ext2_create-Creation io dir name mode s law =
    fill_new-Creation io s.refs dir name (io.new_inode dir mode s) law (law.new_inodes dir mode s)

Creation-Created :
    (base : Refs) (res : Disk × ℤ × Option ℕ) → Creation base res → Created base (as_create res)
Creation-Created base (s, pos zero, some new) (made _ _ h) =
    created new s.refs 0 (λ j. let k = h j in let k' = h new in ground arith)
Creation-Created base (s, pos n, none) (not_made _ _ h) = lost s.refs n (λ j. omega (arith, h j))
Creation-Created base (s, negsuc n, none) (not_made _ _ h) =
    uncreated s.refs n none (λ j. omega (arith, h j))
Creation-Created base (s, pos (suc n), some new) x = elim x [ ]
Creation-Created base (s, negsuc n, some new) x = elim x [ ]

-- `ext2_create` is a `create` as `sys_open` relies on it.
pub ext2_create-Created :
    (io : Callees) (dir : ℕ) (name : List ℕ) (mode : ℕ) (s : Disk)
    → KeepsCallees io
    → Created s.refs (as_create (ext2_create io dir name mode s))
ext2_create-Created io dir name mode s law =
    Creation-Created s.refs (ext2_create io dir name mode s)
      (ext2_create-Creation io dir name mode s law)

-- `ext2_lookup` is a `lookup` as `vfs_lookup` relies on it: it takes one reference of the inode that it
-- returns, and where it returns an error the counts are as before.
pub ext2_lookup-Took :
    (io : Callees) (room : Refs → Bool) (node : ℕ) (name : List ℕ) (s : Disk)
    → Took s.refs (ext2_lookup io room node name s)
unfolding ext2_lookup
ext2_lookup-Took io room node name s = elim (Bool-cases (format (s.meta node).i_mode == 4)) [
  | inr e ↦ rw (ext2_lookup, e) (kept s.refs (λ j. refl))
  | inl e ↦ elim (Option-cases (io.find_entry node name s)) [
    | inl f ↦ rw (ext2_lookup, e, f) (kept s.refs (λ j. refl))
    | inr (i, f) ↦ elim (Bool-cases (can_get room i s.refs)) [
      | inl g ↦ rw (ext2_lookup, e, f, g) (took i _ (λ j. refl))
      | inr g ↦ rw (ext2_lookup, e, f, g) (kept s.refs (λ j. refl))
    ]
  ]
]

-- A call that gives the reference of the directory back and changes no other count, or writes through NULL
-- for want of memory.
pub data Given (base : Refs) (dir : ℕ) (memory : Bool) : Run (Disk × ℤ) → Type 0 where
  given :
      (s : Disk) (e : ℤ)
      → ((j : ℕ) → s.refs j ≡ put_ref dir base j)
      → Given base dir memory (ok (s, e))
  given_none : memory ≡ false → Given base dir memory fault

listed-Given :
    (base : Refs) (memory : Bool) (dir node : ℕ) (res : Disk × ℤ)
    → Holding base (node ∷ []) res.0.refs
    → Given base dir memory (ok (listed dir node res))
unfolding listed
listed-Given base memory dir node (s, e) h = elim (Bool-cases (eqb_ℤ e (pos 0))) [
  | inl z ↦
      rw z (given _ _ (λ j. let k = h j in let k' = h node in let k'' = h dir in ground arith))
  | inr z ↦
      rw z (given _ _ (λ j. let k = h j in let k' = h node in let k'' = h dir in ground arith))
]

fill_node-Given :
    (io : Callees) (base : Refs) (caller : Cred) (memory : Bool) (dir : ℕ) (name : List ℕ)
    (mode rdev : ℕ) (res : Disk × Option ℕ × ℤ)
    → KeepsCallees io
    → Gains base res
    → Given base dir memory (fill_node io caller memory dir name mode rdev res)
unfolding fill_node
fill_node-Given io base caller memory dir name mode rdev (s, none, err) law (gained_none _ _ h) =
    given _ _ (λ j. let k = h j in let k' = h dir in ground arith)
fill_node-Given io base caller memory dir name mode rdev (s, some node, err) law (gained _ _ _ h) =
    let x = filled caller (s.meta dir).i_mode mode rdev (s.meta node) in
    let s1 = set_meta node x.0 s in
    elim (Bool-cases x.1) [
      | inl e ↦
          rw e (given _ _ (λ j. let k = h j in let k' = h node in let k'' = h dir in ground arith))
      | inr e ↦ elim (Bool-cases memory) [
        | inr m ↦ rw (e, m) (given_none refl)
        | inl m ↦
            rw (e, m)
              (listed-Given base true dir node (io.write_entry dir name node s1)
                (λ j. law.write_entries dir name node s1 j ∙ h j))
      ]
    ]

-- Every call of `ext2_mknod`, whatever its result, gives the reference of the directory back and changes no
-- other count, as `vfs_mknod` relies on it, or it writes through NULL where there is no memory for the entry.
pub ext2_mknod-Given :
    (io : Callees) (caller : Cred) (memory : Bool) (dir : ℕ) (name : List ℕ) (mode rdev : ℕ)
    (s : Disk)
    → KeepsCallees io
    → Given s.refs dir memory (ext2_mknod io caller memory dir name mode rdev s)
unfolding ext2_mknod
ext2_mknod-Given io caller memory dir name mode rdev s law =
    elim (Option-cases (io.find_entry dir name s)) [
      | inr (i, e) ↦ rw (ext2_mknod, e) (given _ _ (λ j. refl))
      | inl e ↦
          rw (ext2_mknod, e)
            (fill_node-Given io s.refs caller memory dir name mode rdev (io.new_inode dir mode s)
              law (law.new_inodes dir mode s))
    ]
