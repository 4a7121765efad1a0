-- ===== src/Fs/Calls/Keep.antt =====
-- The references that the calls on paths take and give back.
use ferrite_c.Common.{
  ◌<◌, ℕ, ◌≡◌, inl, inr, refl, Bool, false, List, [], ◌∷◌, Option, none, some, ◌==◌, length, Run,
  ok, fault, panic, out_of_fuel, ◌>>=◌, arith, Bool-cases, Option-cases, ◌∙◌,
}
use ferrite_c.Common.Int.{ℤ, neg}
use ferrite_c.Fs.Refs.{Refs, put_ref, can_get, Holding, get_ref-Holding, put_ref-Holding}
use ferrite_c.Fs.Lookup.{may, last_slash, Parent, parent, error, vfs_lookup}
use ferrite_c.Fs.Lookup.Balance.{
  LookupTakes, Found, found, not_found, stuck, Null, vfs_lookup-Found,
}
use ferrite_c.Fs.Lookup.Create.{
  MknodPuts, Named, named, refused, stuck_there, stuck-Named, Settled, settled, stuck_at,
}
use ferrite_c.Fs.Calls.{Tree, parent_path, vfs_normalize_path, found_parent, find_parent, edit}

-- What the operations do with the counts. `ext2_mkdir` does not meet this where its `ext2_new_block`, the
-- write of the block or the second write of the inode fails: it keeps a reference of the new inode then.
pub record KeepsRefs (t : Tree) : Type 0 where
  pub lookups : LookupTakes t.space
  pub mknods : MknodPuts t.space
  pub mkdirs :
      (i : ℕ) (op : ℕ → List ℕ → ℕ → Refs → Refs × ℤ)
      → t.mkdir i ≡ some op
      → (dir : ℕ) (name : List ℕ) (mode : ℕ) (r : Refs) (j : ℕ) → (op dir name mode r).0 j ≡ r j
  pub rmdirs :
      (i : ℕ) (op : ℕ → List ℕ → ℕ → Refs → Refs × ℤ)
      → t.rmdir i ≡ some op
      → (dir : ℕ) (name : List ℕ) (mode : ℕ) (r : Refs) (j : ℕ) → (op dir name mode r).0 j ≡ r j
  pub unlinks :
      (i : ℕ) (op : ℕ → List ℕ → ℕ → Refs → Refs × ℤ)
      → t.unlink i ≡ some op
      → (dir : ℕ) (name : List ℕ) (mode : ℕ) (r : Refs) (j : ℕ) → (op dir name mode r).0 j ≡ r j
  pub truncates :
      (i : ℕ) (op : ℕ → ℤ → Refs → Refs × ℤ)
      → t.truncate i ≡ some op
      → (node : ℕ) (len : ℤ) (r : Refs) (j : ℕ) → (op node len r).0 j ≡ r j

-- The paths that a call with this path looks up: the path itself, or without the slashes at its end, and
-- that of the parent of either.
pub data Looked : List ℕ → List ℕ → Type 0 where
  itself : (path : List ℕ) → Looked path path
  parent_of :
      (path front name : List ℕ)
      → last_slash path ≡ some (front, name)
      → Looked path (parent_path front)
  before : (path front name : List ℕ) → last_slash path ≡ some (front, name) → Looked path front
  clean_of :
      (path clean p : List ℕ)
      → vfs_normalize_path path 256 ≡ some clean
      → Looked clean p
      → Looked path p

-- Why a call with this path goes through NULL: in a lookup of one of its paths, for want of memory for that
-- of the parent, or at the inode of the path, which has no `i_op`.
pub data Broken (t : Tree) (memory : Bool) (base : Refs) (path : List ℕ) : Type 0 where
  in_lookup : (p : List ℕ) → Looked path p → Null t.space p → Broken t memory base path
  no_memory :
      (clean front name : List ℕ)
      → vfs_normalize_path path 256 ≡ some clean
      → last_slash clean ≡ some (front, name)
      → memory ≡ false
      → Broken t memory base path
  no_i_op :
      (r : Refs) (node : ℕ)
      → vfs_lookup t.space path base ≡ ok (r, some node)
      → t.has_i_op node ≡ false
      → Broken t memory base path

pub held_none : (r : Refs) → Holding r [] r
held_none r j = omega arith

pub put_after :
    (base r r' : Refs) (i : ℕ)
    → Holding base (i ∷ []) r
    → ((j : ℕ) → r' j ≡ r j)
    → Holding base [] (put_ref i r')
put_after base r r' i h e = put_ref-Holding base [] r' i (λ j. e j ∙ h j)

found_parent-Named :
    (N : Type 0) (base : Refs) (missing : ℤ) (name : List ℕ) (run : Run (Refs × Option ℕ))
    → Found N base run
    → Named N base (run >>= found_parent missing name)
unfolding found_parent
found_parent-Named N base missing name (ok (r, some i)) (found _ _ h) = named i name r h
found_parent-Named N base missing name (ok (r, none)) (not_found _ h) = refused missing r h
found_parent-Named N base missing name fault (stuck n) = stuck_there n
found_parent-Named N base missing name panic x = elim x [ ]
found_parent-Named N base missing name out_of_fuel x = elim x [ ]

pub find_parent-Named :
    (t : Tree) (memory : Bool) (missing : ℤ) (path clean : List ℕ) (base r : Refs)
    → KeepsRefs t
    → vfs_normalize_path path 256 ≡ some clean
    → 0 < r t.space.pwd
    → Named (Broken t memory base path) r (find_parent t memory missing clean r)
unfolding find_parent
find_parent-Named t memory missing path clean base r law is_clean held =
    elim (Option-cases (last_slash clean)) [
      | inl e ↦ elim (Bool-cases (can_get t.space.room t.space.pwd r)) [
        | inl g ↦
            rw (find_parent, e, g)
              (named t.space.pwd clean _ (get_ref-Holding r [] r t.space.pwd (held_none r)))
        | inr g ↦ absurd (ground arith)
      ]
      | inr ((front, name), e) ↦ elim (Bool-cases memory) [
        | inl m ↦
            rw (find_parent, e, m)
              (stuck-Named r _
                (λ n.
                  in_lookup (parent_path front)
                    (clean_of path clean (parent_path front) is_clean
                      (parent_of clean front name e))
                    n)
                (found_parent-Named (Null t.space (parent_path front)) r missing name
                  (vfs_lookup t.space (parent_path front) r)
                  (vfs_lookup-Found t.space (parent_path front) r law.lookups)))
        | inr m ↦ rw (find_parent, e, m) (stuck_there (no_memory clean front name is_clean e refl))
      ]
    ]

pub edit-Settled :
    (t : Tree) (N : Type 0) (base : Refs) (op : ℕ → Option (ℕ → List ℕ → ℕ → Refs → Refs × ℤ))
    (mode : ℕ) (run : Run (Refs × Parent))
    → ((i : ℕ) (f : ℕ → List ℕ → ℕ → Refs → Refs × ℤ)
        → op i ≡ some f
        → (dir : ℕ) (name : List ℕ) (mode : ℕ) (r : Refs) (j : ℕ) → (f dir name mode r).0 j ≡ r j)
    → Named N base run
    → Settled N base (run >>= edit t op mode)
unfolding edit
edit-Settled t N base op mode (ok (r, error e)) law (refused _ _ h) = settled r e h
edit-Settled t N base op mode (ok (r, parent dir name)) law (named _ _ _ h) =
    let put = put_ref-Holding base [] r dir h in
    elim (Bool-cases (length name == 0)) [
      | inl e ↦ rw e (settled _ (neg 17) put)
      | inr e ↦ elim (Bool-cases (may t.space dir 3)) [
        | inr m ↦ rw (e, m) (settled _ (neg 13) put)
        | inl m ↦ elim (Option-cases (op dir)) [
          | inl f ↦ rw (e, m, f) (settled _ (neg 20) put)
          | inr (f, o) ↦
              rw (e, m, o)
                (settled _ (f dir name mode r).1
                  (put_after base r (f dir name mode r).0 dir h (law dir f o dir name mode r)))
        ]
      ]
    ]
edit-Settled t N base op mode fault law (stuck_there n) = stuck_at n
edit-Settled t N base op mode panic law x = elim x [ ]
edit-Settled t N base op mode out_of_fuel law x = elim x [ ]
