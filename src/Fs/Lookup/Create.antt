-- ===== src/Fs/Lookup/Create.antt =====
-- `dir_namei` and `vfs_mknod`: the references of the directory, and a path with one slash at its head.
use ferrite_c.Common.{
  ℕ, ◌≡◌, ◌≢◌, inl, inr, refl, false, List, [], ◌∷◌, Option, none, some, ◌==◌, length, Run, ok,
  fault, panic, out_of_fuel, ◌>>=◌, arith, Bool-cases, Option-cases, ◌∙◌, has,
}
use ferrite_c.Common.Int.{ℤ, neg}
use ferrite_c.Fs.Refs.{Refs, get_ref, put_ref, Holding, get_ref-Holding, put_ref-Holding}
use ferrite_c.Fs.Lookup.{
  Space, is_dir, may, last_slash, Parent, parent, error, named_in, dir_namei, mknod_in, vfs_mknod,
  vfs_lookup, slash,
}
use ferrite_c.Fs.Lookup.Balance.{
  LookupTakes, Found, found, not_found, stuck, Null, vfs_lookup-Found,
}

-- What an operation `mknod` does with the counts: it gives the reference of the directory back.
abbrev pub MknodPuts : Space → Type 0
MknodPuts fs =
    (dir : ℕ) (op : List ℕ → ℕ → ℕ → Refs → Refs × ℤ)
    → fs.mknod dir ≡ some op
    → (name : List ℕ) (mode dev : ℕ) (r : Refs) (j : ℕ) → (op name mode dev r).0 j ≡ put_ref dir r j

-- The lookup of what stands before the last slash of this path goes through NULL.
pub data NullFront (fs : Space) (path : List ℕ) : Type 0 where
  null_front :
      (front name : List ℕ)
      → last_slash path ≡ some (front, name)
      → Null fs front
      → NullFront fs path

-- A directory with one more reference, or an error with the counts of before; N says why NULL is read.
pub data Named (N : Type 0) (base : Refs) : Run (Refs × Parent) → Type 0 where
  named :
      (dir : ℕ) (name : List ℕ) (r : Refs)
      → Holding base (dir ∷ []) r
      → Named N base (ok (r, parent dir name))
  refused : (e : ℤ) (r : Refs) → Holding base [] r → Named N base (ok (r, error e))
  stuck_there : N → Named N base fault

-- A call with the counts of before, whatever its result.
pub data Settled (N : Type 0) (base : Refs) : Run (Refs × ℤ) → Type 0 where
  settled : (r : Refs) (result : ℤ) → Holding base [] r → Settled N base (ok (r, result))
  stuck_at : N → Settled N base fault

named_in-Named :
    (fs : Space) (N : Type 0) (base r : Refs) (name : List ℕ) (run : Run (Refs × Option ℕ))
    → Found N r run
    → Holding base (fs.root ∷ []) r
    → Named N base (run >>= named_in fs name)
unfolding named_in
named_in-Named fs N base r name (ok (r1, some dir)) (found _ _ h) k =
    let held : Holding base (fs.root ∷ dir ∷ []) r1 = λ j. omega (arith, h j, k j) in
    let put = put_ref-Holding base (dir ∷ []) r1 fs.root held in
    elim (Bool-cases (is_dir fs dir)) [
      | inl e ↦ rw e (named dir name _ put)
      | inr e ↦ rw e (refused (neg 20) _ (put_ref-Holding base [] (put_ref fs.root r1) dir put))
    ]
named_in-Named fs N base r name (ok (r1, none)) (not_found _ h) k =
    refused (neg 2) _ (put_ref-Holding base [] r1 fs.root (λ j. omega (arith, h j, k j)))
named_in-Named fs N base r name fault (stuck n) k = stuck_there n
named_in-Named fs N base r name panic x k = elim x [ ]
named_in-Named fs N base r name out_of_fuel x k = elim x [ ]

pub stuck-Named :
    {N M : Type 0}
    → (base : Refs) (run : Run (Refs × Parent)) → (N → M)
    → Named N base run
    → Named M base run
stuck-Named base (ok (r, error e)) f (refused _ _ h) = refused e r h
stuck-Named base (ok (r, parent dir name)) f (named _ _ _ h) = named dir name r h
stuck-Named base fault f (stuck_there n) = stuck_there (f n)
stuck-Named base panic f x = elim x [ ]
stuck-Named base out_of_fuel f x = elim x [ ]

dir_namei-Named :
    (fs : Space) (path : List ℕ) (base : Refs)
    → LookupTakes fs
    → Named (NullFront fs path) base (dir_namei fs path base)
unfolding dir_namei
dir_namei-Named fs path base law =
    let h = get_ref-Holding base [] base fs.root (λ j. omega arith) in
    elim (Option-cases (last_slash path)) [
      | inl e ↦ rw (dir_namei, e) (named fs.root path _ h)
      | inr ((front, name), e) ↦ elim (Bool-cases (length name == 0)) [
        | inl f ↦
            rw (dir_namei, e, f)
              (refused (neg 21) _ (put_ref-Holding base [] (get_ref fs.root base) fs.root h))
        | inr f ↦
            rw (dir_namei, e, f)
              (stuck-Named base _ (λ n. null_front front name e n)
                (named_in-Named fs (Null fs front) base (get_ref fs.root base) name
                  (vfs_lookup fs front (get_ref fs.root base))
                  (vfs_lookup-Found fs front (get_ref fs.root base) law) h))
      ]
    ]

mknod_in-Settled :
    (fs : Space) (N : Type 0) (base : Refs) (mode dev : ℕ) (run : Run (Refs × Parent))
    → MknodPuts fs
    → Named N base run
    → Settled N base (run >>= mknod_in fs mode dev)
unfolding mknod_in
mknod_in-Settled fs N base mode dev (ok (r, error e)) law (refused _ _ h) = settled r e h
mknod_in-Settled fs N base mode dev (ok (r, parent dir name)) law (named _ _ _ h) =
    let put = put_ref-Holding base [] r dir h in
    elim (Bool-cases (length name == 0)) [
      | inl e ↦ rw e (settled _ (neg 2) put)
      | inr e ↦ elim (Bool-cases (may fs dir 3)) [
        | inr m ↦ rw (e, m) (settled _ (neg 13) put)
        | inl m ↦ elim (Option-cases (fs.mknod dir)) [
          | inl f ↦ rw (e, m, f) (settled _ (neg 1) put)
          | inr (op, f) ↦
              rw (e, m, f)
                (settled (op name mode dev r).0 (op name mode dev r).1
                  (λ j. law dir op f name mode dev r j ∙ put j))
        ]
      ]
    ]
mknod_in-Settled fs N base mode dev fault law (stuck_there n) = stuck_at n
mknod_in-Settled fs N base mode dev panic law x = elim x [ ]
mknod_in-Settled fs N base mode dev out_of_fuel law x = elim x [ ]

-- Where `lookup` takes a reference of what it finds and `mknod` gives that of the directory back, a call
-- of `vfs_mknod` leaves every count as it was, whatever its result, or goes through NULL in the lookup of
-- what stands before the last slash of the path.
pub vfs_mknod-Settled :
    (fs : Space) (path : List ℕ) (mode dev : ℕ) (r : Refs)
    → LookupTakes fs
    → MknodPuts fs
    → Settled (NullFront fs path) r (vfs_mknod fs path mode dev r)
unfolding vfs_mknod
vfs_mknod-Settled fs path mode dev r law puts =
    mknod_in-Settled fs (NullFront fs path) r mode dev (dir_namei fs path r) puts
      (dir_namei-Named fs path r law)

last_slash-none : (name : List ℕ) → has slash name ≡ false → last_slash name ≡ none
unfolding last_slash
last_slash-none [] e = refl
last_slash-none (x ∷ xs) e = elim (Bool-cases (x == slash)) [
  | inl f ↦ absurd (ground arith)
  | inr f ↦ rw (last_slash-none xs (ground arith), f) refl
]

last_slash-head :
    (name : List ℕ) → has slash name ≡ false → last_slash (slash ∷ name) ≡ some ([], name)
unfolding last_slash
last_slash-head name e = rw (last_slash-none name e) refl

-- A path of a slash and a name without one, not empty, as that of every node in the root directory: what is looked up
-- for the directory is the empty path, so that the call is refused with ENOENT, whatever the file system.
pub mknod_in_root :
    (fs : Space) (name : List ℕ) (mode dev : ℕ) (r : Refs)
    → has slash name ≡ false
    → length name ≢ 0
    → vfs_mknod fs (slash ∷ name) mode dev r ≡ ok (put_ref fs.root (get_ref fs.root r), neg 2)
unfolding vfs_mknod dir_namei vfs_lookup named_in mknod_in
mknod_in_root fs name mode dev r e n =
    let z : (length name == 0) ≡ false = ground arith in
    rw (dir_namei, last_slash-head name e, z) refl
