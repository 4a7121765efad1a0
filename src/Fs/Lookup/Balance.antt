-- ===== src/Fs/Lookup/Balance.antt =====
-- The references that `vfs_lookup` takes and gives back.
use ferrite_c.Common.{
  true, false, refl, ℕ, ◌≡◌, inl, inr, Bool, not, ◌&&◌, List, [], ◌∷◌, Option, none, some, ◌==◌,
  length, Run, ok, fault, panic, out_of_fuel, ◌>>=◌, arith, Bool-cases, Option-cases, ◌∙◌,
}
use ferrite_c.Fs.Refs.{
  Refs, get_ref, put_ref, can_get, Holding, get_ref-Holding, put_ref-Holding, swap-Holding,
}
use ferrite_c.Fs.Lookup.{
  Space, is_dir, may, may_exec, cross, arrive, advance, is_last, walk, skip_slashes, is_absolute,
  lookup_from, vfs_lookup, slash,
}
use ferrite_c.Strings.{split}

-- What an operation `lookup` does with the counts: it takes a reference of what it found.
pub data Took (r : Refs) : Refs × Option ℕ → Type 0 where
  took : (i : ℕ) (r' : Refs) → ((j : ℕ) → r' j ≡ get_ref i r j) → Took r (r', some i)
  kept : (r' : Refs) → ((j : ℕ) → r' j ≡ r j) → Took r (r', none)

abbrev pub LookupTakes : Space → Type 0
LookupTakes fs =
    (dir : ℕ) (op : List ℕ → Refs → Refs × Option ℕ)
    → fs.lookup dir ≡ some op
    → (name : List ℕ) (r : Refs) → Took r (op name r)

-- The inode behind a component: the one that was found, or the root of what is mounted on it.
pub data Onto (fs : Space) (new i : ℕ) : Type 0 where
  itself : fs.i_mount new ≡ none → new ≡ i → Onto fs new i
  mounted : fs.i_mount new ≡ some i → Onto fs new i

-- The walk along these components from this inode comes to one that has no `lookup` for a component that is
-- not empty, or to a mount whose root is not to be had. Other components are found, with some counts.
pub data Stops (fs : Space) : List (List ℕ) → ℕ → Type 0 where
  no_lookup :
      (w : List ℕ) (ws : List (List ℕ)) (i : ℕ)
      → (length w == 0) ≡ false
      → fs.lookup i ≡ none
      → Stops fs (w ∷ ws) i
  no_mounted_root :
      (w : List ℕ) (ws : List (List ℕ)) (i new m : ℕ) (op : List ℕ → Refs → Refs × Option ℕ)
      (r r' : Refs)
      → (length w == 0) ≡ false
      → fs.lookup i ≡ some op
      → op w r ≡ (r', some new)
      → fs.i_mount new ≡ some m
      → can_get fs.room m (put_ref i r') ≡ false
      → Stops fs (w ∷ ws) i
  behind :
      (w : List ℕ) (ws : List (List ℕ)) (i new k : ℕ) (op : List ℕ → Refs → Refs × Option ℕ)
      (r r' : Refs)
      → (length w == 0) ≡ false
      → fs.lookup i ≡ some op
      → op w r ≡ (r', some new)
      → Onto fs new k
      → Stops fs ws k
      → Stops fs (w ∷ ws) i
  behind_empty :
      (w : List ℕ) (ws : List (List ℕ)) (i : ℕ)
      → (length w == 0) ≡ true
      → Stops fs ws i
      → Stops fs (w ∷ ws) i

-- The lookup of this path goes through NULL.
pub data Null (fs : Space) (path : List ℕ) : Type 0 where
  from_root :
      (ws : List (List ℕ))
      → is_absolute path ≡ true
      → split fs.can (skip_slashes path) slash ≡ some ws
      → Stops fs ws fs.root
      → Null fs path
  from_pwd :
      (ws : List (List ℕ))
      → is_absolute path ≡ false
      → split fs.can path slash ≡ some ws
      → Stops fs ws fs.pwd
      → Null fs path

-- A call returns an inode with one more reference than before, or NULL with the counts of before, or it
-- goes through NULL, for which N has the reason.
pub data Found (N : Type 0) (base : Refs) : Run (Refs × Option ℕ) → Type 0 where
  found : (i : ℕ) (r : Refs) → Holding base (i ∷ []) r → Found N base (ok (r, some i))
  not_found : (r : Refs) → Holding base [] r → Found N base (ok (r, none))
  stuck : N → Found N base fault

took-Holding :
    (base : Refs) (held : List ℕ) (r r' : Refs) (i : ℕ)
    → Holding base held r
    → ((j : ℕ) → r' j ≡ get_ref i r j)
    → Holding base (i ∷ held) r'
took-Holding base held r r' i h e j = e j ∙ get_ref-Holding base held r i h j

-- A crossing, with a reference of the inode.
data Crossed (fs : Space) (N : Type 0) (base : Refs) (new : ℕ) : Run (Refs × ℕ) → Type 0 where
  crossed :
      (i : ℕ) (r : Refs)
      → Onto fs new i
      → Holding base (i ∷ []) r
      → Crossed fs N base new (ok (r, i))
  no_root : N → Crossed fs N base new fault

cross-Crossed :
    (fs : Space) (N : Type 0) (base : Refs) (new : ℕ) (r : Refs)
    → ((m : ℕ) → fs.i_mount new ≡ some m → can_get fs.room m r ≡ false → N)
    → Holding base (new ∷ []) r
    → Crossed fs N base new (cross fs new r)
unfolding cross
cross-Crossed fs N base new r bad h = elim (Option-cases (fs.i_mount new)) [
  | inl e ↦ rw (cross, e) (crossed new r (itself e refl) h)
  | inr (m, e) ↦ elim (Bool-cases (can_get fs.room m r)) [
    | inl f ↦
        rw (cross, e, f)
          (crossed m _ (mounted e) (
            put_ref-Holding base (m ∷ []) (get_ref m r) new
              (swap-Holding base [] (get_ref m r) m new (get_ref-Holding base (new ∷ []) r m h))))
    | inr f ↦ rw (cross, e, f) (no_root (bad m e f))
  ]
]

-- The other rounds, from wherever there is a reference behind the inode that was found.
abbrev Goes : Space → Type 0 → Refs → (new : ℕ) → (ℕ → Refs → Run (Refs × Option ℕ)) → Type 0
Goes fs N base new rest =
    (i : ℕ) (r : Refs) → Onto fs new i → Holding base (i ∷ []) r → Found N base (rest i r)

arrive-Found :
    (fs : Space) (N : Type 0) (base : Refs) (new : ℕ) (last : Bool)
    (rest : ℕ → Refs → Run (Refs × Option ℕ))
    → Goes fs N base new rest
    → (at : Run (Refs × ℕ)) → Crossed fs N base new at
    → Found N base (at >>= arrive fs last rest)
unfolding arrive
arrive-Found fs N base new last rest go (ok (r, i)) (crossed _ _ on h) =
    elim (Bool-cases (is_dir fs i && (not last && not (may fs i may_exec)))) [
      | inl e ↦ rw e (not_found _ (put_ref-Holding base [] r i h))
      | inr e ↦ rw e (go i r on h)
    ]
arrive-Found fs N base new last rest go fault (no_root n) = stuck n
arrive-Found fs N base new last rest go panic x = elim x [ ]
arrive-Found fs N base new last rest go out_of_fuel x = elim x [ ]

advance-Found :
    (fs : Space) (N : Type 0) (base : Refs) (last : Bool) (rest : ℕ → Refs → Run (Refs × Option ℕ))
    (current : ℕ) (r : Refs) (res : Refs × Option ℕ)
    → ((r' : Refs) (new m : ℕ)
        → res ≡ (r', some new)
        → fs.i_mount new ≡ some m
        → can_get fs.room m (put_ref current r') ≡ false
        → N)
    → ((r' : Refs) (new : ℕ) → res ≡ (r', some new) → Goes fs N base new rest)
    → Holding base (current ∷ []) r
    → Took r res
    → Found N base (advance fs last rest current res)
unfolding advance
advance-Found fs N base last rest current r (r', none) bad go h (kept _ e) =
    not_found _ (put_ref-Holding base [] r' current (λ j. e j ∙ h j))
advance-Found fs N base last rest current r (r', some new) bad go h (took _ _ e) =
    arrive-Found fs N base new last rest (go r' new refl) (cross fs new (put_ref current r')) (
      cross-Crossed fs N base new (put_ref current r') (λ m x y. bad r' new m refl x y)
        (put_ref-Holding base (new ∷ []) r' current
          (swap-Holding base [] r' new current (took-Holding base (current ∷ []) r r' new h e))))

walk-Found :
    (fs : Space) (N : Type 0) (base : Refs) (ws : List (List ℕ)) (current : ℕ) (r : Refs)
    → LookupTakes fs
    → (Stops fs ws current → N)
    → Holding base (current ∷ []) r
    → Found N base (walk fs ws current r)
unfolding walk
walk-Found fs N base [] current r law why h = found current r h
walk-Found fs N base (w ∷ ws) current r law why h = elim (Bool-cases (length w == 0)) [
  | inl e ↦
      rw e (walk-Found fs N base ws current r law (λ s. why (behind_empty w ws current e s)) h)
  | inr e ↦ elim (Option-cases (fs.lookup current)) [
    | inl f ↦ rw (e, f) (stuck (why (no_lookup w ws current e f)))
    | inr (op, f) ↦
        rw (e, f)
          (advance-Found fs N base (is_last ws) (λ i s. walk fs ws i s) current r (op w r)
            (λ r' new m q x y. why (no_mounted_root w ws current new m op r r' e f q x y))
            (λ r' new q i s on k.
              walk-Found fs N base ws i s law
                (λ x. why (behind w ws current new i op r r' e f q on x)) k)
            h (law current op f w r))
  ]
]

lookup_from-Found :
    (fs : Space) (N : Type 0) (start : ℕ) (path : List ℕ) (base : Refs)
    → LookupTakes fs
    → ((ws : List (List ℕ)) → split fs.can path slash ≡ some ws → Stops fs ws start → N)
    → Found N base (lookup_from fs start path base)
unfolding lookup_from
lookup_from-Found fs N start path base law why =
    let none_held : Holding base [] base = λ j. omega arith in
    let one_held = get_ref-Holding base [] base start none_held in
    elim (Bool-cases (length path == 0)) [
      | inl e ↦ elim (Bool-cases (can_get fs.room start base)) [
        | inl f ↦ rw (e, f) (found start _ one_held)
        | inr f ↦ rw (e, f) (not_found base none_held)
      ]
      | inr e ↦ elim (Bool-cases (may fs start may_exec)) [
        | inl m ↦ elim (Option-cases (split fs.can path slash)) [
          | inl s ↦ rw (e, m, s) (not_found base none_held)
          | inr (ws, s) ↦ elim (Bool-cases (can_get fs.room start base)) [
            | inl f ↦
                rw (e, m, s, f)
                  (walk-Found fs N base ws start (get_ref start base) law (λ x. why ws s x)
                    one_held)
            | inr f ↦ rw (e, m, s, f) (not_found base none_held)
          ]
        ]
        | inr m ↦ rw (e, m) (not_found base none_held)
      ]
    ]

-- Where the operations `lookup` take a reference of what they find and no other, a call of `vfs_lookup`
-- takes one reference of the inode that it returns and no other; where it returns NULL every count is as
-- before; and it goes through NULL only where the walk along the components of this path comes to an inode
-- without an operation `lookup` for the next component, or to a mount whose root is not to be had.
pub vfs_lookup-Found :
    (fs : Space) (path : List ℕ) (r : Refs)
    → LookupTakes fs
    → Found (Null fs path) r (vfs_lookup fs path r)
unfolding vfs_lookup
vfs_lookup-Found fs path r law = elim (Bool-cases (length path == 0)) [
  | inl e ↦ rw e (not_found r (λ j. omega arith))
  | inr e ↦ elim (Bool-cases (is_absolute path)) [
    | inl f ↦
        rw (e, f)
          (lookup_from-Found fs (Null fs path) fs.root (skip_slashes path) r law
            (λ ws s x. from_root ws f s x))
    | inr f ↦
        rw (e, f)
          (lookup_from-Found fs (Null fs path) fs.pwd path r law (λ ws s x. from_pwd ws f s x))
  ]
]
