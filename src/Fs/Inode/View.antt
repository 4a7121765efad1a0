-- ===== src/Fs/Inode/View.antt =====
-- The inode cache as its callers see it: the counts of Fs/Refs.
use ferrite_c.Common.{
  ℕ, ◌+◌, ◌^◌, ◌<◌, ◌≡◌, ◌≢◌, inl, inr, refl, ap, sym, ◌∙◌, Bool, true, false, ◌&&◌, List, [], ◌∷◌,
  Option, none, some, ◌==◌, get_elem?, arith, Bool-cases, Run, ok, fault, panic, out_of_fuel,
}
use ferrite_c.Fs.Refs.{Refs, get_ref, put_ref, can_get, try_get, one}
use ferrite_c.Fs.Inode.{Inode, Super, holds, inode_get, inode_put}
use ferrite_c.Fs.Inode.Counts.{refs, copies, AllUsed, IsCoherent, one_at}
use ferrite_c.Fs.Inode.Get.{Got, no_slot, got, inode_get-Got}
use ferrite_c.Fs.Inode.Put.{Put, put, root_released, no_super, inode_put-Put}

-- Every inode of a superblock under a number of its own.
pub record Naming : Type 0 where
  pub sb_of : ℕ → ℕ
  pub ino_of : ℕ → ℕ
  pub real : (i : ℕ) → sb_of i ≢ 0
  pub distinct : (i j : ℕ) → sb_of i ≡ sb_of j → ino_of i ≡ ino_of j → i ≡ j

abbrev pub view : Naming → List Inode → Refs
view nm xs i = refs (nm.sb_of i) (nm.ino_of i) xs

one_at_is :
    (nm : Naming) (i j : ℕ) → one_at (nm.sb_of i) (nm.ino_of i) (nm.sb_of j) (nm.ino_of j) ≡ one i j
one_at_is nm i j = elim (Bool-cases (i == j)) [
  | inl e ↦ let s : i ≡ j = ground arith in rw s (ground arith)
  | inr e ↦ elim (Bool-cases (nm.sb_of i == nm.sb_of j && nm.ino_of i == nm.ino_of j)) [
    | inr f ↦ rw (e, f) refl
    | inl f ↦
        let a : nm.sb_of i ≡ nm.sb_of j = ground arith in
        let b : nm.ino_of i ≡ nm.ino_of j = ground arith in
        let s = nm.distinct i j a b in absurd (ground arith)
  ]
]

refs_of_none : (sb ino : ℕ) (xs : List Inode) → copies sb ino xs ≡ 0 → refs sb ino xs ≡ 0
unfolding refs copies
refs_of_none sb ino [] h = refl
refs_of_none sb ino (x ∷ xs) h = elim (Bool-cases (holds sb ino x)) [
  | inl e ↦ absurd (ground arith)
  | inr e ↦ let rest = refs_of_none sb ino xs (ground arith) in ground arith
]

-- A call of `inode_get` and one of `try_get` with the same result and the same counts behind it.
pub data SameGet (nm : Naming) (i : ℕ) (xs : List Inode)
    : Run (Option (ℕ × List Inode)) → Refs × Option ℕ → Type 0 where
  both_null : AllUsed xs → SameGet nm i xs (ok none) (view nm xs, none)
  both_got :
      (slot : ℕ) (ys : List Inode) (x : Inode) (r : Refs)
      → get_elem? ys slot ≡ some x
      → holds (nm.sb_of i) (nm.ino_of i) x ≡ true
      → IsCoherent ys
      → ((j : ℕ) → view nm ys j ≡ r j)
      → SameGet nm i xs (ok (some (slot, ys))) (r, some i)

counted :
    (nm : Naming) (i j : ℕ) (xs ys : List Inode)
    → view nm ys j ≡ view nm xs j + one i j
    → view nm ys j ≡ get_ref i (view nm xs) j
counted nm i j xs ys e = elim (Bool-cases (i == j)) [
  | inl s ↦ let k : i ≡ j = ground arith in rw (s, k) (e ∙ rw k (ground arith))
  | inr s ↦ rw s (e ∙ rw s (omega arith))
]

Got-SameGet :
    (nm : Naming) (i : ℕ) (xs : List Inode) (run : Run (Option (ℕ × List Inode)))
    → Got (nm.sb_of i) (nm.ino_of i) xs run
    → (room : Bool) × SameGet nm i xs run (try_get (λ r. room) i (view nm xs))
Got-SameGet nm i xs (ok none) (no_slot c used) =
    let e = refs_of_none (nm.sb_of i) (nm.ino_of i) xs c in (false, rw e (both_null used))
Got-SameGet nm i xs (ok (some (slot, ys))) (got _ _ x at here n count co) =
    let t : can_get (λ r. true) i (view nm xs) ≡ true = ground arith in
    (
      true,
      rw t (
          both_got slot ys x _ at here co (λ j.
            let c = count (nm.sb_of j) (nm.ino_of j) in
            let o = one_at_is nm i j in counted nm i j xs ys (c ∙ ap (λ n. view nm xs j + n) o))),
    )
Got-SameGet nm i xs fault x = elim x [ ]
Got-SameGet nm i xs panic x = elim x [ ]
Got-SameGet nm i xs out_of_fuel x = elim x [ ]

-- What a call of `inode_put` does to the counts, or why it does not return.
pub data SamePut (nm : Naming) (s : Super) (i slot : ℕ) (x : Inode) (xs : List Inode)
    : Run (List Inode) → Type 0 where
  both_put :
      (ys : List Inode)
      → IsCoherent ys
      → ((j : ℕ) → view nm ys j ≡ put_ref i (view nm xs) j)
      → SamePut nm s i slot x xs (ok ys)
  last_of_root : x.i_count ≡ 1 → s.s_root_node x.i_sb ≡ slot → SamePut nm s i slot x xs panic

uncounted :
    (nm : Naming) (i j : ℕ) (xs ys : List Inode)
    → view nm ys j + one i j ≡ view nm xs j
    → view nm ys j ≡ put_ref i (view nm xs) j
uncounted nm i j xs ys e = elim (Bool-cases (i == j)) [
  | inl s ↦
      let k : i ≡ j = ground arith in
      let v : view nm xs i ≡ view nm xs j = ap (view nm xs) k in
      let n : one i j ≡ 1 = rw s refl in rw s (omega (arith, e, v, n))
  | inr s ↦ rw s (ground arith)
]

Put-SamePut :
    (nm : Naming) (s : Super) (i slot : ℕ) (x : Inode) (xs : List Inode) (run : Run (List Inode))
    → x.i_sb ≡ nm.sb_of i
    → x.i_ino ≡ nm.ino_of i
    → Put s slot x xs run
    → SamePut nm s i slot x xs run
Put-SamePut nm s i slot x xs (ok ys) a b (put _ count co) = both_put ys co (λ j.
    let c = count (nm.sb_of j) (nm.ino_of j) in
    let o = one_at_is nm i j in
    uncounted nm i j xs ys (ap (λ n. view nm ys j + n) (sym o ∙ rw (sym a, sym b) refl) ∙ c))
Put-SamePut nm s i slot x xs panic a b (root_released c r) = last_of_root c r
Put-SamePut nm s i slot x xs fault a b (no_super c z) = absurd (nm.real i (sym a ∙ z))
Put-SamePut nm s i slot x xs out_of_fuel a b y = elim y [ ]

-- `inode_get` on a coherent cache, for an inode with less than 65535 references, is `try_get` on the counts:
-- both return NULL, which the call does only where every slot is in use and the inode is not cached, or both
-- return the inode and the counts behind the calls are the same.
pub inode_get-try_get :
    (nm : Naming) (s : Super) (i : ℕ) (xs : List Inode)
    → IsCoherent xs
    → view nm xs i + 1 < 2 ^ 16
    → (room : Bool) × SameGet nm i xs
        (inode_get s (nm.sb_of i) (nm.ino_of i) xs)
        (try_get (λ r. room) i (view nm xs))
inode_get-try_get nm s i xs co small =
    Got-SameGet nm i xs (inode_get s (nm.sb_of i) (nm.ino_of i) xs)
      (inode_get-Got s (nm.sb_of i) (nm.ino_of i) xs co (nm.real i) small)

-- `inode_put` on a coherent cache, of a slot that holds the inode with a reference, is `put_ref` on the
-- counts, unless it aborts on the last reference of a root.
pub inode_put-put_ref :
    (nm : Naming) (s : Super) (i slot : ℕ) (x : Inode) (xs : List Inode)
    → get_elem? xs slot ≡ some x
    → x.i_sb ≡ nm.sb_of i
    → x.i_ino ≡ nm.ino_of i
    → IsCoherent xs
    → x.i_count ≢ 0
    → SamePut nm s i slot x xs (inode_put s (some slot) xs)
inode_put-put_ref nm s i slot x xs at a b co used =
    Put-SamePut nm s i slot x xs (inode_put s (some slot) xs) a b
      (inode_put-Put s slot x xs at co used)
