-- ===== src/Fs/Refs.antt =====
-- The reference counts of the inodes, as the callers of the inode cache see them.
--
-- An inode is named by a number that stands for its superblock and its number there; `Refs` has the
-- counts, which stay below 2 ^ 16. This is the abstract view of Fs/Inode: `inode_get` takes a reference of
-- an inode that is cached or for which the cache has a free slot, which `room` says of the counts, and
-- `inode_put` gives one back, and changes nothing where there is none.
use ferrite_c.Common.{
  ◌<◌, ℕ, ◌+◌, ◌-◌, ◌≡◌, Bool, not, ◌||◌, List, [], ◌∷◌, Option, none, some, ◌==◌, if◌then◌else◌,
  update, arith,
}

abbrev pub Refs : Type 0
Refs = ℕ → ℕ

abbrev pub get_ref : (i : ℕ) → Refs → Refs
get_ref i r = update r i (r i + 1)

abbrev pub put_ref : (i : ℕ) → Refs → Refs
put_ref i r = update r i (r i - 1)

-- Whether `inode_get` returns the inode.
abbrev pub can_get : (room : Refs → Bool) → (i : ℕ) → Refs → Bool
can_get room i r = not (r i == 0) || room r

abbrev pub try_get : (room : Refs → Bool) → (i : ℕ) → Refs → Refs × Option ℕ
try_get room i r = if can_get room i r then (get_ref i r, some i) else (r, none)

abbrev pub one : (i j : ℕ) → ℕ
one i j = if i == j then 1 else 0

abbrev pub count : (j : ℕ) → List ℕ → ℕ
count j [] = 0
count j (i ∷ is) = one i j + count j is

-- The counts are those of `base`, and besides the references that are held.
abbrev pub Holding : (base : Refs) → (held : List ℕ) → Refs → Type 0
Holding base held r = (j : ℕ) → r j ≡ base j + count j held

pub get_ref-Holding :
    (base : Refs) (held : List ℕ) (r : Refs) (i : ℕ)
    → Holding base held r
    → Holding base (i ∷ held) (get_ref i r)
get_ref-Holding base held r i h j = let e = h j in let e' = h i in ground arith

pub put_ref-Holding :
    (base : Refs) (held : List ℕ) (r : Refs) (i : ℕ)
    → Holding base (i ∷ held) r
    → Holding base held (put_ref i r)
put_ref-Holding base held r i h j = let e = h j in let e' = h i in ground arith

pub swap-Holding :
    (base : Refs) (held : List ℕ) (r : Refs) (i k : ℕ)
    → Holding base (i ∷ k ∷ held) r
    → Holding base (k ∷ i ∷ held) r
swap-Holding base held r i k h j = omega (arith, h j)

pub Holding-pos :
    (base : Refs) (held : List ℕ) (r : Refs) (i : ℕ) → Holding base (i ∷ held) r → 0 < r i
Holding-pos base held r i h = let e = h i in ground arith
