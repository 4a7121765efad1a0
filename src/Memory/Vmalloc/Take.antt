-- ===== src/Memory/Vmalloc/Take.antt =====
-- A block that is taken from the free list.
use ferrite_c.Common.{
  ℕ, ◌+◌, ◌-◌, ◌%◌, ◌≤◌, ◌<◌, ◌≡◌, inl, inr, List, [], ◌∷◌, Option, none, some, leb, add32, arith,
  Bool-cases,
}
use ferrite_c.Memory.Vmalloc.{Node, take_fit, splits, sizeof_free_list}
use ferrite_c.Memory.Vmalloc.Give.{Low-weaken}
use ferrite_c.Memory.Vmalloc.Space.{inside, cover, IsRegion, SortedFrom, Apart}

-- Every node is smaller than the total.
pub TooSmall : ℕ → List Node → Type 0
TooSmall total [] = Unit
TooSmall total (x ∷ xs) = (x.size < total) × TooSmall total xs

abbrev pub block : ℕ → Node → Node
block total x = record { addr = x.addr; size = total }

-- What the search finds in the list from `low` on.
pub data Taken (low total : ℕ) (fs : List Node) : Option (Node × List Node) → Type 0 where
  none_fits : TooSmall total fs → Taken low total fs none
  taken :
      (x : Node) (ys : List Node)
      → total ≤ x.size
      → low < x.addr
      → IsRegion (block total x)
      → SortedFrom low ys
      → Apart (block total x) ys
      → ((a : ℕ) → cover a fs ≡ cover a ys + inside x.addr total a)
      → Taken low total fs (some (x, ys))

Apart-sorted :
    (b : Node) (low : ℕ) (xs : List Node) → b.addr + b.size ≤ low → SortedFrom low xs → Apart b xs
unfolding Apart SortedFrom
Apart-sorted b low [] h s = tt
Apart-sorted b low (x ∷ xs) h (l, r, s) =
    (inr (omega (arith, h, l)), Apart-sorted b (x.addr + x.size) xs (omega (arith, h, l)) s)

remainder : ℕ → Node → Node
remainder total x = record { addr = add32 x.addr total; size = x.size - total }

module _ (low total : ℕ) (x : Node) (xs : List Node) (pos : 0 < total) (pages : total % 0x1000 ≡ 0)
    (fits : total ≤ x.size) (l : low < x.addr) (r : IsRegion x)
    (s : SortedFrom (x.addr + x.size) xs) where
  block-IsRegion : IsRegion (block total x)
  block-IsRegion = record { size_pos = pos; pages = pages; fits = omega (arith, r.fits, fits) }

  split-Taken :
      sizeof_free_list < x.size - total
      → Taken low total (x ∷ xs) (some (x, remainder total x ∷ xs))
  unfolding remainder SortedFrom Apart cover
  split-Taken rest =
      let remainder_region : IsRegion (record { addr = x.addr + total; size = x.size - total }) =
        record {
          size_pos = omega (arith, rest);
          pages = omega (arith, r.pages, pages, fits);
          fits = omega (arith, r.fits, fits);
        } in
      let e : add32 x.addr total ≡ x.addr + total = omega (arith, r.fits, fits) in
      rw e (
        taken x (record { addr = x.addr + total; size = x.size - total } ∷ xs) fits l block-IsRegion
          (
            (omega (arith, l, pos)),
            remainder_region,
            Low-weaken (x.addr + total + (x.size - total)) (x.addr + x.size) xs
                (omega (arith, fits)) s,
          )
          (
            inr (omega arith),
            Apart-sorted (block total x) (x.addr + x.size) xs (omega (arith, fits)) s,
          )
          (λ a. ground arith))

  whole-Taken : x.size - total ≤ sizeof_free_list → Taken low total (x ∷ xs) (some (x, xs))
  unfolding cover
  whole-Taken rest =
      let e : x.size ≡ total = omega (arith, rest, r.pages, pages, fits) in
      taken x xs fits l block-IsRegion (Low-weaken low (x.addr + x.size) xs (omega (arith, l)) s)
        (Apart-sorted (block total x) (x.addr + x.size) xs (omega (arith, fits)) s)
        (λ a. ground arith)

passed-Taken :
    (low total : ℕ) (x : Node) (xs : List Node) (r : Option (Node × List Node))
    → x.size < total
    → low < x.addr
    → IsRegion x
    → Taken (x.addr + x.size) total xs r
    → Taken low total (x ∷ xs) (elim r [ none ↦ none | some (y, ys) ↦ some (y, x ∷ ys) ])
unfolding TooSmall SortedFrom Apart cover
passed-Taken low total x xs none small l rx (none_fits h) = none_fits (small, h)
passed-Taken low total x xs (some r) small l rx (taken y ys fits ly ry s apart covers) =
    taken y (x ∷ ys) fits (omega (arith, l, ly)) ry (l, rx, s) (inl (omega (arith, ly)), apart)
      (λ a. omega (arith, covers a))

pub take_fit-Taken :
    (low total : ℕ) (fs : List Node)
    → 0 < total
    → total % 0x1000 ≡ 0
    → SortedFrom low fs
    → Taken low total fs (take_fit total fs)
unfolding take_fit TooSmall SortedFrom remainder
take_fit-Taken low total [] pos pages s = none_fits tt
take_fit-Taken low total (x ∷ xs) pos pages (l, r, s) = elim (Bool-cases (leb total x.size)) [
  | inl e ↦ elim (Bool-cases (splits total x)) [
    | inl p ↦ rw (e, p) (split-Taken low total x xs pos pages (ground arith) l r s (ground arith))
    | inr p ↦ rw (e, p) (whole-Taken low total x xs pos pages (ground arith) l r s (ground arith))
  ]
  | inr e ↦ rw e (
      passed-Taken low total x xs (take_fit total xs) (ground arith) l r
        (take_fit-Taken (x.addr + x.size) total xs pos pages s))
]
