-- ===== src/Memory/Vmalloc/Canonical.antt =====
-- The free list is determined by the space that it describes.
use mathlib.Core.Path.{ap₂}
use ferrite_c.Common.{
  ℕ, ◌+◌, ◌≤◌, ◌<◌, ◌≡◌, ◌⊎◌, inl, inr, refl, List, [], ◌∷◌, leb, if◌then◌else◌, arith, Bool-cases,
  sym,
}
use ferrite_c.Memory.Vmalloc.{Node, free_into}
use ferrite_c.Memory.Vmalloc.Space.{inside, cover, IsRegion, SortedFrom, Apart, IsHeap}
use ferrite_c.Memory.Vmalloc.Give.{Low-weaken, Given, free_into-Given}

-- Nothing up to and at `low` is in a list from `low` on.
cover_below : (low a : ℕ) (xs : List Node) → a ≤ low → SortedFrom low xs → cover a xs ≡ 0
unfolding cover SortedFrom
cover_below low a [] h s = refl
cover_below low a (x ∷ xs) h (l, r, s) =
    let i = cover_below (x.addr + x.size) a xs (omega (arith, l)) s in ground arith

starts_no_later :
    (x y : Node) (low : ℕ) (xs ys : List Node)
    → SortedFrom low (x ∷ xs)
    → SortedFrom low (y ∷ ys)
    → cover x.addr (x ∷ xs) ≡ cover x.addr (y ∷ ys)
    → y.addr ≤ x.addr
unfolding cover SortedFrom
starts_no_later x y low xs ys (lx, rx, sx) (ly, ry, sy) e =
    let size = rx.size_pos in
    elim (Bool-cases (leb y.addr x.addr)) [
      | inl le ↦ ground arith
      | inr gt ↦
          let z : cover x.addr ys ≡ 0 = cover_below (y.addr + y.size) x.addr ys (ground arith) sy in
          absurd (ground arith)
    ]

ends_no_later :
    (x y : Node) (low : ℕ) (xs ys : List Node)
    → x.addr ≡ y.addr
    → SortedFrom low (x ∷ xs)
    → cover (x.addr + x.size) (x ∷ xs) ≡ cover (x.addr + x.size) (y ∷ ys)
    → y.size ≤ x.size
unfolding cover SortedFrom
ends_no_later x y low xs ys start (lx, rx, sx) e =
    let z = cover_below (x.addr + x.size) (x.addr + x.size) xs (omega arith) sx in
    elim (Bool-cases (leb y.size x.size)) [ inl le ↦ ground arith | inr gt ↦ absurd (ground arith) ]

node_ext : (x y : Node) → x.addr ≡ y.addr → x.size ≡ y.size → x ≡ y
node_ext x y a b = ground arith

-- Two lists in order and coalesced that describe the same space are the same list.
pub cover_injective :
    (low : ℕ) (xs ys : List Node)
    → SortedFrom low xs
    → SortedFrom low ys
    → ((a : ℕ) → cover a xs ≡ cover a ys)
    → xs ≡ ys
unfolding cover SortedFrom
cover_injective low [] [] sx sy e = refl
cover_injective low [] (y ∷ ys) sx (l, r, s) e =
    let size = r.size_pos in let h = e y.addr in absurd (ground arith)
cover_injective low (x ∷ xs) [] (l, r, s) sy e =
    let size = r.size_pos in let h = e x.addr in absurd (ground arith)
cover_injective low (x ∷ xs) (y ∷ ys) sx sy e =
    let start : x.addr ≡ y.addr = omega (
      arith,
      starts_no_later x y low xs ys sx sy (e x.addr),
      starts_no_later y x low ys xs sy sx (sym (e y.addr)),
    ) in
    let size : x.size ≡ y.size = omega (
      arith,
      ends_no_later x y low xs ys start sx (e (x.addr + x.size)),
      ends_no_later y x low ys xs (sym start) sy (sym (e (y.addr + y.size))),
    ) in
    ap₂ ◌∷◌ (node_ext x y start size) (
      cover_injective (x.addr + x.size) xs ys sx.2
        (Low-weaken (x.addr + x.size) (y.addr + y.size) ys (omega arith) sy.2)
        (λ a. let h = e a in ground arith))

-- What `Apart` says of the space, and back.
Apart-cover :
    (b : Node) (fs : List Node) (a : ℕ) → Apart b fs → inside b.addr b.size a ≡ 1 → cover a fs ≡ 0
unfolding Apart cover
Apart-cover b [] a apart h = refl
Apart-cover b (x ∷ xs) a (here, apart) h = let i = Apart-cover b xs a apart h in ground arith

larger : ℕ → ℕ → ℕ
larger m n = if leb m n then n else m

apart_node :
    (b x : Node) (rest : ℕ)
    → 0 < b.size
    → 0 < x.size
    → (inside b.addr b.size (larger x.addr b.addr) ≡ 1
        → inside x.addr x.size (larger x.addr b.addr) + rest ≡ 0)
    → (x.addr + x.size ≤ b.addr) ⊎ (b.addr + b.size ≤ x.addr)
unfolding larger
apart_node b x rest pb px h = elim (Bool-cases (leb (x.addr + x.size) b.addr)) [
  | inl e ↦ inl (ground arith)
  | inr e ↦ elim (Bool-cases (leb (b.addr + b.size) x.addr)) [
    | inl e' ↦ inr (ground arith)
    | inr e' ↦ let z = h (ground arith) in absurd (ground arith)
  ]
]

cover-Apart :
    (b : Node) (low : ℕ) (fs : List Node)
    → 0 < b.size
    → SortedFrom low fs
    → ((a : ℕ) → inside b.addr b.size a ≡ 1 → cover a fs ≡ 0)
    → Apart b fs
unfolding Apart cover SortedFrom larger
cover-Apart b low [] pos s h = tt
cover-Apart b low (x ∷ xs) pos (l, r, s) h = (
  apart_node b x (cover (larger x.addr b.addr) xs) pos r.size_pos (h (larger x.addr b.addr)),
  cover-Apart b (x.addr + x.size) xs pos s (λ a i. let z = h a i in omega (arith, z)),
)

swap_sides {ℓ} : {A B : Type ℓ} → A ⊎ B → B ⊎ A
swap_sides (inl a) = inr a
swap_sides (inr b) = inl b

still-Apart :
    (b c : Node) (fs : List Node)
    → IsRegion b
    → Given 0 c fs (free_into c fs)
    → Apart b fs
    → (b.addr + b.size ≤ c.addr) ⊎ (c.addr + c.size ≤ b.addr)
    → Apart b (free_into c fs)
still-Apart b c fs rb g ab d =
    cover-Apart b 0 (free_into c fs) rb.size_pos g.sorted
      (λ a i. let z = Apart-cover b fs a ab i in let w = g.covers a in ground arith)

-- The order in which two blocks are given back does not matter.
pub free_into_comm :
    (b c : Node) (fs : List Node)
    → IsRegion b
    → IsRegion c
    → 0 < b.addr
    → 0 < c.addr
    → IsHeap fs
    → Apart b fs
    → Apart c fs
    → (b.addr + b.size ≤ c.addr) ⊎ (c.addr + c.size ≤ b.addr)
    → free_into b (free_into c fs) ≡ free_into c (free_into b fs)
free_into_comm b c fs rb rc pb pc s ab ac d =
    let gb = free_into-Given b fs rb pb s ab in
    let gc = free_into-Given c fs rc pc s ac in
    let gbc = free_into-Given b (free_into c fs) rb pb gc.sorted (still-Apart b c fs rb gc ab d) in
    let gcb =
      free_into-Given c (free_into b fs) rc pc gb.sorted
        (still-Apart c b fs rc gb ac (swap_sides d)) in
    cover_injective 0 (free_into b (free_into c fs)) (free_into c (free_into b fs)) gbc.sorted
      gcb.sorted (λ a. omega (arith, gb.covers a, gc.covers a, gbc.covers a, gcb.covers a))
