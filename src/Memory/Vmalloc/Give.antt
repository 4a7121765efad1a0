-- ===== src/Memory/Vmalloc/Give.antt =====
-- A block that goes back to the free list.
use ferrite_c.Common.{
  ℕ, ◌+◌, ◌≤◌, ◌<◌, ◌≡◌, inl, inr, List, [], ◌∷◌, ltb, ◌==◌, add32, arith, Bool-cases, ◌∙◌, sym,
}
use ferrite_c.Memory.Vmalloc.{Node, join_next, link, free_after, free_into}
use ferrite_c.Memory.Vmalloc.Space.{inside, cover, IsRegion, SortedFrom, Apart, IsHeap}

-- What giving a block back leaves, from `low` on.
pub record Given (low : ℕ) (b : Node) (fs gs : List Node) : Type 0 where
  pub sorted : SortedFrom low gs
  pub covers : (a : ℕ) → cover a gs ≡ cover a fs + inside b.addr b.size a

join-IsRegion :
    (b c : Node)
    → IsRegion b
    → IsRegion c
    → b.addr + b.size ≡ c.addr
    → IsRegion (record { addr = b.addr; size = b.size + c.size })
join-IsRegion b c rb rc e = record {
  size_pos = omega (arith, rb.size_pos);
  pages = omega (arith, rb.pages, rc.pages);
  fits = omega (arith, rc.fits, e);
}

join_covers :
    (b c : Node) (a : ℕ)
    → b.addr + b.size ≡ c.addr
    → inside b.addr (b.size + c.size) a ≡ inside b.addr b.size a + inside c.addr c.size a
join_covers b c a e = ground arith

add32_fits : (b : Node) → IsRegion b → add32 b.addr b.size ≡ b.addr + b.size
add32_fits b r = let f = r.fits in omega arith

pub Low-weaken :
    (low low' : ℕ) (xs : List Node) → low ≤ low' → SortedFrom low' xs → SortedFrom low xs
unfolding SortedFrom
Low-weaken low low' [] h s = tt
Low-weaken low low' (x ∷ xs) h (l, r, s) = (omega (arith, h, l), r, s)

-- The list goes on in order from `limit` on; its first node may start there.
Behind : ℕ → List Node → Type 0
Behind limit [] = Unit
Behind limit (c ∷ cs) = (limit ≤ c.addr) × IsRegion c × SortedFrom (c.addr + c.size) cs

module _ (low : ℕ) (b : Node) (l : low < b.addr) (r : IsRegion b) where
  joined-Given :
      (c : Node) (cs : List Node)
      → b.addr + b.size ≡ c.addr
      → IsRegion c
      → SortedFrom (c.addr + c.size) cs
      → Given low b (c ∷ cs) (record { addr = b.addr; size = b.size + c.size } ∷ cs)
  unfolding SortedFrom cover
  joined-Given c cs touch rc s = record {
    sorted = (
      l,
      join-IsRegion b c r rc touch,
      Low-weaken (b.addr + (b.size + c.size)) (c.addr + c.size) cs (omega arith) s,
    );
    covers = λ a. omega (arith, join_covers b c a touch);
  }

  join_next-Given : (fs : List Node) → Behind (b.addr + b.size) fs → Given low b fs (join_next b fs)
  unfolding join_next SortedFrom cover Behind
  join_next-Given [] h = record { sorted = (l, r, tt); covers = λ a. omega arith }
  join_next-Given (c ∷ cs) (g, rc, s) =
      let n = add32_fits b r in
      elim (Bool-cases (add32 b.addr b.size == c.addr)) [
        | inl e ↦ rw e (joined-Given c cs (sym n ∙ ground arith) rc s)
        | inr e ↦
            rw e (record { sorted = (l, r, (ground arith, rc, s)); covers = λ a. omega arith })
      ]

with_prev :
    (low : ℕ) (p b : Node) (fs gs : List Node)
    → low < p.addr
    → IsRegion p
    → Given (p.addr + p.size) b fs gs
    → Given low b (p ∷ fs) (p ∷ gs)
unfolding SortedFrom cover
with_prev low p b fs gs l r g = record {
  sorted = (l, r, g.sorted);
  covers = λ a. omega (arith, g.covers a);
}

joined_prev-Given :
    (low : ℕ) (p b : Node) (fs gs : List Node)
    → p.addr + p.size ≡ b.addr
    → Given low (record { addr = p.addr; size = p.size + b.size }) fs gs
    → Given low b (p ∷ fs) gs
unfolding cover
joined_prev-Given low p b fs gs touch g = record {
  sorted = g.sorted;
  covers = λ a. omega (arith, g.covers a, join_covers p b a touch);
}

Behind-weaken : (e e' : ℕ) (xs : List Node) → e ≡ e' → Behind e' xs → Behind e xs
unfolding Behind
Behind-weaken e e' [] h t = tt
Behind-weaken e e' (x ∷ xs) h (g, r, t) = (omega (arith, h, g), r, t)

link-Given :
    (low : ℕ) (p b : Node) (rest : List Node)
    → low < p.addr
    → IsRegion p
    → IsRegion b
    → p.addr + p.size ≤ b.addr
    → Behind (b.addr + b.size) rest
    → Given low b (p ∷ rest) (link p b rest)
unfolding link
link-Given low p b rest l rp rb order h =
    let n = add32_fits p rp in
    elim (Bool-cases (add32 p.addr p.size == b.addr)) [
      | inl e ↦
          let touch : p.addr + p.size ≡ b.addr = sym n ∙ ground arith in
          let m : Node = record { addr = p.addr; size = p.size + b.size } in
          rw e (
            joined_prev-Given low p b rest (join_next m rest) touch (
              join_next-Given low m l (join-IsRegion p b rp rb touch) rest (
                Behind-weaken (p.addr + (p.size + b.size)) (b.addr + b.size) rest (omega arith) h)))
      | inr e ↦ rw e (
          with_prev low p b rest (join_next b rest) l rp
            (join_next-Given (p.addr + p.size) b (ground arith) rb rest h))
    ]

free_after-Given :
    (low : ℕ) (p b : Node) (xs : List Node)
    → low < p.addr
    → IsRegion p
    → IsRegion b
    → p.addr + p.size ≤ b.addr
    → SortedFrom (p.addr + p.size) xs
    → Apart b xs
    → Given low b (p ∷ xs) (free_after p b xs)
unfolding free_after SortedFrom Apart Behind
free_after-Given low p b [] l rp rb order s apart = link-Given low p b [] l rp rb order tt
free_after-Given low p b (x ∷ xs) l rp rb order (lx, rx, s) (here, apart) =
    let size_x = rx.size_pos in
    let size_b = rb.size_pos in
    elim (Bool-cases (ltb x.addr b.addr)) [
      | inl e ↦ rw e (
          with_prev low p b (x ∷ xs) (free_after x b xs) l rp
            (free_after-Given (p.addr + p.size) x b xs lx rx rb (ground arith) s apart))
      | inr e ↦ rw e (link-Given low p b (x ∷ xs) l rp rb order (ground arith, rx, s))
    ]

-- A block that no free node overlaps, put back by the walk of `vfree`: the list is in order and
-- coalesced again, and describes exactly the block's space more than before.
pub free_into-Given :
    (b : Node) (fs : List Node)
    → IsRegion b
    → 0 < b.addr
    → IsHeap fs
    → Apart b fs
    → Given 0 b fs (free_into b fs)
unfolding free_into SortedFrom Apart Behind
free_into-Given b [] rb pos s apart = join_next-Given 0 b pos rb [] tt
free_into-Given b (x ∷ xs) rb pos (lx, rx, s) (here, apart) =
    let size_x = rx.size_pos in
    let size_b = rb.size_pos in
    elim (Bool-cases (ltb x.addr b.addr)) [
      | inl e ↦ rw e (free_after-Given 0 x b xs lx rx rb (ground arith) s apart)
      | inr e ↦ rw e (join_next-Given 0 b pos rb (x ∷ xs) (ground arith, rx, s))
    ]
