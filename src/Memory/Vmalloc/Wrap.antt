-- ===== src/Memory/Vmalloc/Wrap.antt =====
-- A request whose size wraps around.
use mathlib.Core.Path.{subst}
use ferrite_c.Common.{
  ℕ, ◌+◌, ◌-◌, ◌^◌, ◌≤◌, ◌<◌, ◌≡◌, true, false, List, ◌∷◌, some, leb, ◌==◌, if◌then◌else◌, add32,
  arith, Run, ok, Bool-cases, inl, inr, sym, fault, none,
}
use ferrite_c.Memory.Vmalloc.{
  Node, Vm, page_size, sizeof_header, total_size, splits, map_page, take_fit, hand_out, vmalloc,
}

total_size_wraps : (n : ℕ) → 2 ^ 32 < n + sizeof_header → n < 2 ^ 32 → total_size n ≡ page_size
total_size_wraps n h small = omega (arith, h, small)

-- The call returned a block of one page at this address.
pub data OnePage (at : ℕ) : Run (Vm × ℕ) → Type 0 where
  one_page :
      (s' : Vm) → (s'.header at).size ≡ page_size → OnePage at (ok (s', add32 at sizeof_header))

hand_out-OnePage :
    (s : Vm) (x : Node) (rest : List Node)
    → 2 ≤ s.phys
    → OnePage x.addr (hand_out s page_size x rest)
unfolding hand_out
hand_out-OnePage s x rest enough =
    let a : (s.phys == 0) ≡ false = ground arith in
    let b : (s.phys - 1 == 0) ≡ false = ground arith in
    elim (Bool-cases (splits page_size x)) [
      | inl e ↦ rw (e, map_page, a, b) (one_page _ (ground arith))
      | inr e ↦ rw (e, map_page, a) (one_page _ (ground arith))
    ]

after_search : Vm → (total : ℕ) → List Node → Run (Vm × ℕ)
after_search s total fs = elim (take_fit total fs) [
  | none ↦ ok (s, 0)
  | some (x, rest) ↦ if total == 0 then fault else hand_out s total x rest
]

after_search-OnePage :
    (s : Vm) (x : Node) (xs : List Node)
    → page_size ≤ x.size
    → 2 ≤ s.phys
    → OnePage x.addr (after_search s page_size (x ∷ xs))
unfolding after_search take_fit
after_search-OnePage s x xs large enough =
    let l : leb page_size x.size ≡ true = ground arith in
    rw (after_search, take_fit, l) (hand_out-OnePage s x _ enough)

-- A request of 2 ^ 32 - 11 bytes and more wraps around with its header: where the first free node has
-- a page and two physical pages are left, `vmalloc` returns a block of one page for it.
pub vmalloc_wraps :
    (s : Vm) (n : ℕ) (x : Node) (xs : List Node)
    → s.free ≡ x ∷ xs
    → page_size ≤ x.size
    → 2 ≤ s.phys
    → 2 ^ 32 < n + sizeof_header
    → n < 2 ^ 32
    → OnePage x.addr (vmalloc s n)
unfolding vmalloc after_search
vmalloc_wraps s n x xs first large enough wraps small =
    let t = total_size_wraps n wraps small in
    let z : (n == 0) ≡ false = ground arith in
    rw z (
      subst (λ (k : ℕ). OnePage x.addr (after_search s k s.free)) (sym t)
        (subst (λ (fs : List Node). OnePage x.addr (after_search s page_size fs)) (sym first)
          (after_search-OnePage s x xs large enough)))
