-- ===== src/Memory/Buddy/Invariant.antt =====
-- The well-formedness of the allocator of buddy.c, and what adding to and popping from a free list
-- do to it.
use mathlib.Core.Bool.{false≢true}
use native.Mathlib.Decide.{dec_lt}
use ferrite_c.Common.{
  ℕ, suc, ◌+◌, ◌-◌, ◌*◌, ◌/◌, ◌^◌, ◌≤◌, ◌<◌, ◌≡◌, ◌≢◌, refl, true, false, List, [], ◌∷◌, inl, inr,
  ◌==◌, update, has, arith, Bool-cases, ==_iff,
}
use ferrite_c.Memory.Buddy.{Buddy, buddy_list_add, page_size, kernbase}
use ferrite_c.Memory.Buddy.Blocks.{
  Chain, Chain-update, hit, hits, cover, hit_self, has-hits, hits-le-cover, cover-update,
}

-- The address is a multiple of the block's size in physical memory, which is seen from KERNBASE on.
abbrev pub IsAligned : (a k : ℕ) → Type 0
IsAligned a k = (q : ℕ) × (a ≡ kernbase + q * (page_size * 2 ^ k))

-- The block of order k at `a` lies in the managed memory: it is aligned, starts at or above the base,
-- its pages have bits in the map, and it ends below 2 ^ 32.
pub record InMap (b : Buddy) (a k : ℕ) : Type 0 where
  pub above : b.base ≤ a
  pub positive : 0 < a
  pub aligned : IsAligned a k
  pub mapped : (a - b.base) / page_size + 2 ^ k ≤ b.map_size * 8
  pub below : a + page_size * 2 ^ k ≤ 2 ^ 32

-- The free lists of `b` are the chains of the blocks `free`, which lie in the managed memory, and no
-- page is in two free blocks, or in a free block and in what the caller holds: `held x` counts the
-- blocks in the caller's hands that cover the address x.
pub record Owns (b : Buddy) (free : ℕ → List ℕ) (held : ℕ → ℕ) : Type 0 where
  pub chain : (k : ℕ) → Chain b.next (b.free_lists k) (free k)
  pub nothing_above : (k : ℕ) → b.max_order < k → free k ≡ []
  pub in_map : (k a : ℕ) → has a (free k) ≡ true → InMap b a k
  pub apart : (x : ℕ) → cover (suc b.max_order) free x + held x ≤ 1

-- Two allocators that differ at most in the lists, the nodes and the bits.
pub record SameArea (b c : Buddy) : Type 0 where
  pub base : c.base ≡ b.base
  pub size : c.size ≡ b.size
  pub map_size : c.map_size ≡ b.map_size
  pub max_order : c.max_order ≡ b.max_order

pub SameArea-trans : (b c d : Buddy) → SameArea b c → SameArea c d → SameArea b d
SameArea-trans b c d p q = ground (arith, p, q)

pub SameArea-sym : (b c : Buddy) → SameArea b c → SameArea c b
SameArea-sym b c p = ground (arith, p)

pub InMap-SameArea : (b c : Buddy) (a k : ℕ) → SameArea b c → InMap b a k → InMap c a k
InMap-SameArea b c a k s m = record {
  above = ground (arith, s, m);
  positive = m.positive;
  aligned = m.aligned;
  mapped = rw (s.map_size, s.base) m.mapped;
  below = m.below;
}

-- Where the caller holds the address a block starts at, no list has that block.
pub not-has_of_held :
    (b : Buddy) (free : ℕ → List ℕ) (held : ℕ → ℕ)
    → Owns b free held
    → (a : ℕ) → 1 ≤ held a
    → (k : ℕ) → has a (free k) ≡ false
not-has_of_held b free held o a h k = elim (Bool-cases (has a (free k))) [
  | inr e ↦ e
  | inl e ↦ elim (dec_lt b.max_order k) [
    | yes p ↦ absurd (false≢true (rw (o.nothing_above k p) at e))
    | no p ↦ absurd (
        omega (
          arith,
          has-hits k (free k) a e,
          hits-le-cover (suc b.max_order) free k a (omega arith),
          o.apart a,
        ))
  ]
]

-- The lists after a node is put in front of list k.
Chain-push :
    (next lists : ℕ → ℕ) (free : ℕ → List ℕ) (v k j : ℕ)
    → ((i : ℕ) → Chain next (lists i) (free i))
    → ((i : ℕ) → has v (free i) ≡ false)
    → v ≢ 0
    → Chain (update next v (lists k)) (update lists k v j) (update free k (v ∷ free k) j)
Chain-push next lists free v k j c out nz = elim (Bool-cases (k == j)) [
  | inl e ↦
      rw (e, (==_iff v v).1 refl)
        (refl, nz, Chain-update next v (lists k) (lists k) (free k) (out k) (c k))
  | inr e ↦ rw e (Chain-update next v (lists k) (lists j) (free j) (out j) (c j))
]

-- `buddy_list_add` gives a held block to the list of its order.
module _ (b : Buddy) (free : ℕ → List ℕ) (held : ℕ → ℕ) (v k : ℕ)
    (o : Owns b free (λ x. hit v k x + held x)) (m : InMap b v k) (le : k ≤ b.max_order) where
  pub cover-list_add :
      (x : ℕ)
      → cover (suc b.max_order) (update free k (v ∷ free k)) x
        ≡ cover (suc b.max_order) free x + hit v k x
  unfolding hits
  cover-list_add x =
      omega (arith, cover-update (suc b.max_order) free k (v ∷ free k) x (omega arith))

  pub list_add-SameArea : SameArea b (buddy_list_add b v k)
  unfolding buddy_list_add
  list_add-SameArea = record { base = refl; size = refl; map_size = refl; max_order = refl }

  InMap-push : (j a : ℕ) → has a (update free k (v ∷ free k) j) ≡ true → InMap b a j
  InMap-push j a h = elim (Bool-cases (k == j)) [
    | inr e ↦ o.in_map j a (rw e at h)
    | inl e ↦
        let e' : j ≡ k = ground arith in
        elim (Bool-cases (v == a)) [
          | inl s ↦ let s' : a ≡ v = ground arith in rw (e', s') m
          | inr s ↦ let h' : has a (free k) ≡ true = rw (e, s) at h in rw e' (o.in_map k a h')
        ]
  ]

  pub Owns-list_add : Owns (buddy_list_add b v k) (update free k (v ∷ free k)) held
  unfolding buddy_list_add
  Owns-list_add = record {
    chain = λ j.
        Chain-push b.next b.free_lists free v k j o.chain
          (not-has_of_held b free _ o v (omega (arith, hit_self v k))) (omega (arith, m.positive));
    nothing_above = λ j h. let e : (k == j) ≡ false = ground arith in rw e (o.nothing_above j h);
    in_map = λ j a h. InMap-SameArea b _ a j list_add-SameArea (InMap-push j a h);
    apart = λ x. omega (arith, cover-list_add x, o.apart x);
  }

-- Taking a block off its list puts it in the caller's hands.
module _ (b c : Buddy) (free : ℕ → List ℕ) (held : ℕ → ℕ) (v k : ℕ) (xs : List ℕ)
    (o : Owns b free held) (same : SameArea b c) (le : k ≤ b.max_order)
    (chain : (j : ℕ) → Chain c.next (c.free_lists j) (update free k xs j))
    (less : (x : ℕ) → hits k (free k) x ≡ hit v k x + hits k xs x)
    (sub : (a : ℕ) → has a xs ≡ true → has a (free k) ≡ true) where
  pub cover-take :
      (x : ℕ)
      → cover (suc b.max_order) (update free k xs) x + hit v k x ≡ cover (suc b.max_order) free x
  cover-take x = omega (arith, less x, cover-update (suc b.max_order) free k xs x (omega arith))

  InMap-take : (j a : ℕ) → has a (update free k xs j) ≡ true → InMap b a j
  InMap-take j a h = elim (Bool-cases (k == j)) [
    | inr e ↦ o.in_map j a (rw e at h)
    | inl e ↦
        let e' : j ≡ k = ground arith in
        let h' : has a xs ≡ true = rw e at h in rw e' (o.in_map k a (sub a h'))
  ]

  pub Owns-take : Owns c (update free k xs) (λ x. hit v k x + held x)
  Owns-take = record {
    chain = chain;
    nothing_above = λ j h.
        let e : (k == j) ≡ false = ground (arith, same.max_order) in
        rw e (o.nothing_above j (omega (arith, same.max_order)));
    in_map = λ j a h. InMap-SameArea b c a j same (InMap-take j a h);
    apart = λ x. rw same.max_order (omega (arith, cover-take x, o.apart x));
  }

-- The first block of a list.
module _ (b : Buddy) (free : ℕ → List ℕ) (held : ℕ → ℕ) (v k : ℕ) (xs : List ℕ)
    (o : Owns b free held) (at_front : free k ≡ v ∷ xs) where
  abbrev pub popped : Buddy
  popped = record b { free_lists = update b.free_lists k (b.next v) }

  pub pop_order : k ≤ b.max_order
  pop_order = elim (dec_lt b.max_order k) [
    | yes p ↦ absurd (cc (o.nothing_above k p))
    | no p ↦ omega arith
  ]

  pub front-InMap : InMap b v k
  front-InMap = o.in_map k v (rw (at_front, (==_iff v v).1 refl))

  pub front-Chain : (b.free_lists k ≡ v) × (v ≢ 0) × Chain b.next (b.next v) xs
  front-Chain = rw at_front at (o.chain k)

  pub pop-head : b.free_lists k ≡ v
  pop-head = front-Chain.0

  pub popped-SameArea : SameArea b popped
  popped-SameArea = record { base = refl; size = refl; map_size = refl; max_order = refl }

  less : (x : ℕ) → hits k (free k) x ≡ hit v k x + hits k xs x
  unfolding hits
  less x = rw at_front

  Chain-after : (j : ℕ) → Chain b.next (update b.free_lists k (b.next v) j) (update free k xs j)
  Chain-after j = elim (Bool-cases (k == j)) [
    | inl e ↦ rw e front-Chain.2
    | inr e ↦ rw e (o.chain j)
  ]

  sub : (a : ℕ) → has a xs ≡ true → has a (free k) ≡ true
  sub a h = rw at_front (ground arith)

  pub cover-pop :
      (x : ℕ)
      → cover (suc b.max_order) (update free k xs) x + hit v k x ≡ cover (suc b.max_order) free x
  cover-pop = cover-take b popped free held v k xs o popped-SameArea pop_order Chain-after less sub

  pub Owns-pop : Owns popped (update free k xs) (λ x. hit v k x + held x)
  Owns-pop = Owns-take b popped free held v k xs o popped-SameArea pop_order Chain-after less sub

-- The caller's holdings may be counted in another way.
pub Owns-held :
    (b : Buddy) (free : ℕ → List ℕ) (held held' : ℕ → ℕ)
    → ((x : ℕ) → held x ≡ held' x)
    → Owns b free held
    → Owns b free held'
Owns-held b free held held' e o = record {
  chain = o.chain;
  nothing_above = o.nothing_above;
  in_map = o.in_map;
  apart = λ x. omega (arith, e x, o.apart x);
}
