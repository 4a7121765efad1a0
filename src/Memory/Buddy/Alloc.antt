-- ===== src/Memory/Buddy/Alloc.antt =====
-- `buddy_alloc`: the search for an order, the splitting of a block, and what the caller gets.
use native.Mathlib.Nat.{two-pow-succ}
use native.Mathlib.Decide.{dec_lt}
use ferrite_c.Common.{
  ℕ, zero, suc, ◌+◌, ◌-◌, ◌*◌, ◌/◌, ◌^◌, ◌≤◌, ◌<◌, ◌≡◌, ◌≢◌, ◌⊎◌, refl, Bool, true, false, List, [],
  ◌∷◌, inl, inr, Option, none, some, Run, ap, ◌==◌, update, add32, shl32, ok, arith, Bool-cases,
  le→ltb, List-cases, ◌>>=◌, ◌∙◌, sym,
}
use ferrite_c.Memory.Buddy.{
  Buddy, Bitmap, page_size, v2p, page_index, buddy_list_add, mark_allocated, mark_free, find_order,
  split_loop, alloc_from, buddy_alloc,
}
use ferrite_c.Memory.Buddy.Blocks.{Chain, hit, cover, hit_split}
use ferrite_c.Memory.Buddy.Bitmap.{bit_of, IsMarked, mark_loop-IsMarked, shl32-one, two-pow-pos}
use ferrite_c.Memory.Buddy.Invariant.{
  InMap, Owns, SameArea, SameArea-trans, SameArea-sym, InMap-SameArea, Owns-list_add,
  cover-list_add, list_add-SameArea, Owns-held, Owns-pop, cover-pop, popped, pop_order, pop-head,
  front-InMap, popped-SameArea,
}

two_pow_half : (k : ℕ) → 0 < k → 2 ^ k ≡ 2 ^ (k - 1) + 2 ^ (k - 1)
two_pow_half zero h = absurd (omega arith)
two_pow_half (suc k) h = let e : suc k - 1 ≡ k = omega arith in rw e (two-pow-succ k)

hit_half :
    (a k x : ℕ) → 0 < k → hit a k x ≡ hit a (k - 1) x + hit (a + page_size * 2 ^ (k - 1)) (k - 1) x
hit_half a zero x h = absurd (omega arith)
hit_half a (suc k) x h = let e : suc k - 1 ≡ k = omega arith in rw e (hit_split a k x)

-- The upper half of a block, as the code computes its address.
module _ (b : Buddy) (v k : ℕ) (m : InMap b v k) (pos : 0 < k) where
  upper : add32 v (shl32 page_size (k - 1)) ≡ v + page_size * 2 ^ (k - 1)
  upper = omega (arith, m.below, m.positive, two_pow_half k pos, two-pow-pos (k - 1))

  halved : m.aligned.0 * 2 ^ k ≡ m.aligned.0 * 2 ^ (k - 1) + m.aligned.0 * 2 ^ (k - 1)
  halved = omega (arith, ap (λ (t : ℕ). m.aligned.0 * t) (two_pow_half k pos))

  upper-InMap : InMap b (v + page_size * 2 ^ (k - 1)) (k - 1)
  upper-InMap = record {
    above = omega (arith, m.above);
    positive = omega (arith, m.positive);
    aligned = (2 * m.aligned.0 + 1, omega (arith, m.aligned.1, halved));
    mapped = omega (arith, m.mapped, m.above, two_pow_half k pos);
    below = omega (arith, m.below, two_pow_half k pos);
  }

  lower-InMap : InMap b v (k - 1)
  lower-InMap = record {
    above = m.above;
    positive = m.positive;
    aligned = (2 * m.aligned.0, omega (arith, m.aligned.1, halved));
    mapped = omega (arith, m.mapped, two_pow_half k pos);
    below = omega (arith, m.below, two_pow_half k pos);
  }

-- The caller gave up a block of order k at v for its part of the given order.
record IsSplit (b : Buddy) (free : ℕ → List ℕ) (held : ℕ → ℕ) (v k order : ℕ) (c : Buddy)
    : Type 0 where
  rest : ℕ → List ℕ
  owns : Owns c rest (λ x. hit v order x + held x)
  same : SameArea b c
  same_bits : c.map ≡ b.map
  in_map : InMap b v order
  total :
      (x : ℕ)
      → cover (suc b.max_order) rest x + hit v order x ≡ cover (suc b.max_order) free x + hit v k x

list_add-map : (b : Buddy) (v k : ℕ) → (buddy_list_add b v k).map ≡ b.map
unfolding buddy_list_add
list_add-map b v k = refl

split_loop-IsSplit :
    (left : ℕ) (b : Buddy) (free : ℕ → List ℕ) (held : ℕ → ℕ) (v k order : ℕ)
    → k ≡ order + left
    → k ≤ b.max_order
    → InMap b v k
    → Owns b free (λ x. hit v k x + held x)
    → IsSplit b free held v k order (split_loop left b v k)
unfolding split_loop
split_loop-IsSplit zero b free held v k order e le m o =
    let e' : order ≡ k = omega arith in
    rw e' (record {
      rest = free;
      owns = o;
      same = record { base = refl; size = refl; map_size = refl; max_order = refl };
      same_bits = refl;
      in_map = m;
      total = λ x. refl;
    })
split_loop-IsSplit (suc left) b free held v k order e le m o =
    let pos : 0 < k = omega arith in
    let u : ℕ = v + page_size * 2 ^ (k - 1) in
    let o' : Owns b free (λ x. hit u (k - 1) x + (hit v (k - 1) x + held x)) =
      Owns-held b free _ _ (λ x. omega (arith, hit_half v k x pos)) o in
    let le' : k - 1 ≤ b.max_order = omega arith in
    let s : SameArea b (buddy_list_add b u (k - 1)) =
      list_add-SameArea b free _ u (k - 1) o' (upper-InMap b v k m pos) le' in
    let r =
      split_loop-IsSplit left (buddy_list_add b u (k - 1)) (update free (k - 1) (u ∷ free (k - 1)))
        held v (k - 1) order (omega arith) (rw s.max_order le')
        (InMap-SameArea b _ v (k - 1) s (lower-InMap b v k m pos))
        (Owns-list_add b free _ u (k - 1) o' (upper-InMap b v k m pos) le') in
    rw (upper b v k m pos) (record {
      rest = r.rest;
      owns = r.owns;
      same = SameArea-trans b _ _ s r.same;
      in_map = InMap-SameArea _ b v order (SameArea-sym b _ s) r.in_map;
      same_bits = r.same_bits ∙ list_add-map b u (k - 1);
      total = λ x.
          let t = rw s.max_order at (r.total x) in
          omega (
            arith,
            t,
            cover-list_add b free _ u (k - 1) o' (upper-InMap b v k m pos) le' x,
            hit_half v k x pos,
          );
    })

-- What the search stops at: all lists before `r` are empty, and the one at `r` is not, unless `r`
-- is the end `hi` of the search.
record IsFirst (b : Buddy) (k hi r : ℕ) : Type 0 where
  from : k ≤ r
  to : r ≤ hi
  before : (j : ℕ) → k ≤ j → j < r → b.free_lists j ≡ 0
  found : r < hi → b.free_lists r ≢ 0

find_order-IsFirst :
    (b : Buddy) (k left hi : ℕ) → k + left ≡ hi → IsFirst b k hi (find_order b k left)
unfolding find_order
find_order-IsFirst b k zero hi e = record {
  from = omega arith;
  to = omega arith;
  before = λ j p q. absurd (omega arith);
  found = λ h. absurd (omega arith);
}
find_order-IsFirst b k (suc left) hi e =
    let r = find_order-IsFirst b (k + 1) left hi (omega arith) in
    elim (Bool-cases (b.free_lists k == 0)) [
      | inr f ↦ rw f (record {
        from = omega arith;
        to = omega arith;
        before = λ j p q. absurd (omega arith);
        found = λ h. ground arith;
      })
      | inl f ↦ rw f (record {
        from = omega (arith, r.from);
        to = r.to;
        before = λ j p q. elim (Bool-cases (k == j)) [
          | inl s ↦ let s' : j ≡ k = ground arith in rw s' (ground arith)
          | inr s ↦ r.before j (ground arith) q
        ];
        found = r.found;
      })
    ]

abbrev pub first_page : Buddy → ℕ → ℕ
first_page b v = (v - b.base) / page_size

-- A normal return that wrote `bit` for the pages of the block of the given order at `v`, and
-- changed nothing else.
pub record Marks (bit : Bool) (b : Buddy) (v order : ℕ) (result : Run Buddy) : Type 0 where
  pub new : Bitmap
  pub returns : result ≡ ok (record b { map = new })
  pub inside : (q : ℕ) → first_page b v ≤ q → q < first_page b v + 2 ^ order → bit_of new q ≡ bit
  pub outside :
      (q : ℕ)
      → (q < first_page b v) ⊎ (first_page b v + 2 ^ order ≤ q)
      → bit_of new q ≡ bit_of b.map q

Marks-of :
    (bit : Bool) (b : Buddy) (v order : ℕ) (r : Run Bitmap)
    → IsMarked bit (first_page b v) (first_page b v + 2 ^ order) b.map r
    → Marks bit b v order (r >>= λ new. ok (record b { map = new }))
Marks-of bit b v order r m = record {
  new = m.new;
  returns = ap (λ (t : Run Bitmap). t >>= λ new. ok (record b { map = new })) m.returns;
  inside = m.inside;
  outside = m.outside;
}

-- The two marking functions return for a block in the managed memory.
module _ (b : Buddy) (v order : ℕ) (m : InMap b v order) (h : order < 32) where
  index : page_index b v ≡ first_page b v
  index = omega (arith, m.above, m.below, two-pow-pos order)

  page_limit : first_page b v + 2 ^ order ≤ 2 ^ 32
  page_limit = omega (arith, m.below, m.above, two-pow-pos order)

  pub mark_allocated-Marks : Marks true b v order (mark_allocated b v order)
  unfolding mark_allocated
  mark_allocated-Marks =
      rw (index, shl32-one order h)
        (Marks-of true b v order _ (
          mark_loop-IsMarked true b.map_size b.map (first_page b v) 0 (2 ^ order) (first_page b v)
            (first_page b v + 2 ^ order) (omega arith) refl m.mapped page_limit))

  pub mark_free-Marks : Marks false b v order (mark_free b v order)
  unfolding mark_free
  mark_free-Marks =
      rw (index, shl32-one order h)
        (Marks-of false b v order _ (
          mark_loop-IsMarked false b.map_size b.map (first_page b v) 0 (2 ^ order) (first_page b v)
            (first_page b v + 2 ^ order) (omega arith) refl m.mapped page_limit))

pub Owns-map :
    (b : Buddy) (free : ℕ → List ℕ) (held : ℕ → ℕ) (new : Bitmap)
    → Owns b free held
    → Owns (record b { map = new }) free held
Owns-map b free held new o = record {
  chain = o.chain;
  nothing_above = o.nothing_above;
  in_map = λ k a h.
      let m = o.in_map k a h in
      record {
        above = m.above;
        positive = m.positive;
        aligned = m.aligned;
        mapped = m.mapped;
        below = m.below;
      };
  apart = o.apart;
}

-- What a successful call hands out: the block of the given order at `v`. `rest` are the free blocks
-- that remain in the allocator `c`.
pub record Taken (b : Buddy) (free : ℕ → List ℕ) (held : ℕ → ℕ) (order v : ℕ) (c : Buddy)
    : Type 0 where
  pub rest : ℕ → List ℕ
  pub owns : Owns c rest (λ x. hit v order x + held x)
  pub total :
      (x : ℕ) → cover (suc b.max_order) rest x + hit v order x ≡ cover (suc b.max_order) free x
  pub same : SameArea b c
  pub in_map : InMap b v order
  pub inside : (q : ℕ) → first_page b v ≤ q → q < first_page b v + 2 ^ order → bit_of c.map q ≡ true
  pub outside :
      (q : ℕ)
      → (q < first_page b v) ⊎ (first_page b v + 2 ^ order ≤ q)
      → bit_of c.map q ≡ bit_of b.map q

-- The two ways in which a call can end: with NULL and no change, where every list of a large enough
-- order is empty, or with a block taken out of the free ones.
pub data Allocated (b : Buddy) (free : ℕ → List ℕ) (held : ℕ → ℕ) (order : ℕ)
    : Run (Option ℕ × Buddy) → Type 0 where
  out_of_memory : ((j : ℕ) → order ≤ j → free j ≡ []) → Allocated b free held order (ok (none, b))
  taken :
      (v : ℕ) (c : Buddy)
      → Taken b free held order v c
      → Allocated b free held order (ok (some (v2p v), c))

-- The end of the call: the block split off is marked.
finish :
    (b : Buddy) (free : ℕ → List ℕ) (held : ℕ → ℕ) (order v : ℕ) (c : Buddy) (rest : ℕ → List ℕ)
    (r : Run Buddy)
    → Owns c rest (λ x. hit v order x + held x)
    → ((x : ℕ) → cover (suc b.max_order) rest x + hit v order x ≡ cover (suc b.max_order) free x)
    → SameArea b c
    → InMap b v order
    → c.map ≡ b.map
    → Marks true c v order r
    → Allocated b free held order (r >>= λ b'. ok (some (v2p v), b'))
finish b free held order v c rest r o total same m bits marks = rw marks.returns (
    taken v (record c { map = marks.new })
      (record {
        rest = rest;
        owns = Owns-map c rest _ marks.new o;
        total = total;
        same = record {
          base = same.base;
          size = same.size;
          map_size = same.map_size;
          max_order = same.max_order;
        };
        in_map = m;
        inside = λ q p u. marks.inside q (rw same.base p) (rw same.base u);
        outside = λ q s. rw (← bits) (marks.outside q (rw same.base s));
      }))

Chain-nil : (next : ℕ → ℕ) (xs : List ℕ) → Chain next 0 xs → xs ≡ []
Chain-nil next [] c = refl
Chain-nil next (x ∷ xs) c = absurd (c.1 (sym c.0))

module _ (b : Buddy) (free : ℕ → List ℕ) (held : ℕ → ℕ) (o : Owns b free held) (order k : ℕ)
    (small : b.max_order < 20) where
  -- A non-empty list gives its first block.
  alloc_from-cons :
      (v : ℕ) (xs : List ℕ)
      → order ≤ k
      → free k ≡ v ∷ xs
      → Allocated b free held order (alloc_from b order k)
  unfolding alloc_from
  alloc_from-cons v xs le e =
      let head = pop-head b free held v k xs o e in
      let nz : (v == 0) ≡ false = ground (arith, (front-InMap b free held v k xs o e).positive) in
      let s =
        split_loop-IsSplit (k - order) (popped b free held v k xs o e) (update free k xs) held v k
          order (omega arith) (pop_order b free held v k xs o e)
          (InMap-SameArea b _ v k (popped-SameArea b free held v k xs o e)
            (front-InMap b free held v k xs o e))
          (Owns-pop b free held v k xs o e) in
      let same : SameArea b _ =
        SameArea-trans b _ _ (popped-SameArea b free held v k xs o e) s.same in
      let m : InMap b v order =
        InMap-SameArea _ b v order (SameArea-sym b _ (popped-SameArea b free held v k xs o e))
          s.in_map in
      rw (head, nz)
        (finish b free held order v _ s.rest _ s.owns
          (λ x. omega (arith, s.total x, cover-pop b free held v k xs o e x)) same m s.same_bits
          (mark_allocated-Marks _ v order (InMap-SameArea b _ v order same m)
            (omega (arith, pop_order b free held v k xs o e))))

  -- An empty list, where all that were searched are empty, gives NULL.
  alloc_from-nil :
      free k ≡ []
      → ((j : ℕ) → order ≤ j → free j ≡ [])
      → Allocated b free held order (alloc_from b order k)
  unfolding alloc_from
  alloc_from-nil e all =
      let head : b.free_lists k ≡ 0 = rw e at (o.chain k) in rw head (out_of_memory all)

  -- A search that ends at k finds a block there, or all lists from the order on are empty.
  alloc_from-Allocated :
      IsFirst b order (b.max_order + 1) k → Allocated b free held order (alloc_from b order k)
  alloc_from-Allocated f = elim (List-cases (free k)) [
    | inr (v, xs, e) ↦ alloc_from-cons v xs f.from e
    | inl e ↦ alloc_from-nil e (λ j le. elim (dec_lt b.max_order j) [
      | yes above ↦ o.nothing_above j above
      | no below ↦ elim (dec_lt j k) [
        | yes p ↦ Chain-nil b.next (free j) (rw (f.before j le p) at (o.chain j))
        | no p ↦ elim (dec_lt k (b.max_order + 1)) [
          | yes q ↦ absurd (f.found q (rw e at (o.chain k)))
          | no q ↦ absurd (omega (arith, f.to))
        ]
      ]
    ])
  ]

-- `buddy_alloc` of an order that the allocator has returns, for every well-formed allocator of less
-- than 2 ^ 20 pages, in one of two ways. Either it returns NULL and changes nothing, and no list of
-- that order or a larger one has a block. Or it hands out a block of that order in the managed
-- memory: the allocator stays well formed with the block in the caller's hands beside what the
-- caller held, so that no page is in two hands; every address is covered as often as before by the
-- remaining free blocks and the block together; and exactly the bits of the block's pages are set.
pub buddy_alloc-Allocated :
    (b : Buddy) (free : ℕ → List ℕ) (held : ℕ → ℕ) (order : ℕ)
    → Owns b free held
    → order ≤ b.max_order
    → b.max_order < 20
    → Allocated b free held order (buddy_alloc b order)
unfolding buddy_alloc
buddy_alloc-Allocated b free held order o le small = rw (le→ltb b.max_order order le) (
    alloc_from-Allocated b free held o order _ small
      (find_order-IsFirst b order (b.max_order + 1 - order) (b.max_order + 1) (omega arith)))
