-- ===== src/Memory/Buddy/Faults.antt =====
-- Two things that `buddy_dealloc` does not mean to do.
use mathlib.Core.Bool.{false≢true}
use ferrite_c.Common.{
  ℕ, suc, ◌+◌, ◌-◌, ◌^◌, ◌≤◌, ◌<◌, ◌≡◌, refl, true, false, inl, inr, ok, fault, arith, Bool-cases,
  le→ltb, sym, ◌∙◌,
}
use ferrite_c.Memory.Buddy.{
  Buddy, page_index, p2v, check_free, is_block_free, remove_from_free_list, mark_free,
  mark_allocated, merge_loop, buddy_dealloc,
}
use ferrite_c.Memory.Buddy.Bitmap.{bit_of, check_free_iff, shl32-one, two-pow-pos}
use ferrite_c.Memory.Buddy.Invariant.{InMap, InMap-SameArea}
use ferrite_c.Memory.Buddy.Alloc.{first_page, mark_allocated-Marks, mark_free-Marks}
use ferrite_c.Memory.Buddy.Merge.{buddy_of}

-- The indices of the pages of a block in the managed memory.
module _ (b : Buddy) (v order : ℕ) (m : InMap b v order) where
  index : page_index b v ≡ first_page b v
  index = omega (arith, m.above, m.below, two-pow-pos order)

  page_limit : first_page b v + 2 ^ order ≤ 2 ^ 32
  page_limit = omega (arith, m.below, m.above, two-pow-pos order)

-- A page of the block with a set bit: `is_block_free` is false.
not_free :
    (b : Buddy) (v order q : ℕ)
    → InMap b v order
    → order < 32
    → first_page b v ≤ q
    → q < first_page b v + 2 ^ order
    → bit_of b.map q ≡ true
    → is_block_free b (page_index b v) order ≡ false
unfolding is_block_free
not_free b v order q m h lo hi set =
    rw (index b v order m, shl32-one order h)
      (elim (Bool-cases (check_free b (first_page b v) 0 (2 ^ order))) [
        | inr e ↦ e
        | inl e ↦
            let all =
              (check_free_iff b (first_page b v) 0 (2 ^ order) (first_page b v)
                  (first_page b v + 2 ^ order) (omega arith) refl m.mapped
                  (page_limit b v order m)).0
                e in
            absurd (false≢true (sym (all q lo hi) ∙ set))
      ])

-- `buddy_dealloc` calls `mark_allocated` on the buddy that it joins to the block. After that call
-- `is_block_free` is false of the joined block of the next order at `low`, although its pages go on a
-- free list: when its own buddy is freed later, the two are not joined.
pub joined_block_not_free :
    (c : Buddy) (w low k : ℕ)
    → InMap c w k
    → InMap c low (suc k)
    → suc k < 32
    → first_page c low ≤ first_page c w
    → first_page c w + 2 ^ k ≤ first_page c low + 2 ^ suc k
    → (c' : Buddy) × (mark_allocated c w k ≡ ok c')
      × (is_block_free c' (page_index c' low) (suc k) ≡ false)
joined_block_not_free c w low k m j h lo hi =
    let marks = mark_allocated-Marks c w k m (omega arith) in
    let j' : InMap (record c { map = marks.new }) low (suc k) =
      InMap-SameArea c _ low (suc k)
        (record { base = refl; size = refl; map_size = refl; max_order = refl }) j in
    (
      record c { map = marks.new },
      marks.returns,
      not_free (record c { map = marks.new }) low (suc k) (first_page c w) j' h lo
          (omega (arith, two-pow-pos k))
          (marks.inside (first_page c w) (omega arith) (omega (arith, two-pow-pos k))),
    )

-- A block is freed whose buddy has clear bits while the list of its order is empty: the call reads
-- through NULL. So it is when the buddy lies behind the end of the pool, or was split.
pub empty_list_faults :
    (fuel : ℕ) (b : Buddy) (paddr order : ℕ)
    → InMap b (p2v paddr) order
    → order < b.max_order
    → b.max_order < 20
    → b.free_lists order ≡ 0
    → ((b' : Buddy)
        → mark_free b (p2v paddr) order ≡ ok b'
        → is_block_free b' (page_index b' (p2v (buddy_of paddr order))) order ≡ true)
    → buddy_dealloc fuel b paddr order ≡ fault
unfolding buddy_dealloc merge_loop remove_from_free_list
empty_list_faults fuel b paddr order m lt small e clear =
    let marks = mark_free-Marks b (p2v paddr) order m (omega arith) in
    let rounds : b.max_order - order ≡ suc (b.max_order - order - 1) = omega arith in
    rw (marks.returns, rounds, clear _ marks.returns, le→ltb b.max_order order (omega arith), e)
