-- ===== src/Memory/Buddy/Dealloc.antt =====
-- `buddy_dealloc`: the block is merged with its free buddies and put back on a list.
use ferrite_c.Common.{
  ℕ, zero, suc, ◌+◌, ◌-◌, ◌^◌, ◌≤◌, ◌<◌, ◌≡◌, refl, Bool, true, false, List, [], ◌∷◌, inl, inr,
  update, length, Run, ok, fault, ◌>>=◌, arith, sym, ◌∙◌, Bool-cases,
}
use ferrite_c.Memory.Buddy.{
  Buddy, Bitmap, p2v, page_index, is_block_free, mark_allocated, buddy_list_add, merge_loop,
  buddy_dealloc,
}
use ferrite_c.Memory.Buddy.Blocks.{hit, cover}
use ferrite_c.Memory.Buddy.Invariant.{
  InMap, Owns, SameArea, SameArea-trans, InMap-SameArea, Owns-held, Owns-list_add, cover-list_add,
  list_add-SameArea,
}
use ferrite_c.Memory.Buddy.Alloc.{mark_allocated-Marks, mark_free-Marks, Owns-map}
use ferrite_c.Memory.Buddy.Remove.{
  Unlink, Unlinked, unlinked, missing, null_head, remove_from_free_list-Unlinked,
}
use ferrite_c.Memory.Buddy.Merge.{IsPair, buddy_of, lower_of, buddies-IsPair}

-- The block of order k at paddr has grown to one of order k' at paddr'; `rest` are the free blocks
-- that are left.
record Grown (b : Buddy) (free : ℕ → List ℕ) (held : ℕ → ℕ) (paddr k : ℕ) (c : Buddy)
    (paddr' k' : ℕ) : Type 0 where
  rest : ℕ → List ℕ
  owns : Owns c rest (λ x. hit (p2v paddr') k' x + held x)
  in_map : InMap c (p2v paddr') k'
  order : k' ≤ b.max_order
  same : SameArea b c
  total :
      (x : ℕ)
      → cover (suc b.max_order) rest x + hit (p2v paddr') k' x
        ≡ cover (suc b.max_order) free x + hit (p2v paddr) k x

-- The merging loop ends normally, or reads through NULL where the list of some order that it came to
-- is empty.
data Merged (b : Buddy) (free : ℕ → List ℕ) (held : ℕ → ℕ) (paddr k : ℕ)
    : Run (Buddy × ℕ × ℕ) → Type 0 where
  grown :
      (c : Buddy) (paddr' k' : ℕ)
      → Grown b free held paddr k c paddr' k'
      → Merged b free held paddr k (ok (c, paddr', k'))
  null_list : (j : ℕ) → k ≤ j → j < b.max_order → free j ≡ [] → Merged b free held paddr k fault

-- Where the loop stops at once.
unmerged :
    (b : Buddy) (free : ℕ → List ℕ) (held : ℕ → ℕ) (paddr k : ℕ)
    → Owns b free (λ x. hit (p2v paddr) k x + held x)
    → InMap b (p2v paddr) k
    → k ≤ b.max_order
    → Merged b free held paddr k (ok (b, paddr, k))
unmerged b free held paddr k o m le = grown b paddr k (record {
  rest = free;
  owns = o;
  in_map = m;
  order = le;
  same = record { base = refl; size = refl; map_size = refl; max_order = refl };
  total = λ x. refl;
})

module _ (b : Buddy) (free : ℕ → List ℕ) (held : ℕ → ℕ) (paddr k : ℕ) (c : Buddy)
    (u : Unlink b free (λ x. hit (p2v paddr) k x + held x) (p2v (buddy_of paddr k)) k c)
    (new : Bitmap) (p : IsPair b paddr k (lower_of paddr k)) where
  abbrev joined : Buddy
  joined = record c { map = new }

  joined-SameArea : SameArea b joined
  joined-SameArea = record {
    base = u.same.base;
    size = u.same.size;
    map_size = u.same.map_size;
    max_order = u.same.max_order;
  }

  joined-Owns : Owns joined u.rest (λ x. hit (p2v (lower_of paddr k)) (suc k) x + held x)
  joined-Owns =
      Owns-held joined u.rest _ _ (λ x. omega (arith, p.whole x)) (Owns-map c u.rest _ new u.owns)

  joined-InMap : InMap joined (p2v (lower_of paddr k)) (suc k)
  joined-InMap = InMap-SameArea b joined _ (suc k) joined-SameArea p.in_map

  -- What comes of the joined block comes of the block and its buddy.
  Merged-joined :
      {r : Run (Buddy × ℕ × ℕ)}
      → Merged joined u.rest held (lower_of paddr k) (suc k) r
      → Merged b free held paddr k r
  Merged-joined (grown d paddr' k' g) = grown d paddr' k' (record {
    rest = g.rest;
    owns = g.owns;
    in_map = g.in_map;
    order = omega (arith, g.order, u.same.max_order);
    same = SameArea-trans b joined d joined-SameArea g.same;
    total =
        λ x. let t = rw u.same.max_order at (g.total x) in omega (arith, t, u.total x, p.whole x);
  })
  Merged-joined (null_list j le lt e) =
      null_list j (omega arith) (omega (arith, u.same.max_order))
        (sym (u.others j (omega arith)) ∙ e)

-- What the loop does with the outcome of `remove_from_free_list`, given what it does at the next
-- order.
after_remove :
    (fuel left : ℕ) (b : Buddy) (free : ℕ → List ℕ) (held : ℕ → ℕ) (paddr k : ℕ)
    {r : Run (Bool × Buddy)}
    → Owns b free (λ x. hit (p2v paddr) k x + held x)
    → InMap b (p2v paddr) k
    → k < b.max_order
    → b.max_order < 20
    → paddr < 2 ^ 32
    → ((c : Buddy) (free' : ℕ → List ℕ) (paddr' : ℕ)
        → c.max_order ≡ b.max_order
        → Owns c free' (λ x. hit (p2v paddr') (suc k) x + held x)
        → InMap c (p2v paddr') (suc k)
        → paddr' < 2 ^ 32
        → ((j : ℕ) → suc k ≤ j → free' j ≡ free j)
        → Merged c free' held paddr' (suc k) (merge_loop fuel left c paddr' (suc k)))
    → Unlinked b free (λ x. hit (p2v paddr) k x + held x) (p2v (buddy_of paddr k)) k r
    → Merged b free held paddr k (
        r >>= λ x.
        let (removed, b') = x in
        elim removed [
          | false ↦ ok (b', paddr, k)
          | true ↦ mark_allocated b' (p2v (buddy_of paddr k)) k >>= λ b''.
              merge_loop fuel left b'' (lower_of paddr k) (k + 1)
        ])
after_remove fuel left b free held paddr k o m lt small bound ih (null_head e) =
    null_list k (omega arith) lt e
after_remove fuel left b free held paddr k o m lt small bound ih (missing h) =
    unmerged b free held paddr k o m (omega arith)
after_remove fuel left b free held paddr k o m lt small bound ih (unlinked c h u) =
    let m' : InMap b (p2v (buddy_of paddr k)) k = o.in_map k _ h in
    let p = buddies-IsPair b paddr k (omega arith) m m' bound in
    let marks =
      mark_allocated-Marks c (p2v (buddy_of paddr k)) k (InMap-SameArea b c _ k u.same m')
        (omega arith) in
    let next : k + 1 ≡ suc k = omega arith in
    rw (marks.returns, next)
      (Merged-joined b free held paddr k c u marks.new p (
        ih (joined b free held paddr k c u marks.new p) u.rest (lower_of paddr k) u.same.max_order
          (joined-Owns b free held paddr k c u marks.new p)
          (joined-InMap b free held paddr k c u marks.new p) p.below
          (λ j le. u.others j (omega arith))))

merge_loop-Merged :
    (fuel left : ℕ) (b : Buddy) (free : ℕ → List ℕ) (held : ℕ → ℕ) (paddr k : ℕ)
    → Owns b free (λ x. hit (p2v paddr) k x + held x)
    → InMap b (p2v paddr) k
    → k + left ≡ b.max_order
    → b.max_order < 20
    → paddr < 2 ^ 32
    → ((j : ℕ) → k ≤ j → length (free j) ≤ fuel)
    → Merged b free held paddr k (merge_loop fuel left b paddr k)
unfolding merge_loop
merge_loop-Merged fuel zero b free held paddr k o m e small bound h =
    unmerged b free held paddr k o m (omega arith)
merge_loop-Merged fuel (suc left) b free held paddr k o m e small bound h =
    elim (Bool-cases (is_block_free b (page_index b (p2v (buddy_of paddr k))) k)) [
      | inr full ↦ rw full (unmerged b free held paddr k o m (omega arith))
      | inl clear ↦ rw clear (
          after_remove fuel left b free held paddr k o m (omega arith) small bound
            (λ c free' paddr' e' o' m' bound' same.
              merge_loop-Merged fuel left c free' held paddr' (suc k) o' m' (omega arith)
                (omega arith) bound' (λ j le. rw (same j le) (h j (omega arith))))
            (remove_from_free_list-Unlinked fuel b free _ _ k o (omega arith) (h k (omega arith))))
    ]

-- What `buddy_dealloc` leaves: the block is among the free ones, by itself or in a larger block.
pub record Freed (b : Buddy) (free : ℕ → List ℕ) (held : ℕ → ℕ) (v order : ℕ) (c : Buddy)
    : Type 0 where
  pub rest : ℕ → List ℕ
  pub owns : Owns c rest held
  pub total :
      (x : ℕ) → cover (suc b.max_order) rest x ≡ cover (suc b.max_order) free x + hit v order x
  pub same : SameArea b c

-- The outcome of `buddy_dealloc`: a normal return, or a read through NULL where the list of some
-- order from the block's on, below the largest, is empty.
pub data Deallocated (b : Buddy) (free : ℕ → List ℕ) (held : ℕ → ℕ) (v order : ℕ)
    : Run Buddy → Type 0 where
  freed : (c : Buddy) → Freed b free held v order c → Deallocated b free held v order (ok c)
  null_list :
      (j : ℕ) → order ≤ j → j < b.max_order → free j ≡ [] → Deallocated b free held v order fault

-- The end of the call: the grown block goes on its list.
after_merge :
    (b : Buddy) (free : ℕ → List ℕ) (held : ℕ → ℕ) (paddr k : ℕ) {r : Run (Buddy × ℕ × ℕ)}
    → Merged b free held paddr k r
    → Deallocated b free held
        (p2v paddr)
        k
        (r >>= λ x. let (c, paddr', k') = x in ok (buddy_list_add c (p2v paddr') k'))
after_merge b free held paddr k (null_list j le lt e) = null_list j le lt e
after_merge b free held paddr k (grown c paddr' k' g) = freed _ (
    let le : k' ≤ c.max_order = omega (arith, g.order, g.same.max_order) in
    record {
      rest = update g.rest k' (p2v paddr' ∷ g.rest k');
      owns = Owns-list_add c g.rest held (p2v paddr') k' g.owns g.in_map le;
      total = λ x.
          let t =
            rw g.same.max_order at
              (cover-list_add c g.rest held (p2v paddr') k' g.owns g.in_map le x) in
          omega (arith, t, g.total x);
      same =
          SameArea-trans b c _ g.same
            (list_add-SameArea c g.rest held (p2v paddr') k' g.owns g.in_map le);
    })

-- Clearing bits first changes nothing in the account of blocks.
Deallocated-map :
    (b : Buddy) (free : ℕ → List ℕ) (held : ℕ → ℕ) (v order : ℕ) (new : Bitmap) {r : Run Buddy}
    → Deallocated (record b { map = new }) free held v order r
    → Deallocated b free held v order r
Deallocated-map b free held v order new (null_list j le lt e) = null_list j le lt e
Deallocated-map b free held v order new (freed c f) = freed c (record {
  rest = f.rest;
  owns = f.owns;
  total = f.total;
  same = record {
    base = f.same.base;
    size = f.same.size;
    map_size = f.same.map_size;
    max_order = f.same.max_order;
  };
})

-- `buddy_dealloc` of a block that the caller holds, for every well-formed allocator of less than
-- 2 ^ 20 pages and with fuel for its lists, never panics and never runs out of fuel. If it returns,
-- the allocator is well formed, the block has left the caller's hands, and every address is covered
-- by the free blocks as often as before by them and the block together, however often the block was
-- merged. If it faults, some list of an order from the block's up to below the largest was empty.
pub buddy_dealloc-Deallocated :
    (fuel : ℕ) (b : Buddy) (free : ℕ → List ℕ) (held : ℕ → ℕ) (paddr order : ℕ)
    → Owns b free (λ x. hit (p2v paddr) order x + held x)
    → InMap b (p2v paddr) order
    → order ≤ b.max_order
    → b.max_order < 20
    → paddr < 2 ^ 32
    → ((j : ℕ) → order ≤ j → length (free j) ≤ fuel)
    → Deallocated b free held (p2v paddr) order (buddy_dealloc fuel b paddr order)
unfolding buddy_dealloc
buddy_dealloc-Deallocated fuel b free held paddr order o m le small bound h =
    let marks = mark_free-Marks b (p2v paddr) order m (omega arith) in
    rw marks.returns (
      Deallocated-map b free held (p2v paddr) order marks.new (
        after_merge (record b { map = marks.new }) free held paddr order
          (merge_loop-Merged fuel (b.max_order - order) (record b { map = marks.new }) free held
            paddr order (Owns-map b free _ marks.new o)
            (InMap-SameArea b _ _ order
              (record { base = refl; size = refl; map_size = refl; max_order = refl }) m)
            (omega arith) small bound h)))
