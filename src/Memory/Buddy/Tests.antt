-- ===== src/Memory/Buddy/Tests.antt =====
-- buddy.c on a pool of three pages: a block of two pages and one of one page.
use ferrite_c.Common.{
  ℕ, zero, suc, ◌+◌, ◌≤◌, ◌<◌, ◌≡◌, refl, true, false, List, [], ◌∷◌, has, length, Run, ok, fault,
  ◌>>=◌, arith, ◌==◌, if◌then◌else◌,
}
use mathlib.Core.Path.{subst}
use ferrite_c.Memory.Buddy.Merge.{buddy_of}
use ferrite_c.Memory.Buddy.{
  Buddy, buddy_alloc, buddy_dealloc, p2v, v2p, mark_free, is_block_free, page_index,
}
use ferrite_c.Memory.Buddy.Blocks.{Chain, hit, hits, cover}
use ferrite_c.Memory.Buddy.Invariant.{InMap, Owns}
use ferrite_c.Memory.Buddy.Alloc.{Allocated, buddy_alloc-Allocated}
use ferrite_c.Memory.Buddy.Dealloc.{Deallocated, buddy_dealloc-Deallocated}

abbrev pool : ℕ
pool = 0xc040_0000

-- The pool as the initialisation leaves it.
abbrev three_pages : Buddy
three_pages = record {
  base = pool;
  size = 0x3000;
  free_lists = λ k. if k == 0 then pool + 0x2000 else if k == 1 then pool else 0;
  map = λ i j. false;
  map_size = 4;
  max_order = 1;
  next = λ a. 0;
}

abbrev blocks : ℕ → List ℕ
blocks zero = (pool + 0x2000) ∷ []
blocks (suc zero) = pool ∷ []
blocks (suc (suc k)) = []

chain : (k : ℕ) → Chain three_pages.next (three_pages.free_lists k) (blocks k)
chain zero = omega arith
chain (suc zero) = omega arith
chain (suc (suc k)) = ground arith

nothing_above : (k : ℕ) → 1 < k → blocks k ≡ []
nothing_above zero h = absurd (omega arith)
nothing_above (suc zero) h = absurd (omega arith)
nothing_above (suc (suc k)) h = refl

in_map : (k a : ℕ) → has a (blocks k) ≡ true → InMap three_pages a k
in_map zero a h =
    let e : a ≡ pool + 0x2000 = ground arith in
    rw e (record {
      above = omega arith;
      positive = omega arith;
      aligned = (0x402, refl);
      mapped = omega arith;
      below = omega arith;
    })
in_map (suc zero) a h =
    let e : a ≡ pool = ground arith in
    rw e (record {
      above = omega arith;
      positive = omega arith;
      aligned = (0x200, refl);
      mapped = omega arith;
      below = omega arith;
    })
in_map (suc (suc k)) a h = absurd (ground arith)

pool-Owns : Owns three_pages blocks (λ x. 0)
unfolding cover hits hit
pool-Owns = record {
  chain = chain;
  nothing_above = nothing_above;
  in_map = in_map;
  apart = λ x. ground arith;
}

buddy_alloc-Allocated_example : Allocated three_pages blocks (λ x. 0) 1 (buddy_alloc three_pages 1)
buddy_alloc-Allocated_example =
    buddy_alloc-Allocated three_pages blocks (λ x. 0) 1 pool-Owns (omega arith) (omega arith)

-- The pool after one page was handed out.
abbrev two_pages : Buddy
two_pages = record {
  base = pool;
  size = 0x3000;
  free_lists = λ k. if k == 1 then pool else 0;
  map = λ i j. (if i == 0 then j == 2 else false);
  map_size = 4;
  max_order = 1;
  next = λ a. 0;
}

-- Freeing it reads through NULL: the page behind the pool has a clear bit in the map, and the list
-- of single pages is empty.
last_page_faults : buddy_dealloc 8 two_pages (v2p (pool + 0x2000)) 0 ≡ fault
unfolding buddy_dealloc
last_page_faults = refl

-- A pool of two pages, the first of which the caller holds.
abbrev one_held : Buddy
one_held = record {
  base = pool;
  size = 0x2000;
  free_lists = λ k. if k == 0 then pool + 0x1000 else 0;
  map = λ i j. (if i == 0 then j == 0 else false);
  map_size = 4;
  max_order = 1;
  next = λ a. 0;
}

abbrev rest : ℕ → List ℕ
rest zero = (pool + 0x1000) ∷ []
rest (suc k) = []

rest-Chain : (k : ℕ) → Chain one_held.next (one_held.free_lists k) (rest k)
rest-Chain zero = omega arith
rest-Chain (suc k) = ground arith

rest_above : (k : ℕ) → 1 < k → rest k ≡ []
rest_above zero h = absurd (omega arith)
rest_above (suc k) h = refl

page-InMap : InMap one_held (p2v 0x40_0000) 0
page-InMap = record {
  above = omega arith;
  positive = omega arith;
  aligned = (0x400, refl);
  mapped = omega arith;
  below = omega arith;
}

rest-InMap : (k a : ℕ) → has a (rest k) ≡ true → InMap one_held a k
rest-InMap zero a h =
    let e : a ≡ pool + 0x1000 = ground arith in
    rw e (record {
      above = omega arith;
      positive = omega arith;
      aligned = (0x401, refl);
      mapped = omega arith;
      below = omega arith;
    })
rest-InMap (suc k) a h = absurd (ground arith)

held-Owns : Owns one_held rest (λ x. hit (p2v 0x40_0000) 0 x + 0)
unfolding cover hits hit
held-Owns = record {
  chain = rest-Chain;
  nothing_above = rest_above;
  in_map = rest-InMap;
  apart = λ x. ground arith;
}

rest_short : (j : ℕ) → 0 ≤ j → length (rest j) ≤ 4
rest_short zero h = omega arith
rest_short (suc j) h = omega arith

buddy_dealloc-Deallocated_example :
    Deallocated one_held rest (λ x. 0) (p2v 0x40_0000) 0 (buddy_dealloc 4 one_held 0x40_0000 0)
buddy_dealloc-Deallocated_example =
    buddy_dealloc-Deallocated 4 one_held rest (λ x. 0) 0x40_0000 0 held-Owns page-InMap
      (omega arith) (omega arith) (omega arith) rest_short

-- The two pages become one block of order 1.
joins : (buddy_dealloc 4 one_held 0x40_0000 0 >>= λ c. ok (c.free_lists 1)) ≡ ok pool
unfolding buddy_dealloc
joins = refl

second-InMap : InMap one_held (pool + 0x1000) 0
second-InMap = record {
  above = omega arith;
  positive = omega arith;
  aligned = (0x401, refl);
  mapped = omega arith;
  below = omega arith;
}

both-InMap : InMap one_held pool 1
both-InMap = record {
  above = omega arith;
  positive = omega arith;
  aligned = (0x200, refl);
  mapped = omega arith;
  below = omega arith;
}

last-InMap : InMap two_pages (p2v 0x40_2000) 0
last-InMap = record {
  above = omega arith;
  positive = omega arith;
  aligned = (0x402, refl);
  mapped = omega arith;
  below = omega arith;
}

-- A property of the value of a run that returns.
abbrev IsClear : Run Buddy → Type 0
IsClear (ok b') = is_block_free b' (page_index b' (p2v (buddy_of 0x40_2000 0))) 0 ≡ true
IsClear _ = Unit {0}

clear_after :
    (b' : Buddy)
    → mark_free two_pages (p2v 0x40_2000) 0 ≡ ok b'
    → is_block_free b' (page_index b' (p2v (buddy_of 0x40_2000 0))) 0 ≡ true
unfolding mark_free is_block_free
clear_after b' e = subst IsClear e refl
