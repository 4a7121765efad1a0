-- ===== src/Memory/Buddy.antt =====
-- kernel/src/memory/buddy_allocator/buddy.c: the buddy allocator of physical pages.
--
-- `g_buddy` is the record `Buddy`. An array is a function of the index: `map i j` is bit j of byte
-- i of the bitmap, and `free_lists k` the head of the list of order k (a C array of 33 entries; the
-- code reads entries 0 to max_order + 1, and max_order is at most 20). `next a` is the field `next`
-- of the node at address `a`: a free block holds its own list node. NULL is 0, and reading `next`
-- of NULL is a fault. A walk along a list takes `fuel`, the number of nodes that it may visit.
pub mod Alloc
pub mod Blocks
pub mod Dealloc
pub mod Faults
pub mod Invariant
pub mod Merge
pub mod Remove
mod Tests
pub mod Bitmap
use ferrite_c.Common.{
  ℕ, zero, suc, ◌+◌, ◌-◌, ◌/◌, ◌%◌, Bool, true, false, ◌&&◌, not, Option, none, some, ltb, leb,
  ◌==◌, if◌then◌else◌, update, add32, sub32, shl32, Run, ok, fault, panic, out_of_fuel, ◌>>=◌,
}
use Prim.Native.Nat.{bit_xor}

abbrev pub page_size : ℕ
page_size = 0x1000

abbrev pub kernbase : ℕ
kernbase = 0xc000_0000

-- P2V_WO and V2P_WO
abbrev pub p2v : ℕ → ℕ
p2v x = add32 x kernbase

abbrev pub v2p : ℕ → ℕ
v2p x = sub32 x kernbase

abbrev pub Bitmap : Type 0
Bitmap = ℕ → ℕ → Bool

pub record Buddy : Type 0 where
  pub base : ℕ
  pub size : ℕ
  pub free_lists : ℕ → ℕ
  pub map : Bitmap
  pub map_size : ℕ
  pub max_order : ℕ
  pub next : ℕ → ℕ

-- `true` is the 1 of a set bit, and of a bit outside the map.
pub buddy_get_bit : Buddy → ℕ → Bool
buddy_get_bit b bit_index =
    if leb b.map_size (bit_index / 8) then true else b.map (bit_index / 8) (bit_index % 8)

-- The loop of `is_block_free` at round j, with `left` rounds to go.
pub check_free : Buddy → (i j left : ℕ) → Bool
check_free b i j zero = true
check_free b i j (suc left) =
    let rest = check_free b i (j + 1) left in
    let page = add32 i j in
    if leb b.map_size (page / 8) then false else if b.map (page / 8) (page % 8) then false else rest

pub is_block_free : Buddy → (i order : ℕ) → Bool
unfolding check_free
is_block_free b i order = check_free b i 0 (shl32 1 order)

-- The rest of the walk of `remove_from_free_list`: `prev` and `current` follow one another.
pub remove_loop : (fuel : ℕ) → (next : ℕ → ℕ) → (target prev current : ℕ) → Run (Bool × (ℕ → ℕ))
remove_loop zero next target prev current = out_of_fuel
remove_loop (suc fuel) next target prev current =
    let rest = remove_loop fuel next target current (next current) in
    if current == 0
    then ok (false, next)
    else if current == target
    then ok (true, update next prev (next current))
    else rest

-- `head->next` is read before the test for an empty list.
pub remove_from_free_list : (fuel : ℕ) → Buddy → (vaddr order : ℕ) → Run (Bool × Buddy)
unfolding remove_loop
remove_from_free_list fuel b vaddr order =
    let head = b.free_lists order in
    if ltb b.max_order order
    then panic
    else if head == 0
    then fault
    else if head == vaddr
    then ok (true, record b { free_lists = update b.free_lists order (b.next head) })
    else (do
      (found, next') ← remove_loop fuel b.next vaddr head (b.next head)
      ok (found, record b { next = next' }))

-- `map[byte] &= ~(1 << bit)` and `map[byte] |= 1 << bit`
abbrev pub write_bit : Bool → Bitmap → (page : ℕ) → Bitmap
write_bit v map page i = if page / 8 == i then update (map i) (page % 8) v else map i

-- The loop of `mark_free` (v is false) and of `mark_allocated` (v is true).
pub mark_loop : (v : Bool) (map_size : ℕ) → Bitmap → (i j left : ℕ) → Run Bitmap
mark_loop v map_size map i j zero = ok map
mark_loop v map_size map i j (suc left) =
    let page = add32 i j in
    let rest = mark_loop v map_size (write_bit v map page) i (j + 1) left in
    if leb map_size (page / 8) then panic else rest

-- The index of the page at an address.
abbrev pub page_index : Buddy → ℕ → ℕ
page_index b vaddr = sub32 vaddr b.base / page_size

pub mark_free : Buddy → (vaddr order : ℕ) → Run Buddy
unfolding mark_loop
mark_free b vaddr order = do
  map' ← mark_loop false b.map_size b.map (page_index b vaddr) 0 (shl32 1 order)
  ok (record b { map = map' })

pub mark_allocated : Buddy → (vaddr order : ℕ) → Run Buddy
unfolding mark_loop
mark_allocated b vaddr order = do
  map' ← mark_loop true b.map_size b.map (page_index b vaddr) 0 (shl32 1 order)
  ok (record b { map = map' })

pub buddy_list_add : Buddy → (vaddr k : ℕ) → Buddy
buddy_list_add b vaddr k = record b {
  next = update b.next vaddr (b.free_lists k);
  free_lists = update b.free_lists k vaddr;
}

pub buddy_manages : Buddy → ℕ → Bool
buddy_manages b addr = leb b.base addr && ltb addr (add32 b.base b.size)

-- The merging loop of `buddy_dealloc`, with `left` = max_order - current_order rounds to go.
pub merge_loop : (fuel left : ℕ) → Buddy → (paddr order : ℕ) → Run (Buddy × ℕ × ℕ)
merge_loop fuel zero b paddr order = ok (b, paddr, order)
merge_loop fuel (suc left) b paddr order =
    let buddy_paddr = bit_xor paddr (shl32 page_size order) in
    let buddy_vaddr = p2v buddy_paddr in
    if not (is_block_free b (page_index b buddy_vaddr) order) then ok (b, paddr, order) else (do
      (removed, b') ← remove_from_free_list fuel b buddy_vaddr order
      elim removed [
        | false ↦ ok (b', paddr, order)
        | true ↦ (do
          b'' ← mark_allocated b' buddy_vaddr order
          merge_loop fuel left b'' (if ltb paddr buddy_paddr then paddr else buddy_paddr)
              (order + 1))
      ])

pub buddy_dealloc : (fuel : ℕ) → Buddy → (paddr order : ℕ) → Run Buddy
unfolding mark_free merge_loop buddy_list_add is_block_free remove_from_free_list mark_allocated
buddy_dealloc fuel b paddr order = do
  b' ← mark_free b (p2v paddr) order
  (b'', paddr', order') ← merge_loop fuel (b.max_order - order) b' paddr order
  ok (buddy_list_add b'' (p2v paddr') order')

-- The search of `buddy_alloc` from k, with `left` = max_order + 1 - k rounds to go.
pub find_order : Buddy → (k left : ℕ) → ℕ
find_order b k zero = k
find_order b k (suc left) =
    let rest = find_order b (k + 1) left in if b.free_lists k == 0 then rest else k

-- The splitting loop: `left` = k - order rounds to go, and the block at `vaddr` has order k.
pub split_loop : (left : ℕ) → Buddy → (vaddr k : ℕ) → Buddy
split_loop zero b vaddr k = b
split_loop (suc left) b vaddr k =
    split_loop left (buddy_list_add b (add32 vaddr (shl32 page_size (k - 1))) (k - 1)) vaddr (k - 1)

-- What `buddy_alloc` does after its search ended at order k.
pub alloc_from : Buddy → (order k : ℕ) → Run (Option ℕ × Buddy)
unfolding split_loop buddy_list_add mark_allocated
alloc_from b order k =
    let block = b.free_lists k in
    let popped = record b { free_lists = update b.free_lists k (b.next block) } in
    if block == 0 then ok (none, b) else (do
      b' ← mark_allocated (split_loop (k - order) popped block k) block order
      ok (some (v2p block), b'))

-- `none` is the NULL that the caller gets; `some` carries the physical address.
pub buddy_alloc : Buddy → (order : ℕ) → Run (Option ℕ × Buddy)
unfolding find_order alloc_from
buddy_alloc b order =
    if ltb b.max_order order
    then ok (none, b)
    else alloc_from b order (find_order b order (b.max_order + 1 - order))
