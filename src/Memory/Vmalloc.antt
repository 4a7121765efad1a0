-- ===== src/Memory/Vmalloc.antt =====
-- kernel/src/memory/vmalloc.c and vfree.c: the heap of virtually contiguous blocks.
--
-- The free list is the list of its nodes in their order, each with its address and size: the nodes lie
-- in the free memory itself, so that no two overlap. `header` is the memory of the block headers, by the
-- address of the header. Of the physical memory the state keeps `phys`, how many more calls of
-- `buddy_alloc(0)` return a page, and of the page tables which pages are mapped: `vmm_map_page` of a
-- mapped page changes nothing. What `vfree` writes over a header, the node of the free list, is left out: a
-- second `vfree` of a block that is free is not what the code does then. Addresses and sizes are 32 bits wide.
pub mod Canonical
pub mod Heap
pub mod Space
pub mod Give
pub mod Take
pub mod Wrap
mod Tests
use ferrite_c.Common.{
  ℕ, zero, suc, ◌+◌, ◌-◌, ◌*◌, ◌/◌, ◌%◌, Bool, true, false, not, ◌||◌, List, [], ◌∷◌, Option, none,
  some, ltb, leb, ◌==◌, if◌then◌else◌, update, add32, sub32, Run, ok, fault, panic, ◌>>=◌,
}

pub record Node : Type 0 where
  pub addr : ℕ
  pub size : ℕ

pub record Header : Type 0 where
  pub flags : ℕ
  pub size : ℕ
  pub magic : ℕ

pub record Vm : Type 0 where
  pub free : List Node
  pub header : ℕ → Header
  pub phys : ℕ
  pub mapped : ℕ → Bool

abbrev pub page_size : ℕ
page_size = 0x1000

abbrev pub sizeof_header : ℕ
sizeof_header = 12

abbrev pub sizeof_free_list : ℕ
sizeof_free_list = 8

abbrev pub magic_number : ℕ
magic_number = 0xdead_beef

-- MEM_TYPE_VMALLOC
abbrev pub type_vmalloc : ℕ
type_vmalloc = 1

-- ALIGN(n + sizeof(block_header_t), PAGE_SIZE)
abbrev pub total_size : ℕ → ℕ
total_size n = add32 (add32 n sizeof_header) (page_size - 1) / page_size * page_size

-- `buddy_alloc(0)`, an abort where it returns NULL, and `vmm_map_page`.
pub map_page : Vm → (vaddr : ℕ) → Run Vm
map_page s vaddr =
    if s.phys == 0
    then panic
    else ok (record s { phys = s.phys - 1; mapped = update s.mapped vaddr true })

-- The loop over the pages of the block.
pub map_pages : (count vaddr : ℕ) → Vm → Run Vm
unfolding map_page
map_pages zero vaddr s = ok s
map_pages (suc k) vaddr s = map_page s vaddr >>= map_pages k (add32 vaddr page_size)

abbrev pub splits : (total : ℕ) → Node → Bool
splits total x = ltb sizeof_free_list (x.size - total)

-- The search for a node that is large enough, and its removal: the node, and the list without the
-- memory that is taken from it.
pub take_fit : (total : ℕ) → List Node → Option (Node × List Node)
take_fit total [] = none
take_fit total (x ∷ xs) =
    if leb total x.size
    then some (
      x,
      (if splits total x
          then record { addr = add32 x.addr total; size = x.size - total } ∷ xs
          else xs),
    )
    else elim (take_fit total xs) [ none ↦ none | some (y, ys) ↦ some (y, x ∷ ys) ]

-- What follows the search: the pages, and the header.
pub hand_out : Vm → (total : ℕ) → Node → List Node → Run (Vm × ℕ)
unfolding map_pages
hand_out s total x rest =
    (if splits total x then map_page s (add32 x.addr total) else ok s) >>= λ s1.
    map_pages (total / page_size) x.addr (record s1 { free = rest }) >>= λ s2. ok (
      record s2 {
        header =
            update s2.header x.addr
              (record { flags = type_vmalloc; size = total; magic = magic_number });
      },
      add32 x.addr sizeof_header,
    )

-- The result is the address, or 0 for NULL. A total that wraps to 0 would leave the node on the list
-- and write the header over it.
pub vmalloc : Vm → (n : ℕ) → Run (Vm × ℕ)
unfolding take_fit hand_out
vmalloc s n = if n == 0 then ok (s, 0) else elim (take_fit (total_size n) s.free) [
  | none ↦ ok (s, 0)
  | some (x, rest) ↦ if total_size n == 0 then fault else hand_out s (total_size n) x rest
]

-- The node joined with the next one, where they touch.
pub join_next : Node → List Node → List Node
join_next b [] = b ∷ []
join_next b (c ∷ cs) =
    if add32 b.addr b.size == c.addr
    then record { addr = b.addr; size = b.size + c.size } ∷ cs
    else b ∷ c ∷ cs

-- The node put between `prev` and the rest.
pub link : (prev b : Node) → List Node → List Node
unfolding join_next
link prev b rest =
    if add32 prev.addr prev.size == b.addr
    then join_next (record { addr = prev.addr; size = prev.size + b.size }) rest
    else prev ∷ join_next b rest

-- The walk with `prev` and `current`.
pub free_after : (prev b : Node) → List Node → List Node
unfolding link
free_after prev b [] = link prev b []
free_after prev b (x ∷ xs) =
    if ltb x.addr b.addr then prev ∷ free_after x b xs else link prev b (x ∷ xs)

pub free_into : (b : Node) → List Node → List Node
unfolding free_after
free_into b [] = join_next b []
free_into b (x ∷ xs) = if ltb x.addr b.addr then free_after x b xs else join_next b (x ∷ xs)

-- The loop that unmaps pages and gives them to `buddy_dealloc`.
pub unmap_pages : (count vaddr : ℕ) → Vm → Vm
unmap_pages zero vaddr s = s
unmap_pages (suc k) vaddr s = unmap_pages k (add32 vaddr page_size) (record s {
  phys = if s.mapped vaddr then s.phys + 1 else s.phys;
  mapped = update s.mapped vaddr false;
})

-- The first page of the block stays mapped.
pub vfree : Vm → (ptr : ℕ) → Run Vm
unfolding free_into unmap_pages
vfree s ptr =
    let at = sub32 ptr sizeof_header in
    let h = s.header at in
    if ptr == 0
    then ok s
    else if not (h.magic == magic_number)
    then ok s
    else if not (h.flags % 2 == type_vmalloc)
    then panic
    else ok (
        unmap_pages (h.size / page_size - 1) (add32 at page_size)
          (record s { free = free_into (record { addr = at; size = h.size }) s.free }))
