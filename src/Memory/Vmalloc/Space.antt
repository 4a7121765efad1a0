-- ===== src/Memory/Vmalloc/Space.antt =====
-- The space that the free list describes.
use ferrite_c.Common.{
  ℕ, ◌+◌, ◌%◌, ◌^◌, ◌≤◌, ◌<◌, ◌≡◌, ◌⊎◌, ◌&&◌, List, [], ◌∷◌, ltb, leb, if◌then◌else◌,
}
use ferrite_c.Memory.Vmalloc.{Node}

-- 1 where the address a is in the region, else 0.
abbrev pub inside : (addr size a : ℕ) → ℕ
inside addr size a = if leb addr a && ltb a (addr + size) then 1 else 0

-- How many nodes of the list hold the address a.
unfoldable pub cover : ℕ → List Node → ℕ
cover a [] = 0
cover a (x ∷ xs) = inside x.addr x.size a + cover a xs

-- A region of whole pages below 2 ^ 32.
pub record IsRegion (x : Node) : Type 0 where
  pub size_pos : 0 < x.size
  pub pages : x.size % 0x1000 ≡ 0
  pub fits : x.addr + x.size < 2 ^ 32

-- The nodes stand in the order of their addresses, all behind `low`, and no two touch or overlap.
unfoldable pub SortedFrom : ℕ → List Node → Type 0
SortedFrom low [] = Unit
SortedFrom low (x ∷ xs) = (low < x.addr) × IsRegion x × SortedFrom (x.addr + x.size) xs

-- No node overlaps the region.
unfoldable pub Apart : Node → List Node → Type 0
Apart b [] = Unit
Apart b (x ∷ xs) = ((x.addr + x.size ≤ b.addr) ⊎ (b.addr + b.size ≤ x.addr)) × Apart b xs

-- A list that the allocator keeps: in order, coalesced, in whole pages, and nothing at address 0.
abbrev pub IsHeap : List Node → Type 0
IsHeap fs = SortedFrom 0 fs
