-- ===== src/Memory/Vmalloc/Tests.antt =====
-- vmalloc.c on a heap of four pages with a hole.
use ferrite_c.Common.{ℕ, ◌≡◌, ◌≢◌, inl, inr, refl, false, [], ◌∷◌, Run, ok, arith}
use ferrite_c.Memory.Vmalloc.{Node, Vm, vmalloc, vfree, free_into, magic_number, type_vmalloc}
use ferrite_c.Memory.Vmalloc.Space.{IsHeap, SortedFrom, IsRegion, Apart}
use ferrite_c.Memory.Vmalloc.Canonical.{free_into_comm}
use ferrite_c.Memory.Vmalloc.Heap.{vfree-vmalloc}

abbrev low_node : Node
low_node = record { addr = 0xd000_0000; size = 0x1000 }

abbrev high_node : Node
high_node = record { addr = 0xd000_2000; size = 0x3000 }

-- The page between the two nodes is in use.
abbrev middle : Node
middle = record { addr = 0xd000_1000; size = 0x1000 }

abbrev heap : Vm
heap = record {
  free = low_node ∷ high_node ∷ [];
  header = λ a. record { flags = type_vmalloc; size = 0x1000; magic = magic_number };
  phys = 9;
  mapped = λ a. false;
}

four_pages-IsHeap : IsHeap heap.free
unfolding SortedFrom
four_pages-IsHeap = (
  omega arith,
  record { size_pos = omega arith; pages = omega arith; fits = omega arith },
  (omega arith, record { size_pos = omega arith; pages = omega arith; fits = omega arith }, tt),
)

middle-Apart : Apart middle heap.free
unfolding Apart
middle-Apart = (inl (omega arith), (inr (omega arith), tt))

middle-IsRegion : IsRegion middle
middle-IsRegion = record { size_pos = omega arith; pages = omega arith; fits = omega arith }

-- The three join to one.
joined : free_into middle heap.free ≡ record { addr = 0xd000_0000; size = 0x5000 } ∷ []
unfolding free_into
joined = refl

abbrev value : Run (Vm × ℕ) → Vm × ℕ
value (ok r) = r
value _ = (heap, 0)

after : Vm × ℕ
unfolding vmalloc
after = value (vmalloc heap 5000)

after_returned : vmalloc heap 5000 ≡ ok (after.0, after.1)
unfolding vmalloc after
after_returned = refl

after_address : after.1 ≢ 0
unfolding after
after_address = omega arith

vfree-vmalloc_example : (s'' : Vm) × (vfree after.0 after.1 ≡ ok s'') × (s''.free ≡ heap.free)
vfree-vmalloc_example =
    vfree-vmalloc heap 5000 after.0 after.1 four_pages-IsHeap (omega arith) (omega arith)
      after_returned after_address

abbrev top : Node
top = record { addr = 0xd000_6000; size = 0x2000 }

top-Apart : Apart top heap.free
unfolding Apart
top-Apart = (inl (omega arith), (inl (omega arith), tt))

free_into_comm_example :
    free_into middle (free_into top heap.free) ≡ free_into top (free_into middle heap.free)
free_into_comm_example =
    free_into_comm middle top heap.free middle-IsRegion
      (record { size_pos = omega arith; pages = omega arith; fits = omega arith }) (omega arith)
      (omega arith) four_pages-IsHeap middle-Apart top-Apart (inl (omega arith))
