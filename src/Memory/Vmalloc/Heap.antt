-- ===== src/Memory/Vmalloc/Heap.antt =====
-- A block from `vmalloc`, and the same block back to `vfree`.
use mathlib.Core.Path.{subst}
use ferrite_c.Common.{
  ℕ, zero, suc, ◌+◌, ◌-◌, ◌/◌, ◌%◌, ◌^◌, ◌≤◌, ◌<◌, ◌≡◌, ◌≢◌, inl, inr, refl, true, false, List,
  Option, none, some, ◌==◌, if◌then◌else◌, add32, sub32, arith, update, Run, ok, fault, panic,
  out_of_fuel, ◌>>=◌, Bool-cases, ◌∙◌, sym,
}
use ferrite_c.Memory.Vmalloc.{
  Node, Header, Vm, page_size, sizeof_header, magic_number, type_vmalloc, total_size, splits,
  map_page, map_pages, take_fit, hand_out, vmalloc, vfree, free_into, unmap_pages,
}
use ferrite_c.Memory.Vmalloc.Space.{IsRegion, Apart, IsHeap}
use ferrite_c.Memory.Vmalloc.Give.{Given, free_into-Given}
use ferrite_c.Memory.Vmalloc.Take.{TooSmall, block, Taken, none_fits, taken, take_fit-Taken}
use ferrite_c.Memory.Vmalloc.Canonical.{cover_injective}

-- Mapping `count` pages either runs out of physical memory, or touches only the page tables.
data Mapped (count : ℕ) (s : Vm) : Run Vm → Type 0 where
  exhausted : s.phys < count → Mapped count s panic
  done :
      (s' : Vm)
      → s'.free ≡ s.free
      → s'.header ≡ s.header
      → s'.phys + count ≡ s.phys
      → Mapped count s (ok s')

Mapped-first :
    (k : ℕ) (s s1 : Vm) (r : Run Vm)
    → s1.free ≡ s.free
    → s1.header ≡ s.header
    → s1.phys + 1 ≡ s.phys
    → Mapped k s1 r
    → Mapped (suc k) s r
Mapped-first k s s1 panic f h p (exhausted m) = exhausted (omega arith)
Mapped-first k s s1 (ok r) f h p (done s2 f' h' p') = done s2 (f' ∙ f) (h' ∙ h) (omega arith)
Mapped-first k s s1 fault f h p m = elim m [ ]
Mapped-first k s s1 out_of_fuel f h p m = elim m [ ]

map_pages-Mapped : (count vaddr : ℕ) (s : Vm) → Mapped count s (map_pages count vaddr s)
unfolding map_pages map_page
map_pages-Mapped zero vaddr s = done s refl refl (omega arith)
map_pages-Mapped (suc k) vaddr s = elim (Bool-cases (s.phys == 0)) [
  | inl e ↦ rw e (exhausted (ground arith))
  | inr e ↦
      let s1 : Vm = record s { phys = s.phys - 1; mapped = update s.mapped vaddr true } in
      rw e (
        Mapped-first k s s1 (map_pages k (add32 vaddr page_size) s1) refl refl (ground arith)
          (map_pages-Mapped k (add32 vaddr page_size) s1))
]

map_page-Mapped : (vaddr : ℕ) (s : Vm) → Mapped 1 s (map_page s vaddr)
unfolding map_page
map_page-Mapped vaddr s = elim (Bool-cases (s.phys == 0)) [
  | inl e ↦ rw e (exhausted (ground arith))
  | inr e ↦ rw e (done _ refl refl (ground arith))
]

-- What `vmalloc(n)` may do.
pub data Allocated (s : Vm) (n : ℕ) : Run (Vm × ℕ) → Type 0 where
  null : TooSmall (total_size n) s.free → Allocated s n (ok (s, 0))
  no_pages : s.phys < total_size n / page_size + 1 → Allocated s n panic
  given :
      (s' : Vm) (b : Node)
      → b.size ≡ total_size n
      → n + sizeof_header ≤ b.size
      → IsRegion b
      → 0 < b.addr
      → s'.header
        ≡ update s.header b.addr
            (record { flags = type_vmalloc; size = b.size; magic = magic_number })
      → IsHeap s'.free
      → Apart b s'.free
      → free_into b s'.free ≡ s.free
      → Allocated s n (ok (s', add32 b.addr sizeof_header))

module _ (s : Vm) (n : ℕ) (x : Node) (rest : List Node) (roomy : n + sizeof_header ≤ total_size n)
    (l : 0 < x.addr) (r : IsRegion (block (total_size n) x)) (heap : IsHeap rest)
    (apart : Apart (block (total_size n) x) rest)
    (back : free_into (block (total_size n) x) rest ≡ s.free) where
  after_pages :
      (s1 : Vm) (run : Run Vm)
      → s1.free ≡ rest
      → s1.header ≡ s.header
      → s.phys ≤ s1.phys + 1
      → Mapped (total_size n / page_size) s1 run
      → Allocated s n (
          run >>= λ s2. ok (
            record s2 {
              header =
                  update s2.header x.addr
                    (record { flags = type_vmalloc; size = total_size n; magic = magic_number });
            },
            add32 x.addr sizeof_header,
          ))
  after_pages s1 panic f h p (exhausted m) = no_pages (omega arith)
  after_pages s1 (ok run) f h p (done s2 f' h' p') =
      let free : s2.free ≡ rest = f' ∙ f in
      given _ (block (total_size n) x) refl roomy r l (rw (h' ∙ h) refl) (rw free heap)
        (rw free apart) (rw free back)
  after_pages s1 fault f h p m = elim m [ ]
  after_pages s1 out_of_fuel f h p m = elim m [ ]

  after_first :
      (k : ℕ) (run : Run Vm)
      → k ≤ 1
      → Mapped k s run
      → Allocated s n (
          run >>= λ s1.
          map_pages (total_size n / page_size) x.addr (record s1 { free = rest }) >>= λ s2. ok (
            record s2 {
              header =
                  update s2.header x.addr
                    (record { flags = type_vmalloc; size = total_size n; magic = magic_number });
            },
            add32 x.addr sizeof_header,
          ))
  after_first k panic few (exhausted m) = no_pages (omega arith)
  after_first k (ok run) few (done s1 f h p) =
      after_pages (record s1 { free = rest })
        (map_pages (total_size n / page_size) x.addr (record s1 { free = rest })) refl h
        (omega arith)
        (map_pages-Mapped (total_size n / page_size) x.addr (record s1 { free = rest }))
  after_first k fault few m = elim m [ ]
  after_first k out_of_fuel few m = elim m [ ]

  hand_out-Allocated : Allocated s n (hand_out s (total_size n) x rest)
  unfolding hand_out
  hand_out-Allocated = elim (Bool-cases (splits (total_size n) x)) [
    | inl e ↦ rw e (
        after_first 1 (map_page s (add32 x.addr (total_size n))) (omega arith)
          (map_page-Mapped (add32 x.addr (total_size n)) s))
    | inr e ↦ rw e (after_first 0 (ok s) (omega arith) (done s refl refl (omega arith)))
  ]

rx_positive : (t : ℕ) → 0 < t → (t == 0) ≡ false
rx_positive t h = ground arith

roomy_size : (n : ℕ) → n + sizeof_header + page_size ≤ 2 ^ 32 → n + sizeof_header ≤ total_size n
roomy_size n h = omega (arith, h)

Taken-Allocated :
    (s : Vm) (n : ℕ) (r : Option (Node × List Node))
    → IsHeap s.free
    → 0 < n
    → n + sizeof_header + page_size ≤ 2 ^ 32
    → Taken 0 (total_size n) s.free r
    → Allocated s n (elim r [
      | none ↦ ok (s, 0)
      | some (x, rest) ↦ if total_size n == 0 then fault else hand_out s (total_size n) x rest
    ])
Taken-Allocated s n none heap pos small (none_fits h) = null h
Taken-Allocated s n (some r) heap pos small (taken x ys fits l rx sorted apart covers) =
    let roomy = roomy_size n small in
    let b = block (total_size n) x in
    let g = free_into-Given b ys rx l sorted apart in
    let back : free_into b ys ≡ s.free =
      cover_injective 0 (free_into b ys) s.free g.sorted heap (λ a. g.covers a ∙ sym (covers a)) in
    let e : (total_size n == 0) ≡ false = rx_positive (total_size n) rx.size_pos in
    rw e (hand_out-Allocated s n x ys roomy l rx sorted apart back)

pub vmalloc-Allocated :
    (s : Vm) (n : ℕ)
    → IsHeap s.free
    → 0 < n
    → n + sizeof_header + page_size ≤ 2 ^ 32
    → Allocated s n (vmalloc s n)
unfolding vmalloc
vmalloc-Allocated s n heap pos small =
    let e : (n == 0) ≡ false = ground arith in
    let whole : total_size n % 0x1000 ≡ 0 = omega arith in
    let roomy = roomy_size n small in
    rw e (
      Taken-Allocated s n (take_fit (total_size n) s.free) heap pos small
        (take_fit-Taken 0 (total_size n) s.free (omega (arith, roomy, pos)) whole heap))

-- Unmapping pages touches neither the free list nor a header.
unmap_pages_same :
    (count vaddr : ℕ) (s : Vm)
    → ((unmap_pages count vaddr s).free ≡ s.free) × ((unmap_pages count vaddr s).header ≡ s.header)
unfolding unmap_pages
unmap_pages_same zero vaddr s = (refl, refl)
unmap_pages_same (suc k) vaddr s = unmap_pages_same k (add32 vaddr page_size) (record s {
  phys = if s.mapped vaddr then s.phys + 1 else s.phys;
  mapped = update s.mapped vaddr false;
})

-- What `vfree` of the block b leaves.
pub record Freed (s : Vm) (b : Node) (r : Run Vm) : Type 0 where
  pub after : Vm
  pub returns : r ≡ ok after
  pub free : after.free ≡ free_into b s.free
  pub header : after.header ≡ s.header

vfree-Freed :
    (s : Vm) (b : Node)
    → IsRegion b
    → s.header b.addr ≡ record { flags = type_vmalloc; size = b.size; magic = magic_number }
    → Freed s b (vfree s (add32 b.addr sizeof_header))
unfolding vfree
vfree-Freed s b r stamped =
    let size = r.size_pos in
    let fits = r.fits in
    let whole = r.pages in
    let at : sub32 (add32 b.addr sizeof_header) sizeof_header ≡ b.addr = omega arith in
    let e : (add32 b.addr sizeof_header == 0) ≡ false = ground arith in
    let s1 : Vm = record s { free = free_into b s.free } in
    let same = unmap_pages_same (b.size / page_size - 1) (add32 b.addr page_size) s1 in
    record {
      after = unmap_pages (b.size / page_size - 1) (add32 b.addr page_size) s1;
      returns = rw (at, e, stamped) refl;
      free = same.0;
      header = same.1;
    }

-- `vfree` of a block of whole pages that carries its header and that no free node overlaps: it returns,
-- the free list is in order and coalesced again and describes exactly the block's space more, and no
-- header changes.
pub vfree-Given :
    (s : Vm) (b : Node)
    → IsHeap s.free
    → IsRegion b
    → 0 < b.addr
    → Apart b s.free
    → s.header b.addr ≡ record { flags = type_vmalloc; size = b.size; magic = magic_number }
    → (s' : Vm) × (vfree s (add32 b.addr sizeof_header) ≡ ok s')
      × Given 0 b s.free s'.free
      × (s'.header ≡ s.header)
vfree-Given s b heap r pos apart stamped =
    let f = vfree-Freed s b r stamped in
    (f.after, f.returns, rw f.free (free_into-Given b s.free r pos heap apart), f.header)

stamped_at : (h h' : ℕ → Header) (a : ℕ) (v : Header) → h' ≡ update h a v → h' a ≡ v
stamped_at h h' a v e = rw e (ground arith)

freed_again :
    (s : Vm) (n : ℕ) (q : Vm × ℕ)
    → q.1 ≢ 0
    → Allocated s n (ok q)
    → (s'' : Vm) × (vfree q.0 q.1 ≡ ok s'') × (s''.free ≡ s.free)
freed_again s n q ne (null h) = absurd (ne refl)
freed_again s n q ne (given s1 b size roomy r pos header heap apart back) =
    let stamp : Header = record { flags = type_vmalloc; size = b.size; magic = magic_number } in
    let f = vfree-Freed s1 b r (stamped_at s.header s1.header b.addr stamp header) in
    (f.after, f.returns, f.free ∙ back)

-- A block that `vmalloc` returned goes back with `vfree`, and the free list is then exactly what it was
-- before the two calls.
pub vfree-vmalloc :
    (s : Vm) (n : ℕ) (s' : Vm) (p : ℕ)
    → IsHeap s.free
    → 0 < n
    → n + sizeof_header + page_size ≤ 2 ^ 32
    → vmalloc s n ≡ ok (s', p)
    → p ≢ 0
    → (s'' : Vm) × (vfree s' p ≡ ok s'') × (s''.free ≡ s.free)
vfree-vmalloc s n s' p heap pos small e ne =
    freed_again s n (s', p) ne (subst (Allocated s n) e (vmalloc-Allocated s n heap pos small))
