-- ===== src/Memory/Buddy/Merge.antt =====
-- Two buddies: the block whose address differs in the bit of the block's size, and the block of the
-- next order that they make together.
use native.Mathlib.Nat.{two-pow-succ}
use ferrite_c.Common.{
  ℕ, suc, ◌+◌, ◌*◌, ◌/◌, ◌^◌, ◌<◌, ◌≡◌, ◌⊎◌, inl, inr, ltb, if◌then◌else◌, shl32, arith, ap, ◌∙◌,
  lt→ltb, le→ltb, true, false,
}
use ferrite_c.Common.Bits.{bit_xor_even, bit_xor_odd}
use Prim.Native.Nat.{bit_xor}
use ferrite_c.Memory.Buddy.{Buddy, page_size, kernbase, p2v}
use ferrite_c.Memory.Buddy.Blocks.{hit, hit_split}
use ferrite_c.Memory.Buddy.Bitmap.{two-pow-pos, two-pow-le}
use ferrite_c.Memory.Buddy.Invariant.{InMap}

two_pow_double : (n : ℕ) → 2 ^ suc n ≡ 2 * 2 ^ n
two_pow_double n = omega (arith, two-pow-succ n)

-- A block's size as a power of two.
abbrev size_log : ℕ → ℕ
size_log k = suc (suc (suc (suc (suc (suc (suc (suc (suc (suc (suc (suc k)))))))))))

size_pow : (k : ℕ) → page_size * 2 ^ k ≡ 2 ^ size_log k
size_pow k = simp two_pow_double (omega arith)

shift : (k : ℕ) → k < 20 → shl32 page_size k ≡ page_size * 2 ^ k
shift k h = omega (arith, two-pow-le k 19 (omega arith))

abbrev pub buddy_of : (paddr k : ℕ) → ℕ
buddy_of paddr k = bit_xor paddr (shl32 page_size k)

-- Which of the two a block is, by the parity of its index.
parity : (q : ℕ) → (q ≡ 2 * (q / 2)) ⊎ (q ≡ 2 * (q / 2) + 1)
parity q = omega arith

buddy_even :
    (r k : ℕ)
    → k < 20
    → buddy_of (2 * r * (page_size * 2 ^ k)) k ≡ (2 * r + 1) * (page_size * 2 ^ k)
buddy_even r k h = rw (shift k h, size_pow k) (bit_xor_even r _)

buddy_odd :
    (r k : ℕ)
    → k < 20
    → buddy_of ((2 * r + 1) * (page_size * 2 ^ k)) k ≡ 2 * r * (page_size * 2 ^ k)
buddy_odd r k h = rw (shift k h, size_pow k) (bit_xor_odd r _)

-- What two buddies in the managed memory make together: `low` is the lower of their addresses.
pub record IsPair (b : Buddy) (paddr k low : ℕ) : Type 0 where
  pub below : low < 2 ^ 32
  pub in_map : InMap b (p2v low) (suc k)
  pub whole :
      (x : ℕ) → hit (p2v low) (suc k) x ≡ hit (p2v paddr) k x + hit (p2v (buddy_of paddr k)) k x

-- Two neighbours of order k, the lower at an even multiple of their size.
module _ (b : Buddy) (lo hi k r : ℕ) (m : InMap b (p2v lo) k) (m' : InMap b (p2v hi) k)
    (bound : lo < 2 ^ 32) (at : lo ≡ 2 * r * (page_size * 2 ^ k))
    (next : hi ≡ lo + page_size * 2 ^ k) where
  address : p2v lo ≡ lo + kernbase
  address = omega (arith, m.aligned.1)

  next_address : p2v hi ≡ p2v lo + page_size * 2 ^ k
  next_address = omega (arith, address, m.below, m'.positive)

  pair-InMap : InMap b (p2v lo) (suc k)
  pair-InMap = record {
    above = m.above;
    positive = m.positive;
    aligned = (r, omega (arith, address, ap (λ (t : ℕ). r * t) (two_pow_double k)));
    mapped = omega (arith, m.above, m'.mapped, next_address, two_pow_double k);
    below = omega (arith, m'.below, next_address, two_pow_double k);
  }

  pair_whole : (x : ℕ) → hit (p2v lo) (suc k) x ≡ hit (p2v lo) k x + hit (p2v hi) k x
  pair_whole x = rw next_address (hit_split (p2v lo) k x)

-- The address that the merging loop goes on with.
abbrev pub lower_of : (paddr k : ℕ) → ℕ
lower_of paddr k = if ltb paddr (buddy_of paddr k) then paddr else buddy_of paddr k

module _ (b : Buddy) (paddr k r : ℕ) (h : k < 20) (m : InMap b (p2v paddr) k)
    (m' : InMap b (p2v (buddy_of paddr k)) k) (bound : paddr < 2 ^ 32) where
  even-IsPair : paddr ≡ 2 * r * (page_size * 2 ^ k) → IsPair b paddr k (lower_of paddr k)
  even-IsPair e =
      let next : buddy_of paddr k ≡ paddr + page_size * 2 ^ k =
        ap (λ (t : ℕ). buddy_of t k) e ∙ buddy_even r k h ∙ omega (arith, e) in
      let first : ltb paddr (buddy_of paddr k) ≡ true =
        lt→ltb _ _ (omega (arith, next, two-pow-pos k)) in
      rw first (record {
        below = bound;
        in_map = pair-InMap b paddr (buddy_of paddr k) k r m m' bound e next;
        whole = pair_whole b paddr (buddy_of paddr k) k r m m' bound e next;
      })

  odd-IsPair : paddr ≡ (2 * r + 1) * (page_size * 2 ^ k) → IsPair b paddr k (lower_of paddr k)
  odd-IsPair e =
      let at : buddy_of paddr k ≡ 2 * r * (page_size * 2 ^ k) =
        ap (λ (t : ℕ). buddy_of t k) e ∙ buddy_odd r k h in
      let next : paddr ≡ buddy_of paddr k + page_size * 2 ^ k = omega (arith, e, at) in
      let second : ltb paddr (buddy_of paddr k) ≡ false = le→ltb _ _ (omega (arith, next)) in
      let low : buddy_of paddr k < 2 ^ 32 = omega (arith, next, bound) in
      rw second (record {
        below = low;
        in_map = pair-InMap b (buddy_of paddr k) paddr k r m' m low at next;
        whole = λ x. omega (arith, pair_whole b (buddy_of paddr k) paddr k r m' m low at next x);
      })

-- Two buddies in the managed memory make a block of the next order at the lower address.
pub buddies-IsPair :
    (b : Buddy) (paddr k : ℕ)
    → k < 20
    → InMap b (p2v paddr) k
    → InMap b (p2v (buddy_of paddr k)) k
    → paddr < 2 ^ 32
    → IsPair b paddr k (lower_of paddr k)
buddies-IsPair b paddr k h m m' bound =
    let q : ℕ = m.aligned.0 in
    let at : paddr ≡ q * (page_size * 2 ^ k) = omega (arith, m.aligned.1) in
    elim (parity q) [
      | inl e ↦
          even-IsPair b paddr k (q / 2) h m m' bound
            (at ∙ ap (λ (t : ℕ). t * (page_size * 2 ^ k)) e)
      | inr e ↦
          odd-IsPair b paddr k (q / 2) h m m' bound (at ∙ ap (λ (t : ℕ). t * (page_size * 2 ^ k)) e)
    ]
