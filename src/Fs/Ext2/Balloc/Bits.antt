-- ===== src/Fs/Ext2/Balloc/Bits.antt =====
-- The search of a bit map for a clear bit.
use mathlib.Core.Path.{subst}
use ferrite_c.Common.{
  ◌==◌, ◌&&◌, refl, update, ℕ, zero, suc, ◌+◌, ◌-◌, ◌*◌, ◌≤◌, ◌<◌, ◌≡◌, inl, inr, Bool, true, false,
  not, Option, none, some, ltb, if◌then◌else◌, arith, Bool-cases, ◌∙◌, ap,
}
use ferrite_c.Common.Search.{first_index, First, none_passes, first, first_index-First}
use ferrite_c.Fs.Ext2.Balloc.{free_bit, find_free_bit_in_bitmap}

abbrev pub clear : (bitmap : ℕ → Bool) → ℕ → Bool
clear bitmap k = not (bitmap k)

below_or :
    (test : ℕ → Bool) (low mid j : ℕ)
    → ((k : ℕ) → low ≤ k → k < mid → test k ≡ false)
    → low ≤ j
    → (mid ≤ j → test j ≡ false)
    → test j ≡ false
below_or test low mid j h a rest = elim (Bool-cases (ltb j mid)) [
  | inl l ↦ h j a (ground arith)
  | inr l ↦ rest (ground arith)
]

First-over :
    (low mid high : ℕ) (test : ℕ → Bool) (r : Option ℕ)
    → low ≤ mid
    → ((k : ℕ) → low ≤ k → k < mid → test k ≡ false)
    → First mid high test r
    → First low high test r
First-over low mid high test none l h (none_passes rest) =
    none_passes (λ j a b. below_or test low mid j h a (λ c. rest j c b))
First-over low mid high test (some r) l h (first _ a b hit before) =
    first r (omega (arith, l, a)) b hit (λ j c d. below_or test low mid j h c (λ e. before j e d))

in_byte :
    (bitmap : ℕ → Bool) (i k : ℕ)
    → ((j : ℕ) → j < 8 → clear bitmap (i * 8 + j) ≡ false)
    → i * 8 ≤ k
    → k < (i + 1) * 8
    → clear bitmap k ≡ false
in_byte bitmap i k h a b =
    let e : k ≡ i * 8 + (k - i * 8) = omega (arith, a) in
    ap (clear bitmap) e ∙ h (k - i * 8) (omega (arith, a, b))

byte-First :
    (bitmap : ℕ → Bool) (i high : ℕ) (r rest : Option ℕ)
    → (i + 1) * 8 ≤ high
    → First 0 8 (λ j. not (bitmap (i * 8 + j))) r
    → First ((i + 1) * 8) high (clear bitmap) rest
    → First (i * 8) high (clear bitmap) (
        if (elim r [ none ↦ true | some j ↦ false ])
        then rest
        else elim r [ none ↦ rest | some j ↦ some (i * 8 + j) ])
byte-First bitmap i high none rest l (none_passes h) f =
    First-over (i * 8) ((i + 1) * 8) high (clear bitmap) rest (omega arith)
      (λ k a b. in_byte bitmap i k (λ j c. h j (omega arith) c) a b) f
byte-First bitmap i high (some j) rest l (first _ a b hit before) f =
    first (i * 8 + j) (omega arith) (omega (arith, l, b)) hit (λ k c d.
      let e : k ≡ i * 8 + (k - i * 8) = omega (arith, c) in
      ap (clear bitmap) e ∙ before (k - i * 8) (omega arith) (omega (arith, c, d)))

byte_end : (i k : ℕ) → (i + 1 + k) * 8 ≡ (i + suc k) * 8
byte_end i k = omega arith

free_bit-First :
    (count i : ℕ) (bitmap : ℕ → Bool)
    → First (i * 8) ((i + count) * 8) (clear bitmap) (free_bit count i bitmap)
unfolding free_bit
free_bit-First zero i bitmap = none_passes (λ j a b. absurd (omega (arith, a, b)))
free_bit-First (suc k) i bitmap =
    byte-First bitmap i ((i + suc k) * 8) (first_index 8 0 (λ j. not (bitmap (i * 8 + j))))
      (free_bit k (i + 1) bitmap) (omega arith)
      (first_index-First 8 0 (λ j. not (bitmap (i * 8 + j))))
      (subst (λ (h : ℕ). First ((i + 1) * 8) h (clear bitmap) (free_bit k (i + 1) bitmap))
        (byte_end i k) (free_bit-First k (i + 1) bitmap))

all_bytes : (size : ℕ) → (0 + size) * 8 ≡ size * 8
all_bytes size = omega arith

-- The search byte by byte finds the first clear bit, or there is none.
pub find_free_bit_in_bitmap-First :
    (bitmap : ℕ → Bool) (size : ℕ)
    → First 0 (size * 8) (clear bitmap) (find_free_bit_in_bitmap bitmap size)
unfolding find_free_bit_in_bitmap
find_free_bit_in_bitmap-First bitmap size =
    subst (λ (h : ℕ). First 0 h (clear bitmap) (free_bit size 0 bitmap)) (all_bytes size)
      (free_bit-First size 0 bitmap)

-- One bit of one block is set.
pub set_at :
    (disk : ℕ → ℕ → Bool) (b bit c k : ℕ)
    → update disk b (update (disk b) bit true) c k ≡ (if b == c && bit == k then true else disk c k)
set_at disk b bit c k = elim (Bool-cases (b == c)) [
  | inl e ↦
      let same : b ≡ c = ground arith in
      rw e (let h = ap (λ (x : ℕ). disk x k) same in ground arith)
  | inr e ↦ rw e refl
]
