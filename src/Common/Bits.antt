-- ===== src/Common/Bits.antt =====
-- Exclusive or with a power of two, from the recursion on binary digits that the native operation
-- stands for.
use Prim.Native.Nat.{
  ℕ, zero, suc, ◌+◌, ◌*◌, ◌/◌, ◌%◌, ◌^◌, ◌≤◌, digits, differ, bit_xor, bit_xor-bitwise,
}
use mathlib.Core.Path.{◌≡◌, refl, ap, ◌∙◌}
use native.Mathlib.Nat.{two-pow-succ}
use native.Mathlib.Omega.{arith}

abbrev xor_digits : ℕ → ℕ → ℕ → ℕ
xor_digits n a b = digits (λ b. b) differ n a b

xor_digits_fuel : (n m a b : ℕ) → a ≤ n → a ≤ m → xor_digits n a b ≡ xor_digits m a b
xor_digits_fuel zero zero a b p q = refl
xor_digits_fuel zero (suc m) zero b p q = refl
xor_digits_fuel zero (suc m) (suc a) b p q = absurd (omega arith)
xor_digits_fuel (suc n) zero zero b p q = refl
xor_digits_fuel (suc n) zero (suc a) b p q = absurd (omega arith)
xor_digits_fuel (suc n) (suc m) zero b p q = refl
xor_digits_fuel (suc n) (suc m) (suc a) b p q =
    omega (arith, xor_digits_fuel n m (suc a / 2) (b / 2) (omega arith) (omega arith))

zero-bit_xor : (b : ℕ) → bit_xor 0 b ≡ b
zero-bit_xor b = bit_xor-bitwise 0 b

bit_xor_step : (a b : ℕ) → bit_xor a b ≡ bit_xor (a / 2) (b / 2) * 2 + differ (a % 2) (b % 2)
bit_xor_step zero b = omega (arith, zero-bit_xor b, zero-bit_xor (b / 2))
bit_xor_step (suc a) b = omega (
  arith,
  bit_xor-bitwise (suc a) b,
  bit_xor-bitwise (suc a / 2) (b / 2),
  xor_digits_fuel a (suc a / 2) (suc a / 2) (b / 2) (omega arith) (omega arith),
)

differ-zero : (x : ℕ) → differ x 0 ≡ x
differ-zero zero = refl
differ-zero (suc x) = refl

bit_xor-zero_fuel : (n a : ℕ) → a ≤ n → bit_xor a 0 ≡ a
bit_xor-zero_fuel n zero h = refl
bit_xor-zero_fuel zero (suc a) h = absurd (omega arith)
bit_xor-zero_fuel (suc n) (suc a) h =
    bit_xor_step (suc a) 0
    ∙ rw (bit_xor-zero_fuel n (suc a / 2) (omega arith), differ-zero (suc a % 2)) (omega arith)

bit_xor-zero : (a : ℕ) → bit_xor a 0 ≡ a
bit_xor-zero a = bit_xor-zero_fuel a a (omega arith)

even_xor_one : (r : ℕ) → bit_xor (2 * r) 1 ≡ 2 * r + 1
even_xor_one r =
    let e : 2 * r / 2 ≡ r = omega arith in
    let d : 2 * r % 2 ≡ 0 = omega arith in
    bit_xor_step (2 * r) 1 ∙ rw (e, d, bit_xor-zero r) (omega arith)

odd_xor_one : (r : ℕ) → bit_xor (2 * r + 1) 1 ≡ 2 * r
odd_xor_one r =
    let e : (2 * r + 1) / 2 ≡ r = omega arith in
    let d : (2 * r + 1) % 2 ≡ 1 = omega arith in
    bit_xor_step (2 * r + 1) 1 ∙ rw (e, d, bit_xor-zero r) (omega arith)

bit_xor_double : (a b : ℕ) → bit_xor (a + a) (b + b) ≡ bit_xor a b + bit_xor a b
bit_xor_double a b =
    let e : (a + a) / 2 ≡ a = omega arith in
    let e' : (b + b) / 2 ≡ b = omega arith in
    let d : (a + a) % 2 ≡ 0 = omega arith in
    let d' : (b + b) % 2 ≡ 0 = omega arith in
    bit_xor_step (a + a) (b + b) ∙ rw (e, e', d, d') (omega arith)

-- Flipping the bit of weight 2 ^ m in a multiple of 2 ^ m: an even multiple goes up by one, an odd
-- one down.
bit_xor_multiple : (q m : ℕ) → bit_xor (q * 2 ^ m) (2 ^ m) ≡ bit_xor q 1 * 2 ^ m
bit_xor_multiple q zero = let e : q * 2 ^ 0 ≡ q = omega arith in rw e (omega arith)
bit_xor_multiple q (suc m) =
    let p : 2 ^ suc m ≡ 2 ^ m + 2 ^ m = two-pow-succ m in
    let e : q * (2 ^ m + 2 ^ m) ≡ q * 2 ^ m + q * 2 ^ m = omega arith in
    rw (p, e, bit_xor_double (q * 2 ^ m) (2 ^ m), bit_xor_multiple q m) (omega arith)

pub bit_xor_even : (r m : ℕ) → bit_xor (2 * r * 2 ^ m) (2 ^ m) ≡ (2 * r + 1) * 2 ^ m
bit_xor_even r m = bit_xor_multiple (2 * r) m ∙ ap (λ (t : ℕ). t * 2 ^ m) (even_xor_one r)

pub bit_xor_odd : (r m : ℕ) → bit_xor ((2 * r + 1) * 2 ^ m) (2 ^ m) ≡ 2 * r * 2 ^ m
bit_xor_odd r m = bit_xor_multiple (2 * r + 1) m ∙ ap (λ (t : ℕ). t * 2 ^ m) (odd_xor_one r)
