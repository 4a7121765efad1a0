-- ===== src/Memory/Buddy/Bitmap.antt =====
-- The bitmap of buddy.c: what the marking loops write, and what `is_block_free` reads.
use native.Mathlib.Nat.{one-le-pow, pow-le-pow_right, two-pow-succ}
use ferrite_c.Common.{
  ℕ, zero, suc, ◌+◌, ◌*◌, ◌/◌, ◌%◌, ◌^◌, ◌≤◌, ◌<◌, ◌≡◌, refl, Bool, true, false, ◌⊎◌, inl, inr, leb,
  ◌==◌, if◌then◌else◌, add32, shl32, Run, ok, arith, Bool-cases, lt→leb, ◌↔◌,
}
use ferrite_c.Memory.Buddy.{Buddy, Bitmap, write_bit, mark_loop, check_free}

pub two-pow-pos : (m : ℕ) → 0 < 2 ^ m
two-pow-pos m = one-le-pow m 2 (omega arith)

pub two-pow-le : (m n : ℕ) → m ≤ n → 2 ^ m ≤ 2 ^ n
two-pow-le m n h = pow-le-pow_right (omega arith) h

two-pow-suc : (m : ℕ) → 2 ^ suc m ≡ 2 ^ m + 2 ^ m
two-pow-suc m = two-pow-succ m

pub two-pow-lt : (m n : ℕ) → m < n → 2 ^ m < 2 ^ n
two-pow-lt m n h = omega (arith, two-pow-suc m, two-pow-pos m, two-pow-le (suc m) n h)

pub shl32-one : (k : ℕ) → k < 32 → shl32 1 k ≡ 2 ^ k
shl32-one k h = omega (arith, two-pow-lt k 32 h)

abbrev pub bit_of : Bitmap → ℕ → Bool
bit_of map page = map (page / 8) (page % 8)

bit_of-write_bit :
    (v : Bool) (map : Bitmap) (p q : ℕ)
    → bit_of (write_bit v map p) q ≡ (if p == q then v else bit_of map q)
bit_of-write_bit v map p q = elim (Bool-cases (p == q)) [
  | inl e ↦ let e' : p ≡ q = ground arith in rw e' (ground arith)
  | inr e ↦ ground arith
]

-- A normal return with a map in which the pages from lo below hi hold `v`, and all others what
-- they held in `old`.
pub record IsMarked (v : Bool) (lo hi : ℕ) (old : Bitmap) (result : Run Bitmap) : Type 0 where
  pub new : Bitmap
  pub returns : result ≡ ok new
  pub inside : (q : ℕ) → lo ≤ q → q < hi → bit_of new q ≡ v
  pub outside : (q : ℕ) → (q < lo) ⊎ (hi ≤ q) → bit_of new q ≡ bit_of old q

IsMarked-step :
    (v : Bool) (map : Bitmap) (lo hi : ℕ) (result : Run Bitmap)
    → lo < hi
    → IsMarked v (lo + 1) hi (write_bit v map lo) result
    → IsMarked v lo hi map result
IsMarked-step v map lo hi result h m = record {
  new = m.new;
  returns = m.returns;
  inside = λ q a c. elim (Bool-cases (lo == q)) [
    | inl e ↦
        let e' : q ≡ lo = ground arith in
        rw e' (ground (arith, m.outside lo (inl (omega arith)), bit_of-write_bit v map lo lo))
    | inr e ↦ m.inside q (ground arith) c
  ];
  outside = λ q o.
      let apart : (lo == q) ≡ false = ground arith in
      ground (arith, m.outside q (ground arith), bit_of-write_bit v map lo q);
}

-- The marking loop over pages inside the map writes exactly those pages.
pub mark_loop-IsMarked :
    (v : Bool) (map_size : ℕ) (map : Bitmap) (i j left lo hi : ℕ)
    → i + j ≡ lo
    → lo + left ≡ hi
    → hi ≤ map_size * 8
    → hi ≤ 2 ^ 32
    → IsMarked v lo hi map (mark_loop v map_size map i j left)
unfolding mark_loop
mark_loop-IsMarked v map_size map i j zero lo hi e e' h w = record {
  new = map;
  returns = refl;
  inside = λ q a c. absurd (omega arith);
  outside = λ q o. refl;
}
mark_loop-IsMarked v map_size map i j (suc left) lo hi e e' h w =
    let here : add32 i j ≡ lo = omega arith in
    let within : leb map_size (lo / 8) ≡ false = lt→leb map_size (lo / 8) (omega arith) in
    rw (here, within)
      (IsMarked-step v map lo hi _ (omega arith) (
        mark_loop-IsMarked v map_size (write_bit v map lo) i (j + 1) left (lo + 1) hi (omega arith)
          (omega arith) h w))

-- `is_block_free` over pages inside the map is true exactly when all their bits are clear.
pub check_free_iff :
    (b : Buddy) (i j left lo hi : ℕ)
    → i + j ≡ lo
    → lo + left ≡ hi
    → hi ≤ b.map_size * 8
    → hi ≤ 2 ^ 32
    → (check_free b i j left ≡ true) ↔ ((q : ℕ) → lo ≤ q → q < hi → bit_of b.map q ≡ false)
unfolding check_free
check_free_iff b i j zero lo hi e e' h w = (λ _ q a c. absurd (omega arith), λ _. refl)
check_free_iff b i j (suc left) lo hi e e' h w =
    let here : add32 i j ≡ lo = omega arith in
    let within : leb b.map_size (lo / 8) ≡ false = lt→leb b.map_size (lo / 8) (omega arith) in
    let rest = check_free_iff b i (j + 1) left (lo + 1) hi (omega arith) (omega arith) h w in
    rw (here, within)
      (
        λ t q a c. elim (Bool-cases (lo == q)) [
          | inl s ↦ let s' : q ≡ lo = ground arith in rw s' (ground arith)
          | inr s ↦ rest.0 (ground arith) q (ground arith) c
        ],
        λ all. rw (all lo (omega arith) (omega arith)) (rest.1 (λ q a c. all q (omega arith) c)),
      )
