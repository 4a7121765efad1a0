-- ===== src/Common/Search.antt =====
-- A loop over indices that ends at the first one that passes a test.
use mathlib.Core.Path.{subst}
use ferrite_c.Common.{
  ℕ, zero, suc, ◌+◌, ◌≤◌, ◌<◌, ◌≡◌, ◌≢◌, inl, inr, Bool, true, false, Option, none, some, ◌==◌,
  if◌then◌else◌, arith, Bool-cases, ◌∙◌, ap,
}

-- The first index from i on, of `count`, that passes the test.
unfoldable pub first_index : (count i : ℕ) → (ℕ → Bool) → Option ℕ
first_index zero i test = none
first_index (suc k) i test =
    let rest = first_index k (i + 1) test in if test i then some i else rest

-- What a search of the indices from `low` up to `high` finds.
pub data First (low high : ℕ) (test : ℕ → Bool) : Option ℕ → Type 0 where
  none_passes : ((j : ℕ) → low ≤ j → j < high → test j ≡ false) → First low high test none
  first :
      (i : ℕ)
      → low ≤ i
      → i < high
      → test i ≡ true
      → ((j : ℕ) → low ≤ j → j < i → test j ≡ false)
      → First low high test (some i)

at_or_after :
    (test : ℕ → Bool) (j low : ℕ)
    → low ≤ j
    → test low ≡ false
    → (low + 1 ≤ j → test j ≡ false)
    → test j ≡ false
at_or_after test j low a miss rest = elim (Bool-cases (j == low)) [
  | inl same ↦ let h : j ≡ low = ground arith in ap test h ∙ miss
  | inr other ↦ rest (ground arith)
]

First-behind :
    (low high : ℕ) (test : ℕ → Bool) (r : Option ℕ)
    → test low ≡ false
    → First (low + 1) high test r
    → First low high test r
First-behind low high test none miss (none_passes h) =
    none_passes (λ j a b. at_or_after test j low a miss (λ c. h j c b))
First-behind low high test (some r) miss (first i a b hit before) =
    first i (omega (arith, a)) b hit (λ j c d. at_or_after test j low c miss (λ e. before j e d))

shift : (low k : ℕ) → low + 1 + k ≡ low + suc k
shift low k = omega arith

pub first_index-First :
    (count low : ℕ) (test : ℕ → Bool) → First low (low + count) test (first_index count low test)
unfolding first_index
first_index-First zero low test = none_passes (λ j a b. absurd (omega (arith, a, b)))
first_index-First (suc k) low test = elim (Bool-cases (test low)) [
  | inl e ↦ rw e (first low (omega arith) (omega arith) e (λ j a b. absurd (omega (arith, a, b))))
  | inr e ↦ rw e (
      First-behind low (low + suc k) test (first_index k (low + 1) test) e (
        subst (λ (h : ℕ). First (low + 1) h test (first_index k (low + 1) test)) (shift low k)
          (first_index-First k (low + 1) test)))
]

-- An index that alone passes the test is the one that is found.
pub only :
    (count i : ℕ) (test : ℕ → Bool) (r : Option ℕ)
    → i < count
    → test i ≡ true
    → ((j : ℕ) → j < count → j ≢ i → test j ≡ false)
    → First 0 count test r
    → r ≡ some i
only count i test none l hit miss (none_passes h) = let a = h i (omega arith) l in cc
only count i test (some r) l hit miss (first j a b y before) = elim (Bool-cases (j == i)) [
  | inl same ↦ let h : j ≡ i = ground arith in ap some h
  | inr other ↦ let h : j ≢ i = ground arith in let e = miss j b h in cc
]

none_before : (count : ℕ) → 0 + count ≡ count
none_before count = omega arith

-- A search from the index 0 on.
pub first_index_below :
    (count : ℕ) (test : ℕ → Bool) → First 0 count test (first_index count 0 test)
first_index_below count test =
    subst (λ (h : ℕ). First 0 h test (first_index count 0 test)) (none_before count)
      (first_index-First count 0 test)
