-- ===== src/Memory/Buddy/Blocks.antt =====
-- Free lists as lists of block addresses, and the pages that blocks cover.
use native.Mathlib.Nat.{one-le-pow, two-pow-succ}
use ferrite_c.Common.{
  ℕ, zero, suc, ◌+◌, ◌*◌, ◌^◌, ◌≤◌, ◌<◌, ◌≡◌, ◌≢◌, refl, true, false, ◌&&◌, List, [], ◌∷◌, inl, inr,
  ltb, leb, ◌==◌, if◌then◌else◌, update, has, arith, Bool-cases,
}

abbrev page_size : ℕ
page_size = 0x1000

-- The linked list from `p` to NULL has its nodes at the addresses `xs`.
abbrev pub Chain : (next : ℕ → ℕ) → (p : ℕ) → List ℕ → Type 0
Chain next p [] = p ≡ 0
Chain next p (x ∷ xs) = (p ≡ x) × (x ≢ 0) × Chain next (next x) xs

-- A write to a node outside the list leaves the list alone.
pub Chain-update :
    (next : ℕ → ℕ) (a v p : ℕ) (xs : List ℕ)
    → has a xs ≡ false
    → Chain next p xs
    → Chain (update next a v) p xs
Chain-update next a v p [] out c = c
Chain-update next a v p (x ∷ xs) out c = elim (Bool-cases (x == a)) [
  | inl e ↦ absurd (ground arith)
  | inr e ↦
      let rest : has a xs ≡ false = ground arith in
      let same : (a == x) ≡ false = ground arith in
      (c.0, c.1, rw same (Chain-update next a v (next x) xs rest c.2))
]

-- 1 if the block of order k at address a covers the address x.
unfoldable pub hit : (a k x : ℕ) → ℕ
hit a k x = if leb a x && ltb x (a + page_size * 2 ^ k) then 1 else 0

-- How many blocks of a list of order k cover x.
unfoldable pub hits : (k : ℕ) → List ℕ → (x : ℕ) → ℕ
hits k [] x = 0
hits k (a ∷ as') x = hit a k x + hits k as' x

-- How many blocks of the orders below n cover x.
unfoldable pub cover : (n : ℕ) → (ℕ → List ℕ) → (x : ℕ) → ℕ
cover zero free x = 0
cover (suc n) free x = hits n (free n) x + cover n free x

pub hit_self : (a k : ℕ) → hit a k a ≡ 1
unfolding hit
hit_self a k = ground (arith, one-le-pow k 2 (omega arith))

-- A block of order k + 1 is its two halves.
pub hit_split : (a k x : ℕ) → hit a (suc k) x ≡ hit a k x + hit (a + page_size * 2 ^ k) k x
unfolding hit
hit_split a k x = ground (arith, two-pow-succ k)

pub has-hits : (k : ℕ) (as' : List ℕ) (a : ℕ) → has a as' ≡ true → 1 ≤ hits k as' a
unfolding hits
has-hits k [] a h = absurd (ground arith)
has-hits k (x ∷ xs) a h = elim (Bool-cases (x == a)) [
  | inl e ↦ let e' : x ≡ a = ground arith in rw e' (omega (arith, hit_self a k))
  | inr e ↦ omega (arith, has-hits k xs a (ground arith))
]

pub hits-le-cover :
    (n : ℕ) (free : ℕ → List ℕ) (k x : ℕ) → k < n → hits k (free k) x ≤ cover n free x
unfolding cover
hits-le-cover zero free k x h = absurd (omega arith)
hits-le-cover (suc n) free k x h = elim (Bool-cases (k == n)) [
  | inl e ↦ let e' : k ≡ n = ground arith in rw e' (omega arith)
  | inr e ↦ omega (arith, hits-le-cover n free k x (ground arith))
]

pub cover-update_ge :
    (n : ℕ) (free : ℕ → List ℕ) (k : ℕ) (xs : List ℕ) (x : ℕ)
    → n ≤ k
    → cover n (update free k xs) x ≡ cover n free x
unfolding cover
cover-update_ge zero free k xs x h = refl
cover-update_ge (suc n) free k xs x h =
    let apart : (k == n) ≡ false = ground arith in
    rw (apart, cover-update_ge n free k xs x (omega arith))

pub cover-update :
    (n : ℕ) (free : ℕ → List ℕ) (k : ℕ) (xs : List ℕ) (x : ℕ)
    → k < n
    → cover n (update free k xs) x + hits k (free k) x ≡ cover n free x + hits k xs x
unfolding cover
cover-update zero free k xs x h = absurd (omega arith)
cover-update (suc n) free k xs x h = elim (Bool-cases (k == n)) [
  | inl e ↦
      let e' : n ≡ k = ground arith in
      rw (e, e') (omega (arith, cover-update_ge k free k xs x (omega arith)))
  | inr e ↦ rw e (omega (arith, cover-update n free k xs x (ground arith)))
]
