-- ===== src/Memory/Copy/Move.antt =====
-- A move of bytes between regions that may overlap.
use ferrite_c.Common.{
  ℕ, zero, suc, ◌+◌, ◌-◌, ◌%◌, ◌≤◌, ◌<◌, ◌≡◌, ◌≢◌, refl, true, ◌||◌, ltb, ◌==◌, update, arith, ap,
  ◌∙◌, Bool-cases, inl, inr, ◌⊎◌,
}
use ferrite_c.Memory.Copy.{movsb_up, movsb_down, memmove, stosb_up, memset}

-- The memory m' is m with the `len` bytes from `src` on, as they were in m, at `dest`.
pub record IsMoved (m : ℕ → ℕ) (dest src len : ℕ) (m' : ℕ → ℕ) : Type 0 where
  pub bytes : (i : ℕ) → i < len → m' (dest + i) ≡ m (src + i)
  pub others : (x : ℕ) → (x < dest) ⊎ (dest + len ≤ x) → m' x ≡ m x

update_self : (m : ℕ → ℕ) (d v x : ℕ) → d ≡ x → update m d v x ≡ v
update_self m d v x h = ground arith

update_ne : (m : ℕ → ℕ) (d v x : ℕ) → d ≢ x → update m d v x ≡ m x
update_ne m d v x h = ground arith

up_others : (n : ℕ) (m : ℕ → ℕ) (s d x : ℕ) → (x < d) ⊎ (d + n ≤ x) → movsb_up n m s d x ≡ m x
unfolding movsb_up
up_others zero m s d x h = refl
up_others (suc n) m s d x h =
    up_others n (update m d (m s)) (s + 1) (d + 1) x (ground arith)
    ∙ update_ne m d (m s) x (ground arith)

up_bytes : (n : ℕ) (m : ℕ → ℕ) (s d i : ℕ) → d < s → i < n → movsb_up n m s d (d + i) ≡ m (s + i)
unfolding movsb_up
up_bytes zero m s d i h k = absurd (omega arith)
up_bytes (suc n) m s d zero h k =
    up_others n (update m d (m s)) (s + 1) (d + 1) (d + 0) (inl (omega arith))
    ∙ update_self m d (m s) (d + 0) (omega arith)
    ∙ ap m (omega arith)
up_bytes (suc n) m s d (suc i) h k =
    ap (movsb_up n (update m d (m s)) (s + 1) (d + 1)) (omega arith)
    ∙ up_bytes n (update m d (m s)) (s + 1) (d + 1) i (omega arith) (omega arith)
    ∙ update_ne m d (m s) (s + 1 + i) (omega arith)
    ∙ ap m (omega arith)

-- The last byte is moved first.
down_suc :
    (n : ℕ) (m : ℕ → ℕ) (s d : ℕ)
    → movsb_down (suc n) m (s + suc n - 1) (d + suc n - 1)
      ≡ movsb_down n (update m (d + n) (m (s + n))) (s + n - 1) (d + n - 1)
unfolding movsb_down
down_suc n m s d =
    let a : s + suc n - 1 ≡ s + n = omega arith in
    let b : d + suc n - 1 ≡ d + n = omega arith in rw (a, b) refl

down_others :
    (n : ℕ) (m : ℕ → ℕ) (s d x : ℕ)
    → (x < d) ⊎ (d + n ≤ x)
    → movsb_down n m (s + n - 1) (d + n - 1) x ≡ m x
unfolding movsb_down
down_others zero m s d x h = refl
down_others (suc n) m s d x h =
    ap (λ (f : ℕ → ℕ). f x) (down_suc n m s d)
    ∙ down_others n (update m (d + n) (m (s + n))) s d x (ground arith)
    ∙ update_ne m (d + n) (m (s + n)) x (ground arith)

down_bytes :
    (n : ℕ) (m : ℕ → ℕ) (s d i : ℕ)
    → s < d
    → i < n
    → movsb_down n m (s + n - 1) (d + n - 1) (d + i) ≡ m (s + i)
down_bytes zero m s d i h k = absurd (omega arith)
down_bytes (suc n) m s d i h k =
    let m1 = update m (d + n) (m (s + n)) in
    ap (λ (f : ℕ → ℕ). f (d + i)) (down_suc n m s d) ∙ elim (Bool-cases (i == n)) [
      | inl e ↦
          down_others n m1 s d (d + i) (inr (ground arith))
          ∙ update_self m (d + n) (m (s + n)) (d + i) (ground arith)
          ∙ ap m (ground arith)
      | inr e ↦
          down_bytes n m1 s d i h (ground arith)
          ∙ update_ne m (d + n) (m (s + n)) (s + i) (omega arith)
    ]

nothing-IsMoved :
    (m : ℕ → ℕ) (dest src len : ℕ) → (dest == src || len == 0) ≡ true → IsMoved m dest src len m
nothing-IsMoved m dest src len e = record {
  bytes = λ i k. ap m (ground arith);
  others = λ x h. refl;
}

-- `memmove` moves the bytes as they were before the call, however the two regions overlap, and
-- changes no byte outside of the destination.
pub memmove-IsMoved :
    (m : ℕ → ℕ) (dest src len : ℕ) → IsMoved m dest src len (memmove m dest src len)
unfolding memmove
memmove-IsMoved m dest src len = elim (Bool-cases (dest == src || len == 0)) [
  | inl e ↦ rw e (nothing-IsMoved m dest src len e)
  | inr e ↦ elim (Bool-cases (ltb dest src)) [
    | inl l ↦
        rw (e, l)
          (record {
            bytes = λ i k. up_bytes len m src dest i (ground arith) k;
            others = λ x h. up_others len m src dest x h;
          })
    | inr l ↦
        rw (e, l)
          (record {
            bytes = λ i k. down_bytes len m src dest i (ground arith) k;
            others = λ x h. down_others len m src dest x h;
          })
  ]
]

stored :
    (n : ℕ) (m : ℕ → ℕ) (al d : ℕ)
    → ((i : ℕ) → i < n → stosb_up n (update m d al) al (d + 1) (d + 1 + i) ≡ al)
    → ((x : ℕ)
        → (x < d + 1) ⊎ (d + 1 + n ≤ x)
        → stosb_up n (update m d al) al (d + 1) x ≡ update m d al x)
    → (i : ℕ) → i < suc n
    → stosb_up n (update m d al) al (d + 1) (d + i) ≡ al
stored n m al d bytes others zero k =
    others (d + 0) (inl (omega arith)) ∙ update_self m d al (d + 0) (omega arith)
stored n m al d bytes others (suc i) k =
    ap (stosb_up n (update m d al) al (d + 1)) (omega arith) ∙ bytes i (omega arith)

stosb_up-filled :
    (n : ℕ) (m : ℕ → ℕ) (al d : ℕ)
    → ((i : ℕ) → i < n → stosb_up n m al d (d + i) ≡ al)
      × ((x : ℕ) → (x < d) ⊎ (d + n ≤ x) → stosb_up n m al d x ≡ m x)
unfolding stosb_up
stosb_up-filled zero m al d = ((λ i k. absurd (omega arith)), (λ x h. refl))
stosb_up-filled (suc n) m al d =
    let (bytes, others) = stosb_up-filled n (update m d al) al (d + 1) in
    (
      (λ i k. stored n m al d bytes others i k),
      (λ x h. others x (ground arith) ∙ update_ne m d al x (ground arith)),
    )

-- `memset` stores the low byte of c at every address of the region, and at no other.
pub memset-filled :
    (m : ℕ → ℕ) (str c len : ℕ)
    → ((i : ℕ) → i < len → memset m str c len (str + i) ≡ c % 0x100)
      × ((x : ℕ) → (x < str) ⊎ (str + len ≤ x) → memset m str c len x ≡ m x)
unfolding memset
memset-filled m str c len = stosb_up-filled len m (c % 0x100) str
