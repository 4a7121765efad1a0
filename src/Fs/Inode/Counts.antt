-- ===== src/Fs/Inode/Counts.antt =====
-- The references that the inode cache counts.
use ferrite_c.Common.{
  ℕ, suc, ◌+◌, ◌%◌, ◌^◌, ◌≤◌, ◌<◌, ◌≡◌, ◌≢◌, refl, true, false, ◌&&◌, List, [], ◌∷◌, Option, none,
  some, ◌==◌, if◌then◌else◌, get_elem?, arith, ◌∙◌, Bool-cases, inl, inr,
}
use ferrite_c.Fs.Inode.{Inode, Super, holds, claim, retain, get_cached, inode_get_empty}

-- How many references the cache counts for the inode `ino` of the superblock `sb`.
unfoldable pub refs : (sb ino : ℕ) → List Inode → ℕ
refs sb ino [] = 0
refs sb ino (x ∷ xs) = (if holds sb ino x then x.i_count else 0) + refs sb ino xs

-- How many slots hold it.
unfoldable pub copies : (sb ino : ℕ) → List Inode → ℕ
copies sb ino [] = 0
copies sb ino (x ∷ xs) = (if holds sb ino x then 1 else 0) + copies sb ino xs

-- A free slot has no superblock.
unfoldable pub IdleClear : List Inode → Type 0
IdleClear [] = Unit
IdleClear (x ∷ xs) = (x.i_count ≡ 0 → x.i_sb ≡ 0) × IdleClear xs

-- No slot is free.
pub AllUsed : List Inode → Type 0
AllUsed [] = Unit
AllUsed (x ∷ xs) = (x.i_count ≢ 0) × AllUsed xs

-- What the cache keeps: a free slot has no superblock, and no inode is held by two slots.
pub record IsCoherent (xs : List Inode) : Type 0 where
  pub idle : IdleClear xs
  pub once : (sb ino : ℕ) → sb ≢ 0 → copies sb ino xs ≤ 1

-- One reference more for this inode.
abbrev pub one_at : (sb ino sb' ino' : ℕ) → ℕ
one_at sb ino sb' ino' = if sb == sb' && ino == ino' then 1 else 0

-- The search of the slots for a cached inode.
pub data Cached (sb ino : ℕ) (xs : List Inode) : Option (ℕ × List Inode) → Type 0 where
  absent : copies sb ino xs ≡ 0 → Cached sb ino xs none
  present :
      (i : ℕ) (ys : List Inode) (x : Inode)
      → get_elem? ys i ≡ some x
      → holds sb ino x ≡ true
      → x.i_count ≢ 0
      → ((sb' ino' : ℕ) → refs sb' ino' ys ≡ refs sb' ino' xs + one_at sb ino sb' ino')
      → ((sb' ino' : ℕ) → copies sb' ino' ys ≡ copies sb' ino' xs)
      → (IdleClear xs → IdleClear ys)
      → Cached sb ino xs (some (i, ys))

holds-retain : (s : Super) (sb ino : ℕ) (x : Inode) → holds sb ino (retain s x) ≡ holds sb ino x
holds-retain s sb ino x = ground arith

i_count-retain : (s : Super) (x : Inode) → (retain s x).i_count ≡ (x.i_count + 1) % 2 ^ 16
i_count-retain s x = ground arith

count_in_refs :
    (sb ino : ℕ) (x : Inode) (xs : List Inode)
    → holds sb ino x ≡ true
    → x.i_count + refs sb ino xs ≡ refs sb ino (x ∷ xs)
unfolding refs
count_in_refs sb ino x xs h = rw h refl

retain_bump :
    (s : Super) (sb ino sb' ino' : ℕ) (x : Inode)
    → holds sb ino x ≡ true
    → x.i_count + 1 < 2 ^ 16
    → (if holds sb' ino' (retain s x) then (retain s x).i_count else 0)
      ≡ (if holds sb' ino' x then x.i_count else 0) + one_at sb ino sb' ino'
retain_bump s sb ino sb' ino' x h small =
    rw (holds-retain s sb' ino' x, i_count-retain s x) (ground arith)

Cached-here :
    (s : Super) (sb ino : ℕ) (x : Inode) (xs : List Inode)
    → holds sb ino x ≡ true
    → x.i_count + 1 < 2 ^ 16
    → Cached sb ino (x ∷ xs) (some (0, retain s x ∷ xs))
unfolding refs copies IdleClear
Cached-here s sb ino x xs h small =
    present 0 (retain s x ∷ xs) (retain s x) refl (holds-retain s sb ino x ∙ h)
      (λ e. absurd (omega (arith, e, i_count-retain s x)))
      (λ sb' ino'. omega (arith, retain_bump s sb ino sb' ino' x h small))
      (λ sb' ino'. rw (holds-retain s sb' ino' x) refl)
      (λ (c, cs). (λ e. absurd (omega (arith, e, i_count-retain s x)), cs))

Cached-there :
    (sb ino : ℕ) (x : Inode) (xs : List Inode) (r : Option (ℕ × List Inode))
    → holds sb ino x ≡ false
    → Cached sb ino xs r
    → Cached sb ino (x ∷ xs) (elim r [ none ↦ none | some (i, ys) ↦ some (suc i, x ∷ ys) ])
unfolding refs copies IdleClear
Cached-there sb ino x xs none h (absent c) = absent (rw h (omega (arith, c)))
Cached-there sb ino x xs (some r) h (present i ys y at here used count same keep) =
    present (suc i) (x ∷ ys) y at here used (λ sb' ino'. omega (arith, count sb' ino'))
      (λ sb' ino'. rw (same sb' ino') refl) (λ (c, cs). (c, keep cs))

pub get_cached-Cached :
    (s : Super) (sb ino : ℕ) (xs : List Inode)
    → refs sb ino xs + 1 < 2 ^ 16
    → Cached sb ino xs (get_cached s sb ino xs)
unfolding get_cached refs copies
get_cached-Cached s sb ino [] h = absent refl
get_cached-Cached s sb ino (x ∷ xs) h = elim (Bool-cases (holds sb ino x)) [
  | inl e ↦ rw e (Cached-here s sb ino x xs e (omega (arith, h, count_in_refs sb ino x xs e)))
  | inr e ↦ rw e (
      Cached-there sb ino x xs (get_cached s sb ino xs) e
        (get_cached-Cached s sb ino xs (ground arith)))
]

-- The search for a free slot.
pub data Claimed (sb ino : ℕ) (xs : List Inode) : Option (ℕ × List Inode) → Type 0 where
  full : AllUsed xs → Claimed sb ino xs none
  claimed :
      (i : ℕ) (ys : List Inode) (x : Inode)
      → get_elem? ys i ≡ some x
      → holds sb ino x ≡ true
      → x.i_count ≡ 1
      → ((sb' ino' : ℕ) → refs sb' ino' ys ≡ refs sb' ino' xs + one_at sb ino sb' ino')
      → ((sb' ino' : ℕ)
          → sb' ≢ 0
          → copies sb' ino' ys ≡ copies sb' ino' xs + one_at sb ino sb' ino')
      → IdleClear ys
      → Claimed sb ino xs (some (i, ys))

holds-claim :
    (s : Super) (sb ino sb' ino' : ℕ) (x : Inode)
    → holds sb' ino' (claim s sb ino x) ≡ (sb == sb' && ino == ino')
holds-claim s sb ino sb' ino' x = ground arith

i_count-claim : (s : Super) (sb ino : ℕ) (x : Inode) → (claim s sb ino x).i_count ≡ 1
i_count-claim s sb ino x = ground arith

claim_refs :
    (s : Super) (sb ino sb' ino' : ℕ) (x : Inode)
    → x.i_count ≡ 0
    → (if holds sb' ino' (claim s sb ino x) then (claim s sb ino x).i_count else 0)
      ≡ (if holds sb' ino' x then x.i_count else 0) + one_at sb ino sb' ino'
claim_refs s sb ino sb' ino' x free =
    rw (holds-claim s sb ino sb' ino' x, i_count-claim s sb ino x) (ground arith)

claim_copies :
    (s : Super) (sb ino sb' ino' : ℕ) (x : Inode)
    → x.i_sb ≡ 0
    → sb' ≢ 0
    → (if holds sb' ino' (claim s sb ino x) then 1 else 0)
      ≡ (if holds sb' ino' x then 1 else 0) + one_at sb ino sb' ino'
claim_copies s sb ino sb' ino' x clear real = rw (holds-claim s sb ino sb' ino' x) (ground arith)

Claimed-here :
    (s : Super) (sb ino : ℕ) (x : Inode) (xs : List Inode)
    → IdleClear (x ∷ xs)
    → x.i_count ≡ 0
    → Claimed sb ino (x ∷ xs) (some (0, claim s sb ino x ∷ xs))
unfolding refs copies IdleClear
Claimed-here s sb ino x xs (c, cs) free =
    claimed 0 (claim s sb ino x ∷ xs) (claim s sb ino x) refl
      (holds-claim s sb ino sb ino x ∙ ground arith) (i_count-claim s sb ino x)
      (λ sb' ino'. omega (arith, claim_refs s sb ino sb' ino' x free))
      (λ sb' ino' real. omega (arith, claim_copies s sb ino sb' ino' x (c free) real))
      ((λ e. absurd (omega (arith, e, i_count-claim s sb ino x))), cs)

Claimed-there :
    (sb ino : ℕ) (x : Inode) (xs : List Inode) (r : Option (ℕ × List Inode))
    → (x.i_count ≡ 0 → x.i_sb ≡ 0)
    → x.i_count ≢ 0
    → Claimed sb ino xs r
    → Claimed sb ino (x ∷ xs) (elim r [ none ↦ none | some (i, ys) ↦ some (suc i, x ∷ ys) ])
unfolding refs copies IdleClear AllUsed
Claimed-there sb ino x xs none c used (full f) = full (used, f)
Claimed-there sb ino x xs (some r) c used (claimed i ys y at here held count same keep) =
    claimed (suc i) (x ∷ ys) y at here held (λ sb' ino'. omega (arith, count sb' ino'))
      (λ sb' ino' real. omega (arith, same sb' ino' real)) (c, keep)

pub inode_get_empty-Claimed :
    (s : Super) (sb ino : ℕ) (xs : List Inode)
    → IdleClear xs
    → Claimed sb ino xs (inode_get_empty s sb ino xs)
unfolding inode_get_empty IdleClear AllUsed
inode_get_empty-Claimed s sb ino [] h = full tt
inode_get_empty-Claimed s sb ino (x ∷ xs) (c, cs) = elim (Bool-cases (x.i_count == 0)) [
  | inl e ↦ rw e (Claimed-here s sb ino x xs (c, cs) (ground arith))
  | inr e ↦ rw e (
      Claimed-there sb ino x xs (inode_get_empty s sb ino xs) c (ground arith)
        (inode_get_empty-Claimed s sb ino xs cs))
]
