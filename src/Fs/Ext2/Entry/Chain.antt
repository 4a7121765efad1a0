-- ===== src/Fs/Ext2/Entry/Chain.antt =====
-- A block whose entries follow one another to its end, and the walk over it.
use mathlib.Core.Path.{subst}
use ferrite_c.Common.{
  ℕ, zero, suc, ◌+◌, ◌^◌, ◌≤◌, ◌<◌, ◌≡◌, ◌⊎◌, inl, inr, refl, Bool, true, false, List, [], ◌∷◌,
  ◌++◌, Option, none, some, ltb, if◌then◌else◌, add32, arith, ok, out_of_fuel, Bool-cases, sym,
}
use ferrite_c.Fs.Ext2.Entry.{scan, rec_len, sizeof_entry}

-- The offsets of the entries from `offset` on: each entry has room for its header, and the last one
-- ends where the block ends.
unfoldable pub Chain : (blocksize : ℕ) → (ℕ → ℕ) → (offset : ℕ) → List ℕ → Type 0
Chain bs b offset [] = offset ≡ bs
Chain bs b offset (o ∷ os) =
    (o ≡ offset)
    × (offset < bs)
    × (sizeof_entry ≤ rec_len b offset)
    × Chain bs b (offset + rec_len b offset) os

-- The first offset of the list that passes the test, with the one before it.
unfoldable pub search_list : (test : ℕ → Bool) → (prev : ℕ) → List ℕ → Option (ℕ × ℕ)
search_list test prev [] = none
search_list test prev (o ∷ os) = if test o then some (prev, o) else search_list test o os

pub Chain-le : (bs : ℕ) (b : ℕ → ℕ) (offset : ℕ) (os : List ℕ) → Chain bs b offset os → offset ≤ bs
unfolding Chain
Chain-le bs b offset [] c = omega arith
Chain-le bs b offset (o ∷ os) (_, l, _, _) = omega (arith, l)

-- On a block whose entries follow one another to its end, the walk over the bytes returns, and finds
-- what a search of the list of the entries finds: the first entry that passes the test, and the entry
-- before it.
pub scan-search_list :
    (fuel bs : ℕ) (test : ℕ → Bool) (b : ℕ → ℕ) (offset prev : ℕ) (os : List ℕ)
    → bs < 2 ^ 32
    → Chain bs b offset os
    → bs < fuel + offset
    → scan fuel bs test b offset prev ≡ ok (search_list test prev os)
unfolding scan Chain search_list
scan-search_list zero bs test b offset prev [] small c enough = absurd (omega arith)
scan-search_list zero bs test b offset prev (o ∷ os) small (e, l, r, c) enough =
    absurd (omega (arith, l, enough))
scan-search_list (suc f) bs test b offset prev [] small c enough =
    let end : ltb offset bs ≡ false = ground arith in rw end refl
scan-search_list (suc f) bs test b offset prev (o ∷ os) small (e, l, r, c) enough =
    let more : ltb offset bs ≡ true = ground arith in
    let step : add32 offset (rec_len b offset) ≡ offset + rec_len b offset =
      omega (arith, small, Chain-le bs b (offset + rec_len b offset) os c) in
    elim (Bool-cases (test offset)) [
      | inl t ↦ rw (more, e, t) refl
      | inr t ↦
          rw (more, step, e, t)
            (scan-search_list f bs test b (offset + rec_len b offset) offset os small c
              (omega (arith, enough, r)))
    ]

-- An entry in the block with `rec_len` 0 that does not pass the test: whatever the fuel, the walk does
-- not come to an end.
pub scan_stuck :
    (fuel bs : ℕ) (test : ℕ → Bool) (b : ℕ → ℕ) (offset prev : ℕ)
    → offset < bs
    → bs < 2 ^ 32
    → test offset ≡ false
    → rec_len b offset ≡ 0
    → scan fuel bs test b offset prev ≡ out_of_fuel
unfolding scan
scan_stuck zero bs test b offset prev l small t r = refl
scan_stuck (suc f) bs test b offset prev l small t r =
    let more : ltb offset bs ≡ true = ground arith in
    let step : add32 offset (rec_len b offset) ≡ offset = omega (arith, l, small, r) in
    rw (more, t, step) (scan_stuck f bs test b offset offset l small t r)

-- The bytes differ at most between the `rec_len` of the entry at p and q.
abbrev pub SameOutside : (p q : ℕ) → (b b' : ℕ → ℕ) → Type 0
SameOutside p q b b' = (y : ℕ) → (y < p + 4) ⊎ (q ≤ y) → b' y ≡ b y

pub SameOutside-rec_len :
    (p q : ℕ) (b b' : ℕ → ℕ) (x : ℕ)
    → SameOutside p q b b'
    → (x + 8 ≤ p) ⊎ (q ≤ x)
    → rec_len b' x ≡ rec_len b x
SameOutside-rec_len p q b b' x same far =
    omega (arith, same (x + 4) (ground arith), same (x + 5) (ground arith))

-- The entries behind the one whose `rec_len` changed.
pub Chain-behind :
    (bs p q : ℕ) (b b' : ℕ → ℕ) (offset : ℕ) (os : List ℕ)
    → SameOutside p q b b'
    → q ≤ offset
    → Chain bs b offset os
    → Chain bs b' offset os
unfolding Chain
Chain-behind bs p q b b' offset [] same far c = c
Chain-behind bs p q b b' offset (o ∷ os) same far (e, l, r, c) =
    let k = SameOutside-rec_len p q b b' offset same (inr far) in
    (
      e,
      l,
      omega (arith, k, r),
      rw k (Chain-behind bs p q b b' (offset + rec_len b offset) os same (omega (arith, far)) c),
    )

pub Chain-starts :
    (bs : ℕ) (b : ℕ → ℕ) (offset p : ℕ) (pre post : List ℕ)
    → Chain bs b offset (pre ++ p ∷ post)
    → offset ≤ p
unfolding Chain
Chain-starts bs b offset p [] post (e, _, _, _) = omega (arith, e)
Chain-starts bs b offset p (x ∷ pre) post (_, l, r, c) =
    omega (arith, Chain-starts bs b (offset + rec_len b offset) p pre post c)

-- A change of one `rec_len` that keeps the block whole from there on keeps it whole.
pub Chain-replace :
    (bs p q : ℕ) (b b' : ℕ → ℕ) (offset : ℕ) (pre post post' : List ℕ)
    → SameOutside p q b b'
    → (Chain bs b p (p ∷ post) → Chain bs b' p (p ∷ post'))
    → Chain bs b offset (pre ++ p ∷ post)
    → Chain bs b' offset (pre ++ p ∷ post')
unfolding Chain
Chain-replace bs p q b b' offset [] post post' same k c =
    let e : p ≡ offset = c.0 in
    subst (λ (t : ℕ). Chain bs b' t (p ∷ post')) e
      (k (subst (λ (t : ℕ). Chain bs b t (p ∷ post)) (sym e) c))
Chain-replace bs p q b b' offset (x ∷ pre) post post' same k (e, l, r, c) =
    let h = Chain-starts bs b (offset + rec_len b offset) p pre post c in
    let n = SameOutside-rec_len p q b b' offset same (inl (omega (arith, h, r))) in
    (
      e,
      l,
      omega (arith, n, r),
      rw n (Chain-replace bs p q b b' (offset + rec_len b offset) pre post post' same k c),
    )
