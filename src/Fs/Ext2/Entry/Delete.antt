-- ===== src/Fs/Ext2/Entry/Delete.antt =====
-- Deleting an entry of a block.
use mathlib.Core.Path.{subst}
use ferrite_c.Common.{
  ℕ, zero, suc, ◌+◌, ◌*◌, ◌≤◌, ◌<◌, ◌≡◌, ◌≢◌, refl, true, List, ◌∷◌, ◌++◌, some, ltb, arith, ok,
  ◌∙◌, sym, ap,
}
use ferrite_c.Fs.Ext2.Entry.{
  scan, rec_len, name_len, sizeof_entry, set_rec_len, unlink_entry, strncmp_zero, same_name,
}
use ferrite_c.Fs.Ext2.Entry.Chain.{Chain, SameOutside, Chain-behind, Chain-replace, Chain-le}

-- The bytes differ at most in the `rec_len` of the entry at p.
abbrev pub SameBut : (p : ℕ) → (b b' : ℕ → ℕ) → Type 0
SameBut p b b' = (y : ℕ) → y ≢ p + 4 → y ≢ p + 5 → b' y ≡ b y

set_rec_len-SameOutside : (b : ℕ → ℕ) (p v : ℕ) → SameOutside p (p + 8) b (set_rec_len b p v)
set_rec_len-SameOutside b p v y h = ground arith

pub set_rec_len-SameBut : (b : ℕ → ℕ) (p v : ℕ) → SameBut p b (set_rec_len b p v)
set_rec_len-SameBut b p v y h k = ground arith

pub rec_len-set_rec_len : (b : ℕ → ℕ) (p v : ℕ) → v < 0x1_0000 → rec_len (set_rec_len b p v) p ≡ v
rec_len-set_rec_len b p v h = ground arith

merged :
    (bs : ℕ) (b : ℕ → ℕ) (p o : ℕ) (post : List ℕ)
    → bs < 0x1_0000
    → Chain bs b p (p ∷ o ∷ post)
    → Chain bs (set_rec_len b p (rec_len b p + rec_len b o)) p (p ∷ post)
unfolding Chain
merged bs b p o post small (_, l, r, (e, l', r', c)) =
    let v = rec_len b p + rec_len b o in
    let at : rec_len b (p + rec_len b p) ≡ rec_len b o = ap (rec_len b) (sym e) in
    let end = Chain-le bs b (p + rec_len b p + rec_len b (p + rec_len b p)) post c in
    let k : rec_len (set_rec_len b p v) p ≡ v =
      rec_len-set_rec_len b p v (omega (arith, end, at, small)) in
    (
      refl,
      l,
      omega (arith, k, r),
      subst (λ (t : ℕ). Chain bs (set_rec_len b p v) t post) (omega (arith, k, at))
          (Chain-behind bs p (p + 8) b (set_rec_len b p v)
            (p + rec_len b p + rec_len b (p + rec_len b p)) post (set_rec_len-SameOutside b p v)
            (omega (arith, r, r')) c),
    )

-- The entry at o is found with p before it: after the deletion the block's entries are those of before
-- without o, and no byte but those of the length of p has changed.
pub unlink_entry-Chain :
    (bs : ℕ) (b : ℕ → ℕ) (pre : List ℕ) (p o : ℕ) (post : List ℕ)
    → bs < 0x1_0000
    → Chain bs b 0 (pre ++ p ∷ o ∷ post)
    → Chain bs (unlink_entry b p o) 0 (pre ++ p ∷ post) × SameBut p b (unlink_entry b p o)
unfolding unlink_entry
unlink_entry-Chain bs b pre p o post small c =
    let v = rec_len b p + rec_len b o in
    let same = set_rec_len-SameBut b p v in
    (
      Chain-replace bs p (p + 8) b (set_rec_len b p v) 0 pre (o ∷ post) post
          (set_rec_len-SameOutside b p v) (merged bs b p o post small) c,
      same,
    )

strncmp_zero-frame :
    (n : ℕ) (l r r' : ℕ → ℕ) (i j : ℕ)
    → ((y : ℕ) → j ≤ y → r' y ≡ r y)
    → strncmp_zero n l i r' j ≡ strncmp_zero n l i r j
unfolding strncmp_zero
strncmp_zero-frame zero l r r' i j same = refl
strncmp_zero-frame (suc n) l r r' i j same =
    rw
      (
        same j (omega arith),
        strncmp_zero-frame n l r r' (i + 1) (j + 1) (λ y h. same y (omega (arith, h))),
      )
      refl

still_named :
    (entry b : ℕ → ℕ) (v : ℕ) → same_name entry (set_rec_len b 0 v) 0 ≡ same_name entry b 0
unfolding same_name
still_named entry b v =
    let same = set_rec_len-SameBut b 0 v in
    rw
      (
        same (0 + 6) (omega arith) (omega arith),
        strncmp_zero-frame (name_len b 0) entry b (set_rec_len b 0 v) sizeof_entry
            (0 + sizeof_entry) (λ y h. same y (omega (arith, h)) (omega (arith, h))),
      )
      refl

-- The first entry of a block has none before it: where it has the name that is to be deleted, the walk
-- gives it as its own predecessor, and the deletion doubles its `rec_len` and leaves it there under its
-- name.
pub first_entry_stays :
    (f bs : ℕ) (entry b : ℕ → ℕ)
    → 0 < bs
    → same_name entry b 0 ≡ true
    → rec_len b 0 < 0x8000
    → (scan (suc f) bs (same_name entry b) b 0 0 ≡ ok (some (0, 0)))
      × (same_name entry (unlink_entry b 0 0) 0 ≡ true)
      × (rec_len (unlink_entry b 0 0) 0 ≡ rec_len b 0 * 2)
unfolding scan unlink_entry
first_entry_stays f bs entry b pos found small =
    let v = rec_len b 0 + rec_len b 0 in
    let more : ltb 0 bs ≡ true = ground arith in
    (
      rw (more, found) refl,
      still_named entry b v ∙ found,
      rec_len-set_rec_len b 0 v (omega (arith, small)) ∙ omega arith,
    )
