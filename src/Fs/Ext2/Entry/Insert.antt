-- ===== src/Fs/Ext2/Entry/Insert.antt =====
-- Putting a new entry behind one that has space to spare.
use mathlib.Core.Path.{subst}
use ferrite_c.Common.{
  ℕ, suc, ◌+◌, ◌-◌, ◌/◌, ◌%◌, ◌^◌, ◌≤◌, ◌<◌, ◌≡◌, ◌≢◌, ◌⊎◌, inl, inr, refl, true, ◌&&◌, List, ◌∷◌,
  ◌++◌, some, Option, ltb, leb, arith, ok, ◌∙◌, sym, ap, lt→ltb,
}
use ferrite_c.Fs.Ext2.Entry.{
  rec_len, name_len, sizeof_entry, set_rec_len, aligned_size, copy_to, put_entry, room_scan,
}
use ferrite_c.Fs.Ext2.Entry.Chain.{Chain, SameOutside, Chain-behind, Chain-replace, Chain-le}
use ferrite_c.Fs.Ext2.Entry.Delete.{rec_len-set_rec_len}

copy_inside : (b e : ℕ → ℕ) (offset len k : ℕ) → k < len → copy_to b offset e len (offset + k) ≡ e k
copy_inside b e offset len k h =
    let x : offset + k - offset ≡ k = omega arith in
    let t : (leb offset (offset + k) && ltb (offset + k) (offset + len)) ≡ true = ground arith in
    rw (t, x) refl

copy_outside :
    (b e : ℕ → ℕ) (offset len y : ℕ)
    → (y < offset) ⊎ (offset + len ≤ y)
    → copy_to b offset e len y ≡ b y
copy_outside b e offset len y h = ground arith

set_outside : (b : ℕ → ℕ) (o v y : ℕ) → y ≢ o + 4 → y ≢ o + 5 → set_rec_len b o v y ≡ b y
set_outside b o v y h k = ground arith

-- The entry as it is copied, with its length.
new_entry : (b entry : ℕ → ℕ) (p size : ℕ) → ℕ → ℕ
new_entry b entry p size = set_rec_len entry 0 (rec_len b p + 2 ^ 32 - size)

module _ (b entry : ℕ → ℕ) (p size : ℕ) (cut : aligned_size b p ≡ size)
    (narrow : size < 0x1_0000) where
  put_entry_eq :
      put_entry b p p entry
      ≡ copy_to
          (set_rec_len b p size)
          (p + size)
          (new_entry b entry p size)
          (sizeof_entry + name_len entry 0)
  unfolding put_entry new_entry
  put_entry_eq =
      subst
        (λ (z : ℕ).
          copy_to (set_rec_len b p z) (p + rec_len (set_rec_len b p z) p)
            (set_rec_len entry 0 (rec_len b p + 2 ^ 32 - z)) (sizeof_entry + name_len entry 0)
          ≡ copy_to (set_rec_len b p size) (p + size) (new_entry b entry p size)
              (sizeof_entry + name_len entry 0))
        (sym cut)
        (ap
          (λ (z : ℕ).
            copy_to (set_rec_len b p size) (p + z) (new_entry b entry p size)
              (sizeof_entry + name_len entry 0))
          (rec_len-set_rec_len b p size narrow))

  put_entry-inside :
      (k : ℕ)
      → k < sizeof_entry + name_len entry 0
      → put_entry b p p entry (p + size + k) ≡ new_entry b entry p size k
  put_entry-inside k h =
      ap (λ (f : ℕ → ℕ). f (p + size + k)) put_entry_eq
      ∙ copy_inside (set_rec_len b p size) (new_entry b entry p size) (p + size)
          (sizeof_entry + name_len entry 0) k h

module _ (b entry : ℕ → ℕ) (p size : ℕ) (cut : aligned_size b p ≡ size) (narrow : size < 0x1_0000)
    (small : rec_len b p < 0x1_0000)
    (fits : size + (sizeof_entry + name_len entry 0) ≤ rec_len b p) where
  put_entry-outside :
      (y : ℕ)
      → (y < p + size) ⊎ (p + rec_len b p ≤ y)
      → put_entry b p p entry y ≡ set_rec_len b p size y
  put_entry-outside y h =
      ap (λ (f : ℕ → ℕ). f y) (put_entry_eq b entry p size cut narrow)
      ∙ copy_outside (set_rec_len b p size) (new_entry b entry p size) (p + size)
          (sizeof_entry + name_len entry 0) y
          (elim h [ inl l ↦ inl l | inr g ↦ inr (omega (arith, g, fits)) ])

  length_low : (new_entry b entry p size) 4 ≡ (rec_len b p - size) % 0x100
  unfolding new_entry
  length_low = omega (arith, fits)

  length_high : (new_entry b entry p size) 5 ≡ (rec_len b p - size) / 0x100
  unfolding new_entry
  length_high = omega (arith, fits, small)

  put_entry-SameOutside : SameOutside p (p + rec_len b p) b (put_entry b p p entry)
  put_entry-SameOutside y h =
      let eight : sizeof_entry ≤ size = omega (arith, cut) in
      put_entry-outside y (elim h [ inl l ↦ inl (omega (arith, l, eight)) | inr g ↦ inr g ])
      ∙ set_outside b p size y (ground arith) (ground arith)

  cut_length : rec_len (put_entry b p p entry) p ≡ size
  cut_length =
      let eight : sizeof_entry ≤ size = omega (arith, cut) in
      omega (
        arith,
        put_entry-outside (p + 4) (inl (omega (arith, eight))),
        put_entry-outside (p + 5) (inl (omega (arith, eight))),
        rec_len-set_rec_len b p size (omega (arith, small, fits)),
      )

  new_length : rec_len (put_entry b p p entry) (p + size) ≡ rec_len b p - size
  new_length = omega (
    arith,
    put_entry-inside b entry p size cut narrow 4 (omega arith),
    put_entry-inside b entry p size cut narrow 5 (omega arith),
    length_low,
    length_high,
    small,
    fits,
  )

  put_entry_here :
      (bs : ℕ) (post : List ℕ)
      → Chain bs b p (p ∷ post)
      → Chain bs (put_entry b p p entry) p (p ∷ (p + size) ∷ post)
  unfolding Chain
  put_entry_here bs post (_, l, r, c) =
      let n = cut_length in
      let m = new_length in
      let end = Chain-le bs b (p + rec_len b p) post c in
      (
        refl,
        l,
        omega (arith, n, cut),
        subst
            (λ (z : ℕ).
              (p + size ≡ p + z)
              × (p + z < bs)
              × (sizeof_entry ≤ rec_len (put_entry b p p entry) (p + z))
              × Chain bs (put_entry b p p entry) (p + z + rec_len (put_entry b p p entry) (p + z))
                  post)
            (sym n)
            (
              refl,
              omega (arith, fits, end),
              omega (arith, m, fits),
              subst (λ (z : ℕ). Chain bs (put_entry b p p entry) z post) (omega (arith, m, fits))
                  (Chain-behind bs p (p + rec_len b p) b (put_entry b p p entry) (p + rec_len b p)
                    post put_entry-SameOutside (omega arith) c),
            ),
      )

-- The new entry is put behind one whose space holds both: the entries of the block are then those of
-- before with the new one after it, the new entry has the inode, the name and its length as given, and
-- every byte outside of the space of the entry before is as it was.
pub put_entry-Chain :
    (bs : ℕ) (b entry : ℕ → ℕ) (pre : List ℕ) (p : ℕ) (post : List ℕ)
    → rec_len b p < 0x1_0000
    → aligned_size b p + (sizeof_entry + name_len entry 0) ≤ rec_len b p
    → Chain bs b 0 (pre ++ p ∷ post)
    → Chain bs (put_entry b p p entry) 0 (pre ++ p ∷ (p + aligned_size b p) ∷ post)
      × ((k : ℕ)
          → k < sizeof_entry + name_len entry 0
          → k ≢ 4
          → k ≢ 5
          → put_entry b p p entry (p + aligned_size b p + k) ≡ entry k)
      × SameOutside p (p + rec_len b p) b (put_entry b p p entry)
unfolding new_entry
put_entry-Chain bs b entry pre p post small fits c =
    let narrow : aligned_size b p < 0x1_0000 = omega (arith, small, fits) in
    let same = put_entry-SameOutside b entry p (aligned_size b p) refl narrow small fits in
    (
      Chain-replace bs p (p + rec_len b p) b (put_entry b p p entry) 0 pre post
          ((p + aligned_size b p) ∷ post) same
          (put_entry_here b entry p (aligned_size b p) refl narrow small fits bs post) c,
      (λ k h four five.
          put_entry-inside b entry p (aligned_size b p) refl narrow k h
          ∙ set_outside entry 0 (rec_len b p + 2 ^ 32 - aligned_size b p) k (ground arith)
              (ground arith)),
      same,
    )

-- `ext2_write_entry` stops at the first entry with any space to spare, whatever the length of the new
-- one. Where that space does not hold it, the copy runs over the entry behind: byte k of the new entry
-- then stands in place of a byte behind the space of the first.
pub put_entry_overwrites :
    (f bs base size : ℕ) (b entry : ℕ → ℕ) (p : ℕ) (e : Option ℕ) (k : ℕ)
    → p < bs
    → base + p ≤ size
    → aligned_size b p < rec_len b p
    → rec_len b p < 0x1_0000
    → rec_len b p ≤ aligned_size b p + k
    → k < sizeof_entry + name_len entry 0
    → k ≢ 4
    → k ≢ 5
    → (room_scan (suc f) bs base size b p e ≡ ok (p, some p))
      × (p + rec_len b p ≤ p + aligned_size b p + k)
      × (put_entry b p p entry (p + aligned_size b p + k) ≡ entry k)
unfolding room_scan new_entry
put_entry_overwrites f bs base size b entry p e k l inode_size spare small over h four five =
    let t : (ltb p bs && leb (base + p) size) ≡ true = ground arith in
    let u : ltb (aligned_size b p) (rec_len b p) ≡ true =
      lt→ltb (aligned_size b p) (rec_len b p) spare in
    (
      rw (t, u) refl,
      omega (arith, over),
      put_entry-inside b entry p (aligned_size b p) refl (omega (arith, spare, small)) k h
          ∙ set_outside entry 0 (rec_len b p + 2 ^ 32 - aligned_size b p) k (ground arith)
              (ground arith),
    )
