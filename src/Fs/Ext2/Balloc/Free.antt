-- ===== src/Fs/Ext2/Balloc/Free.antt =====
-- A block that `ext2_new_block` took and `ext2_free_block` gives back.
use ferrite_c.Common.{
  ℕ, ◌+◌, ◌-◌, ◌*◌, ◌/◌, ◌%◌, ◌^◌, ◌≤◌, ◌<◌, ◌≡◌, ◌≢◌, inl, inr, refl, Bool, true, false, some,
  ◌==◌, arith, Bool-cases, ◌∙◌, sym, ap, update,
}
use mathlib.Core.Path.{subst}
use ferrite_c.Common.Division.{div_add_mul, mod_add_mul}
use ferrite_c.Common.Int.{ℤ, pos}
use ferrite_c.Fs.Ext2.Balloc.{Group, Volume, Io, take_block, write_block, ext2_free_block}

-- Every transfer of the device succeeds.
pub record AllGood (io : Io) : Type 0 where
  pub reads : (b : ℕ) → io.can_read b ≡ true
  pub writes : (b : ℕ) → io.can_write b ≡ true
  pub descriptors : (g : ℕ) → io.can_write_bgd g ≡ true
  pub super : io.can_write_super ≡ true

-- The block of the bit of the group g.
abbrev pub block_of : Volume → (g bit : ℕ) → ℕ
block_of v g bit = bit + v.s_blocks_per_group * g + v.s_first_data_block

-- The counts and the bit maps are those of before; only the block itself was cleared.
pub record Restored (block : ℕ) (v : Volume) (r : Volume × ℤ) : Type 0 where
  pub result : r.1 ≡ pos 0
  pub free_blocks : r.0.s_free_blocks_count ≡ v.s_free_blocks_count
  pub groups : (g : ℕ) → r.0.s_group_desc g ≡ v.s_group_desc g
  pub blocks : (b : ℕ) → b ≢ block → (k : ℕ) → r.0.disk b k ≡ v.disk b k

module _ (io : Io) (good : AllGood io) (g bit : ℕ) (v : Volume) where
  block : ℕ
  block = block_of v g bit

  took : take_block io g bit v ≡ (
    write_block
        (write_block
          (record v {
            s_group_desc = update v.s_group_desc g (record (v.s_group_desc g) {
              bg_free_blocks_count = (v.s_group_desc g).bg_free_blocks_count - 1;
            });
            s_free_blocks_count = v.s_free_blocks_count - 1;
          })
          (v.s_group_desc g).bg_block_bitmap
          (update (v.disk (v.s_group_desc g).bg_block_bitmap) bit true))
        (block_of v g bit)
        (λ k. false),
    record { result = pos (block_of v g bit); err = some (pos 0) },
  )
  unfolding take_block
  took =
      rw
        (
          good.writes (v.s_group_desc g).bg_block_bitmap,
          good.descriptors g,
          good.super,
          good.writes (block_of v g bit),
        )
        refl

unshift : (x f : ℕ) → x + f < 2 ^ 32 → (x + f + 2 ^ 32 - f) % 2 ^ 32 ≡ x
unshift x f l = omega (arith, l)

group_of :
    (bit per g f : ℕ)
    → bit < per
    → bit + per * g + f < 2 ^ 32
    → (bit + per * g + f + 2 ^ 32 - f) % 2 ^ 32 / per ≡ g
group_of bit per g f l fits =
    ap (λ (x : ℕ). x / per) (unshift (bit + per * g) f fits) ∙ div_add_mul bit per g l

bit_of :
    (bit per g f : ℕ)
    → bit < per
    → bit + per * g + f < 2 ^ 32
    → (bit + per * g + f + 2 ^ 32 - f) % 2 ^ 32 % per ≡ bit
bit_of bit per g f l fits =
    ap (λ (x : ℕ). x % per) (unshift (bit + per * g) f fits) ∙ mod_add_mul bit per g l

-- A free of the block of the bit of the group g, on any volume where the bit is set.
freed :
    (io : Io) (good : AllGood io) (v : Volume) (g bit block : ℕ)
    → bit < v.s_blocks_per_group
    → block ≡ block_of v g bit
    → block_of v g bit < 2 ^ 32
    → v.disk (v.s_group_desc g).bg_block_bitmap bit ≡ true
    → ext2_free_block io block v ≡ (
      write_block
          (record v {
            s_group_desc = update v.s_group_desc g (record (v.s_group_desc g) {
              bg_free_blocks_count = ((v.s_group_desc g).bg_free_blocks_count + 1) % 2 ^ 16;
            });
            s_free_blocks_count = (v.s_free_blocks_count + 1) % 2 ^ 32;
          })
          (v.s_group_desc g).bg_block_bitmap
          (update (v.disk (v.s_group_desc g).bg_block_bitmap) bit false),
      pos 0,
    )
unfolding ext2_free_block
freed io good v g bit block l e fits set =
    rw
      (
        e,
        group_of bit v.s_blocks_per_group g v.s_first_data_block l fits,
        bit_of bit v.s_blocks_per_group g v.s_first_data_block l fits,
        good.reads (v.s_group_desc g).bg_block_bitmap,
        set,
        good.writes (v.s_group_desc g).bg_block_bitmap,
        good.descriptors g,
        good.super,
      )
      refl

-- What taking the bit of the group g leaves, where every transfer succeeds.
pub record Took (g bit : ℕ) (v w : Volume) : Type 0 where
  pub per_group : w.s_blocks_per_group ≡ v.s_blocks_per_group
  pub first_block : w.s_first_data_block ≡ v.s_first_data_block
  pub group : w.s_group_desc g ≡ record (v.s_group_desc g) {
    bg_free_blocks_count = (v.s_group_desc g).bg_free_blocks_count - 1;
  }
  pub other_groups : (h : ℕ) → h ≢ g → w.s_group_desc h ≡ v.s_group_desc h
  pub free_blocks : w.s_free_blocks_count ≡ v.s_free_blocks_count - 1
  pub bitmap :
      (k : ℕ)
      → w.disk (v.s_group_desc g).bg_block_bitmap k
        ≡ update (v.disk (v.s_group_desc g).bg_block_bitmap) bit true k
  pub others :
      (b : ℕ)
      → b ≢ (v.s_group_desc g).bg_block_bitmap
      → b ≢ block_of v g bit
      → (k : ℕ) → w.disk b k ≡ v.disk b k

take_block-Took :
    (io : Io) (good : AllGood io) (g bit : ℕ) (v : Volume)
    → (v.s_group_desc g).bg_block_bitmap ≢ block_of v g bit
    → Took g bit v (take_block io g bit v).0
take_block-Took io good g bit v apart = rw (took io good g bit v) (record {
  per_group = refl;
  first_block = refl;
  group = ground arith;
  other_groups = λ h ne. ground arith;
  free_blocks = refl;
  bitmap = λ k. ground arith;
  others = λ b ne ne' k. ground arith;
})

same_group :
    (d : Group)
    → 1 ≤ d.bg_free_blocks_count
    → d.bg_free_blocks_count < 2 ^ 16
    → record d { bg_free_blocks_count = (d.bg_free_blocks_count - 1 + 1) % 2 ^ 16 } ≡ d
same_group d a b =
    let e : (d.bg_free_blocks_count - 1 + 1) % 2 ^ 16 ≡ d.bg_free_blocks_count =
      omega (arith, a, b) in
    ap (λ (n : ℕ). record d { bg_free_blocks_count = n }) e

cleared :
    (bits bits' : ℕ → Bool) (bit k : ℕ)
    → bits bit ≡ false
    → bits' k ≡ update bits bit true k
    → update bits' bit false k ≡ bits k
cleared bits bits' bit k e f = elim (Bool-cases (bit == k)) [
  | inl same ↦ let h : bit ≡ k = ground arith in let z = sym e ∙ ap bits h in ground arith
  | inr other ↦ ground arith
]

-- The bit of the group g is clear, its block lies in the group and is not the bit map, and the counts say so.
pub record Room (g bit : ℕ) (v : Volume) : Type 0 where
  pub in_group : bit < v.s_blocks_per_group
  pub fits : block_of v g bit < 2 ^ 32
  pub apart : (v.s_group_desc g).bg_block_bitmap ≢ block_of v g bit
  pub clear : v.disk (v.s_group_desc g).bg_block_bitmap bit ≡ false
  pub some_in_group : 1 ≤ (v.s_group_desc g).bg_free_blocks_count
  pub group_count_fits : (v.s_group_desc g).bg_free_blocks_count < 2 ^ 16
  pub some_free : 1 ≤ v.s_free_blocks_count
  pub count_fits : v.s_free_blocks_count < 2 ^ 32

set_bit : (f : ℕ → Bool) (bit : ℕ) → update f bit true bit ≡ true
set_bit f bit = ground arith

-- The volume that the free leaves, of which w is the one before.
module _ (g bit : ℕ) (v w : Volume) (r : Room g bit v) (t : Took g bit v w) where
  given : Volume
  given =
      write_block
        (record w {
          s_group_desc = update w.s_group_desc g (record (w.s_group_desc g) {
            bg_free_blocks_count = ((w.s_group_desc g).bg_free_blocks_count + 1) % 2 ^ 16;
          });
          s_free_blocks_count = (w.s_free_blocks_count + 1) % 2 ^ 32;
        })
        (w.s_group_desc g).bg_block_bitmap
        (update (w.disk (w.s_group_desc g).bg_block_bitmap) bit false)

  same_map : (w.s_group_desc g).bg_block_bitmap ≡ (v.s_group_desc g).bg_block_bitmap
  same_map = ap Group.bg_block_bitmap t.group

  same_block : block_of v g bit ≡ block_of w g bit
  same_block = rw (t.per_group, t.first_block) refl

  bit_set : w.disk (w.s_group_desc g).bg_block_bitmap bit ≡ true
  bit_set =
      ap (λ (b : ℕ). w.disk b bit) same_map
      ∙ t.bitmap bit
      ∙ set_bit (v.disk (v.s_group_desc g).bg_block_bitmap) bit

  given-free : given.s_free_blocks_count ≡ v.s_free_blocks_count
  unfolding given
  given-free = rw t.free_blocks (omega (arith, r.some_free, r.count_fits))

  given-groups : (h : ℕ) → given.s_group_desc h ≡ v.s_group_desc h
  unfolding given
  given-groups h = elim (Bool-cases (g == h)) [
    | inl same ↦
        let e : g ≡ h = ground arith in
        rw (same, t.group)
          (same_group (v.s_group_desc g) r.some_in_group r.group_count_fits ∙ ap v.s_group_desc e)
    | inr other ↦ rw other (t.other_groups h (ground arith))
  ]

  given-blocks : (b : ℕ) → b ≢ block_of v g bit → (k : ℕ) → given.disk b k ≡ v.disk b k
  unfolding given
  given-blocks b ne k =
      let m = (v.s_group_desc g).bg_block_bitmap in
      elim (Bool-cases (m == b)) [
        | inl same ↦
            let e : m ≡ b = ground arith in
            rw (same_map, same)
              (cleared (v.disk m) (w.disk m) bit k r.clear (t.bitmap k)
                ∙ ap (λ (c : ℕ). v.disk c k) e)
        | inr other ↦ rw (same_map, other) (t.others b (ground arith) ne k)
      ]

  restored :
      (io : Io)
      → AllGood io
      → Restored (block_of v g bit) v (ext2_free_block io (block_of v g bit) w)
  unfolding given
  restored io good =
      rw
        (freed io good w g bit (block_of v g bit) (omega (arith, t.per_group, r.in_group))
          same_block (subst (λ (n : ℕ). n < 2 ^ 32) same_block r.fits) bit_set)
        (record {
          result = refl;
          free_blocks = given-free;
          groups = given-groups;
          blocks = given-blocks;
        })

-- Where every transfer succeeds and the bit is clear and lies in the group g, freeing the block that was
-- taken for it returns 0 and makes the counts, the descriptors and the bit map of before; no block changes
-- but the one that was taken.
pub ext2_free_block-take_block :
    (io : Io) (g bit : ℕ) (v : Volume)
    → AllGood io
    → Room g bit v
    → Restored
        (block_of v g bit)
        v
        (ext2_free_block io (block_of v g bit) (take_block io g bit v).0)
ext2_free_block-take_block io g bit v good r =
    restored g bit v (take_block io g bit v).0 r (take_block-Took io good g bit v r.apart) io good
