-- ===== src/Fs/Ext2/Ialloc/Free.antt =====
-- Freeing an inode that was taken.
use ferrite_c.Common.{
  ℕ, ◌+◌, ◌-◌, ◌*◌, ◌%◌, ◌^◌, ◌<◌, ◌≡◌, inl, inr, refl, ap, sym, ◌∙◌, Bool, true, false, ◌==◌,
  if◌then◌else◌, arith, Bool-cases, update,
}
use ferrite_c.Common.Division.{div_add_mul, mod_add_mul}
use ferrite_c.Common.Int.{ℤ, pos}
use ferrite_c.Fs.Ext2.Balloc.{Io}
use ferrite_c.Fs.Ext2.Balloc.Free.{AllGood}
use ferrite_c.Fs.Ext2.Ialloc.{InodeGroup, InodeVolume, mode_is_dir, take_inode, ext2_free_inode}

-- The bit of the group is clear and counted, and no count is at the end of its range.
pub record IsFree (g bit : ℕ) (v : InodeVolume) : Type 0 where
  pub in_group : bit < v.s_inodes_per_group
  pub clear : v.disk (v.s_group_desc g).bg_inode_bitmap bit ≡ false
  pub some_in_group : 0 < (v.s_group_desc g).bg_free_inodes_count
  pub group_count_fits : (v.s_group_desc g).bg_free_inodes_count < 2 ^ 16
  pub dirs_fit : (v.s_group_desc g).bg_used_dirs_count + 1 < 2 ^ 16
  pub some_free : 0 < v.s_free_inodes_count
  pub count_fits : v.s_free_inodes_count < 2 ^ 32

-- The call succeeded, and the counts, the descriptors and the bits are those of v.
pub record Restored (v : InodeVolume) (res : InodeVolume × ℤ) : Type 0 where
  pub succeeds : res.1 ≡ pos 0
  pub count_is : res.0.s_free_inodes_count ≡ v.s_free_inodes_count
  pub groups_are : (h : ℕ) → res.0.s_group_desc h ≡ v.s_group_desc h
  pub bits_are : (b k : ℕ) → res.0.disk b k ≡ v.disk b k

-- The volume that a call of `take_inode` leaves where every write succeeds, and that of a free.
abbrev taken_group : (mode : ℕ) → InodeGroup → InodeGroup
taken_group mode d = record d {
  bg_free_inodes_count = d.bg_free_inodes_count - 1;
  bg_used_dirs_count =
      if mode_is_dir mode then (d.bg_used_dirs_count + 1) % 2 ^ 16 else d.bg_used_dirs_count;
}

abbrev freed_group : (mode : ℕ) → InodeGroup → InodeGroup
freed_group mode d = record d {
  bg_free_inodes_count = (d.bg_free_inodes_count + 1) % 2 ^ 16;
  bg_used_dirs_count =
      if mode_is_dir mode
      then (d.bg_used_dirs_count + 2 ^ 16 - 1) % 2 ^ 16
      else d.bg_used_dirs_count;
}

abbrev with_bit :
    (bit : ℕ) → (value : Bool) → (g : ℕ) → InodeGroup → (count : ℕ) → InodeVolume → InodeVolume
with_bit bit value g d count v = record v {
  s_group_desc = update v.s_group_desc g d;
  s_free_inodes_count = count;
  disk =
      update v.disk (v.s_group_desc g).bg_inode_bitmap
        (update (v.disk (v.s_group_desc g).bg_inode_bitmap) bit value);
}

takes :
    (io : Io) (mode g bit : ℕ) (v : InodeVolume)
    → AllGood io
    → (take_inode io mode g bit v).0
      ≡ with_bit bit true g
          (taken_group mode (v.s_group_desc g))
          ((v.s_free_inodes_count + 2 ^ 32 - 1) % 2 ^ 32)
          v
unfolding take_inode
takes io mode g bit v good =
    rw (good.writes (v.s_group_desc g).bg_inode_bitmap, good.descriptors g, good.super) refl

frees :
    (io : Io) (mode g bit : ℕ) (w : InodeVolume)
    → AllGood io
    → bit < w.s_inodes_per_group
    → w.disk (w.s_group_desc g).bg_inode_bitmap bit ≡ true
    → ext2_free_inode io mode (bit + w.s_inodes_per_group * g + 1) w ≡ (
      with_bit bit false g
          (freed_group mode (w.s_group_desc g))
          ((w.s_free_inodes_count + 1) % 2 ^ 32)
          w,
      pos 0,
    )
unfolding ext2_free_inode
frees io mode g bit w good h set =
    let p = w.s_inodes_per_group in
    let b = (w.s_group_desc g).bg_inode_bitmap in
    let e : bit + p * g + 1 - 1 ≡ bit + p * g = omega arith in
    rw
      (
        e,
        div_add_mul bit p g h,
        mod_add_mul bit p g h,
        good.reads b,
        set,
        good.writes b,
        good.descriptors g,
        good.super,
      )
      refl

update_self {ℓ} : {A : Type ℓ} → (f : ℕ → A) (i : ℕ) (x : A) → update f i x i ≡ x
update_self f i x = let e : (i == i) ≡ true = ground arith in rw e refl

-- Two updates of a cell that come to what was there.
update_back {ℓ} :
    {A : Type ℓ}
    → (f : ℕ → A) (i : ℕ) (x y : A) (j : ℕ) → y ≡ f i
    → update (update f i x) i y j ≡ f j
update_back f i x y j e = elim (Bool-cases (i == j)) [
  | inl s ↦ let k : i ≡ j = ground arith in rw s (e ∙ ap f k)
  | inr s ↦ rw s refl
]

same_group :
    (mode g bit : ℕ) (v : InodeVolume)
    → IsFree g bit v
    → freed_group mode (taken_group mode (v.s_group_desc g)) ≡ v.s_group_desc g
same_group mode g bit v free =
    let d = v.s_group_desc g in
    let a : (d.bg_free_inodes_count - 1 + 1) % 2 ^ 16 ≡ d.bg_free_inodes_count =
      omega (arith, free.some_in_group, free.group_count_fits) in
    elim (Bool-cases (mode_is_dir mode)) [
      | inr m ↦ rw m (ap (λ n. record d { bg_free_inodes_count = n }) a)
      | inl m ↦
          let c : ((d.bg_used_dirs_count + 1) % 2 ^ 16 + 2 ^ 16 - 1) % 2 ^ 16
              ≡ d.bg_used_dirs_count =
            omega (arith, free.dirs_fit) in
          rw (m, a, c) refl
    ]

-- A bit that was clear, set and cleared again.
bits_back :
    (f : ℕ → ℕ → Bool) (b b' bit : ℕ)
    → b' ≡ b
    → f b bit ≡ false
    → (c k : ℕ)
    → update
        (update f b (update (f b) bit true))
        b'
        (update (update f b (update (f b) bit true) b') bit false)
        c
        k
      ≡ f c k
bits_back f b b' bit same clear c k =
    let self = update_self f b (update (f b) bit true) in
    rw (same, self)
      (elim (Bool-cases (b == c)) [
        | inr s ↦ rw s refl
        | inl s ↦
            let e : b ≡ c = ground arith in
            rw s (update_back (f b) bit true false k (sym clear) ∙ ap (λ x. f x k) e)
      ])

-- Where every transfer succeeds, freeing the inode that was taken for a bit that was clear returns 0 and
-- makes the counts, the descriptors and every bit of before.
pub ext2_free_inode-take_inode :
    (io : Io) (mode g bit : ℕ) (v : InodeVolume)
    → AllGood io
    → IsFree g bit v
    → Restored v (
        ext2_free_inode io mode (bit + v.s_inodes_per_group * g + 1) (take_inode io mode g bit v).0)
ext2_free_inode-take_inode io mode g bit v good free =
    let b = (v.s_group_desc g).bg_inode_bitmap in
    let d = taken_group mode (v.s_group_desc g) in
    let w = with_bit bit true g d ((v.s_free_inodes_count + 2 ^ 32 - 1) % 2 ^ 32) v in
    let self = update_self v.s_group_desc g d in
    let map : (w.s_group_desc g).bg_inode_bitmap ≡ b = ap (λ x. x.bg_inode_bitmap) self in
    let set : w.disk (w.s_group_desc g).bg_inode_bitmap bit ≡ true =
      ap (λ c. w.disk c bit) map
      ∙ ap (λ f. f bit) (update_self v.disk b (update (v.disk b) bit true))
      ∙ update_self (v.disk b) bit true in
    rw (takes io mode g bit v good, frees io mode g bit w good free.in_group set)
      (record {
        succeeds = refl;
        count_is = omega (arith, free.some_free, free.count_fits);
        groups_are = λ h.
            update_back v.s_group_desc g d _ h
              (ap (freed_group mode) self ∙ same_group mode g bit v free);
        bits_are = bits_back v.disk b (w.s_group_desc g).bg_inode_bitmap bit map free.clear;
      })
