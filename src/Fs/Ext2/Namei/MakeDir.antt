-- ===== src/Fs/Ext2/Namei/MakeDir.antt =====
-- The references that `ext2_mkdir` takes and gives back.
use ferrite_c.Common.{
  ℕ, inl, inr, List, [], ◌∷◌, Option, none, some, ◌==◌, arith, Bool-cases, Option-cases, ◌∙◌,
}
use ferrite_c.Common.Int.{ℤ, pos, negsuc, neg, ltb_zero}
use ferrite_c.Fs.Refs.{Refs, Holding, put_ref-Holding}
use ferrite_c.Fs.Ext2.Namei.{
  Disk, Callees, set_meta, format, dots, with_block, with_inode, ext2_mkdir,
}
use ferrite_c.Fs.Ext2.Namei.Take.{Gains, gained, gained_none, KeepsCallees}

-- A call of `ext2_mkdir` that keeps the counts, or that fails with one more reference of the new inode.
pub data MadeDir (base : Refs) : Disk × ℤ → Type 0 where
  balanced : (s : Disk) (e : ℤ) → Holding base [] s.refs → MadeDir base (s, e)
  leaked :
      (new : ℕ) (s : Disk) (n : ℕ) → Holding base (new ∷ []) s.refs → MadeDir base (s, negsuc n)

dots-MadeDir :
    (io : Callees) (base : Refs) (dir new : ℕ) (res : Disk × ℤ)
    → Holding base (new ∷ []) res.0.refs
    → MadeDir base (dots io dir new res)
unfolding dots
dots-MadeDir io base dir new (s, negsuc n) h = balanced _ _ (put_ref-Holding base [] s.refs new h)
dots-MadeDir io base dir new (s, pos n) h = elim (Bool-cases (ltb_zero (io.write_inode new s))) [
  | inl e ↦ rw e (balanced _ _ (put_ref-Holding base [] s.refs new h))
  | inr e ↦ elim (Bool-cases (ltb_zero (io.write_block new s))) [
    | inl f ↦ rw (e, f) (leaked new s 0 h)
    | inr f ↦ elim (Bool-cases (ltb_zero (io.rewrite_inode new s))) [
      | inl g ↦ rw (e, f, g) (leaked new s 0 h)
      | inr g ↦ rw (e, f, g) (balanced _ _ (put_ref-Holding base [] s.refs new h))
    ]
  ]
]

with_block-MadeDir :
    (io : Callees) (base : Refs) (dir new : ℕ) (name : List ℕ) (blocksize : ℕ) (res : Disk × ℤ)
    → KeepsCallees io
    → Holding base (new ∷ []) res.0.refs
    → MadeDir base (with_block io dir new name blocksize res)
unfolding with_block
with_block-MadeDir io base dir new name blocksize (s, negsuc n) law h = leaked new s n h
with_block-MadeDir io base dir new name blocksize (s, pos n) law h =
    let s1 = set_meta new (record (s.meta new) { i_size = blocksize; i_links_count = 2 }) s in
    dots-MadeDir io base dir new (io.write_entry dir name new s1)
      (λ j. law.write_entries dir name new s1 j ∙ h j)

with_inode-MadeDir :
    (io : Callees) (base : Refs) (dir : ℕ) (name : List ℕ) (blocksize : ℕ)
    (res : Disk × Option ℕ × ℤ)
    → KeepsCallees io
    → Gains base res
    → MadeDir base (with_inode io dir name blocksize res)
unfolding with_inode
with_inode-MadeDir io base dir name blocksize (s, none, err) law (gained_none _ _ h) =
    balanced s err h
with_inode-MadeDir io base dir name blocksize (s, some new, err) law (gained _ _ _ h) =
    with_block-MadeDir io base dir new name blocksize (io.new_block dir s) law
      (λ j. law.new_blocks dir s j ∙ h j)

-- A call of `ext2_mkdir` leaves the counts of before, or it fails and leaves one more reference of the new
-- inode.
pub ext2_mkdir-MadeDir :
    (io : Callees) (blocksize dir : ℕ) (name : List ℕ) (mode : ℕ) (s : Disk)
    → KeepsCallees io
    → MadeDir s.refs (ext2_mkdir io blocksize dir name mode s)
unfolding ext2_mkdir
ext2_mkdir-MadeDir io blocksize dir name mode s law =
    let none_held : Holding s.refs [] s.refs = λ j. omega arith in
    elim (Bool-cases (format (s.meta dir).i_mode == 4)) [
      | inr e ↦ rw e (balanced s (neg 1) none_held)
      | inl e ↦ elim (Option-cases (io.find_entry dir name s)) [
        | inr (i, f) ↦ rw (e, f) (balanced s (neg 1) none_held)
        | inl f ↦
            rw (e, f)
              (with_inode-MadeDir io s.refs dir name blocksize (io.new_inode dir mode s) law
                (law.new_inodes dir mode s))
      ]
    ]
