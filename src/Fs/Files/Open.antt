-- ===== src/Fs/Files/Open.antt =====
-- What a call of `sys_open` leaves: the descriptor, the file and the references.
use ferrite_c.Common.{
  Bool-cases, false, ℕ, ◌≡◌, ◌≢◌, inl, inr, refl, true, false, List, [], ◌∷◌, Option, none, some,
  ◌==◌, length, set, get_elem?, update, Run, ok, fault, panic, out_of_fuel, ◌>>=◌, arith,
  Option-cases, ◌∙◌, sym,
}
use ferrite_c.Common.Int.{ℤ, pos, negsuc}
use ferrite_c.Sys.File.{fd_alloc, max_open_files}
use ferrite_c.Sys.File.Table.{Slot, slot, no_slot, fd_alloc-Slot}
use ferrite_c.Fs.Refs.{Refs, put_ref, Holding, put_ref-Holding}
use ferrite_c.Fs.Lookup.{vfs_lookup}
use ferrite_c.Fs.Lookup.Balance.{vfs_lookup-Found}
use ferrite_c.Fs.Files.{
  File, Files, Vfs, Target, target, denied, find_target, put_node, file_put, new_file, open_op,
  opened_by, fill, place_file, install, sys_open,
}
use ferrite_c.Fs.Files.Find.{
  KeepsFiles, Snag, Reached, no_i_op, Targeted, at_node, at_null, no_target, snag_target,
  find_target-Targeted,
}

-- A file is opened: its descriptor was free, it has one reference and holds one of its inode, and no other
-- file changed.
pub record IsOpened (s s' : Files) (fd f node : ℕ) : Type 0 where
  pub was_free : get_elem? s.open_files fd ≡ some none
  pub handed_out : s'.open_files ≡ set s.open_files fd (some f)
  pub inode_is : (s'.file f).f_inode ≡ some node
  pub count_is : (s'.file f).f_count ≡ 1
  pub takes_one : Holding s.refs (node ∷ []) s'.refs
  pub frees_none : s'.kfreed ≡ s.kfreed
  pub other_files : (g : ℕ) → g ≢ f → s'.file g ≡ s.file g

-- Nothing changed.
pub record IsUnchanged (s s' : Files) : Type 0 where
  pub same_fds : s'.open_files ≡ s.open_files
  pub same_refs : Holding s.refs [] s'.refs
  pub same_files : s'.file ≡ s.file
  pub same_kfreed : s'.kfreed ≡ s.kfreed

-- The operation `open` of the file failed: the file is freed but stays behind its descriptor, and two
-- references of its inode were given back, where one was taken.
pub record IsDangling (s s' : Files) (fd f node : ℕ) (r : Refs) : Type 0 where
  pub still_there : s'.open_files ≡ set s.open_files fd (some f)
  pub but_freed : s'.kfreed ≡ f ∷ s.kfreed
  pub one_taken : Holding s.refs (node ∷ []) r
  pub two_given : (j : ℕ) → s'.refs j ≡ put_ref node (put_ref node r) j

-- S says why NULL is read.
pub data Opened (S : Type 0) (s : Files) : Run (Files × ℤ) → Type 0 where
  opened : (fd f node : ℕ) (s' : Files) → IsOpened s s' fd f node → Opened S s (ok (s', pos fd))
  not_opened : (n : ℕ) (s' : Files) → IsUnchanged s s' → Opened S s (ok (s', negsuc n))
  dangling :
      (fd f node n : ℕ) (s' : Files) (r : Refs)
      → IsDangling s s' fd f node r
      → Opened S s (ok (s', negsuc n))
  snagged : S → Opened S s fault

pub update_self : (f : ℕ → File) (i : ℕ) (x : File) → update f i x i ≡ x
update_self f i x = let e : (i == i) ≡ true = ground arith in rw e refl

update_ne : (f : ℕ → File) (i j : ℕ) (x : File) → j ≢ i → update f i x j ≡ f j
update_ne f i j x ne = let e : (i == j) ≡ false = ground arith in rw e refl

-- `file_put` of the last reference.
pub file_put-last :
    (s : Files) (f : ℕ)
    → (s.file f).f_count ≡ 1
    → ((file_put s f).open_files ≡ s.open_files)
      × ((file_put s f).kfreed ≡ f ∷ s.kfreed)
      × ((file_put s f).refs ≡ put_node (s.file f).f_inode s.refs)
unfolding file_put
file_put-last s f e = rw e (refl, refl, refl)

-- The operation `open` returned; `t` is the state with the descriptor.
opened_by-Opened :
    (S : Type 0) (s t : Files) (fd f node : ℕ) (res : File × Refs × ℤ)
    → get_elem? s.open_files fd ≡ some none
    → t.open_files ≡ set s.open_files fd (some f)
    → t.kfreed ≡ s.kfreed
    → t.file ≡ s.file
    → Holding s.refs (node ∷ []) t.refs
    → res.0.f_inode ≡ some node
    → res.0.f_count ≡ 1
    → ((j : ℕ) → res.1 j ≡ t.refs j)
    → Opened S s (ok (opened_by t node fd f res))
unfolding opened_by
opened_by-Opened S s t fd f node (y, r, pos n) free there freed same h inode cnt e =
    let self = update_self t.file f y in
    opened fd f node _ (record {
      was_free = free;
      handed_out = there;
      inode_is = rw self inode;
      count_is = rw self cnt;
      takes_one = λ j. e j ∙ h j;
      frees_none = freed;
      other_files = λ g ne. rw (update_ne t.file f g y ne, same) refl;
    })
opened_by-Opened S s t fd f node (y, r, negsuc n) free there freed same h inode cnt e =
    let u : Files = record t { file = update t.file f y; refs = r } in
    let self = update_self t.file f y in
    let last = file_put-last u f (rw self cnt) in
    let put : (file_put u f).refs ≡ put_ref node r = last.2 ∙ rw (self, inode) refl in
    dangling fd f node n _ r (record {
      still_there = last.0 ∙ there;
      but_freed = last.1 ∙ rw freed refl;
      one_taken = λ j. e j ∙ h j;
      two_given = λ j. rw put refl;
    })

open_op_is :
    (v : Vfs) (x : File) (op : ℕ → File → Refs → File × Refs × ℤ)
    → open_op v x ≡ some op
    → (t : ℕ) × ((v.ops t).on_open ≡ some op)
open_op_is v x op e = elim (Option-cases x.f_op) [
  | inl f ↦ absurd (ground arith)
  | inr (t, f) ↦ (t, sym (rw f refl) ∙ e)
]

fill-Opened :
    (v : Vfs) (S : Type 0) (flags node fd f : ℕ) (s : Files) (r : Refs)
    → KeepsFiles v
    → (v.tree.has_i_op node ≡ false → S)
    → get_elem? s.open_files fd ≡ some none
    → Holding s.refs (node ∷ []) r
    → Opened S s (
        fill v flags node
          (record s { open_files = set s.open_files fd (some f); refs = r })
          fd
          (some f))
unfolding fill opened_by
fill-Opened v S flags node fd f s r law why free h =
    let t : Files = record s { open_files = set s.open_files fd (some f); refs = r } in
    let x = new_file v flags node in
    elim (Bool-cases (v.tree.has_i_op node)) [
      | inr g ↦ rw g (snagged (why g))
      | inl g ↦ elim (Option-cases (open_op v x)) [
        | inl e ↦
            rw (g, e)
              (opened_by-Opened S s t fd f node (x, r, pos 0) free refl refl refl h refl refl
                (λ j. refl))
        | inr (op, e) ↦
            let (n, named) = open_op_is v x op e in
            let keeps = law.opens n op named node x r in
            rw (g, e)
              (opened_by-Opened S s t fd f node (op node x r) free refl refl refl h keeps.0 keeps.1
                keeps.2)
      ]
    ]

place_file-Opened :
    (v : Vfs) (S : Type 0) (flags node : ℕ) (s : Files) (r : Refs) (res : List (Option ℕ) × ℤ)
    → KeepsFiles v
    → (v.tree.has_i_op node ≡ false → S)
    → Holding s.refs (node ∷ []) r
    → Slot s.open_files res
    → Opened S s (place_file v flags (some node) (record s { refs = r }) res)
unfolding place_file
place_file-Opened v S flags node s r (fs, negsuc n) law why h (no_slot _) =
    not_opened 23 _ (record {
      same_fds = refl;
      same_refs = put_ref-Holding s.refs [] r node h;
      same_files = refl;
      same_kfreed = refl;
    })
place_file-Opened v S flags node s r (fs, pos fd) law why h (slot _ f free get) =
    rw get (fill-Opened v S flags node fd f s r law why free h)

place_file_null-Opened :
    (v : Vfs) (S : Type 0) (flags : ℕ) (s : Files) (r : Refs) (res : List (Option ℕ) × ℤ)
    → S
    → Holding s.refs [] r
    → Slot s.open_files res
    → Opened S s (place_file v flags none (record s { refs = r }) res)
unfolding place_file
place_file_null-Opened v S flags s r (fs, negsuc n) snag h (no_slot _) =
    not_opened 23 _
      (record { same_fds = refl; same_refs = h; same_files = refl; same_kfreed = refl })
place_file_null-Opened v S flags s r (fs, pos fd) snag h x = snagged snag

install-Opened :
    (v : Vfs) (R : ℕ → Type 0) (S : Type 0) (flags : ℕ) (memory : Option ℕ) (s : Files)
    (run : Run (Refs × Target))
    → KeepsFiles v
    → ((node : ℕ) → R node → v.tree.has_i_op node ≡ false → S)
    → length s.open_files ≡ max_open_files
    → Targeted R S s.refs run
    → Opened S s (run >>= install v flags memory s)
unfolding install
install-Opened v R S flags memory s (ok (r, target (some node))) law why size (at_node _ _ y h) =
    place_file-Opened v S flags node s r (fd_alloc memory s.open_files) law (why node y) h
      (fd_alloc-Slot memory s.open_files size)
install-Opened v R S flags memory s (ok (r, target none)) law why size (at_null _ h snag) =
    place_file_null-Opened v S flags s r (fd_alloc memory s.open_files) snag h
      (fd_alloc-Slot memory s.open_files size)
install-Opened v R S flags memory s (ok (r, denied (negsuc n))) law why size (no_target _ _ h) =
    not_opened n _
      (record { same_fds = refl; same_refs = h; same_files = refl; same_kfreed = refl })
install-Opened v R S flags memory s (ok (r, denied (pos n))) law why size x = elim x [ ]
install-Opened v R S flags memory s fault law why size (snag_target snag) = snagged snag
install-Opened v R S flags memory s panic law why size x = elim x [ ]
install-Opened v R S flags memory s out_of_fuel law why size x = elim x [ ]

pub sys_open-Opened :
    (v : Vfs) (path : List ℕ) (flags mode : ℕ) (memory : Option ℕ) (s : Files)
    → KeepsFiles v
    → length s.open_files ≡ max_open_files
    → Opened (Snag v path mode s.refs) s (sys_open v path flags mode memory s)
unfolding sys_open
sys_open-Opened v path flags mode memory s law size =
    install-Opened v (Reached v path mode s.refs) (Snag v path mode s.refs) flags memory s
      (vfs_lookup v.tree.space path s.refs >>= find_target v path flags mode) law
      (λ node y e. no_i_op node y e) size
      (find_target-Targeted v path flags mode s.refs (vfs_lookup v.tree.space path s.refs) law refl
        (vfs_lookup-Found v.tree.space path s.refs law.tree_keeps.lookups))
