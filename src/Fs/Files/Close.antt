-- ===== src/Fs/Files/Close.antt =====
-- `sys_close` behind `sys_open`.
use mathlib.Core.Path.{subst}
use ferrite_c.Common.{
  ℕ, ◌≡◌, inl, inr, refl, ap, List, [], ◌∷◌, Option, none, some, length, set, get_elem?_lt, set-set,
  Run, ok, arith, Option-cases, ◌∙◌, sym,
}
use ferrite_c.Common.Int.{ℤ, pos}
use ferrite_c.Sys.File.{fd_get, max_open_files}
use ferrite_c.Sys.File.Table.{stored_file}
use ferrite_c.Fs.Refs.{Refs, put_ref, Holding, put_ref-Holding}
use ferrite_c.Fs.Files.{
  File, Files, Vfs, file_put, release_op, after_release, close_at, sys_open, sys_close,
}
use ferrite_c.Fs.Files.Find.{Snag, KeepsFiles}
use ferrite_c.Fs.Files.Open.{IsOpened, Opened, opened, sys_open-Opened, file_put-last, update_self}

-- The descriptors and the references of before, and one file freed.
pub record IsClosed (s s' : Files) (f : ℕ) : Type 0 where
  pub fds_back : s'.open_files ≡ s.open_files
  pub refs_back : Holding s.refs [] s'.refs
  pub freed_it : s'.kfreed ≡ f ∷ s.kfreed

pub data Closed (s : Files) : Run (Files × ℤ) → Type 0 where
  closed : (f : ℕ) (s' : Files) → IsClosed s s' f → Closed s (ok (s', pos 0))

release_op_is :
    (v : Vfs) (x : File) (op : Option ℕ → File → Refs → File × Refs)
    → release_op v x ≡ some op
    → (t : ℕ) × ((v.ops t).on_release ≡ some op)
release_op_is v x op e = elim (Option-cases x.f_op) [
  | inl f ↦ absurd (ground arith)
  | inr (t, f) ↦ (t, sym (rw f refl) ∙ e)
]

-- The last reference of a file with one reference of its inode is given back.
put_back-IsClosed :
    (s t : Files) (f node : ℕ)
    → t.open_files ≡ s.open_files
    → t.kfreed ≡ s.kfreed
    → (t.file f).f_inode ≡ some node
    → (t.file f).f_count ≡ 1
    → Holding s.refs (node ∷ []) t.refs
    → IsClosed s (file_put t f) f
put_back-IsClosed s t f node fds freed inode cnt h =
    let last = file_put-last t f cnt in
    let put : (file_put t f).refs ≡ put_ref node t.refs = last.2 ∙ rw inode refl in
    record {
      fds_back = last.0 ∙ fds;
      refs_back = λ j. rw put (put_ref-Holding s.refs [] t.refs node h j);
      freed_it = last.1 ∙ ap (λ l. f ∷ l) freed;
    }

close_at-Closed :
    (v : Vfs) (s s' : Files) (fd f node : ℕ)
    → KeepsFiles v
    → IsOpened s s' fd f node
    → Closed s (close_at v s' (pos fd) (some f))
unfolding close_at
close_at-Closed v s s' fd f node law o =
    let back : set s'.open_files fd none ≡ s.open_files =
      ap (λ l. set l fd none) o.handed_out ∙ set-set s.open_files fd none (some f) o.was_free in
    elim (Option-cases (release_op v (s'.file f))) [
      | inl e ↦
          rw (close_at, e)
            (closed f _
              (put_back-IsClosed s _ f node back o.frees_none o.inode_is o.count_is o.takes_one))
      | inr (op, e) ↦
          let (t, named) = release_op_is v (s'.file f) op e in
          let x = s'.file f in
          let keeps = law.releases t op named x.f_inode x s'.refs in
          let res = op x.f_inode x s'.refs in
          let self = update_self s'.file f res.0 in
          rw (close_at, e)
            (closed f _ (
              put_back-IsClosed s
                (after_release (record s' { open_files = set s'.open_files fd none }) f res) f node
                back o.frees_none (rw self (keeps.0 ∙ o.inode_is)) (rw self (keeps.1 ∙ o.count_is))
                (λ j. keeps.2 j ∙ o.takes_one j)))
    ]

Opened-Closed :
    (v : Vfs) (S : Type 0) (s s' : Files) (fd : ℕ)
    → KeepsFiles v
    → length s.open_files ≡ max_open_files
    → Opened S s (ok (s', pos fd))
    → Closed s (sys_close v (pos fd) s')
unfolding sys_close
Opened-Closed v S s s' fd law size (opened _ f node _ o) =
    let bound = get_elem?_lt s.open_files fd none o.was_free in
    let get : fd_get s'.open_files (pos fd) ≡ ok (some f) =
      ap (λ l. fd_get l (pos fd)) o.handed_out ∙ stored_file f fd s.open_files bound size in
    rw get (close_at-Closed v s s' fd f node law o)

-- Closing the descriptor that a call of `sys_open` returned succeeds, and leaves the descriptors and all
-- counts as they were before the call; the file is freed, and nothing else.
pub sys_close-sys_open :
    (v : Vfs) (path : List ℕ) (flags mode : ℕ) (memory : Option ℕ) (s s' : Files) (fd : ℕ)
    → KeepsFiles v
    → length s.open_files ≡ max_open_files
    → sys_open v path flags mode memory s ≡ ok (s', pos fd)
    → Closed s (sys_close v (pos fd) s')
sys_close-sys_open v path flags mode memory s s' fd law size e =
    Opened-Closed v (Snag v path mode s.refs) s s' fd law size (
      subst (Opened (Snag v path mode s.refs) s) e
        (sys_open-Opened v path flags mode memory s law size))
