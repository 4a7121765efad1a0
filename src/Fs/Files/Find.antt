-- ===== src/Fs/Files/Find.antt =====
-- What `sys_open` finds or creates, and the references that it holds then.
use ferrite_c.Common.{
  false, ℕ, ◌+◌, ◌%◌, ◌≡◌, inl, inr, refl, not, ◌&&◌, List, [], ◌∷◌, Option, none, some, ◌==◌,
  if◌then◌else◌, Run, ok, fault, panic, out_of_fuel, ◌>>=◌, arith, Bool-cases, Option-cases, ◌∙◌,
}
use ferrite_c.Common.Int.{ℤ, pos, negsuc}
use ferrite_c.Fs.Refs.{Refs, get_ref, Holding, put_ref-Holding}
use ferrite_c.Fs.Lookup.{may, may_read, may_write, last_slash, vfs_lookup}
use ferrite_c.Fs.Lookup.Balance.{Found, found, not_found, stuck, Null, vfs_lookup-Found}
use ferrite_c.Fs.Calls.{parent_path}
use ferrite_c.Fs.Calls.Keep.{KeepsRefs}
use ferrite_c.Fs.Files.{
  File, Vfs, Target, target, denied, accmode, has_flag, o_creat, o_excl, o_trunc, wants_read,
  wants_write, created_in, create_in, truncated, find_target,
}

-- What `create` does with the counts: it takes a reference of the new inode. It may return no error and
-- no inode.
pub data Created (r : Refs) : Refs × ℤ × Option ℕ → Type 0 where
  created :
      (node : ℕ) (r' : Refs) (n : ℕ)
      → ((j : ℕ) → r' j ≡ get_ref node r j)
      → Created r (r', pos n, some node)
  uncreated :
      (r' : Refs) (n : ℕ) (node : Option ℕ)
      → ((j : ℕ) → r' j ≡ r j)
      → Created r (r', negsuc n, node)
  lost : (r' : Refs) (n : ℕ) → ((j : ℕ) → r' j ≡ r j) → Created r (r', pos n, none)

-- What the operations do with the counts, and with the inode and the count of the file.
pub record KeepsFiles (v : Vfs) : Type 0 where
  pub tree_keeps : KeepsRefs v.tree
  pub creates :
      (dir : ℕ) (op : List ℕ → ℕ → Refs → Refs × ℤ × Option ℕ)
      → v.create dir ≡ some op
      → (name : List ℕ) (mode : ℕ) (r : Refs) → Created r (op name mode r)
  pub opens :
      (t : ℕ) (op : ℕ → File → Refs → File × Refs × ℤ)
      → (v.ops t).on_open ≡ some op
      → (node : ℕ) (x : File) (r : Refs)
      → ((op node x r).0.f_inode ≡ x.f_inode)
        × ((op node x r).0.f_count ≡ x.f_count)
        × ((j : ℕ) → (op node x r).1 j ≡ r j)
  pub releases :
      (t : ℕ) (op : Option ℕ → File → Refs → File × Refs)
      → (v.ops t).on_release ≡ some op
      → (node : Option ℕ) (x : File) (r : Refs)
      → ((op node x r).0.f_inode ≡ x.f_inode)
        × ((op node x r).0.f_count ≡ x.f_count)
        × ((j : ℕ) → (op node x r).1 j ≡ r j)

-- What `sys_open` has found where it calls `create`: not the path, but the directory before its last slash.
pub data Beside (v : Vfs) (path : List ℕ) (base : Refs) (dir : ℕ) (name : List ℕ) (r : Refs)
    : Type 0 where
  beside :
      (front : List ℕ) (r0 : Refs)
      → vfs_lookup v.tree.space path base ≡ ok (r0, none)
      → last_slash path ≡ some (front, name)
      → vfs_lookup v.tree.space (parent_path front) r0 ≡ ok (r, some dir)
      → Beside v path base dir name r

-- S_IFREG | (mode & 0777)
abbrev pub file_mode : (mode : ℕ) → ℕ
file_mode mode = 0o100000 + mode % 0o1000

-- The inode of the path, or that which `create` returned.
pub data Reached (v : Vfs) (path : List ℕ) (mode : ℕ) (base : Refs) (node : ℕ) : Type 0 where
  looked_up :
      (r : Refs)
      → vfs_lookup v.tree.space path base ≡ ok (r, some node)
      → Reached v path mode base node
  made :
      (dir : ℕ) (name : List ℕ) (op : List ℕ → ℕ → Refs → Refs × ℤ × Option ℕ) (r r' : Refs) (n : ℕ)
      → Beside v path base dir name r
      → v.create dir ≡ some op
      → op name (file_mode mode) r ≡ (r', pos n, some node)
      → Reached v path mode base node

-- Why a call goes through NULL: in the lookup of the path or of the directory before its last slash, at that
-- directory without `create`, where its `create` returns no error and no inode, or at the inode of the path,
-- found or new, without `i_op`.
pub data Snag (v : Vfs) (path : List ℕ) (mode : ℕ) (base : Refs) : Type 0 where
  in_path : Null v.tree.space path → Snag v path mode base
  in_front :
      (front name : List ℕ)
      → last_slash path ≡ some (front, name)
      → Null v.tree.space (parent_path front)
      → Snag v path mode base
  no_create :
      (dir : ℕ) (name : List ℕ) (r : Refs)
      → Beside v path base dir name r
      → v.create dir ≡ none
      → Snag v path mode base
  null_node :
      (dir : ℕ) (name : List ℕ) (op : List ℕ → ℕ → Refs → Refs × ℤ × Option ℕ) (r r' : Refs) (n : ℕ)
      → Beside v path base dir name r
      → v.create dir ≡ some op
      → op name (file_mode mode) r ≡ (r', pos n, none)
      → Snag v path mode base
  no_i_op :
      (node : ℕ)
      → Reached v path mode base node
      → v.tree.has_i_op node ≡ false
      → Snag v path mode base

-- R is what is known of the inode, N why NULL is read.
pub data Targeted (R : ℕ → Type 0) (N : Type 0) (base : Refs) : Run (Refs × Target) → Type 0 where
  at_node :
      (node : ℕ) (r : Refs)
      → R node
      → Holding base (node ∷ []) r
      → Targeted R N base (ok (r, target (some node)))
  at_null : (r : Refs) → Holding base [] r → N → Targeted R N base (ok (r, target none))
  no_target : (n : ℕ) (r : Refs) → Holding base [] r → Targeted R N base (ok (r, denied (negsuc n)))
  snag_target : N → Targeted R N base fault

created_in-Targeted :
    (R : ℕ → Type 0) (N : Type 0) (base r : Refs) (dir : ℕ) (res : Refs × ℤ × Option ℕ)
    → ((r' : Refs) (n : ℕ) → res ≡ (r', pos n, none) → N)
    → ((r' : Refs) (n node : ℕ) → res ≡ (r', pos n, some node) → R node)
    → Holding base (dir ∷ []) r
    → Created r res
    → Targeted R N base (ok (created_in dir res))
unfolding created_in
created_in-Targeted R N base r dir (r', pos n, some node) null got h (created _ _ _ e) =
    at_node node _ (got r' n node refl) (
      put_ref-Holding base (node ∷ []) r' dir
        (λ j. let t = e j in let k = h j in let k' = h node in ground arith))
created_in-Targeted R N base r dir (r', negsuc n, _) null got h (uncreated _ _ _ e) =
    no_target n _ (put_ref-Holding base [] r' dir (λ j. e j ∙ h j))
created_in-Targeted R N base r dir (r', pos n, none) null got h (lost _ _ e) =
    at_null _ (put_ref-Holding base [] r' dir (λ j. e j ∙ h j)) (null r' n refl)

create_in-Targeted :
    (v : Vfs) (path front : List ℕ) (start base : Refs) (name : List ℕ) (mode : ℕ)
    (run : Run (Refs × Option ℕ))
    → KeepsFiles v
    → vfs_lookup v.tree.space path start ≡ ok (base, none)
    → last_slash path ≡ some (front, name)
    → vfs_lookup v.tree.space (parent_path front) base ≡ run
    → Found (Null v.tree.space (parent_path front)) base run
    → Targeted
        (Reached v path mode start)
        (Snag v path mode start)
        base
        (run >>= create_in v name mode)
unfolding create_in
create_in-Targeted v path front start base name mode (ok (r, none)) law p q at (not_found _ h) =
    no_target 1 r h
create_in-Targeted v path front start base name mode (ok (r, some dir)) law p q at (found _ _ h) =
    let by : Beside v path start dir name r = beside front base p q at in
    elim (Bool-cases (may v.tree.space dir 3)) [
      | inr m ↦ rw m (no_target 0 _ (put_ref-Holding base [] r dir h))
      | inl m ↦ elim (Option-cases (v.create dir)) [
        | inl e ↦ rw (m, e) (snag_target (no_create dir name r by e))
        | inr (op, e) ↦
            rw (m, e)
              (created_in-Targeted (Reached v path mode start) (Snag v path mode start) base r dir
                (op name (0o100000 + mode % 0o1000) r)
                (λ r' n k. null_node dir name op r r' n by e k)
                (λ r' n node k. made dir name op r r' n by e k) h
                (law.creates dir op e name (0o100000 + mode % 0o1000) r))
      ]
    ]
create_in-Targeted v path front start base name mode fault law p q at (stuck n) =
    snag_target (in_front front name q n)
create_in-Targeted v path front start base name mode panic law p q at x = elim x [ ]
create_in-Targeted v path front start base name mode out_of_fuel law p q at x = elim x [ ]

rebase-Targeted :
    {R : ℕ → Type 0} {N : Type 0}
    → (base r : Refs) (run : Run (Refs × Target)) → Holding base [] r
    → Targeted R N r run
    → Targeted R N base run
rebase-Targeted base r (ok (r', target (some i))) h (at_node _ _ y k) =
    at_node i r' y (λ j. omega (arith, h j, k j))
rebase-Targeted base r (ok (r', target none)) h (at_null _ k s) =
    at_null r' (λ j. omega (arith, h j, k j)) s
rebase-Targeted base r (ok (r', denied (negsuc n))) h (no_target _ _ k) =
    no_target n r' (λ j. omega (arith, h j, k j))
rebase-Targeted base r (ok (r', denied (pos n))) h x = elim x [ ]
rebase-Targeted base r fault h (snag_target s) = snag_target s
rebase-Targeted base r panic h x = elim x [ ]
rebase-Targeted base r out_of_fuel h x = elim x [ ]

truncated-Targeted :
    {R : ℕ → Type 0} {N : Type 0}
    → (base r : Refs) (node : ℕ) (res : Refs × ℤ) → R node
    → Holding base (node ∷ []) r
    → ((j : ℕ) → res.0 j ≡ r j)
    → Targeted R N base (ok (truncated node res))
truncated-Targeted base r node (r', pos n) y h e = at_node node r' y (λ j. e j ∙ h j)
truncated-Targeted base r node (r', negsuc n) y h e =
    no_target n _ (put_ref-Holding base [] r' node (λ j. e j ∙ h j))

pub find_target-Targeted :
    (v : Vfs) (path : List ℕ) (flags mode : ℕ) (base : Refs) (run : Run (Refs × Option ℕ))
    → KeepsFiles v
    → vfs_lookup v.tree.space path base ≡ run
    → Found (Null v.tree.space path) base run
    → Targeted
        (Reached v path mode base)
        (Snag v path mode base)
        base
        (run >>= find_target v path flags mode)
unfolding find_target
find_target-Targeted v path flags mode base (ok (r, none)) law at (not_found _ h) =
    elim (Bool-cases (has_flag flags o_creat)) [
      | inr c ↦ rw c (no_target 1 r h)
      | inl c ↦ elim (Option-cases (last_slash path)) [
        | inl e ↦ rw (c, e) (no_target 1 r h)
        | inr ((front, name), e) ↦
            rw (c, e)
              (rebase-Targeted base r
                (vfs_lookup v.tree.space (parent_path front) r >>= create_in v name mode) h
                (create_in-Targeted v path front base r name mode
                  (vfs_lookup v.tree.space (parent_path front) r) law at e refl
                  (vfs_lookup-Found v.tree.space (parent_path front) r law.tree_keeps.lookups)))
      ]
    ]
find_target-Targeted v path flags mode base (ok (r, some node)) law at (found _ _ h) =
    let put = put_ref-Holding base [] r node h in
    let here : Reached v path mode base node = looked_up r at in
    let mask =
      (if wants_read flags then may_read else 0) + (if wants_write flags then may_write else 0) in
    elim (Bool-cases (has_flag flags o_creat && has_flag flags o_excl)) [
      | inl c ↦ rw c (no_target 16 _ put)
      | inr c ↦ elim (Bool-cases (may v.tree.space node mask)) [
        | inr m ↦ rw (c, m) (no_target 0 _ put)
        | inl m ↦ elim (Bool-cases (has_flag flags o_trunc && not (accmode flags == 0))) [
          | inr t ↦ rw (c, m, t) (at_node node r here h)
          | inl t ↦ elim (Bool-cases (v.tree.has_i_op node)) [
            | inr g ↦ rw (c, m, t, g) (snag_target (no_i_op node here g))
            | inl g ↦ elim (Option-cases (v.tree.truncate node)) [
              | inl e ↦ rw (c, m, t, g, e) (at_node node r here h)
              | inr (op, e) ↦
                  rw (c, m, t, g, e)
                    (truncated-Targeted base r node (op node (pos 0) r) here h
                      (law.tree_keeps.truncates node op e node (pos 0) r))
            ]
          ]
        ]
      ]
    ]
find_target-Targeted v path flags mode base fault law at (stuck n) = snag_target (in_path n)
find_target-Targeted v path flags mode base panic law at x = elim x [ ]
find_target-Targeted v path flags mode base out_of_fuel law at x = elim x [ ]
