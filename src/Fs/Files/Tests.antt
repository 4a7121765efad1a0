-- ===== src/Fs/Files/Tests.antt =====
-- Files on the directories of Fs/Lookup/Tests: "/a/n" is created, and the operation `open` of it may fail.
use mathlib.Core.Path.{subst}
use mathlib.Core.Option.{some-injective}
use ferrite_c.Common.{
  ℕ, ◌≡◌, refl, List, [], ◌∷◌, Option, none, some, ◌==◌, if◌then◌else◌, ok, arith, replicate,
  update,
}
use ferrite_c.Common.Int.{ℤ, pos, neg}
use ferrite_c.Fs.Refs.{Refs, get_ref}
use ferrite_c.Fs.Lookup.{slash}
use ferrite_c.Fs.Lookup.Tests.{counts, lookup_root, root_user_may}
use ferrite_c.Sys.File.Tests.{first_free, first_file}
use ferrite_c.Fs.Calls.Tests.{tree, tree-KeepsRefs}
use ferrite_c.Fs.Files.{
  File, Files, Vfs, find_target, install, place_file, fill, sys_open, sys_close,
}
use ferrite_c.Fs.Files.Find.{Created, created, KeepsFiles}
use ferrite_c.Fs.Files.Close.{Closed, sys_close-sys_open}

abbrev new_entry : List ℕ → (mode : ℕ) → Refs → Refs × ℤ × Option ℕ
new_entry name mode r = (get_ref 7 r, pos 0, some 7)

-- -ENODEV of a device without a driver.
abbrev no_driver : (node : ℕ) → File → Refs → File × Refs × ℤ
no_driver node x r = (x, r, neg 19)

abbrev vfs : Vfs
vfs = record {
  tree = tree;
  create = λ dir. some new_entry;
  default_file_ops = λ node. if node == 3 then some 5 else none;
  ops = λ t. record { on_open = some no_driver; on_release = none };
}

vfs-KeepsFiles : KeepsFiles vfs
vfs-KeepsFiles = record {
  tree_keeps = tree-KeepsRefs;
  creates = λ dir op e name mode r.
      subst (λ f. Created r (f name mode r)) (some-injective new_entry op e)
        (created 7 _ 0 (λ j. refl));
  opens = λ t op e node x r.
      subst
        (λ f.
          ((f node x r).0.f_inode ≡ x.f_inode)
          × ((f node x r).0.f_count ≡ x.f_count)
          × ((j : ℕ) → (f node x r).1 j ≡ r j))
        (some-injective no_driver op e) (refl, refl, λ j. refl);
  releases = λ t op e. absurd (ground arith);
}

abbrev nothing : File
nothing = record {
  f_inode = none;
  f_op = none;
  f_pos = pos 0;
  f_mode = 0;
  f_flags = 0;
  f_count = 0;
}

abbrev start : Files
start = record { open_files = replicate 64 none; file = λ f. nothing; kfreed = []; refs = counts }

-- "/a/n" and "/b"
abbrev fresh : List ℕ
fresh = slash ∷ b'a' ∷ slash ∷ b'n' ∷ []

abbrev device : List ℕ
device = slash ∷ b'b' ∷ []

-- The state behind the opening of "/".
abbrev after : Files
after = record start {
  open_files = some 0x700 ∷ replicate 63 none;
  file = update start.file 0x700 (record {
    f_inode = some 1;
    f_op = none;
    f_pos = pos 0;
    f_mode = 1;
    f_flags = 0;
    f_count = 1;
  });
  refs = get_ref 1 counts;
}

open_root : sys_open vfs (slash ∷ []) 0 0 (some 0x700) start ≡ ok (after, pos 0)
unfolding sys_open find_target install place_file fill
open_root =
    rw
      (
        lookup_root counts,
        root_user_may 1 4,
        first_free 0x700 (replicate 63 none),
        first_file 0x700 (replicate 63 none),
      )
      refl

sys_close-sys_open_example : Closed start (sys_close vfs (pos 0) after)
sys_close-sys_open_example =
    sys_close-sys_open vfs (slash ∷ []) 0 0 (some 0x700) start after 0 vfs-KeepsFiles refl open_root
