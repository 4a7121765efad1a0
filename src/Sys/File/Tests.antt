-- ===== src/Sys/File/Tests.antt =====
-- file.c on an array whose entries 0 and 2 are in use.
use ferrite_c.Common.{ℕ, ◌≡◌, refl, List, ◌∷◌, Option, none, some, replicate, ok}
use ferrite_c.Common.Int.{pos}
use ferrite_c.Sys.File.{fd_alloc, fd_get, free_fd}

abbrev files : List (Option ℕ)
files = some 0x500 ∷ none ∷ some 0x600 ∷ replicate 61 none

pub first_free :
    (f : ℕ) (fs : List (Option ℕ)) → fd_alloc (some f) (none ∷ fs) ≡ (some f ∷ fs, pos 0)
unfolding fd_alloc free_fd
first_free f fs = refl

pub first_file : (f : ℕ) (fs : List (Option ℕ)) → fd_get (some f ∷ fs) (pos 0) ≡ ok (some f)
unfolding fd_get
first_file f fs = refl
