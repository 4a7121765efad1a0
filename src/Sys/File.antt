-- ===== src/Sys/File.antt =====
-- kernel/src/sys/file/file.c: the open files of the calling process.
--
-- `open_files` is the list of the MAX_OPEN_FILES = 64 entries, `none` where the entry is NULL; a file is
-- named by its address. The caller is a process: `myproc()` is not NULL.
pub mod Table
pub mod Tests
use ferrite_c.Common.{
  ℕ, zero, suc, List, [], ◌∷◌, Option, none, some, ltb, if◌then◌else◌, set, get_elem?, Run, ok,
  fault,
}
use ferrite_c.Common.Int.{ℤ, pos, negsuc, neg}

abbrev pub max_open_files : ℕ
max_open_files = 64

-- The index at which the loop of `fd_alloc` stops.
pub free_fd : List (Option ℕ) → Option ℕ
free_fd [] = none
free_fd (none ∷ fs) = some 0
free_fd (some f ∷ fs) = elim (free_fd fs) [ none ↦ none | some i ↦ some (suc i) ]

-- `memory` is what `kmalloc` returns.
pub fd_alloc : (memory : Option ℕ) → List (Option ℕ) → List (Option ℕ) × ℤ
unfolding free_fd
fd_alloc memory fs = elim (free_fd fs) [
  | none ↦ (fs, neg 1)
  | some i ↦ elim memory [ none ↦ (fs, neg 12) | some f ↦ (set fs i (some f), pos i) ]
]

-- An index behind the array is a read outside of it.
pub fd_get : List (Option ℕ) → (fd : ℤ) → Run (Option ℕ)
fd_get fs (negsuc n) = ok none
fd_get fs (pos n) =
    if ltb max_open_files n then ok none else elim (get_elem? fs n) [ none ↦ fault | some f ↦ ok f ]
