-- ===== src/Sys/File/Table.antt =====
-- Descriptors that are handed out and looked up.
use ferrite_c.Common.{
  ℕ, zero, suc, ◌<◌, ◌≤◌, ◌≡◌, ◌≢◌, refl, true, false, List, [], ◌∷◌, Option, none, some, ltb, set,
  get_elem?, ok, fault, arith, length, get_elem?-set_self, get_elem?-set_ne, get_elem?_lt,
  get_elem?_total, sym, Option-cases, inl, inr,
}
use ferrite_c.Common.Int.{ℤ, pos, negsuc, neg}
use ferrite_c.Sys.File.{free_fd, fd_alloc, fd_get, max_open_files}

-- The lowest free descriptor, where there is one.
pub data Lowest (fs : List (Option ℕ)) : Option ℕ → Type 0 where
  full : ((j : ℕ) → get_elem? fs j ≢ some none) → Lowest fs none
  lowest :
      (i : ℕ)
      → get_elem? fs i ≡ some none
      → ((j : ℕ) → j < i → get_elem? fs j ≢ some none)
      → Lowest fs (some i)

used_behind :
    (f : ℕ) (fs : List (Option ℕ))
    → ((j : ℕ) → get_elem? fs j ≢ some none)
    → (j : ℕ) → get_elem? (some f ∷ fs) j ≢ some none
used_behind f fs h zero = λ e. ground arith
used_behind f fs h (suc j) = h j

used_below :
    (f : ℕ) (fs : List (Option ℕ)) (i : ℕ)
    → ((j : ℕ) → j < i → get_elem? fs j ≢ some none)
    → (j : ℕ) → j < suc i
    → get_elem? (some f ∷ fs) j ≢ some none
used_below f fs i h zero k = λ e. ground arith
used_below f fs i h (suc j) k = h j (omega arith)

Lowest-behind :
    (f : ℕ) (fs : List (Option ℕ)) (r : Option ℕ)
    → Lowest fs r
    → Lowest (some f ∷ fs) (elim r [ none ↦ none | some i ↦ some (suc i) ])
Lowest-behind f fs none (full h) = full (used_behind f fs h)
Lowest-behind f fs (some r) (lowest i free used) = lowest (suc i) free (used_below f fs i used)

pub free_fd-Lowest : (fs : List (Option ℕ)) → Lowest fs (free_fd fs)
unfolding free_fd
free_fd-Lowest [] = full (λ j e. ground arith)
free_fd-Lowest (none ∷ fs) = lowest 0 refl (λ j k. absurd (omega arith))
free_fd-Lowest (some f ∷ fs) = Lowest-behind f fs (free_fd fs) (free_fd-Lowest fs)

-- What a call of `fd_alloc` with memory for the file does.
pub data Opened (f : ℕ) (fs : List (Option ℕ)) : List (Option ℕ) × ℤ → Type 0 where
  too_many : ((j : ℕ) → get_elem? fs j ≢ some none) → Opened f fs (fs, neg 1)
  opened :
      (fs' : List (Option ℕ)) (i : ℕ)
      → get_elem? fs i ≡ some none
      → ((j : ℕ) → j < i → get_elem? fs j ≢ some none)
      → fd_get fs' (pos i) ≡ ok (some f)
      → ((j : ℕ) → j ≢ i → fd_get fs' (pos j) ≡ fd_get fs (pos j))
      → Opened f fs (fs', pos i)

pub stored_file :
    (f i : ℕ) (fs : List (Option ℕ))
    → i < length fs
    → length fs ≡ max_open_files
    → fd_get (set fs i (some f)) (pos i) ≡ ok (some f)
unfolding fd_get
stored_file f i fs h size =
    rw
      (
        (let e : ltb max_open_files i ≡ false = ground arith in e),
        get_elem?-set_self fs i (some f) h,
      )
      refl

other_files :
    (f i j : ℕ) (fs : List (Option ℕ))
    → j ≢ i
    → fd_get (set fs i (some f)) (pos j) ≡ fd_get fs (pos j)
unfolding fd_get
other_files f i j fs ne = rw (get_elem?-set_ne fs i j (some f) (λ e. ne (sym e))) refl

Lowest-Opened :
    (f : ℕ) (fs : List (Option ℕ)) (r : Option ℕ)
    → length fs ≡ max_open_files
    → Lowest fs r
    → Opened f fs (elim r [ none ↦ (fs, neg 1) | some i ↦ (set fs i (some f), pos i) ])
Lowest-Opened f fs none size (full h) = too_many h
Lowest-Opened f fs (some r) size (lowest i free used) =
    opened (set fs i (some f)) i free used (stored_file f i fs (get_elem?_lt fs i none free) size)
      (λ j ne. other_files f i j fs ne)

-- `fd_alloc`, where there is memory for the file: it returns -1 and changes nothing exactly where every
-- entry is in use; otherwise it returns the lowest free descriptor, `fd_get` of it is the new file, and
-- `fd_get` of every other descriptor is what it was.
pub fd_alloc-Opened :
    (f : ℕ) (fs : List (Option ℕ)) → length fs ≡ max_open_files → Opened f fs (fd_alloc (some f) fs)
unfolding fd_alloc
fd_alloc-Opened f fs size = Lowest-Opened f fs (free_fd fs) size (free_fd-Lowest fs)

behind : (fs : List (Option ℕ)) (n : ℕ) → length fs ≤ n → get_elem? fs n ≡ none
behind fs n h = elim (Option-cases (get_elem? fs n)) [
  | inl e ↦ e
  | inr (f, e) ↦ absurd (omega (arith, get_elem?_lt fs n f e))
]

-- `fd_get` of every descriptor below MAX_OPEN_FILES is the entry of the array, and of every one above it
-- NULL; of MAX_OPEN_FILES itself it reads behind the array.
pub fd_get_bounds :
    (fs : List (Option ℕ)) (n : ℕ)
    → length fs ≡ max_open_files
    → (n < max_open_files → (f : Option ℕ) × (fd_get fs (pos n) ≡ ok f) × (get_elem? fs n ≡ some f))
      × (max_open_files < n → fd_get fs (pos n) ≡ ok none)
      × (n ≡ max_open_files → fd_get fs (pos n) ≡ fault)
unfolding fd_get
fd_get_bounds fs n size = (
  (λ h.
      let (f, e) = get_elem?_total fs n (omega (arith, h, size)) in
      let l : ltb max_open_files n ≡ false = ground arith in (f, rw (l, e) refl, e)),
  (λ h. let l : ltb max_open_files n ≡ true = ground arith in rw l refl),
  (λ h.
      let l : ltb max_open_files n ≡ false = ground arith in
      rw (l, behind fs n (omega (arith, h, size))) refl),
)

-- The descriptors that `fd_alloc` leaves.
pub data Slot (fs : List (Option ℕ)) : List (Option ℕ) × ℤ → Type 0 where
  no_slot : (n : ℕ) → Slot fs (fs, negsuc n)
  slot :
      (fd f : ℕ)
      → get_elem? fs fd ≡ some none
      → fd_get (set fs fd (some f)) (pos fd) ≡ ok (some f)
      → Slot fs (set fs fd (some f), pos fd)

pub fd_alloc-Slot :
    (memory : Option ℕ) (fs : List (Option ℕ))
    → length fs ≡ max_open_files
    → Slot fs (fd_alloc memory fs)
unfolding fd_alloc
fd_alloc-Slot memory fs size = place_in memory (free_fd fs) (free_fd-Lowest fs)
  where
    place_in :
        (memory r : Option ℕ)
        → Lowest fs r
        → Slot fs (elim r [
          | none ↦ (fs, neg 1)
          | some i ↦ elim memory [ none ↦ (fs, neg 12) | some f ↦ (set fs i (some f), pos i) ]
        ])
    place_in memory none (full h) = no_slot 0
    place_in none (some i) (lowest _ free used) = no_slot 11
    place_in (some f) (some i) (lowest _ free used) =
        slot i f free (stored_file f i fs (get_elem?_lt fs i none free) size)
