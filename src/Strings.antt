-- ===== src/Strings.antt =====
-- kernel/src/arch/x86/lib/string: the functions on C strings.
--
-- A string is the list of its bytes before the NUL, and a pointer into it the number of bytes before the
-- pointer. `can` says of the calls of `kmalloc`, which are counted, whether they return memory.
pub mod Words
mod Tests
use ferrite_c.Common.{
  ℕ, zero, suc, ◌+◌, ◌-◌, Bool, true, false, List, [], ◌∷◌, Option, none, some, ltb, leb, ◌==◌,
  if◌then◌else◌, length, take, drop,
}

-- The loop of `countwords`; the state says whether the byte before belongs to a word.
pub count_loop : (c : ℕ) → (state : Bool) → (counter : ℕ) → List ℕ → ℕ
count_loop c state counter [] = counter
count_loop c state counter (x ∷ xs) =
    count_loop c (if x == c then false else true)
      (if x == c then counter else if state then counter else counter + 1) xs

pub countwords : List ℕ → (c : ℕ) → ℕ
unfolding count_loop
countwords s c = count_loop c false 0 s

pub substr : (can : Bool) → (s : List ℕ) → (start len : ℕ) → Option (List ℕ)
substr can s start len =
    if leb (length s) start
    then (if can then some [] else none)
    else (let n = if ltb (length s - start) len then length s - start else len in
        if can then some (take n (drop start s)) else none)

-- The two inner loops of `split`: how many separators stand at the pointer, and how many other bytes.
pub skip : (c : ℕ) → List ℕ → ℕ
skip c [] = 0
skip c (x ∷ xs) = if x == c then suc (skip c xs) else 0

pub reach : (c : ℕ) → List ℕ → ℕ
reach c [] = 0
reach c (x ∷ xs) = if x == c then 0 else suc (reach c xs)

-- The word w, in front of those that follow; `none` is a call of `substr` that failed.
pub keep_word : Option (List ℕ) → Option (List (List ℕ)) → Option (List (List ℕ))
keep_word none rest = none
keep_word (some w) none = none
keep_word (some w) (some ws) = some (w ∷ ws)

-- The loop over the words, from the i-th on.
pub split_loop :
    (count i : ℕ) → (can : ℕ → Bool) → (s : List ℕ) → (c pos : ℕ) → Option (List (List ℕ))
split_loop zero i can s c pos = some []
split_loop (suc k) i can s c pos =
    let start = pos + skip c (drop pos s) in
    let len = reach c (drop start s) in
    keep_word (substr (can i) s start len) (split_loop k (i + 1) can s c (start + len))

pub split : (can : ℕ → Bool) → (s : List ℕ) → (c : ℕ) → Option (List (List ℕ))
split can s c = if can 0 then split_loop (countwords s c) 1 can s c 0 else none
