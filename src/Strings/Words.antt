-- ===== src/Strings/Words.antt =====
-- `split` against a definition of the words of a string by recursion on the string.
use mathlib.Core.Path.{subst}
use ferrite_c.Common.{
  ℕ, zero, suc, ◌+◌, ◌-◌, ◌≤◌, ◌<◌, ◌≡◌, inl, inr, refl, Bool, true, false, List, [], ◌∷◌, none,
  some, ltb, leb, ◌==◌, if◌then◌else◌, length, take, drop, arith, Bool-cases, ◌∙◌, sym, ap,
  length-drop,
}
use ferrite_c.Strings.{count_loop, countwords, substr, skip, reach, keep_word, split_loop, split}

-- A word ends where the string does, or at a separator.
abbrev pub ends : (c : ℕ) → List ℕ → Bool
ends c [] = true
ends c (y ∷ ys) = y == c

abbrev pub prepend : (x : ℕ) → List (List ℕ) → List (List ℕ)
prepend x [] = (x ∷ []) ∷ []
prepend x (w ∷ ws) = (x ∷ w) ∷ ws

-- The words of a string: its longest pieces without the separator.
pub words : (c : ℕ) → List ℕ → List (List ℕ)
words c [] = []
words c (x ∷ xs) =
    let rest = words c xs in
    if x == c then rest else if ends c xs then (x ∷ []) ∷ rest else prepend x rest

-- The word at the head of a string that does not start with the separator.
abbrev first_word : (c : ℕ) → List ℕ → List ℕ
first_word c s = take (reach c s) s

words-skip : (c : ℕ) (s : List ℕ) → words c (drop (skip c s) s) ≡ words c s
unfolding words skip
words-skip c [] = refl
words-skip c (x ∷ xs) = elim (Bool-cases (x == c)) [
  | inl e ↦ rw e (words-skip c xs)
  | inr e ↦ rw (e, e) refl
]

words-inside :
    (c x : ℕ) (xs : List ℕ)
    → (x == c) ≡ false
    → ends c xs ≡ false
    → words c (x ∷ xs) ≡ prepend x (words c xs)
unfolding words
words-inside c x xs e f = rw (e, f) refl

reach-other : (c x : ℕ) (xs : List ℕ) → (x == c) ≡ false → reach c (x ∷ xs) ≡ suc (reach c xs)
unfolding reach
reach-other c x xs e = rw e refl

words-reach :
    (c x : ℕ) (xs : List ℕ)
    → (x == c) ≡ false
    → words c (x ∷ xs) ≡ first_word c (x ∷ xs) ∷ words c (drop (reach c (x ∷ xs)) (x ∷ xs))
words-reach c x [] e = rw (reach-other c x [] e) (unfold words reach in rw e refl)
words-reach c x (y ∷ ys) e = elim (Bool-cases (y == c)) [
  | inl f ↦ rw (reach-other c x (y ∷ ys) e) (unfold words reach in rw (e, f, f) refl)
  | inr f ↦
      rw (reach-other c x (y ∷ ys) e)
        (words-inside c x (y ∷ ys) e f ∙ ap (prepend x) (words-reach c y ys f))
]

length-prepend : (x : ℕ) (ws : List (List ℕ)) → 1 ≤ length ws → length (prepend x ws) ≡ length ws
length-prepend x [] h = absurd (omega (arith, h))
length-prepend x (w ∷ ws) h = refl

words_pos : (c : ℕ) (s : List ℕ) → ends c s ≡ false → 1 ≤ length (words c s)
words_pos c [] e = cc
words_pos c (x ∷ xs) e = rw (words-reach c x xs e) (omega arith)

length-words :
    (c x : ℕ) (xs : List ℕ)
    → length (words c (x ∷ xs)) ≡ (
        if x == c
        then length (words c xs)
        else if ends c xs
        then length (words c xs) + 1
        else length (words c xs))
length-words c x xs = elim (Bool-cases (x == c)) [
  | inl e ↦ rw e (unfold words in rw e refl)
  | inr e ↦ elim (Bool-cases (ends c xs)) [
    | inl f ↦ rw (e, f) (unfold words in rw (e, f) (omega arith))
    | inr f ↦
        rw (e, f)
          (ap length (words-inside c x xs e f) ∙ length-prepend x (words c xs) (words_pos c xs f))
  ]
]

-- What `countwords` counts, outside of a word and inside of one.
count_loop-words :
    (c : ℕ) (s : List ℕ) (n : ℕ)
    → (count_loop c false n s ≡ n + length (words c s))
      × (count_loop c true n s + (if ends c s then 0 else 1) ≡ n + length (words c s))
unfolding count_loop
count_loop-words c [] n = unfold words in (omega arith, omega arith)
count_loop-words c (x ∷ xs) n =
    let (a, b) = count_loop-words c xs n in
    let (a1, b1) = count_loop-words c xs (n + 1) in
    let l = length-words c x xs in (ground arith, ground arith)

pub countwords-words : (s : List ℕ) (c : ℕ) → countwords s c ≡ length (words c s)
unfolding countwords
countwords-words s c = (count_loop-words c s 0).0 ∙ omega arith

abbrev pub AllPos : List (List ℕ) → Type 0
AllPos [] = Unit {0}
AllPos (w ∷ ws) = (1 ≤ length w) × AllPos ws

AllPos-prepend : (x : ℕ) (ws : List (List ℕ)) → AllPos ws → AllPos (prepend x ws)
AllPos-prepend x [] h = (omega arith, tt)
AllPos-prepend x (w ∷ ws) (h, hs) = (omega arith, hs)

-- The calls of `kmalloc` from the i-th on, so many, all return memory.
abbrev pub all_can : (count i : ℕ) → (can : ℕ → Bool) → Bool
all_can zero i can = true
all_can (suc k) i can = if can i then all_can k (i + 1) can else false

drop-nil : (m : ℕ) → drop m (let t : List ℕ = [] in t) ≡ []
drop-nil zero = refl
drop-nil (suc m) = refl

drop-drop : (n m : ℕ) (s : List ℕ) → drop (n + m) s ≡ drop m (drop n s)
drop-drop zero m s = let e : 0 + m ≡ m = omega arith in rw e refl
drop-drop (suc n) m [] = let e : suc n + m ≡ suc (n + m) = omega arith in rw e (sym (drop-nil m))
drop-drop (suc n) m (x ∷ xs) =
    let e : suc n + m ≡ suc (n + m) = omega arith in rw e (drop-drop n m xs)

-- What stands behind the separators: nothing, or a byte that is not one.
pub data AtWord (c : ℕ) : List ℕ → Type 0 where
  at_end : AtWord c []
  at_word : (x : ℕ) (xs : List ℕ) → (x == c) ≡ false → AtWord c (x ∷ xs)

drop-AtWord : (c : ℕ) (s : List ℕ) → AtWord c (drop (skip c s) s)
unfolding skip
drop-AtWord c [] = at_end
drop-AtWord c (x ∷ xs) = elim (Bool-cases (x == c)) [
  | inl e ↦ rw e (drop-AtWord c xs)
  | inr e ↦ rw e (at_word x xs e)
]

reach-le : (c : ℕ) (s : List ℕ) → reach c s ≤ length s
unfolding reach
reach-le c [] = omega arith
reach-le c (x ∷ xs) = ground (arith, reach-le c xs)

substr-inside :
    (can : Bool) (s : List ℕ) (start len : ℕ)
    → start < length s
    → len ≤ length s - start
    → substr can s start len ≡ (if can then some (take len (drop start s)) else none)
unfolding substr
substr-inside can s start len a b =
    let e : leb (length s) start ≡ false = ground arith in
    let f : ltb (length s - start) len ≡ false = ground arith in rw (e, f) refl

both_words :
    (can rest : Bool) (w : List ℕ) (ws : List (List ℕ))
    → keep_word (if can then some w else none) (if rest then some ws else none)
      ≡ (if (if can then rest else false) then some (w ∷ ws) else none)
unfolding keep_word
both_words can rest w ws = ground arith

-- What a round of the loop comes to, where the rest of the string at the pointer is t.
round_lem :
    (k i : ℕ) (can : ℕ → Bool) (s : List ℕ) (c start : ℕ) (t : List ℕ)
    → AtWord c t
    → drop start s ≡ t
    → length (words c t) ≡ suc k
    → ((p : ℕ)
        → length (words c (drop p s)) ≡ k
        → split_loop k (i + 1) can s c p
          ≡ (if all_can k (i + 1) can then some (words c (drop p s)) else none))
    → keep_word
        (substr (can i) s start (reach c t))
        (split_loop k (i + 1) can s c (start + reach c t))
      ≡ (if all_can (suc k) i can then some (words c t) else none)
round_lem k i can s c start t at_end e n ih = absurd (unfold words in (omega (arith, n)))
round_lem k i can s c start t (at_word x xs other) e n ih =
    let l = ap length e in
    let d = length-drop start s in
    let t' : List ℕ = x ∷ xs in
    let behind : drop (start + reach c t') s ≡ drop (reach c t') t' =
      drop-drop start (reach c t') s ∙ ap (drop (reach c t')) e in
    let w = words-reach c x xs other in
    let sub =
      substr-inside (can i) s start (reach c t') (omega (arith, l, d))
        (omega (arith, l, d, reach-le c t')) in
    let rest =
      ih (start + reach c t')
        (ap (λ (u : List ℕ). length (words c u)) behind ∙ omega (arith, n, ap length w)) in
    rw (sub, rest, e, behind, w)
      (both_words (can i) (all_can k (i + 1) can) (first_word c t')
        (words c (drop (reach c t') t')))

no_words : (ws : List (List ℕ)) → length ws ≡ 0 → ws ≡ []
no_words [] e = refl
no_words (w ∷ ws) e = absurd (omega (arith, e))

-- From the pointer on, the loop makes the words of the rest of the string.
split_loop-words :
    (k i : ℕ) (can : ℕ → Bool) (s : List ℕ) (c pos : ℕ)
    → length (words c (drop pos s)) ≡ k
    → split_loop k i can s c pos ≡ (if all_can k i can then some (words c (drop pos s)) else none)
unfolding split_loop
split_loop-words zero i can s c pos e = ap some (sym (no_words (words c (drop pos s)) e))
split_loop-words (suc k) i can s c pos e =
    let t = drop pos s in
    let start = pos + skip c t in
    let here = drop-drop pos (skip c t) s in
    let same : words c (drop start s) ≡ words c t = ap (words c) here ∙ words-skip c t in
    round_lem k i can s c start (drop start s) (subst (AtWord c) (sym here) (drop-AtWord c t)) refl
      (ap length same ∙ e) (λ p h. split_loop-words k (i + 1) can s c p h)
    ∙ ap (λ (ws : List (List ℕ)). if all_can (suc k) i can then some ws else none) same

-- Where every call of `kmalloc` returns memory, `split` returns the words of the string, in order, as many
-- as `countwords` made room for; where one does not, it returns NULL.
pub split-words :
    (can : ℕ → Bool) (s : List ℕ) (c : ℕ)
    → split can s c ≡ (if all_can (suc (length (words c s))) 0 can then some (words c s) else none)
unfolding split
split-words can s c = elim (Bool-cases (can 0)) [
  | inl e ↦ rw (e, countwords-words s c) (split_loop-words (length (words c s)) 1 can s c 0 refl)
  | inr e ↦ rw e refl
]

-- No word of a string is empty.
pub words-nonempty : (c : ℕ) (s : List ℕ) → AllPos (words c s)
unfolding words
words-nonempty c [] = tt
words-nonempty c (x ∷ xs) = elim (Bool-cases (x == c)) [
  | inl e ↦ rw e (words-nonempty c xs)
  | inr e ↦ elim (Bool-cases (ends c xs)) [
    | inl f ↦ rw (e, f) (omega arith, words-nonempty c xs)
    | inr f ↦ rw (e, f) (AllPos-prepend x (words c xs) (words-nonempty c xs))
  ]
]
