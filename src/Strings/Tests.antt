-- ===== src/Strings/Tests.antt =====
-- `split` on a path.
use ferrite_c.Common.{
  ℕ, suc, ◌≡◌, refl, true, List, [], ◌∷◌, some, none, length, if◌then◌else◌, ltb,
}
use ferrite_c.Strings.{split, countwords, count_loop, substr, skip, reach, keep_word, split_loop}
use ferrite_c.Strings.Words.{words, all_can, split-words}

-- "a//bc/"
abbrev path : List ℕ
path = b'a' ∷ b'/' ∷ b'/' ∷ b'b' ∷ b'c' ∷ b'/' ∷ []

split-words_example : split (λ i. true) path b'/' ≡ (
    if all_can (suc (length (words b'/' path))) 0 (λ i. true) then some (words b'/' path) else none)
split-words_example = split-words (λ i. true) path b'/'

split_is : split (λ i. true) path b'/' ≡ some ((b'a' ∷ []) ∷ (b'b' ∷ b'c' ∷ []) ∷ [])
unfolding split countwords count_loop substr skip reach keep_word split_loop
split_is = refl

-- The third call of kmalloc fails.
split_fails : split (λ i. ltb i 2) path b'/' ≡ none
unfolding split countwords count_loop substr skip reach keep_word split_loop
split_fails = refl
