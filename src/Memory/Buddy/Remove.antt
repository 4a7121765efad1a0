-- ===== src/Memory/Buddy/Remove.antt =====
-- `remove_from_free_list`: a named block is taken off its list, wherever it stands there.
use mathlib.Core.Bool.{false≢true}
use native.Mathlib.Decide.{dec_lt}
use ferrite_c.Common.{
  ℕ, zero, suc, ◌+◌, ◌≤◌, ◌<◌, ◌≡◌, ◌≢◌, refl, Bool, true, false, List, [], ◌∷◌, inl, inr, ◌==◌,
  if◌then◌else◌, update, has, length, Run, ok, fault, ◌>>=◌, arith, Bool-cases, List-cases, le→ltb,
  ==_iff, sym, ap, ◌∙◌,
}
use ferrite_c.Memory.Buddy.{Buddy, remove_loop, remove_from_free_list}
use ferrite_c.Memory.Buddy.Blocks.{
  Chain, Chain-update, hit, hits, cover, hit_self, has-hits, hits-le-cover,
}
use ferrite_c.Memory.Buddy.Invariant.{Owns, SameArea, Owns-take, cover-take}

-- The list without the first occurrence of t.
unfoldable pub erase : ℕ → List ℕ → List ℕ
erase t [] = []
erase t (x ∷ xs) = if x == t then xs else x ∷ erase t xs

-- No address is covered twice by the list: its blocks are distinct.
abbrev pub Single : ℕ → List ℕ → Type 0
Single k xs = (x : ℕ) → hits k xs x ≤ 1

Single-tail : (k x : ℕ) (xs : List ℕ) → Single k (x ∷ xs) → Single k xs
unfolding hits
Single-tail k x xs s = λ y. omega (arith, s y)

Single-head : (k x : ℕ) (xs : List ℕ) → Single k (x ∷ xs) → has x xs ≡ false
unfolding hits
Single-head k x xs s = elim (Bool-cases (has x xs)) [
  | inr e ↦ e
  | inl e ↦ absurd (omega (arith, s x, hit_self x k, has-hits k xs x e))
]

pub hits-erase :
    (k t : ℕ) (xs : List ℕ) (x : ℕ)
    → has t xs ≡ true
    → hits k xs x ≡ hit t k x + hits k (erase t xs) x
unfolding hits erase
hits-erase k t [] x h = absurd (ground arith)
hits-erase k t (y ∷ xs) x h = elim (Bool-cases (y == t)) [
  | inl e ↦ let e' : y ≡ t = ground arith in rw e (rw e' refl)
  | inr e ↦ rw e (omega (arith, hits-erase k t xs x (rw e at h)))
]

pub has-erase : (t a : ℕ) (xs : List ℕ) → has a (erase t xs) ≡ true → has a xs ≡ true
unfolding erase
has-erase t a [] h = h
has-erase t a (y ∷ xs) h = ground (arith, has-erase t a xs)

-- The outcome of the walk over the list `prev ∷ xs` for `target`: found and unlinked by one write to
-- a node of the list, or absent and nothing written.
data IsRemoved (next : ℕ → ℕ) (target prev : ℕ) (xs : List ℕ) : Run (Bool × (ℕ → ℕ)) → Type 0 where
  found :
      (a w : ℕ)
      → has target xs ≡ true
      → has a (prev ∷ xs) ≡ true
      → Chain (update next a w) (update next a w prev) (erase target xs)
      → IsRemoved next target prev xs (ok (true, update next a w))
  absent : has target xs ≡ false → IsRemoved next target prev xs (ok (false, next))

-- One round of the walk, at the node y behind prev.
module _ (next : ℕ → ℕ) (target prev y : ℕ) (ys : List ℕ) (out : has prev (y ∷ ys) ≡ false) where
  unlink-IsRemoved :
      (y == target) ≡ true
      → Chain next (next y) ys
      → IsRemoved next target prev (y ∷ ys) (ok (true, update next prev (next y)))
  unfolding erase
  unlink-IsRemoved hit c =
      let out' : has prev ys ≡ false = ground arith in
      let self : (prev == prev) ≡ true = (==_iff prev prev).1 refl in
      found prev (next y) (rw hit refl) (rw self refl)
        (rw (hit, self) (Chain-update next prev (next y) (next y) ys out' c))

  other_node : (a : ℕ) → has a (y ∷ ys) ≡ true → (a == prev) ≡ false
  other_node a h = elim (Bool-cases (a == prev)) [
    | inr e ↦ e
    | inl e ↦
        let e' : a ≡ prev = ground arith in
        absurd (false≢true (sym out ∙ sym (ap (λ (t : ℕ). has t (y ∷ ys)) e') ∙ h))
  ]

  skip-IsRemoved :
      {r : Run (Bool × (ℕ → ℕ))}
      → (y == target) ≡ false
      → next prev ≡ y
      → y ≢ 0
      → IsRemoved next target y ys r
      → IsRemoved next target prev (y ∷ ys) r
  unfolding erase
  skip-IsRemoved miss e nz (absent h) = absent (rw miss h)
  skip-IsRemoved miss e nz (found a w h i c) =
      found a w (rw miss h) (ground arith) (rw (miss, other_node a i) (e, nz, c))

remove_loop-IsRemoved :
    (fuel : ℕ) (next : ℕ → ℕ) (target prev current k : ℕ) (xs : List ℕ)
    → next prev ≡ current
    → Chain next current xs
    → Single k (prev ∷ xs)
    → length xs < fuel
    → IsRemoved next target prev xs (remove_loop fuel next target prev current)
unfolding remove_loop
remove_loop-IsRemoved zero next target prev current k xs e c s h = absurd (omega arith)
remove_loop-IsRemoved (suc fuel) next target prev current k [] e c s h = rw c (absent refl)
remove_loop-IsRemoved (suc fuel) next target prev current k (y ∷ ys) e c s h =
    let nz : (y == 0) ≡ false = ground arith in
    let out = Single-head k prev (y ∷ ys) s in
    rw (c.0, nz)
      (elim (Bool-cases (y == target)) [
        | inl same ↦ rw same (unlink-IsRemoved next target prev y ys out same c.2)
        | inr miss ↦ rw miss (
            skip-IsRemoved next target prev y ys out miss (e ∙ c.0) c.1 (
              remove_loop-IsRemoved fuel next target y (next y) k ys refl c.2
                (Single-tail k prev (y ∷ ys) s) (omega arith)))
      ])

-- A block of order k at t was taken off its list; `rest` are the free blocks after it.
pub record Unlink (b : Buddy) (free : ℕ → List ℕ) (held : ℕ → ℕ) (t k : ℕ) (c : Buddy)
    : Type 0 where
  pub rest : ℕ → List ℕ
  pub owns : Owns c rest (λ x. hit t k x + held x)
  pub total : (x : ℕ) → cover (suc b.max_order) rest x + hit t k x ≡ cover (suc b.max_order) free x
  pub same : SameArea b c
  pub same_bits : c.map ≡ b.map
  pub others : (j : ℕ) → k ≢ j → rest j ≡ free j

-- The outcome of `remove_from_free_list`.
pub data Unlinked (b : Buddy) (free : ℕ → List ℕ) (held : ℕ → ℕ) (t k : ℕ)
    : Run (Bool × Buddy) → Type 0 where
  unlinked :
      (c : Buddy)
      → has t (free k) ≡ true
      → Unlink b free held t k c
      → Unlinked b free held t k (ok (true, c))
  missing : has t (free k) ≡ false → Unlinked b free held t k (ok (false, b))
  null_head : free k ≡ [] → Unlinked b free held t k fault

-- Lists of two orders share no block.
two_lists :
    (n : ℕ) (free : ℕ → List ℕ) (k j x : ℕ)
    → k < n
    → j < n
    → k ≢ j
    → hits k (free k) x + hits j (free j) x ≤ cover n free x
unfolding cover
two_lists zero free k j x p q ne = absurd (omega arith)
two_lists (suc n) free k j x p q ne = elim (Bool-cases (k == n)) [
  | inl e ↦
      let e' : k ≡ n = ground arith in rw e' (omega (arith, hits-le-cover n free j x (omega arith)))
  | inr e ↦ elim (Bool-cases (j == n)) [
    | inl f ↦
        let f' : j ≡ n = ground arith in
        rw f' (omega (arith, hits-le-cover n free k x (ground arith)))
    | inr f ↦ omega (arith, two_lists n free k j x (ground arith) (ground arith) ne)
  ]
]

module _ (b : Buddy) (free : ℕ → List ℕ) (held : ℕ → ℕ) (o : Owns b free held) (t k : ℕ)
    (le : k ≤ b.max_order) where
  Single-free : Single k (free k)
  Single-free x = omega (arith, hits-le-cover (suc b.max_order) free k x (omega arith), o.apart x)

  elsewhere : (a j : ℕ) → has a (free k) ≡ true → (k == j) ≡ false → has a (free j) ≡ false
  elsewhere a j h ne = elim (Bool-cases (has a (free j))) [
    | inr e ↦ e
    | inl e ↦ elim (dec_lt b.max_order j) [
      | yes above ↦ absurd (false≢true (rw (o.nothing_above j above) at e))
      | no below ↦ absurd (
          omega (
            arith,
            two_lists (suc b.max_order) free k j a (omega arith) (omega arith) (ground arith),
            has-hits k (free k) a h,
            has-hits j (free j) a e,
            o.apart a,
          ))
    ]
  ]

  -- Unlinking from the list of order k, given the chain that is left there.
  Unlink-of :
      (c : Buddy)
      → has t (free k) ≡ true
      → SameArea b c
      → c.map ≡ b.map
      → ((j : ℕ) → Chain c.next (c.free_lists j) (update free k (erase t (free k)) j))
      → Unlink b free held t k c
  Unlink-of c h same bits chain = record {
    rest = update free k (erase t (free k));
    owns =
        Owns-take b c free held t k (erase t (free k)) o same le chain
          (λ x. hits-erase k t (free k) x h) (λ a. has-erase t a (free k));
    total =
        cover-take b c free held t k (erase t (free k)) o same le chain
          (λ x. hits-erase k t (free k) x h) (λ a. has-erase t a (free k));
    same = same;
    same_bits = bits;
    others = λ j ne. let e : (k == j) ≡ false = ground arith in rw e;
  }

  Unlink-head :
      (y : ℕ) (ys : List ℕ)
      → free k ≡ y ∷ ys
      → (y == t) ≡ true
      → Unlink b free held t k (record b { free_lists = update b.free_lists k (b.next y) })
  unfolding erase
  Unlink-head y ys e hit =
      let front : (b.free_lists k ≡ y) × (y ≢ 0) × Chain b.next (b.next y) ys =
        rw e at (o.chain k) in
      Unlink-of _ (rw (e, hit))
        (record { base = refl; size = refl; map_size = refl; max_order = refl }) refl
        (λ j. elim (Bool-cases (k == j)) [
          | inl q ↦ rw q (rw (e, hit) front.2)
          | inr q ↦ rw q (o.chain j)
        ])

  Unlink-inner :
      (y a w : ℕ) (ys : List ℕ)
      → free k ≡ y ∷ ys
      → (y == t) ≡ false
      → has t ys ≡ true
      → has a (y ∷ ys) ≡ true
      → Chain (update b.next a w) (update b.next a w y) (erase t ys)
      → Unlink b free held t k (record b { next = update b.next a w })
  unfolding erase
  Unlink-inner y a w ys e miss h i c =
      let front : (b.free_lists k ≡ y) × (y ≢ 0) × Chain b.next (b.next y) ys =
        rw e at (o.chain k) in
      let here : has a (free k) ≡ true = rw e i in
      Unlink-of _ (rw (e, miss) h)
        (record { base = refl; size = refl; map_size = refl; max_order = refl }) refl
        (λ j. elim (Bool-cases (k == j)) [
          | inl q ↦ let q' : j ≡ k = ground arith in rw q (rw (q', e, miss) (front.0, front.1, c))
          | inr q ↦
              rw q (
                Chain-update b.next a w (b.free_lists j) (free j) (elsewhere a j here q)
                  (o.chain j))
        ])

  -- The walk behind the first node y.
  after_walk :
      (y : ℕ) (ys : List ℕ) {r : Run (Bool × (ℕ → ℕ))}
      → free k ≡ y ∷ ys
      → (y == t) ≡ false
      → IsRemoved b.next t y ys r
      → Unlinked b free held t k
          (r >>= λ x. let (done, next') = x in ok (done, record b { next = next' }))
  after_walk y ys e miss (absent h) = missing (rw (e, miss) h)
  after_walk y ys e miss (found a w h i c) =
      unlinked _ (rw (e, miss) h) (Unlink-inner y a w ys e miss h i c)

-- `remove_from_free_list` on a well-formed allocator, with enough fuel for the list: a block that is
-- on the list is taken off it and out of the free blocks, one that is not changes nothing, and an
-- empty list is a read through NULL.
pub remove_from_free_list-Unlinked :
    (fuel : ℕ) (b : Buddy) (free : ℕ → List ℕ) (held : ℕ → ℕ) (t k : ℕ)
    → Owns b free held
    → k ≤ b.max_order
    → length (free k) ≤ fuel
    → Unlinked b free held t k (remove_from_free_list fuel b t k)
unfolding remove_from_free_list
remove_from_free_list-Unlinked fuel b free held t k o le h =
    rw (le→ltb b.max_order k le) (elim (List-cases (free k)) [
      | inl e ↦ let head : b.free_lists k ≡ 0 = rw e at (o.chain k) in rw head (null_head e)
      | inr (y, ys, e) ↦
          let front : (b.free_lists k ≡ y) × (y ≢ 0) × Chain b.next (b.next y) ys =
            rw e at (o.chain k) in
          let nz : (y == 0) ≡ false = ground arith in
          rw (front.0, nz)
            (elim (Bool-cases (y == t)) [
              | inl same ↦
                  rw same (unlinked _ (rw (e, same)) (Unlink-head b free held o t k le y ys e same))
              | inr miss ↦
                  let single : Single k (y ∷ ys) = rw e at (Single-free b free held o t k le) in
                  let size : length ys < fuel = rw e at h in
                  rw miss (
                    after_walk b free held o t k le y ys e miss (
                      remove_loop-IsRemoved fuel b.next t y (b.next y) k ys refl front.2 single
                        size))
            ])
    ])
