-- ===== src/Fs/Inode/Put.antt =====
-- Giving references to inodes back.
use ferrite_c.Common.{
  ℕ, zero, suc, ◌+◌, ◌-◌, ◌≡◌, ◌≢◌, refl, true, false, List, [], ◌∷◌, Option, some, ◌==◌,
  if◌then◌else◌, get_elem?, set, Run, ok, fault, panic, ◌>>=◌, arith, Bool-cases, inl, inr,
}
use mathlib.Core.Path.{subst}
use ferrite_c.Fs.Inode.{Inode, Super, holds, inode_get_empty, put_slot, inode_put}
use ferrite_c.Fs.Inode.Counts.{
  Claimed, claimed, inode_get_empty-Claimed, refs, copies, IdleClear, IsCoherent, one_at,
}

-- What a call of `inode_put` for the inode x in slot i may do.
pub data Put (s : Super) (i : ℕ) (x : Inode) (xs : List Inode) : Run (List Inode) → Type 0 where
  put :
      (ys : List Inode)
      → ((sb ino : ℕ) → refs sb ino ys + one_at x.i_sb x.i_ino sb ino ≡ refs sb ino xs)
      → IsCoherent ys
      → Put s i x xs (ok ys)
  root_released : x.i_count ≡ 1 → s.s_root_node x.i_sb ≡ i → Put s i x xs panic
  no_super : x.i_count ≡ 1 → x.i_sb ≡ 0 → Put s i x xs fault

refs-set :
    (sb ino : ℕ) (xs : List Inode) (i : ℕ) (x y : Inode)
    → get_elem? xs i ≡ some x
    → refs sb ino (set xs i y) + (if holds sb ino x then x.i_count else 0)
      ≡ refs sb ino xs + (if holds sb ino y then y.i_count else 0)
unfolding refs
refs-set sb ino [] i x y h = absurd (ground arith)
refs-set sb ino (a ∷ xs) zero x y h = let e : a ≡ x = ground arith in rw e (omega arith)
refs-set sb ino (a ∷ xs) (suc i) x y h = omega (arith, refs-set sb ino xs i x y h)

copies-set :
    (sb ino : ℕ) (xs : List Inode) (i : ℕ) (x y : Inode)
    → get_elem? xs i ≡ some x
    → copies sb ino (set xs i y) + (if holds sb ino x then 1 else 0)
      ≡ copies sb ino xs + (if holds sb ino y then 1 else 0)
unfolding copies
copies-set sb ino [] i x y h = absurd (ground arith)
copies-set sb ino (a ∷ xs) zero x y h = let e : a ≡ x = ground arith in rw e (omega arith)
copies-set sb ino (a ∷ xs) (suc i) x y h = omega (arith, copies-set sb ino xs i x y h)

IdleClear-set :
    (xs : List Inode) (i : ℕ) (y : Inode)
    → (y.i_count ≡ 0 → y.i_sb ≡ 0)
    → IdleClear xs
    → IdleClear (set xs i y)
unfolding IdleClear
IdleClear-set [] i y h t = t
IdleClear-set (x ∷ xs) zero y h (c, cs) = (h, cs)
IdleClear-set (x ∷ xs) (suc i) y h (c, cs) = (c, IdleClear-set xs i y h cs)

module _ (s : Super) (i : ℕ) (x : Inode) (xs : List Inode) (at : get_elem? xs i ≡ some x)
    (co : IsCoherent xs) where
  lowered :
      x.i_count ≢ 0
      → x.i_count - 1 ≢ 0
      → Put s i x xs (ok (set xs i (record x { i_count = x.i_count - 1 })))
  lowered used more =
      let y = record x { i_count = x.i_count - 1 } in
      put (set xs i y) (λ sb ino. let h = refs-set sb ino xs i x y at in ground arith)
        (record {
          idle = IdleClear-set xs i y (λ e. absurd (more e)) co.idle;
          once = λ sb ino real. omega (arith, copies-set sb ino xs i x y at, co.once sb ino real);
        })

  cleared :
      x.i_count ≡ 1
      → x.i_sb ≢ 0
      → Put s i x xs (ok (set xs i (record x { i_count = 0; i_sb = 0; i_ino = 0 })))
  cleared last real =
      let y = record x { i_count = 0; i_sb = 0; i_ino = 0 } in
      put (set xs i y) (λ sb ino. let h = refs-set sb ino xs i x y at in ground arith)
        (record {
          idle = IdleClear-set xs i y (λ e. refl) co.idle;
          once = λ sb ino real'.
              let h = copies-set sb ino xs i x y at in let o = co.once sb ino real' in ground arith;
        })

  put_slot-Put : x.i_count ≢ 0 → Put s i x xs (put_slot s i x >>= λ y. ok (set xs i y))
  unfolding put_slot
  put_slot-Put used =
      let e : (x.i_count == 0) ≡ false = ground arith in
      elim (Bool-cases (x.i_count - 1 == 0)) [
        | inr more ↦ rw (e, more) (lowered used (ground arith))
        | inl last ↦ elim (Bool-cases (x.i_sb == 0)) [
          | inl null ↦ rw (e, last, null) (no_super (ground arith) (ground arith))
          | inr real ↦ elim (Bool-cases (s.s_root_node x.i_sb == i)) [
            | inl root ↦ rw (e, last, real, root) (root_released (ground arith) (ground arith))
            | inr other ↦ rw (e, last, real, other) (cleared (ground arith) (ground arith))
          ]
        ]
      ]

pub inode_put-Put :
    (s : Super) (i : ℕ) (x : Inode) (xs : List Inode)
    → get_elem? xs i ≡ some x
    → IsCoherent xs
    → x.i_count ≢ 0
    → Put s i x xs (inode_put s (some i) xs)
unfolding inode_put
inode_put-Put s i x xs at co used = rw (inode_put, at) (put_slot-Put s i x xs at co used)

Claimed-put_faults :
    (s : Super) (xs : List Inode) (r : ℕ × List Inode)
    → Claimed 0 0 xs (some r)
    → inode_put s (some r.0) r.1 ≡ fault
unfolding inode_put put_slot
Claimed-put_faults s xs r (claimed i ys x at here first count same keep) =
    let e : (x.i_count == 0) ≡ false = ground arith in
    let l : (x.i_count - 1 == 0) ≡ true = ground arith in
    let n : (x.i_sb == 0) ≡ true = ground arith in rw (inode_put, at, put_slot, e, l, n) refl

-- The inode of a socket, which `inode_get_empty(NULL, 0)` makes, can not be given back: where its
-- only reference is released, `inode_put` reads through the NULL of its superblock.
pub socket_put_faults :
    (s : Super) (xs : List Inode) (i : ℕ) (ys : List Inode)
    → IdleClear xs
    → inode_get_empty s 0 0 xs ≡ some (i, ys)
    → inode_put s (some i) ys ≡ fault
socket_put_faults s xs i ys idle e =
    Claimed-put_faults s xs (i, ys)
      (subst (λ (r : Option (ℕ × List Inode)). Claimed 0 0 xs r) e
        (inode_get_empty-Claimed s 0 0 xs idle))
