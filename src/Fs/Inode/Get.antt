-- ===== src/Fs/Inode/Get.antt =====
-- Taking references to inodes and giving them back.
use ferrite_c.Common.{
  ℕ, ◌+◌, ◌^◌, ◌≤◌, ◌<◌, ◌≡◌, ◌≢◌, true, false, ◌&&◌, List, Option, none, some, ◌==◌, get_elem?,
  Run, ok, arith, sym, Bool-cases, inl, inr,
}
use ferrite_c.Fs.Inode.{Inode, Super, holds, inode_get_empty, get_cached, inode_get}
use ferrite_c.Fs.Inode.Counts.{
  refs, copies, AllUsed, IsCoherent, one_at, Cached, absent, present, get_cached-Cached, Claimed,
  full, claimed, inode_get_empty-Claimed,
}

-- What a call of `inode_get` may return: NULL where the inode is not cached and no slot is free, or a
-- slot that holds the inode, with one reference more for it and none for any other.
pub data Got (sb ino : ℕ) (xs : List Inode) : Run (Option (ℕ × List Inode)) → Type 0 where
  no_slot : copies sb ino xs ≡ 0 → AllUsed xs → Got sb ino xs (ok none)
  got :
      (i : ℕ) (ys : List Inode) (x : Inode)
      → get_elem? ys i ≡ some x
      → holds sb ino x ≡ true
      → x.i_count ≢ 0
      → ((sb' ino' : ℕ) → refs sb' ino' ys ≡ refs sb' ino' xs + one_at sb ino sb' ino')
      → IsCoherent ys
      → Got sb ino xs (ok (some (i, ys)))

one_more :
    (sb ino sb' ino' : ℕ) (xs : List Inode)
    → copies sb ino xs ≡ 0
    → copies sb' ino' xs ≤ 1
    → copies sb' ino' xs + one_at sb ino sb' ino' ≤ 1
one_more sb ino sb' ino' xs none_yet once = elim (Bool-cases (sb == sb' && ino == ino')) [
  | inl e ↦
      let a : sb ≡ sb' = ground arith in
      let b : ino ≡ ino' = ground arith in
      let c : copies sb' ino' xs ≡ 0 = rw (sym a, sym b) none_yet in rw e (omega (arith, c))
  | inr e ↦ rw e (omega (arith, once))
]

Claimed-Got :
    (sb ino : ℕ) (xs : List Inode) (r : Option (ℕ × List Inode))
    → IsCoherent xs
    → copies sb ino xs ≡ 0
    → Claimed sb ino xs r
    → Got sb ino xs (ok r)
Claimed-Got sb ino xs none co c (full f) = no_slot c f
Claimed-Got sb ino xs (some r) co c (claimed i ys x at here first count same keep) =
    got i ys x at here (ground arith) count (record {
      idle = keep;
      once = λ sb' ino' real.
          omega (arith, same sb' ino' real, one_more sb ino sb' ino' xs c (co.once sb' ino' real));
    })

Cached-Got :
    (s : Super) (sb ino : ℕ) (xs : List Inode) (r : Option (ℕ × List Inode))
    → IsCoherent xs
    → Cached sb ino xs r
    → Got sb ino xs (elim r [ some r' ↦ ok (some r') | none ↦ ok (inode_get_empty s sb ino xs) ])
Cached-Got s sb ino xs none co (absent c) =
    Claimed-Got sb ino xs (inode_get_empty s sb ino xs) co c
      (inode_get_empty-Claimed s sb ino xs co.idle)
Cached-Got s sb ino xs (some r) co (present i ys x at here used count same keep) =
    got i ys x at here used count (record {
      idle = keep co.idle;
      once = λ sb' ino' real. omega (arith, same sb' ino', co.once sb' ino' real);
    })

-- `inode_get` on a coherent cache, for an inode of a superblock with less than 65535 references: it
-- returns NULL exactly where the inode is not cached and every slot is in use; otherwise it returns
-- a slot that holds the inode, with exactly one reference more for it, none more or less for any other,
-- and a cache that is coherent again, so that no inode is ever cached twice.
pub inode_get-Got :
    (s : Super) (sb ino : ℕ) (xs : List Inode)
    → IsCoherent xs
    → sb ≢ 0
    → refs sb ino xs + 1 < 2 ^ 16
    → Got sb ino xs (inode_get s sb ino xs)
unfolding inode_get
inode_get-Got s sb ino xs co real small =
    let e : (sb == 0) ≡ false = ground arith in
    rw e (Cached-Got s sb ino xs (get_cached s sb ino xs) co (get_cached-Cached s sb ino xs small))
