-- ===== src/Fs/Inode/Balance.antt =====
-- A reference that is taken and given back.
use ferrite_c.Common.{
  ℕ, ◌+◌, ◌^◌, ◌<◌, ◌≡◌, ◌≢◌, true, List, Option, none, some, Run, ok, fault, panic, out_of_fuel,
  ◌>>=◌, arith, sym, ◌∙◌,
}
use ferrite_c.Fs.Inode.{Inode, Super, holds, inode_get, inode_put}
use ferrite_c.Fs.Inode.Counts.{refs, IsCoherent, one_at}
use ferrite_c.Fs.Inode.Get.{Got, no_slot, got, inode_get-Got}
use ferrite_c.Fs.Inode.Put.{Put, put, root_released, no_super, inode_put-Put}

-- A run over the cache that leaves every count as it was, unless it found no slot or gave back the
-- root of a superblock.
pub data Balanced (s : Super) (sb : ℕ) (xs : List Inode) : Run (Option (List Inode)) → Type 0 where
  no_room : Balanced s sb xs (ok none)
  same_refs :
      (zs : List Inode)
      → ((sb' ino' : ℕ) → refs sb' ino' zs ≡ refs sb' ino' xs)
      → IsCoherent zs
      → Balanced s sb xs (ok (some zs))
  root_put : (i : ℕ) → s.s_root_node sb ≡ i → Balanced s sb xs panic

-- A lookup of an inode whose reference is given back at once, as the error paths of the callers do.
pub get_put : Super → (sb ino : ℕ) → List Inode → Run (Option (List Inode))
get_put s sb ino xs = inode_get s sb ino xs >>= λ r. elim r [
  | none ↦ ok none
  | some (i, ys) ↦ inode_put s (some i) ys >>= λ zs. ok (some zs)
]

Put-Balanced :
    (s : Super) (sb ino i : ℕ) (xs ys : List Inode) (x : Inode) (r : Run (List Inode))
    → sb ≢ 0
    → holds sb ino x ≡ true
    → ((sb' ino' : ℕ) → refs sb' ino' ys ≡ refs sb' ino' xs + one_at sb ino sb' ino')
    → Put s i x ys r
    → Balanced s sb xs (r >>= λ zs. ok (some zs))
Put-Balanced s sb ino i xs ys x (ok r) real here more (put zs less co) =
    let a : x.i_sb ≡ sb = ground arith in
    let b : x.i_ino ≡ ino = ground arith in
    same_refs zs
      (λ sb' ino'.
        let l : refs sb' ino' zs + one_at sb ino sb' ino' ≡ refs sb' ino' ys =
          rw (sym a, sym b) (less sb' ino') in
        omega (arith, l, more sb' ino'))
      co
Put-Balanced s sb ino i xs ys x panic real here more (root_released last root) =
    let a : x.i_sb ≡ sb = ground arith in root_put i (rw (sym a) root)
Put-Balanced s sb ino i xs ys x fault real here more (no_super last null) =
    let a : x.i_sb ≡ sb = ground arith in absurd (real (sym a ∙ null))
Put-Balanced s sb ino i xs ys x out_of_fuel real here more p = elim p [ ]

Got-Balanced :
    (s : Super) (sb ino : ℕ) (xs : List Inode) (r : Run (Option (ℕ × List Inode)))
    → sb ≢ 0
    → Got sb ino xs r
    → Balanced s sb xs (
        r >>= λ r'. elim r' [
          | none ↦ ok none
          | some (i, ys) ↦ inode_put s (some i) ys >>= λ zs. ok (some zs)
        ])
Got-Balanced s sb ino xs (ok none) real (no_slot c u) = no_room
Got-Balanced s sb ino xs (ok (some r)) real (got i ys x at here used more co) =
    Put-Balanced s sb ino i xs ys x (inode_put s (some i) ys) real here more
      (inode_put-Put s i x ys at co used)
Got-Balanced s sb ino xs fault real g = elim g [ ]
Got-Balanced s sb ino xs panic real g = elim g [ ]
Got-Balanced s sb ino xs out_of_fuel real g = elim g [ ]

-- A reference taken with `inode_get` and given back with `inode_put`, on a coherent cache: unless
-- the cache is full, or the inode is the root of its superblock with no other reference, the call
-- pair returns, every inode has as many references as before, and the cache is coherent.
pub get_put-Balanced :
    (s : Super) (sb ino : ℕ) (xs : List Inode)
    → IsCoherent xs
    → sb ≢ 0
    → refs sb ino xs + 1 < 2 ^ 16
    → Balanced s sb xs (get_put s sb ino xs)
unfolding get_put
get_put-Balanced s sb ino xs co real small =
    Got-Balanced s sb ino xs (inode_get s sb ino xs) real (inode_get-Got s sb ino xs co real small)
