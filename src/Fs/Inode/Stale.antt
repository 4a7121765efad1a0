-- ===== src/Fs/Inode/Stale.antt =====
-- A slot of the inode cache that is used again.
use ferrite_c.Common.{
  ℕ, ◌≡◌, ◌≢◌, refl, true, false, List, ◌∷◌, none, some, ◌==◌, ok, ◌>>=◌, arith, Bool-cases, inl,
  inr,
}
use ferrite_c.Fs.Inode.{
  Inode, Super, is_sock, get_cached, inode_get_empty, inode_get, put_slot, inode_put,
}

module _ (s : Super) (x : Inode) (rest : List Inode) (sb ino : ℕ) (real : sb ≢ 0) where
  released_slot :
      x.i_count ≡ 1
      → x.i_sb ≢ 0
      → s.s_root_node x.i_sb ≢ 0
      → inode_put s (some 0) (x ∷ rest) ≡ ok (record x { i_count = 0; i_sb = 0; i_ino = 0 } ∷ rest)
  unfolding inode_put put_slot
  released_slot last own not_root = ground arith

  reused_slot :
      is_sock x.i_mode ≡ true
      → get_cached s sb ino rest ≡ none
      → inode_get s sb ino (record x { i_count = 0; i_sb = 0; i_ino = 0 } ∷ rest)
        ≡ ok (some (0, record x { i_count = 1; i_sb = sb; i_ino = ino } ∷ rest))
  unfolding inode_get get_cached inode_get_empty
  reused_slot sock uncached =
      let e : (sb == 0) ≡ false = ground arith in
      let e' : (0 == sb) ≡ false = ground arith in
      elim (Bool-cases (s.has_s_op sb)) [
        | inl b ↦ rw (e, e', uncached, sock, e, b) refl
        | inr b ↦ rw (e, e', uncached, sock, e, b) refl
      ]

-- Where the inode of a socket on disk is released, its slot keeps the mode of a socket, and an
-- inode that takes the slot next is handed out with that mode: it is not read from the disk.
pub stale_mode_kept :
    (s : Super) (x : Inode) (rest : List Inode) (sb ino : ℕ)
    → is_sock x.i_mode ≡ true
    → x.i_count ≡ 1
    → x.i_sb ≢ 0
    → s.s_root_node x.i_sb ≢ 0
    → sb ≢ 0
    → get_cached s sb ino rest ≡ none
    → (inode_put s (some 0) (x ∷ rest) >>= λ ys. inode_get s sb ino ys)
      ≡ ok (some (0, record x { i_count = 1; i_sb = sb; i_ino = ino } ∷ rest))
stale_mode_kept s x rest sb ino sock last own not_root real uncached =
    rw (released_slot s x rest sb ino real last own not_root)
      (reused_slot s x rest sb ino real sock uncached)
