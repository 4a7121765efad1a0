-- ===== src/Fs/Ext2/Entry/Tests.antt =====
-- entry.c on a block of 48 bytes with three entries: "ab", "c" and "d".
use ferrite_c.Common.{
  ℕ, ◌+◌, ◌≤◌, ◌<◌, ◌≡◌, ◌≢◌, refl, true, List, [], ◌∷◌, ◌++◌, none, some, ok, arith, get_elem?,
}
use ferrite_c.Fs.Ext2.Entry.{
  scan, rec_len, name_len, aligned_size, sizeof_entry, unlink_entry, same_name, put_entry,
  room_scan,
}
use ferrite_c.Fs.Ext2.Entry.Chain.{Chain, SameOutside}
use ferrite_c.Fs.Ext2.Entry.Delete.{SameBut, unlink_entry-Chain}
use ferrite_c.Fs.Ext2.Entry.Insert.{put_entry-Chain, put_entry_overwrites}

abbrev byte : List ℕ → ℕ → ℕ
byte bytes o = elim (get_elem? bytes o) [ none ↦ 0 | some v ↦ v ]

abbrev block : ℕ → ℕ
block = byte (
    11 ∷ 0 ∷ 0 ∷ 0 ∷ 12 ∷ 0 ∷ 2 ∷ 1 ∷ b'a' ∷ b'b' ∷ 0 ∷ 0 ∷ 12 ∷ 0 ∷ 0 ∷ 0 ∷ 12 ∷ 0 ∷ 1 ∷ 1 ∷ b'c'
    ∷ 0 ∷ 0 ∷ 0 ∷ 13 ∷ 0 ∷ 0 ∷ 0 ∷ 24 ∷ 0 ∷ 1 ∷ 1 ∷ b'd' ∷ [])

-- An entry "c", and one with a name of four letters.
abbrev entry_c : ℕ → ℕ
entry_c = byte (14 ∷ 0 ∷ 0 ∷ 0 ∷ 0 ∷ 0 ∷ 1 ∷ 1 ∷ b'c' ∷ [])

abbrev entry_ab : ℕ → ℕ
entry_ab = byte (11 ∷ 0 ∷ 0 ∷ 0 ∷ 0 ∷ 0 ∷ 2 ∷ 1 ∷ b'a' ∷ b'b' ∷ [])

chain : Chain 48 block 0 (0 ∷ 12 ∷ 24 ∷ [])
unfolding Chain
chain = omega arith

scan_found : scan 49 48 (same_name entry_c block) block 0 0 ≡ ok (some (0, 12))
unfolding scan same_name
scan_found = refl

abbrev zeros : ℕ → ℕ
zeros o = 0

unlink_entry-Chain_example :
    Chain 48 (unlink_entry block 0 12) 0 ([] ++ 0 ∷ 24 ∷ [])
    × SameBut 0 block (unlink_entry block 0 12)
unlink_entry-Chain_example = unlink_entry-Chain 48 block [] 0 12 (24 ∷ []) (omega arith) chain

ab_first : same_name entry_ab block 0 ≡ true
unfolding same_name
ab_first = refl

put_entry-Chain_example :
    Chain 48
      (put_entry block 24 24 entry_ab)
      0
      ((0 ∷ 12 ∷ []) ++ 24 ∷ (24 + aligned_size block 24) ∷ [])
    × ((k : ℕ)
        → k < sizeof_entry + name_len entry_ab 0
        → k ≢ 4
        → k ≢ 5
        → put_entry block 24 24 entry_ab (24 + aligned_size block 24 + k) ≡ entry_ab k)
    × SameOutside 24 (24 + rec_len block 24) block (put_entry block 24 24 entry_ab)
put_entry-Chain_example =
    put_entry-Chain 48 block entry_ab (0 ∷ 12 ∷ []) 24 [] (omega arith) (omega arith) chain

-- An entry that needs 12 bytes and has 16, with another behind it.
abbrev tight : ℕ → ℕ
tight = byte (11 ∷ 0 ∷ 0 ∷ 0 ∷ 16 ∷ 0 ∷ 2 ∷ 1 ∷ b'a' ∷ b'b' ∷ [])

put_entry_overwrites_example :
    (room_scan 49 48 0 48 tight 0 none ≡ ok (0, some 0))
    × (0 + rec_len tight 0 ≤ 0 + aligned_size tight 0 + 6)
    × (put_entry tight 0 0 entry_c (0 + aligned_size tight 0 + 6) ≡ entry_c 6)
put_entry_overwrites_example =
    put_entry_overwrites 48 48 0 48 tight entry_c 0 none 6 (omega arith) (omega arith) (omega arith)
      (omega arith) (omega arith) (omega arith) (omega arith) (omega arith)
