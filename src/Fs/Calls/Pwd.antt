-- ===== src/Fs/Calls/Pwd.antt =====
-- The references that `sys_chdir` takes and gives back, with that of the working directory.
use ferrite_c.Common.{
  ℕ, inl, inr, Bool, List, [], ◌∷◌, Option, none, some, Run, ok, fault, panic, out_of_fuel, ◌>>=◌,
  arith, Bool-cases,
}
use ferrite_c.Common.Int.{ℤ, pos, neg}
use ferrite_c.Fs.Refs.{Refs, Holding, put_ref-Holding}
use ferrite_c.Fs.Lookup.{is_dir, may, may_exec, vfs_lookup}
use ferrite_c.Fs.Lookup.Balance.{Found, found, not_found, stuck, Null, vfs_lookup-Found}
use ferrite_c.Fs.Calls.{Tree, chdir_to, sys_chdir}
use ferrite_c.Fs.Calls.Keep.{KeepsRefs, Broken, in_lookup, itself}

-- A call that may change the working directory, of which there is one reference.
pub data Stays (N : Type 0) (base : Refs) : Run (ℕ × Refs × ℤ) → Type 0 where
  stays :
      (pwd : ℕ) (r : Refs) (result : ℤ)
      → Holding base (pwd ∷ []) r
      → Stays N base (ok (pwd, r, result))
  stays_stuck : N → Stays N base fault

stuck-Stays :
    {N M : Type 0}
    → (base : Refs) (run : Run (ℕ × Refs × ℤ)) → (N → M)
    → Stays N base run
    → Stays M base run
stuck-Stays base (ok (p, r, v)) f (stays _ _ _ h) = stays p r v h
stuck-Stays base fault f (stays_stuck n) = stays_stuck (f n)
stuck-Stays base panic f x = elim x [ ]
stuck-Stays base out_of_fuel f x = elim x [ ]

chdir_to-Stays :
    (t : Tree) (N : Type 0) (base r0 : Refs) (run : Run (Refs × Option ℕ))
    → Holding base (t.space.pwd ∷ []) r0
    → Found N r0 run
    → Stays N base (run >>= chdir_to t)
unfolding chdir_to
chdir_to-Stays t N base r0 (ok (r, none)) k (not_found _ h) =
    stays t.space.pwd r (neg 2) (λ j. omega (arith, h j, k j))
chdir_to-Stays t N base r0 (ok (r, some i)) k (found _ _ h) =
    let both : Holding base (t.space.pwd ∷ i ∷ []) r = λ j. omega (arith, h j, k j) in
    let swapped : Holding base (i ∷ t.space.pwd ∷ []) r = λ j. omega (arith, h j, k j) in
    let back = put_ref-Holding base (t.space.pwd ∷ []) r i swapped in
    elim (Bool-cases (is_dir t.space i)) [
      | inr e ↦ rw e (stays t.space.pwd _ (neg 20) back)
      | inl e ↦ elim (Bool-cases (may t.space i may_exec)) [
        | inr f ↦ rw (e, f) (stays t.space.pwd _ (neg 13) back)
        | inl f ↦ rw (e, f) (stays i _ (pos 0) (put_ref-Holding base (i ∷ []) r t.space.pwd both))
      ]
    ]
chdir_to-Stays t N base r0 fault k (stuck n) = stays_stuck n
chdir_to-Stays t N base r0 panic k x = elim x [ ]
chdir_to-Stays t N base r0 out_of_fuel k x = elim x [ ]

pub sys_chdir-Stays :
    (t : Tree) (memory : Bool) (path : List ℕ) (base r : Refs)
    → KeepsRefs t
    → Holding base (t.space.pwd ∷ []) r
    → Stays (Broken t memory r path) base (sys_chdir t path r)
unfolding sys_chdir
sys_chdir-Stays t memory path base r law k =
    stuck-Stays base _ (λ n. in_lookup path (itself path) n)
      (chdir_to-Stays t (Null t.space path) base r (vfs_lookup t.space path r) k
        (vfs_lookup-Found t.space path r law.lookups))
