-- ===== src/Common/Outcome.antt =====
-- The outcome of C code that can go wrong.
--   ok           a normal return
--   fault        a read or write through a null pointer or outside its object: undefined in C
--   panic        a call of the kernel's `abort`
--   out_of_fuel  the model's bound on the rounds of a loop was reached

pub data Run {ℓ} (A : Type ℓ) : Type ℓ where
  ok : A → Run A
  fault panic out_of_fuel : Run A

infixl 5 ◌>>=◌ ◌>>◌
abbrev pub ◌>>=◌ {ℓ κ} : {A : Type ℓ} {B : Type κ} → Run A → (A → Run B) → Run B
ok a >>= f = f a
fault >>= f = fault
panic >>= f = panic
out_of_fuel >>= f = out_of_fuel

abbrev pub ◌>>◌ {ℓ} : {B : Type ℓ} → Run (Unit {0}) → Run B → Run B
m >> k = m >>= λ _. k
