-- ===== src/Common/Division.antt =====
-- Quotient and remainder of a sum with a multiple of the divisor.
use mathlib.Core.Path.{subst}
use mathlib.Core.Nat as M
use native.Mathlib.Bridge.{from_ℕ, to_ℕ, from_ℕ-to_ℕ, from_hom₂, from_le⁻¹, to_ℕ-+, to_ℕ-*}
use native.Mathlib.DivMod.{from_ℕ-/, from_ℕ-%}
use ferrite_c.Common.{ℕ, ◌+◌, ◌*◌, ◌/◌, ◌%◌, ◌<◌, ◌≡◌, ◌∙◌, sym, ap}

sum : (b p g : M.ℕ) → from_ℕ (M.◌+◌ b (M.◌*◌ p g)) ≡ from_ℕ b + from_ℕ p * from_ℕ g
sum b p g =
    from_hom₂ M.◌+◌ ◌+◌ to_ℕ-+ b (M.◌*◌ p g)
    ∙ ap (λ (x : ℕ). from_ℕ b + x) (from_hom₂ M.◌*◌ ◌*◌ to_ℕ-* p g)

below : (b p : M.ℕ) → from_ℕ b < from_ℕ p → M.◌<◌ b p
below b p l = from_le⁻¹ (M.suc b) p l

positive : (b p : M.ℕ) → M.◌<◌ b p → M.◌<◌ M.zero p
positive b p l = M.le_trans (M.suc-le-suc M.zero-le) l

quotient :
    (b p g : M.ℕ) → from_ℕ b < from_ℕ p → (from_ℕ b + from_ℕ p * from_ℕ g) / from_ℕ p ≡ from_ℕ g
quotient b p g l =
    let h = below b p l in
    ap (λ (x : ℕ). x / from_ℕ p) (sym (sum b p g))
    ∙ sym (from_ℕ-/ (M.◌+◌ b (M.◌*◌ p g)) p)
    ∙ ap from_ℕ (
        M.add-mul-div_left b g (positive b p h)
        ∙ ap (λ (x : M.ℕ). M.◌+◌ x g) (M.div-eq_of_lt h)
        ∙ M.zero-add g)

remainder :
    (b p g : M.ℕ) → from_ℕ b < from_ℕ p → (from_ℕ b + from_ℕ p * from_ℕ g) % from_ℕ p ≡ from_ℕ b
remainder b p g l =
    let h = below b p l in
    ap (λ (x : ℕ). x % from_ℕ p) (sym (sum b p g))
    ∙ sym (from_ℕ-% (M.◌+◌ b (M.◌*◌ p g)) p)
    ∙ ap from_ℕ (M.add-mul-mod_self_left b p g ∙ M.mod-eq_of_lt h)

pub div_add_mul : (b p g : ℕ) → b < p → (b + p * g) / p ≡ g
div_add_mul b p g l =
    subst (λ (x : ℕ). b < p → (b + p * x) / p ≡ x) (from_ℕ-to_ℕ g)
      (subst (λ (y : ℕ). b < y → (b + y * from_ℕ (to_ℕ g)) / y ≡ from_ℕ (to_ℕ g)) (from_ℕ-to_ℕ p)
        (subst
          (λ (z : ℕ).
            z < from_ℕ (to_ℕ p)
            → (z + from_ℕ (to_ℕ p) * from_ℕ (to_ℕ g)) / from_ℕ (to_ℕ p) ≡ from_ℕ (to_ℕ g))
          (from_ℕ-to_ℕ b) (quotient (to_ℕ b) (to_ℕ p) (to_ℕ g))))
      l

pub mod_add_mul : (b p g : ℕ) → b < p → (b + p * g) % p ≡ b
mod_add_mul b p g l =
    subst (λ (x : ℕ). b < p → (b + p * x) % p ≡ b) (from_ℕ-to_ℕ g)
      (subst (λ (y : ℕ). b < y → (b + y * from_ℕ (to_ℕ g)) % y ≡ b) (from_ℕ-to_ℕ p)
        (subst
          (λ (z : ℕ).
            z < from_ℕ (to_ℕ p) → (z + from_ℕ (to_ℕ p) * from_ℕ (to_ℕ g)) % from_ℕ (to_ℕ p) ≡ z)
          (from_ℕ-to_ℕ b) (remainder (to_ℕ b) (to_ℕ p) (to_ℕ g))))
      l
