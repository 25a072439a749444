-- ===== src/Money/Laws.antt =====
-- What is assumed of IEEE 754 doubles, rounded to nearest: order, monotone rounding, and exactness
-- of whole numbers up to 2 ^ 53. All hold of finite values; no law speaks of NaN or an infinity.
use sentry_pos_be.Common.{◌≡◌, true, ◌⊎◌, ℤ, pos, ◌≤ℤ◌}
use sentry_pos_be.Money.{Double}

-- `Number.MAX_SAFE_INTEGER`.
abbrev pub max_safe : ℤ
max_safe = pos 9_007_199_254_740_991

infix 4 ◌≼◌
abbrev pub ◌≼◌ {ℓ} : {W : Type ℓ} ⦃d : Double W⦄ → W → W → Type 0
◌≼◌ ⦃d⦄ x y = d.le x y ≡ true

-- A whole amount of centavos that a double holds exactly.
abbrev pub IsSafe : ℤ → Type 0
IsSafe c = (pos 0 ≤ℤ c) × (c ≤ℤ max_safe)

module _ {ℓ} {W : Type ℓ} ⦃d : Double W⦄ where
  abbrev pub IsAmount : W → Type 0
  IsAmount x = (d.of_ℤ (pos 0) ≼ x) × (x ≼ d.of_ℤ max_safe)

  -- A rate between 0 and 1.
  abbrev pub IsRate : W → Type 0
  IsRate r = (d.of_ℤ (pos 0) ≼ r) × (r ≼ d.of_ℤ (pos 1))

pub record IsIeee {ℓ} (W : Type ℓ) ⦃d : Double W⦄ : Type ℓ where
  pub le_trans : (x y z : W) → x ≼ y → y ≼ z → x ≼ z
  pub of_mono : (a b : ℤ) → a ≤ℤ b → d.of_ℤ a ≼ d.of_ℤ b
  pub round_mono : (x y : W) → x ≼ y → d.round x ≤ℤ d.round y
  pub round_of : (a : ℤ) → IsSafe a → d.round (d.of_ℤ a) ≡ a
  pub abs_nonneg : (x : W) → d.of_ℤ (pos 0) ≼ x → d.abs x ≡ x
  pub sign_nonneg :
      (x : W)
      → d.of_ℤ (pos 0) ≼ x
      → (d.sign x ≡ pos 1) ⊎ ((d.sign x ≡ pos 0) × (x ≡ d.of_ℤ (pos 0)))
  pub mul_rate_le :
      (x r : W) → IsAmount x → IsRate r → (d.of_ℤ (pos 0) ≼ d.mul x r) × (d.mul x r ≼ x)
  pub div_le :
      (x y : W)
      → IsAmount x
      → d.of_ℤ (pos 1) ≼ y
      → y ≼ d.of_ℤ max_safe
      → (d.of_ℤ (pos 0) ≼ d.div x y) × (d.div x y ≼ x)
  pub one_add :
      (r : W)
      → IsRate r
      → (d.of_ℤ (pos 1) ≼ d.add (d.of_ℤ (pos 1)) r) × (d.add (d.of_ℤ (pos 1)) r ≼ d.of_ℤ (pos 2))
