-- ===== src/Money.antt =====
-- src/common/totals/money.ts and qty.ts: amounts in whole centavos, quantities in thousandths.
-- A quotient of whole numbers by 100 or 1000 rounds half up exactly, as the floating-point quotient
-- of such numbers never reaches a tie that the exact one misses below 2 ^ 53. A product with a rate
-- may, so the arithmetic of a rate is a parameter, `Double`.
pub mod Bounds
pub mod Laws
pub mod Fixed
use sentry_pos_be.Common.{
  ℕ, ◌+◌, ◌*◌, ◌/◌, Bool, ℤ, pos, negsuc, sub_ℕ, abs_ℤ, ◌*ℤ◌, suc, if◌then◌else◌,
}

-- `halfUp(x / d)` at whole numbers: the sign of x times the rounded absolute value.
unfoldable pub half_up_div : ℤ → ℕ → ℤ
half_up_div (pos n) d = pos ((2 * n + d) / (2 * d))
half_up_div (negsuc n) d = sub_ℕ 0 ((2 * suc n + d) / (2 * d))

unfoldable pub pct : ℤ → ℤ → ℤ
unfolding half_up_div
pct c percent = half_up_div (c *ℤ percent) 100

-- `mulQtyPriceC`, at a quantity in thousandths.
unfoldable pub mul_qty_price : ℕ → ℤ → ℤ
unfolding half_up_div
mul_qty_price milli price = half_up_div (pos milli *ℤ price) 1000

-- What the code does with a JavaScript number that need not be whole.
pub record Double {ℓ} (W : Type ℓ) : Type ℓ where
  pub of_ℤ : ℤ → W
  pub add : W → W → W
  pub mul : W → W → W
  pub div : W → W → W
  pub is_zero : W → Bool
  pub le : W → W → Bool
  pub sign : W → ℤ
  pub abs : W → W
  pub round : W → ℤ

module _ {ℓ} {W : Type ℓ} ⦃d : Double W⦄ where
  unfoldable pub half_up : W → ℤ
  half_up x = d.sign x *ℤ d.round (d.abs x)

  unfoldable pub mul_rate : ℤ → W → ℤ
  unfolding half_up
  mul_rate c rate = half_up (d.mul (d.of_ℤ c) rate)

  unfoldable pub vat_included : ℤ → W → ℤ
  unfolding half_up
  vat_included total rate =
      if d.is_zero rate
      then pos 0
      else half_up (d.div (d.mul (d.of_ℤ total) rate) (d.add (d.of_ℤ (pos 1)) rate))

  -- `halfUp(grossC / (1 + taxRate))`, the price without its VAT.
  unfoldable pub without_vat : ℤ → W → ℤ
  unfolding half_up
  without_vat gross rate = half_up (d.div (d.of_ℤ gross) (d.add (d.of_ℤ (pos 1)) rate))
