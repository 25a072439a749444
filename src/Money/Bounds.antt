-- ===== src/Money/Bounds.antt =====
-- Bounds on the rounded shares of an amount: src/common/totals/money.ts and qty.ts.
use native.Mathlib.Nat.{mul-le-mul_left}
use sentry_pos_be.Common.{
  ℕ, ◌+◌, ◌*◌, ◌/◌, ◌≤◌, ◌<◌, ◌≡◌, refl, inl, inr, ℤ, pos, negsuc, ◌*ℤ◌, ◌≤ℤ◌, arith, Bool-cases,
}
use sentry_pos_be.Money.{
  Double, half_up_div, pct, mul_qty_price, half_up, mul_rate, vat_included, without_vat,
}
use sentry_pos_be.Money.Laws.{max_safe, ◌≼◌, IsSafe, IsAmount, IsRate, IsIeee}

-- The rounded quotient is the nearest whole number, and a tie goes up.
pub half_up_div_nearest :
    (n d : ℕ)
    → 0 < d
    → (q : ℕ) × (half_up_div (pos n) d ≡ pos q) × (2 * d * q ≤ 2 * n + d) × (2 * n < 2 * d * q + d)
unfolding half_up_div
half_up_div_nearest n d h = ((2 * n + d) / (2 * d), refl, grind arith, grind arith)

mul_hundredths : (c p : ℕ) → p ≤ 100 → (2 * (c * p) + 100) / (2 * 100) ≤ c
mul_hundredths c p h = grind (arith, mul-le-mul_left c h)

-- A percentage between 0 and 100 of an amount lies between nothing and the amount.
pub pct_bounds :
    (c p : ℤ) → pos 0 ≤ℤ c → pos 0 ≤ℤ p → p ≤ℤ pos 100 → (pos 0 ≤ℤ pct c p) × (pct c p ≤ℤ c)
unfolding pct half_up_div ◌*ℤ◌
pct_bounds (pos c) (pos p) hc hp h100 = ground (arith, mul_hundredths c p (omega arith))
pct_bounds (negsuc c) p hc hp h100 = absurd (omega arith)
pct_bounds c (negsuc p) hc hp h100 = absurd (omega arith)

pub pct_nonneg : (c p : ℤ) → pos 0 ≤ℤ c → pos 0 ≤ℤ p → pos 0 ≤ℤ pct c p
unfolding pct half_up_div ◌*ℤ◌
pct_nonneg (pos c) (pos p) hc hp = ground arith
pct_nonneg (negsuc c) p hc hp = absurd (omega arith)
pct_nonneg c (negsuc p) hc hp = absurd (omega arith)

pub mul_qty_price_nonneg : (m : ℕ) (p : ℤ) → pos 0 ≤ℤ p → pos 0 ≤ℤ mul_qty_price m p
unfolding mul_qty_price half_up_div ◌*ℤ◌
mul_qty_price_nonneg m (pos p) h = ground arith
mul_qty_price_nonneg m (negsuc p) h = absurd (omega arith)

*ℤ_one : (a : ℤ) → pos 1 *ℤ a ≡ a
unfolding ◌*ℤ◌
*ℤ_one a = ground arith

*ℤ_zero : (a : ℤ) → pos 0 *ℤ a ≡ pos 0
unfolding ◌*ℤ◌
*ℤ_zero a = ground arith

module _ {ℓ} {W : Type ℓ} ⦃d : Double W⦄ (laws : IsIeee W) where
  open laws use {
    le_trans, of_mono, round_mono, round_of, abs_nonneg, sign_nonneg, mul_rate_le, div_le, one_add,
  }

  half_up-eq-round : (x : W) → d.of_ℤ (pos 0) ≼ x → half_up x ≡ d.round x
  unfolding half_up
  half_up-eq-round x h = elim (sign_nonneg x h) [
    | inl e ↦ rw (abs_nonneg x h, e, *ℤ_one)
    | inr (e, z) ↦ rw (abs_nonneg x h, e, z, *ℤ_zero, round_of (pos 0) (omega arith))
  ]

  -- A number between 0 and a whole amount rounds to one between 0 and the amount.
  half_up_bounds :
      (x : W) (c : ℤ)
      → IsSafe c
      → d.of_ℤ (pos 0) ≼ x
      → x ≼ d.of_ℤ c
      → (pos 0 ≤ℤ half_up x) × (half_up x ≤ℤ c)
  half_up_bounds x c safe low high =
      let zero_round = round_of (pos 0) (omega arith) in
      let above = round_mono _ _ low in
      let below = round_mono _ _ high in
      rw (half_up-eq-round x low) (rw zero_round at above, rw (round_of c safe) at below)

  of_IsAmount : (c : ℤ) → IsSafe c → IsAmount (d.of_ℤ c)
  of_IsAmount c safe = (of_mono (pos 0) c safe.0, of_mono c max_safe safe.1)

  one_add_le_max : (r : W) → IsRate r → d.add (d.of_ℤ (pos 1)) r ≼ d.of_ℤ max_safe
  one_add_le_max r rate = le_trans _ _ _ (one_add r rate).1 (of_mono (pos 2) max_safe (omega arith))

  pub mul_rate_bounds :
      (c : ℤ) (r : W) → IsSafe c → IsRate r → (pos 0 ≤ℤ mul_rate c r) × (mul_rate c r ≤ℤ c)
  unfolding mul_rate
  mul_rate_bounds c r safe rate =
      let (low, high) = mul_rate_le (d.of_ℤ c) r (of_IsAmount c safe) rate in
      half_up_bounds (d.mul (d.of_ℤ c) r) c safe low high

  pub without_vat_bounds :
      (c : ℤ) (r : W) → IsSafe c → IsRate r → (pos 0 ≤ℤ without_vat c r) × (without_vat c r ≤ℤ c)
  unfolding without_vat
  without_vat_bounds c r safe rate =
      let (low, high) =
        div_le (d.of_ℤ c) (d.add (d.of_ℤ (pos 1)) r) (of_IsAmount c safe) (one_add r rate).0
          (one_add_le_max r rate) in
      half_up_bounds (d.div (d.of_ℤ c) (d.add (d.of_ℤ (pos 1)) r)) c safe low high

  vat_quotient_bounds :
      (c : ℤ) (r : W)
      → IsSafe c
      → IsRate r
      → let q = d.div (d.mul (d.of_ℤ c) r) (d.add (d.of_ℤ (pos 1)) r) in
        (d.of_ℤ (pos 0) ≼ q) × (q ≼ d.of_ℤ c)
  vat_quotient_bounds c r safe rate =
      let amount = of_IsAmount c safe in
      let (low, high) = mul_rate_le (d.of_ℤ c) r amount rate in
      let (low', high') =
        div_le (d.mul (d.of_ℤ c) r) (d.add (d.of_ℤ (pos 1)) r) (low, le_trans _ _ _ high amount.1)
          (one_add r rate).0 (one_add_le_max r rate) in
      (low', le_trans _ _ _ high' high)

  -- The VAT inside an amount lies between nothing and the amount, at rates from 0 to 1.
  pub vat_included_bounds :
      (c : ℤ) (r : W) → IsSafe c → IsRate r → (pos 0 ≤ℤ vat_included c r) × (vat_included c r ≤ℤ c)
  unfolding vat_included
  vat_included_bounds c r safe rate =
      let (low, high) = vat_quotient_bounds c r safe rate in
      elim (Bool-cases (d.is_zero r)) [
        | inl zero_rate ↦ rw zero_rate (omega arith, safe.0)
        | inr charged ↦ rw charged (half_up_bounds _ c safe low high)
      ]
