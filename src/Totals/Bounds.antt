-- ===== src/Totals/Bounds.antt =====
-- Bounds on the amounts of `computeTotals` in src/common/totals/totals.ts.
use sentry_pos_be.Common.{
  ◌≡◌, Bool, List, [], ◌∷◌, map, ℤ, pos, ◌+ℤ◌, ◌-ℤ◌, ◌≤ℤ◌, arith, int_laws, parts, All, Bool-cases,
  inl, inr,
}
use sentry_pos_be.Money.{Double, vat_included}
use sentry_pos_be.Money.Laws.{max_safe, IsSafe, IsRate, IsIeee}
use sentry_pos_be.Money.Bounds.{mul_rate_bounds, vat_included_bounds}
use sentry_pos_be.Cart.{CartLine, Cart}
use sentry_pos_be.Totals.{
  Applied, LineTotals, CartTotals, Rates, sum_gross, sum_order_base, sum_exempt, when_scpwd,
  unless_scpwd, line_totals, compute_totals, is_dine_in,
}
use sentry_pos_be.Totals.Lines.{IsDiscount, discount_amount_bounds, line_totals-IsHigherOf}
use sentry_pos_be.Totals.Sums.{discounted_subtotal_by_lines}

abbrev NetWithin : LineTotals → Type 0
NetWithin t = (pos 0 ≤ℤ t.net) × (t.net ≤ℤ t.gross)

abbrev NetStep : Applied → ℤ → ℤ → ℤ → ℤ → ℤ → Type 0
NetStep a net gross g o e =
    (pos 0 ≤ℤ unless_scpwd a net o)
    × (pos 0 ≤ℤ when_scpwd a net e)
    × (unless_scpwd a net o +ℤ when_scpwd a net e ≤ℤ g +ℤ gross)

net_step :
    (a : Applied) (net gross g o e : ℤ)
    → (pos 0 ≤ℤ net) × (net ≤ℤ gross)
    → pos 0 ≤ℤ o
    → pos 0 ≤ℤ e
    → o +ℤ e ≤ℤ g
    → NetStep a net gross g o e
net_step Applied.promo net gross g o e n ho he h = omega int_laws
net_step Applied.scpwd net gross g o e n ho he h = omega int_laws
net_step Applied.nothing net gross g o e n ho he h = omega int_laws

-- The two halves of the net sum lie between nothing and the gross sum.
net_sums_bounds :
    (ls : List LineTotals) (g o e : ℤ)
    → All NetWithin ls
    → pos 0 ≤ℤ o
    → pos 0 ≤ℤ e
    → o +ℤ e ≤ℤ g
    → (pos 0 ≤ℤ sum_order_base o ls)
      × (pos 0 ≤ℤ sum_exempt e ls)
      × (sum_order_base o ls +ℤ sum_exempt e ls ≤ℤ sum_gross g ls)
unfolding sum_gross sum_order_base sum_exempt
net_sums_bounds [] g o e _ ho he h = (ho, he, h)
net_sums_bounds (t ∷ ls) g o e (n, ns) ho he h =
    let (ho', he', h') = net_step t.applied t.net t.gross g o e n ho he h in
    net_sums_bounds ls (g +ℤ t.gross) (unless_scpwd t.applied t.net o)
      (when_scpwd t.applied t.net e) ns ho' he' h'

module _ {ℓ} {W : Type ℓ} ⦃d : Double W⦄ where
  abbrev pub LineFits : Bool → W → CartLine → Type 0
  LineFits holder tax line =
      IsDiscount line.discount × IsSafe (LineTotals.gross (line_totals holder tax line))

  -- What a cart needs for its amounts to stay within the exact whole numbers.
  pub record IsPriced (cart : Cart) (s : Rates W) : Type 0 where
    pub tax : IsRate s.tax_rate
    pub service : IsRate s.service_charge_rate
    pub lines_fit : All (LineFits cart.sc_pwd s.tax_rate) cart.lines
    pub order_fits : IsDiscount cart.order_discount
    -- Twice the subtotal: a service charge of up to the whole is added to it.
    pub subtotal_fits : (CartTotals.subtotal (compute_totals cart s) ≤ℤ pos 4_503_599_627_370_495)

-- The amounts of a priced cart.
abbrev pub AddsUp : CartTotals → Type 0
AddsUp t =
    (pos 0 ≤ℤ t.vat_exempt_sales)
    × (t.vat_exempt_sales ≤ℤ t.discounted_subtotal)
    × (t.discounted_subtotal ≤ℤ t.subtotal)
    × (pos 0 ≤ℤ t.service_charge)
    × (t.service_charge ≤ℤ t.discounted_subtotal)
    × (pos 0 ≤ℤ t.vat)
    × (pos 0 ≤ℤ t.vatable_sales)
    × (t.total ≡ t.vat_exempt_sales +ℤ t.vatable_sales +ℤ t.vat)

module _ {ℓ} {W : Type ℓ} ⦃d : Double W⦄ (laws : IsIeee W) where
  lines_within :
      (holder : Bool) (tax : W) (lines : List CartLine)
      → IsRate tax
      → All (LineFits holder tax) lines
      → All NetWithin (map (line_totals holder tax) lines)
  lines_within holder tax [] rate fits = tt
  lines_within holder tax (line ∷ lines) rate ((promo, safe), fits) =
      let h = line_totals-IsHigherOf laws holder tax line rate promo safe in
      ((h.0, h.1), lines_within holder tax lines rate fits)

  discounted_bounds :
      (cart : Cart) (s : Rates W)
      → IsPriced cart s
      → let t = compute_totals cart s in
        (pos 0 ≤ℤ t.vat_exempt_sales)
        × (t.vat_exempt_sales ≤ℤ t.discounted_subtotal)
        × (t.discounted_subtotal ≤ℤ t.subtotal)
  unfolding compute_totals
  discounted_bounds cart s ok =
      let ls = map (line_totals cart.sc_pwd s.tax_rate) cart.lines in
      let within = lines_within cart.sc_pwd s.tax_rate cart.lines ok.tax ok.lines_fit in
      let (o0, e0, within_gross) =
        net_sums_bounds ls (pos 0) (pos 0) (pos 0) within (omega arith) (omega arith)
          (omega int_laws) in
      let (d0, d1) =
        discount_amount_bounds cart.order_discount (sum_order_base (pos 0) ls) ok.order_fits o0 in
      omega (int_laws, parts (discounted_subtotal_by_lines cart s))

  service_bounds :
      (cart : Cart) (s : Rates W)
      → IsPriced cart s
      → let t = compute_totals cart s in
        (pos 0 ≤ℤ t.service_charge) × (t.service_charge ≤ℤ t.discounted_subtotal)
  unfolding compute_totals
  service_bounds cart s ok =
      let (e0, e1, high) = discounted_bounds cart s ok in
      let charged =
        mul_rate_bounds laws (CartTotals.discounted_subtotal (compute_totals cart s))
          s.service_charge_rate (omega arith, omega (arith, ok.subtotal_fits)) ok.service in
      elim (Bool-cases (is_dine_in cart.order_type)) [
        | inl here ↦ rw here charged
        | inr away ↦ rw away (omega arith, omega arith)
      ]

  -- The base of the VAT, and what is left of it.
  vat_bounds :
      (total exempt : ℤ) (tax : W)
      → IsRate tax
      → pos 0 ≤ℤ exempt
      → exempt ≤ℤ total
      → total ≤ℤ max_safe
      → let vat = vat_included (total -ℤ exempt) tax in
        (pos 0 ≤ℤ vat) × (pos 0 ≤ℤ total -ℤ exempt -ℤ vat)
  vat_bounds total exempt tax rate e0 e1 safe =
      let (low, high) =
        vat_included_bounds laws (total -ℤ exempt) tax (omega int_laws, omega int_laws) rate in
      (low, omega int_laws)

  -- With rates from 0 to 1, discounts that are not negative and gross amounts from 0 up, the subtotal
  -- below 2 ^ 52: no amount of the totals is negative, the discounts take no more than the subtotal,
  -- the SC/PWD lines are not discounted again, and the total splits into exempt sales, vatable
  -- sales and VAT.
  pub compute_totals-AddsUp :
      (cart : Cart) (s : Rates W) → IsPriced cart s → AddsUp (compute_totals cart s)
  unfolding compute_totals
  compute_totals-AddsUp cart s ok =
      let t = compute_totals cart s in
      let (e0, e1, high) = discounted_bounds cart s ok in
      let (s0, s1) = service_bounds cart s ok in
      let (v0, v1) =
        vat_bounds (t.discounted_subtotal +ℤ t.service_charge) t.vat_exempt_sales s.tax_rate ok.tax
          e0 (omega int_laws) (omega (int_laws, ok.subtotal_fits)) in
      (e0, e1, high, s0, s1, v0, v1, omega int_laws)
