-- ===== src/Totals.antt =====
-- src/common/totals/totals.ts: the totals of a cart, as the terminal and the server both compute
-- them.
pub mod Lines
pub mod Sums
pub mod Bounds
mod Tests
use sentry_pos_be.Common.{
  ℕ, Bool, true, false, ◌&&◌, ◌||◌, Option, none, some, List, [], ◌∷◌, map, ℤ, pos, ◌+ℤ◌, ◌-ℤ◌,
  ltb_ℤ, leb_ℤ, min_ℤ, if◌then◌else◌,
}
use sentry_pos_be.Money.{Double, pct, mul_qty_price, mul_rate, vat_included, without_vat}
use sentry_pos_be.Cart.{
  OrderType, DiscountKind, DiscountSpec, kind, value, CartLine, Cart, line_unit_with_mods,
}

pub data Applied : Type 0 where
  promo scpwd nothing : Applied

pub record LineTotals : Type 0 where
  pub line_id : ℕ
  pub gross : ℤ
  pub promo_discount : ℤ
  pub sc_pwd_discount : ℤ
  pub applied : Applied
  pub net : ℤ

pub record CartTotals : Type 0 where
  pub lines : List LineTotals
  pub subtotal : ℤ
  pub promo_discount : ℤ
  pub sc_pwd_discount : ℤ
  pub discounted_subtotal : ℤ
  pub service_charge : ℤ
  pub total : ℤ
  pub vat_exempt_sales : ℤ
  pub vat : ℤ
  pub vatable_sales : ℤ

pub record Rates {ℓ} (W : Type ℓ) : Type ℓ where
  pub tax_rate : W
  pub service_charge_rate : W

raw_discount : DiscountKind → ℤ → ℤ → ℤ
raw_discount DiscountKind.percent v base = pct base v
raw_discount DiscountKind.fixed v base = v

unfoldable pub discount_amount : Option DiscountSpec → ℤ → ℤ
unfolding raw_discount
discount_amount none base = pos 0
discount_amount (some d) base =
    if leb_ℤ base (pos 0) then pos 0 else min_ℤ (raw_discount (kind d) (value d) base) base

choose : ℤ → ℤ → Applied
choose promo_amount sc_pwd_amount =
    if ltb_ℤ (pos 0) promo_amount || ltb_ℤ (pos 0) sc_pwd_amount
    then (if leb_ℤ promo_amount sc_pwd_amount then Applied.scpwd else Applied.promo)
    else Applied.nothing

pub applied_amount : Applied → ℤ → ℤ → ℤ
applied_amount Applied.scpwd promo_amount sc_pwd_amount = sc_pwd_amount
applied_amount Applied.promo promo_amount sc_pwd_amount = promo_amount
applied_amount Applied.nothing promo_amount sc_pwd_amount = pos 0

-- The reductions of `computeTotals`, each from its own start.
unfoldable pub sum_gross : ℤ → List LineTotals → ℤ
sum_gross sum [] = sum
sum_gross sum (l ∷ ls) = sum_gross (sum +ℤ l.gross) ls

abbrev pub when_promo : Applied → ℤ → ℤ → ℤ
when_promo Applied.promo x sum = sum +ℤ x
when_promo Applied.scpwd x sum = sum
when_promo Applied.nothing x sum = sum

abbrev pub when_scpwd : Applied → ℤ → ℤ → ℤ
when_scpwd Applied.scpwd x sum = sum +ℤ x
when_scpwd Applied.promo x sum = sum
when_scpwd Applied.nothing x sum = sum

abbrev pub unless_scpwd : Applied → ℤ → ℤ → ℤ
unless_scpwd Applied.scpwd x sum = sum
unless_scpwd Applied.promo x sum = sum +ℤ x
unless_scpwd Applied.nothing x sum = sum +ℤ x

unfoldable pub sum_promo : ℤ → List LineTotals → ℤ
sum_promo sum [] = sum
sum_promo sum (l ∷ ls) = sum_promo (when_promo l.applied l.promo_discount sum) ls

unfoldable pub sum_scpwd : ℤ → List LineTotals → ℤ
sum_scpwd sum [] = sum
sum_scpwd sum (l ∷ ls) = sum_scpwd (when_scpwd l.applied l.sc_pwd_discount sum) ls

unfoldable pub sum_order_base : ℤ → List LineTotals → ℤ
sum_order_base sum [] = sum
sum_order_base sum (l ∷ ls) = sum_order_base (unless_scpwd l.applied l.net sum) ls

unfoldable pub sum_exempt : ℤ → List LineTotals → ℤ
sum_exempt sum [] = sum
sum_exempt sum (l ∷ ls) = sum_exempt (when_scpwd l.applied l.net sum) ls

abbrev pub is_dine_in : OrderType → Bool
is_dine_in OrderType.dine_in = true
is_dine_in OrderType.takeout = false
is_dine_in OrderType.unspecified = false

module _ {ℓ} {W : Type ℓ} ⦃d : Double W⦄ where
  sc_pwd_amount : Bool → W → CartLine → ℤ → ℤ
  sc_pwd_amount holder tax line gross =
      if holder && line.sc_pwd_marked then gross -ℤ pct (without_vat gross tax) (pos 80) else pos 0

  -- The callback of `cart.lines.map`.
  unfoldable pub line_totals : Bool → W → CartLine → LineTotals
  unfolding sc_pwd_amount choose applied_amount
  line_totals holder tax line =
      let gross = mul_qty_price line.qty (line_unit_with_mods line) in
      let promo_amount = discount_amount line.discount gross in
      let scpwd_amount = sc_pwd_amount holder tax line gross in
      let applied = choose promo_amount scpwd_amount in
      record {
        line_id = line.id;
        gross = gross;
        promo_discount = promo_amount;
        sc_pwd_discount = scpwd_amount;
        applied = applied;
        net = gross -ℤ applied_amount applied promo_amount scpwd_amount;
      }

  unfoldable pub compute_totals : Cart → Rates W → CartTotals
  compute_totals cart s =
      let lines = map (line_totals cart.sc_pwd s.tax_rate) cart.lines in
      let subtotal = sum_gross (pos 0) lines in
      let sc_pwd_discount = sum_scpwd (pos 0) lines in
      let order_discount = discount_amount cart.order_discount (sum_order_base (pos 0) lines) in
      let promo_discount = sum_promo (pos 0) lines +ℤ order_discount in
      let discounted = subtotal -ℤ promo_discount -ℤ sc_pwd_discount in
      let service =
        if is_dine_in cart.order_type then mul_rate discounted s.service_charge_rate else pos 0 in
      let total = discounted +ℤ service in
      let exempt = sum_exempt (pos 0) lines in
      let vat = vat_included (total -ℤ exempt) s.tax_rate in
      record {
        lines = lines;
        subtotal = subtotal;
        promo_discount = promo_discount;
        sc_pwd_discount = sc_pwd_discount;
        discounted_subtotal = discounted;
        service_charge = service;
        total = total;
        vat_exempt_sales = exempt;
        vat = vat;
        vatable_sales = total -ℤ exempt -ℤ vat;
      }
