-- ===== src/Totals/Tests.antt =====
-- The carts of src/common/totals/totals.spec.ts, and the theorems at them.
use sentry_pos_be.Common.{◌≡◌, refl, true, false, none, some, [], ◌∷◌, pos, ◌+ℤ◌, ◌-ℤ◌, ◌*ℤ◌, arith}
use sentry_pos_be.Money.{pct, mul_qty_price, mul_rate, vat_included, without_vat}
use sentry_pos_be.Money.Fixed.{Fixed, fixed, fixed_double, fixed-IsIeee}
use sentry_pos_be.Cart.{
  OrderType, DiscountKind, DiscountSpec, Ref, CartLine, Cart, line_unit_with_mods,
}
use sentry_pos_be.Totals.{
  CartTotals, Rates, line_totals, compute_totals, discount_amount, sum_gross, sum_promo, sum_scpwd,
  sum_order_base, sum_exempt,
}
use sentry_pos_be.Totals.Lines.{IsHigherOf, line_totals-IsHigherOf}
use sentry_pos_be.Totals.Bounds.{AddsUp, IsPriced, compute_totals-AddsUp}

abbrev rates : Rates Fixed
rates = record { tax_rate = fixed (pos 120_000_000); service_charge_rate = fixed (pos 50_000_000) }

abbrev latte : CartLine
latte = record {
  id = 1;
  product_id = some 1;
  variant_id = none;
  qty = 1000;
  unit_price = pos 14500;
  modifiers = record { group_id = 1; modifier_id = 1; price_delta = pos 2500 } ∷ [];
  discount = none;
  sc_pwd_marked = true;
  track_stock = false;
}

abbrev pan_de_sal : CartLine
pan_de_sal = record latte { id = 2; unit_price = pos 1200; qty = 6000; modifiers = [] }

abbrev ensaymada : CartLine
ensaymada = record latte {
  id = 3;
  unit_price = pos 5500;
  qty = 2000;
  modifiers = [];
  discount = some (DiscountSpec.named (Ref.uuid 1) DiscountKind.percent (pos 10));
}

abbrev rice : CartLine
rice = record latte { id = 4; unit_price = pos 9500; qty = 750; modifiers = [] }

abbrev design_cart : Cart
design_cart = record {
  order_type = OrderType.dine_in;
  lines = latte ∷ pan_de_sal ∷ ensaymada ∷ rice ∷ [];
  order_discount = none;
  sc_pwd = false;
}

-- An SC/PWD line beside a plain one, with an order discount.
abbrev mixed_cart : Cart
mixed_cart = record {
  order_type = OrderType.unspecified;
  lines =
      record latte { unit_price = pos 10000; modifiers = [] }
      ∷ record latte { id = 2; unit_price = pos 10000; modifiers = []; sc_pwd_marked = false }
      ∷ [];
  order_discount = some (DiscountSpec.free DiscountKind.percent (pos 10));
  sc_pwd = true;
}

totals : Cart → CartTotals
unfolding compute_totals line_totals discount_amount line_unit_with_mods mul_qty_price pct mul_rate
    vat_included without_vat sum_gross sum_promo sum_scpwd sum_order_base sum_exempt ◌+ℤ◌ ◌-ℤ◌ ◌*ℤ◌
totals cart = compute_totals cart rates

design_cart_totals :
    let t = totals design_cart in
    (t.subtotal ≡ pos 42325)
    × (t.promo_discount ≡ pos 1100)
    × (t.service_charge ≡ pos 2061)
    × (t.total ≡ pos 43286)
    × (t.vat ≡ pos 4638)
    × (t.vatable_sales ≡ pos 38648)
unfolding totals
design_cart_totals = (refl, refl, refl, refl, refl, refl)

mixed_cart_totals :
    let t = totals mixed_cart in
    (t.sc_pwd_discount ≡ pos 2857) × (t.promo_discount ≡ pos 1000) × (t.total ≡ pos 16143)
unfolding totals
mixed_cart_totals = (refl, refl, refl)

design-IsPriced : IsPriced design_cart rates
unfolding totals
design-IsPriced = record {
  tax = (refl, refl);
  service = (refl, refl);
  lines_fit = omega arith;
  order_fits = tt;
  subtotal_fits = omega arith;
}

compute_totals-AddsUp_example : AddsUp (compute_totals design_cart rates)
compute_totals-AddsUp_example = compute_totals-AddsUp fixed-IsIeee design_cart rates design-IsPriced

line_totals-IsHigherOf_example : IsHigherOf (line_totals true (fixed (pos 120_000_000)) ensaymada)
unfolding totals
line_totals-IsHigherOf_example =
    line_totals-IsHigherOf fixed-IsIeee true (fixed (pos 120_000_000)) ensaymada (refl, refl)
      (omega arith) (omega arith)
