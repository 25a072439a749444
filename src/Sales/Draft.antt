-- ===== src/Sales/Draft.antt =====
-- src/pos/sales/sales.service.ts, the checks of a draft before the transaction: `validateLines`,
-- `validateDiscounts`, `assertPayment` and the comparison of the two totals.
use sentry_pos_be.Common.{
  ℕ, Bool, true, false, not, ◌&&◌, ◌==◌, Option, none, some, List, [], ◌∷◌, ◌++◌, ℤ, ◌-ℤ◌, eq_ℤ,
  ltb_ℤ, if◌then◌else◌, find, keep, any, Error, Result, ok, err, ◌>>◌, throw_if,
}
use sentry_pos_be.Cart.{CartLine, Cart, DiscountSpec, Ref}
use sentry_pos_be.Totals.{Applied, LineTotals, CartTotals}
use sentry_pos_be.Db.{Variant, Product, Payment, PaymentMethod, Db}

abbrev pub Costs : Type 0
Costs = List (ℕ × Option ℤ)

-- `allowedBusinessIds` of src/prisma/scoped-prisma.ts: the owner's live businesses.
unfoldable pub owns_business : {W : Type 0} → Db W → ℕ → ℕ → Bool
owns_business db owner business =
    any (λ b. b.id == business && b.owner_id == owner && not b.deleted) db.businesses

unfoldable pub find_product : {W : Type 0} → Db W → ℕ → ℕ → Option Product
find_product db business id =
    find (λ p. p.id == id && p.business_id == business && not p.deleted) db.products

unfoldable pub live_variants : Product → List Variant
live_variants p = keep (λ v. not v.deleted) p.variants

variant_cost : Option ℕ → List Variant → Result (Option ℤ)
variant_cost none vs = err Error.validation
variant_cost (some id) vs = elim (find (λ v. v.id == id) vs) [
  | none ↦ err Error.validation
  | some v ↦ ok v.cost
]

cost_of : Product → Option ℕ → List Variant → Result (Option ℤ)
unfolding variant_cost
cost_of p none [] = ok p.cost
cost_of p (some id) [] = err Error.validation
cost_of p variant (v ∷ vs) = variant_cost variant (v ∷ vs)

-- The loop of `validateLines`; the map `costByLine` has its newest entry first.
unfoldable pub validate_lines : {W : Type 0} → Db W → ℕ → Costs → List CartLine → Result Costs
unfolding find_product live_variants cost_of
validate_lines db business costs [] = ok costs
validate_lines db business costs (line ∷ lines) = elim line.product_id [
  | none ↦ validate_lines db business costs lines
  | some id ↦ elim (find_product db business id) [
    | none ↦ err Error.validation
    | some p ↦ elim (cost_of p line.variant_id (live_variants p)) [
      | ok cost ↦ validate_lines db business ((line.id, cost) ∷ costs) lines
      | err e ↦ err e
    ]
  ]
]

pub named_ref : Option DiscountSpec → List Ref
named_ref none = []
named_ref (some (DiscountSpec.named ref _ _)) = ref ∷ []
named_ref (some (DiscountSpec.free _ _)) = []

pub line_refs : List CartLine → List Ref
unfolding named_ref
line_refs [] = []
line_refs (line ∷ lines) = named_ref line.discount ++ line_refs lines

is_malformed : Ref → Bool
is_malformed Ref.malformed = true
is_malformed (Ref.uuid _) = false

-- The discounts that the scoped client lets the owner see.
unfoldable pub is_known : {W : Type 0} → Db W → ℕ → Ref → Bool
unfolding owns_business
is_known db owner Ref.malformed = false
is_known db owner (Ref.uuid id) =
    any (λ x. x.id == id && owns_business db owner x.business_id && not x.deleted) db.discounts

unfoldable pub validate_discounts : {W : Type 0} → Db W → ℕ → Cart → Result (Unit {0})
unfolding named_ref line_refs is_malformed is_known
validate_discounts db owner cart =
    let refs = named_ref cart.order_discount ++ line_refs cart.lines in
    throw_if (any is_malformed refs) Error.validation
    >> throw_if (any (λ r. not (is_known db owner r)) refs) Error.validation

is_cash : PaymentMethod → Bool
is_cash PaymentMethod.cash = true
is_cash PaymentMethod.card = false
is_cash PaymentMethod.gcash = false
is_cash PaymentMethod.maya = false
is_cash PaymentMethod.other = false

unfoldable pub assert_payment : Payment → ℤ → Result (Unit {0})
unfolding is_cash
assert_payment payment total =
    throw_if (not (eq_ℤ payment.amount total)) Error.validation
    >> (if is_cash payment.method
        then (throw_if (ltb_ℤ payment.tendered total) Error.validation
            >> throw_if (not (eq_ℤ payment.change (payment.tendered -ℤ total))) Error.validation)
        else ok tt)

abbrev applied_eq : Applied → Applied → Bool
applied_eq Applied.promo Applied.promo = true
applied_eq Applied.scpwd Applied.scpwd = true
applied_eq Applied.nothing Applied.nothing = true
applied_eq _ _ = false

line_eq : LineTotals → LineTotals → Bool
line_eq a b =
    a.line_id == b.line_id
    && eq_ℤ a.gross b.gross
    && eq_ℤ a.promo_discount b.promo_discount
    && eq_ℤ a.sc_pwd_discount b.sc_pwd_discount
    && applied_eq a.applied b.applied
    && eq_ℤ a.net b.net

lines_eq : List LineTotals → List LineTotals → Bool
lines_eq [] [] = true
lines_eq (a ∷ xs) (b ∷ ys) = line_eq a b && lines_eq xs ys
lines_eq _ _ = false

-- `canonical(totals) === canonical(dto.totals)`: the same fields with the same values, in any order.
unfoldable pub totals_eq : CartTotals → CartTotals → Bool
unfolding line_eq lines_eq
totals_eq a b =
    lines_eq a.lines b.lines
    && eq_ℤ a.subtotal b.subtotal
    && eq_ℤ a.promo_discount b.promo_discount
    && eq_ℤ a.sc_pwd_discount b.sc_pwd_discount
    && eq_ℤ a.discounted_subtotal b.discounted_subtotal
    && eq_ℤ a.service_charge b.service_charge
    && eq_ℤ a.total b.total
    && eq_ℤ a.vat_exempt_sales b.vat_exempt_sales
    && eq_ℤ a.vat b.vat
    && eq_ℤ a.vatable_sales b.vatable_sales
