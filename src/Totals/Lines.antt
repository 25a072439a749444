-- ===== src/Totals/Lines.antt =====
-- The discounts of one line in `computeTotals` of src/common/totals/totals.ts.
use sentry_pos_be.Common.{
  ◌≡◌, ◌↔◌, ◌&&◌, Bool, Option, none, some, ℤ, pos, negsuc, ◌-ℤ◌, ◌≤ℤ◌, ◌<ℤ◌, leb_ℤ, if◌then◌else◌,
  arith, int_laws, Bool-cases, inl, inr,
}
use sentry_pos_be.Money.{Double, mul_qty_price, without_vat}
use sentry_pos_be.Money.Laws.{IsSafe, IsRate, IsIeee}
use sentry_pos_be.Money.Bounds.{pct_bounds, pct_nonneg, without_vat_bounds}
use sentry_pos_be.Cart.{DiscountKind, DiscountSpec, value, CartLine, line_unit_with_mods}
use sentry_pos_be.Totals.{
  Applied, raw_discount, discount_amount, choose, applied_amount, sc_pwd_amount, LineTotals,
  line_totals,
}

-- A discount whose value is not negative.
abbrev pub IsDiscount : Option DiscountSpec → Type 0
IsDiscount none = Unit {0}
IsDiscount (some d) = pos 0 ≤ℤ value d

abbrev pub max_ℤ : ℤ → ℤ → ℤ
max_ℤ a b = if leb_ℤ a b then b else a

raw_discount_nonneg :
    (k : DiscountKind) (v base : ℤ) → pos 0 ≤ℤ v → pos 0 ≤ℤ base → pos 0 ≤ℤ raw_discount k v base
unfolding raw_discount
raw_discount_nonneg DiscountKind.percent v base hv hb = pct_nonneg base v hb hv
raw_discount_nonneg DiscountKind.fixed v base hv hb = hv

-- A discount that is not negative takes between nothing and the whole base.
pub discount_amount_bounds :
    (d : Option DiscountSpec) (base : ℤ)
    → IsDiscount d
    → pos 0 ≤ℤ base
    → (pos 0 ≤ℤ discount_amount d base) × (discount_amount d base ≤ℤ base)
unfolding discount_amount
discount_amount_bounds none base v h = (omega arith, h)
discount_amount_bounds (some (DiscountSpec.named r k v)) base hv h =
    ground (arith, raw_discount_nonneg k v base hv h)
discount_amount_bounds (some (DiscountSpec.free k v)) base hv h =
    ground (arith, raw_discount_nonneg k v base hv h)

-- What `choose` does to a line with both candidates between nothing and the line.
abbrev pub IsHigherOf : LineTotals → Type 0
IsHigherOf t =
    (pos 0 ≤ℤ t.net)
    × (t.net ≤ℤ t.gross)
    × (t.gross -ℤ t.net ≡ max_ℤ t.promo_discount t.sc_pwd_discount)
    × ((t.applied ≡ Applied.scpwd)
        ↔ ((t.promo_discount ≤ℤ t.sc_pwd_discount) × (pos 0 <ℤ t.sc_pwd_discount)))
    × ((t.applied ≡ Applied.promo) ↔ (t.sc_pwd_discount <ℤ t.promo_discount))

choose_higher :
    (g p s : ℤ)
    → pos 0 ≤ℤ p
    → p ≤ℤ g
    → pos 0 ≤ℤ s
    → s ≤ℤ g
    → let net = g -ℤ applied_amount (choose p s) p s in
      (pos 0 ≤ℤ net)
      × (net ≤ℤ g)
      × (g -ℤ net ≡ max_ℤ p s)
      × ((choose p s ≡ Applied.scpwd) ↔ ((p ≤ℤ s) × (pos 0 <ℤ s)))
      × ((choose p s ≡ Applied.promo) ↔ (s <ℤ p))
unfolding choose applied_amount ◌-ℤ◌
choose_higher (pos g) (pos p) (pos s) p0 pg s0 sg = grind arith
choose_higher (negsuc g) p s p0 pg s0 sg = absurd (omega arith)
choose_higher g (negsuc p) s p0 pg s0 sg = absurd (omega arith)
choose_higher g p (negsuc s) p0 pg s0 sg = absurd (omega arith)

module _ {ℓ} {W : Type ℓ} ⦃d : Double W⦄ (laws : IsIeee W) where
  sc_pwd_amount_bounds :
      (holder : Bool) (tax : W) (line : CartLine) (gross : ℤ)
      → IsSafe gross
      → IsRate tax
      → (pos 0 ≤ℤ sc_pwd_amount holder tax line gross)
        × (sc_pwd_amount holder tax line gross ≤ℤ gross)
  unfolding sc_pwd_amount
  sc_pwd_amount_bounds holder tax line gross safe rate =
      let (low, high) = without_vat_bounds laws gross tax safe rate in
      let (low', high') =
        pct_bounds (without_vat gross tax) (pos 80) low (omega arith) (omega arith) in
      elim (Bool-cases (holder && line.sc_pwd_marked)) [
        | inl marked ↦ rw marked (omega int_laws)
        | inr plain ↦ rw plain (omega arith, safe.0)
      ]

  -- With a tax rate from 0 to 1, a line discount that is not negative and a gross amount from 0 to
  -- `Number.MAX_SAFE_INTEGER`, the net amount of a line lies between 0 and the gross amount; what
  -- comes off is the larger of the promo and the SC/PWD amount, never both; and a tie that is not
  -- zero goes to SC/PWD.
  pub line_totals-IsHigherOf :
      (holder : Bool) (tax : W) (line : CartLine)
      → IsRate tax
      → IsDiscount line.discount
      → IsSafe (LineTotals.gross (line_totals holder tax line))
      → IsHigherOf (line_totals holder tax line)
  unfolding line_totals
  line_totals-IsHigherOf holder tax line rate promo safe =
      let gross = mul_qty_price line.qty (line_unit_with_mods line) in
      let (p0, pg) = discount_amount_bounds line.discount gross promo safe.0 in
      let (s0, sg) = sc_pwd_amount_bounds holder tax line gross safe rate in
      choose_higher gross (discount_amount line.discount gross)
        (sc_pwd_amount holder tax line gross) p0 pg s0 sg
