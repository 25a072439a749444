-- ===== src/Cart.antt =====
-- src/common/totals/cart.ts: the cart that the terminal sends. An id is a number, as ids are only
-- compared; `Ref.malformed` is an id that `UUID_RE` of src/pos/sales/sales.service.ts refuses.
-- Names and the SC/PWD holder's data are carried along and never read, so they are left out.
use sentry_pos_be.Common.{ℕ, Bool, Option, List, [], ◌∷◌, ℤ, ◌+ℤ◌}

pub data OrderType : Type 0 where
  dine_in takeout unspecified : OrderType

pub data Ref : Type 0 where
  uuid : ℕ → Ref
  malformed : Ref

pub data DiscountKind : Type 0 where
  percent fixed : DiscountKind

-- The value is a whole number, of percent or of centavos. The DTO lets any value through.
pub data DiscountSpec : Type 0 where
  named : Ref → DiscountKind → ℤ → DiscountSpec
  free : DiscountKind → ℤ → DiscountSpec

abbrev pub kind : DiscountSpec → DiscountKind
kind (DiscountSpec.named _ k _) = k
kind (DiscountSpec.free k _) = k

abbrev pub value : DiscountSpec → ℤ
value (DiscountSpec.named _ _ v) = v
value (DiscountSpec.free _ v) = v

pub record CartModifier : Type 0 where
  pub group_id : ℕ
  pub modifier_id : ℕ
  pub price_delta : ℤ

-- `qty` is in thousandths: the DTO allows three decimals and asks for a positive number.
pub record CartLine : Type 0 where
  pub id : ℕ
  pub product_id : Option ℕ
  pub variant_id : Option ℕ
  pub qty : ℕ
  pub unit_price : ℤ
  pub modifiers : List CartModifier
  pub discount : Option DiscountSpec
  pub sc_pwd_marked : Bool
  pub track_stock : Bool

pub record Cart : Type 0 where
  pub order_type : OrderType
  pub lines : List CartLine
  pub order_discount : Option DiscountSpec
  pub sc_pwd : Bool

add_deltas : ℤ → List CartModifier → ℤ
add_deltas sum [] = sum
add_deltas sum (m ∷ ms) = add_deltas (sum +ℤ m.price_delta) ms

unfoldable pub line_unit_with_mods : CartLine → ℤ
unfolding add_deltas
line_unit_with_mods line = add_deltas line.unit_price line.modifiers
