-- ===== src/Db.antt =====
-- The tables of prisma/schema.prisma that selling, refunding and the shifts read and write, and the
-- context that `TerminalGuard` stamps on a terminal's requests. A time is a number of milliseconds, an
-- id a number. Nothing in the repository deletes a sale, a shift, a stock level or a movement, so
-- those tables have no `deleted_at`; the audit rows that the scoped client adds to each write belong
-- to another component and are left out, as are names, codes and notes that are only carried along.
use sentry_pos_be.Common.{ℕ, Bool, Option, List, ℤ}
use sentry_pos_be.Text.{Text}
use sentry_pos_be.Cart.{OrderType, DiscountKind, CartModifier, Cart, Ref}
use sentry_pos_be.Totals.{CartTotals, Rates}
use sentry_pos_be.Inventory.{Stock}

pub data PaymentMethod : Type 0 where
  cash card gcash maya other : PaymentMethod

pub data SaleStatus : Type 0 where
  completed voided refunded : SaleStatus

pub data CashMovementType : Type 0 where
  cash_in cash_out : CashMovementType

pub record Business (W : Type 0) : Type 0 where
  pub id : ℕ
  pub owner_id : ℕ
  pub deleted : Bool
  pub rates : Rates W

pub record Variant : Type 0 where
  pub id : ℕ
  pub cost : Option ℤ
  pub deleted : Bool

pub record Product : Type 0 where
  pub id : ℕ
  pub business_id : ℕ
  pub cost : Option ℤ
  pub variants : List Variant
  pub track_expiry : Bool
  pub deleted : Bool

pub record Branch : Type 0 where
  pub id : ℕ
  pub business_id : ℕ
  pub deleted : Bool

pub record StockBatch : Type 0 where
  pub product_id : ℕ
  pub variant_id : Option ℕ
  pub qty : ℕ
  pub received_at : ℕ
  pub expires_at : Option ℕ
  pub unit_cost : Option ℤ

pub data AppliesTo : Type 0 where
  line order both : AppliesTo

pub record Discount : Type 0 where
  pub id : ℕ
  pub business_id : ℕ
  pub kind : DiscountKind
  pub value : ℤ
  pub applies_to : AppliesTo
  pub active : Bool
  pub deleted : Bool

pub record Terminal : Type 0 where
  pub id : ℕ
  pub branch_id : ℕ
  pub receipt_seq : ℕ

pub record CashMovement : Type 0 where
  pub id : ℕ
  pub cash_type : CashMovementType
  pub amount : ℤ
  pub reason : Text
  pub at : ℕ

pub record Shift : Type 0 where
  pub id : ℕ
  pub branch_id : ℕ
  pub terminal_id : ℕ
  pub opened_at : ℕ
  pub closed_at : Option ℕ
  pub opening_cash : ℤ
  pub closing_cash : Option ℤ
  pub expected_cash : Option ℤ
  pub cash_movements : List CashMovement

-- The id is the client's, and the primary key of the row.
pub record Payment : Type 0 where
  pub id : ℕ
  pub method : PaymentMethod
  pub amount : ℤ
  pub tendered : ℤ
  pub change : ℤ

-- The body of `POST /v1/pos/sales`, after the DTO's validation.
pub record SaleDraft : Type 0 where
  pub id : ℕ
  pub receipt_no : Text
  pub shift_id : ℕ
  pub cart : Cart
  pub totals : CartTotals
  pub payment : Payment
  pub created_at_device : ℕ

pub record SaleItem : Type 0 where
  pub product_id : Option ℕ
  pub variant_id : Option ℕ
  pub qty : ℕ
  pub unit_price : ℤ
  pub cost_snapshot : Option ℤ
  pub discount : ℤ
  pub discount_id : Option Ref
  pub modifiers : List CartModifier

pub record Sale : Type 0 where
  pub id : ℕ
  pub branch_id : ℕ
  pub terminal_id : ℕ
  pub shift_id : ℕ
  pub receipt_no : Text
  pub order_type : OrderType
  pub status : SaleStatus
  pub status_reason : Option Text
  pub subtotal : ℤ
  pub discount : ℤ
  pub discount_id : Option Ref
  pub service_charge : ℤ
  pub sc_pwd_discount : ℤ
  pub vat_exempt_sales : ℤ
  pub tax : ℤ
  pub total : ℤ
  pub created_at : ℕ
  pub voided_at : Option ℕ
  pub refunded_at : Option ℕ
  pub refund_shift_id : Option ℕ
  pub items : List SaleItem
  pub payments : List Payment
  pub draft : SaleDraft

pub record Db (W : Type 0) : Type 0 where
  pub businesses : List (Business W)
  pub branches : List Branch
  pub products : List Product
  pub batches : List StockBatch
  pub discounts : List Discount
  pub terminals : List Terminal
  pub shifts : List Shift
  pub sales : List Sale
  pub stock : Stock

-- The request context of a terminal.
pub record Ctx : Type 0 where
  pub owner_id : ℕ
  pub business_id : ℕ
  pub branch_id : ℕ
  pub terminal_id : ℕ
