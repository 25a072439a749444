-- ===== src/Trade.antt =====
-- The writes on one database, src/pos/sales/sales.service.ts, src/pos/shifts/shifts.service.ts and
-- src/portal/stock/stock.service.ts together, as a step relation: requests that are carried out one after
-- the other in any order, each check of a draft on any earlier or later state of the tables.
pub mod Rows
pub mod Sold
pub mod Invariant
pub mod Moves
pub mod Undo
pub mod Drawer
mod Tests
use sentry_pos_be.Common.{
  ℕ, ◌≡◌, Bool, true, false, Option, none, some, is_some, List, [], ◌∷◌, ℤ, All, Result, ok, err,
}
use sentry_pos_be.Text.{Text}
use sentry_pos_be.Money.{Double}
use sentry_pos_be.KeyMap.{Key}
use sentry_pos_be.Restock.{ReceiveLine, receive_once, adjust_once}
use sentry_pos_be.Cart.{Cart, Ref}
use sentry_pos_be.Inventory.{Movement, ReasonCategory, Stock}
use sentry_pos_be.Inventory.Balance.{IsBalanced}
use sentry_pos_be.Db.{CashMovementType, CashMovement, Shift, SaleDraft, Sale, Db, Ctx}
use sentry_pos_be.Sales.Complete.{find_any_sale, receipt_taken, complete_sale}
use sentry_pos_be.Sales.Complete.Persist.{HasPositive}
use sentry_pos_be.Sales.Reverse.{is_sale_type, void_sale, refund_checked}
use sentry_pos_be.Shifts.{ZReport, open_shift, add_cash_movement, close_shift}
use sentry_pos_be.Shifts.Lifecycle.{find_shift, ShiftsAreSound}

module _ {W : Type 0} ⦃d : Double W⦄ where
  -- A request that goes through. A refund is its part past the PIN, which writes no other table.
  pub data Step : Db W → Db W → Type 0 where
    sold :
        (ctx : Ctx) (pre db after : Db W) (draft : SaleDraft) (now : ℕ) (replayed : Bool)
        (sale : Sale)
        → HasPositive (Cart.lines draft.cart)
        → complete_sale ctx pre db draft now ≡ ok (replayed, sale, after)
        → Step db after
    voided :
        (ctx : Ctx) (db after : Db W) (id : ℕ) (reason : Text) (now : ℕ) (sale : Sale)
        → void_sale ctx db (Ref.uuid id) reason now ≡ ok (sale, after)
        → Step db after
    refunded :
        (ctx : Ctx) (db after : Db W) (id : ℕ) (reason : Text) (now : ℕ) (sale : Sale)
        → refund_checked ctx db (Ref.uuid id) reason now ≡ ok (sale, after)
        → Step db after
    opened :
        (ctx : Ctx) (db after : Db W) (id : ℕ) (opening : ℤ) (now : ℕ) (shift : Shift)
        → find_shift id db.shifts ≡ none
        → open_shift ctx db id opening now ≡ ok (shift, after)
        → Step db after
    cash_moved :
        (ctx : Ctx) (db after : Db W) (id : ℕ) (kind : CashMovementType) (amount : ℤ)
        (reason : Text) (now : ℕ) (m : CashMovement)
        → add_cash_movement ctx db id kind amount reason now ≡ ok (m, after)
        → Step db after
    closed :
        (ctx : Ctx) (db after : Db W) (counted : ℤ) (now : ℕ) (z : ZReport)
        → close_shift ctx db counted now ≡ ok (z, after)
        → Step db after
    received :
        (owner branch operation now : ℕ) (lines : List ReceiveLine) (db after : Db W)
        → receive_once owner branch operation now lines db ≡ ok after
        → Step db after
    adjusted :
        (owner : ℕ) (k : Key) (new_qty : ℕ) (reason : ReasonCategory) (movement : ℕ)
        (db after : Db W)
        → adjust_once owner k new_qty reason movement db ≡ ok after
        → Step db after

  pub data Steps : Db W → Db W → Type 0 where
    done : (db : Db W) → Steps db db
    then : {a b c : Db W} → Steps a b → Step b c → Steps a c

-- No two sales have the same id, and no two of a terminal the same receipt number.
abbrev pub SalesAreDistinct : List Sale → Type 0
SalesAreDistinct [] = Unit
SalesAreDistinct (s ∷ sales) =
    (find_any_sale s.id sales ≡ none)
    × (receipt_taken s.terminal_id s.receipt_no sales ≡ false)
    × SalesAreDistinct sales

-- A movement of a sale names a sale that is stored.
abbrev pub IsRooted : List Sale → Movement → Type 0
IsRooted sales m =
    is_sale_type m.movement_type ≡ true → is_some (find_any_sale m.ref_id sales) ≡ true

pub record IsSound {W : Type 0} (db : Db W) : Type 0 where
  pub balanced : IsBalanced (Db.stock db)
  pub distinct : SalesAreDistinct db.sales
  pub rooted : All (IsRooted db.sales) (Stock.movements (Db.stock db))
  pub shifts_sound : ShiftsAreSound db.shifts
