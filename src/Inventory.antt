-- ===== src/Inventory.antt =====
-- The tables `branch_stock` and `stock_movements` of prisma/schema.prisma, which the POS sales and
-- the portal's stock operations share. The two partial unique indexes of the constraints migration make
-- `branch_stock` a map from (branch, product, variant) to a level, and nothing deletes its rows, so
-- the row that a `findFirst` finds is the row that the update by its id writes. Levels are in
-- thousandths and stay natural numbers, as `branch_stock_qty_nonnegative` refuses any other.
-- Movements stand newest first. Notes on a movement are left out.
pub mod Balance
use sentry_pos_be.Common.{
  ℕ, ◌+◌, ◌-◌, Bool, ◌&&◌, ◌==◌, opt_eq, Option, none, some, List, [], ◌∷◌, ℤ, pos, ◌+ℤ◌, leb,
  if◌then◌else◌, Error, Result, ok, err,
}
use sentry_pos_be.KeyMap.{Key, KeyMap, lookup, insert}

pub data MovementType : Type 0 where
  sale void refund adjustment receive transfer_out transfer_in : MovementType

pub data ReasonCategory : Type 0 where
  damage expiry theft_loss count_correction other : ReasonCategory

pub record Movement : Type 0 where
  pub key : Key
  pub movement_type : MovementType
  pub ref_id : ℕ
  pub qty_delta : ℤ
  pub unit_cost : Option ℤ
  pub reason_category : Option ReasonCategory

pub record Stock : Type 0 where
  pub levels : KeyMap ℕ
  pub movements : List Movement

-- A missing row counts as an empty one.
abbrev pub level : Key → KeyMap ℕ → ℕ
level k d = elim (lookup k d) [ none ↦ 0 | some q ↦ q ]

-- `qty: { increment }` on the row found, or a new row: `addToLevel` of the stock service and the
-- loop body of `restoreStock` of the sales service.
unfoldable pub add_to_level : Key → ℕ → KeyMap ℕ → KeyMap ℕ
add_to_level k q d = elim (lookup k d) [ none ↦ insert k q d | some old ↦ insert k (old + q) d ]

-- `qty: { decrement }` on the row of a key, under the CHECK.
unfoldable pub take_from_level : Key → ℕ → KeyMap ℕ → Result (KeyMap ℕ)
take_from_level k q d = elim (lookup k d) [
  | none ↦ err Error.row_missing
  | some old ↦ if leb q old then ok (insert k (old - q) d) else err Error.check_violation
]

abbrev pub log_movement : Movement → Stock → Stock
log_movement m s = record s { movements = m ∷ s.movements }
