-- ===== src/Sales/Reverse.antt =====
-- src/pos/sales/sales.service.ts: `voidSale`, `refundSale`, `lockSale`, `restoreStock`, `getSale`.
-- The movements of a sale are taken newest first where the query leaves the order open. Their deltas are
-- never positive, as only the sale's insert writes the type `sale`: `-qtyDelta` is the negative part.
pub mod Levels
pub mod Status
pub mod Once
pub mod Gate
use sentry_pos_be.Common.{
  ℕ, ◌+◌, Bool, true, false, not, ◌&&◌, ◌==◌, Option, none, some, List, [], ◌∷◌, ℤ, pos, neg_part,
  if◌then◌else◌, find, keep, Error, Result, ok, err,
}
use sentry_pos_be.Text.{Text, trim, is_empty}
use sentry_pos_be.KeyMap.{Key, KeyMap}
use sentry_pos_be.Cart.{Ref}
use sentry_pos_be.Inventory.{Movement, MovementType, Stock, add_to_level, log_movement}
use sentry_pos_be.Db.{Shift, SaleStatus, Sale, Db, Ctx}
use sentry_pos_be.Lockout.{Accounts, verify_pin_with_lockout}
use sentry_pos_be.Sales.Complete.{find_sale, find_open_shift}

-- The two ways back.
pub data Reversal : Type 0 where
  void refund : Reversal

abbrev pub movement_of : Reversal → MovementType
movement_of Reversal.void = MovementType.void
movement_of Reversal.refund = MovementType.refund

abbrev pub is_sale_type : MovementType → Bool
is_sale_type MovementType.sale = true
is_sale_type _ = false

-- `scoped.stockMovement.findMany({ where: { refId, type: 'sale' } })`, pinned to the branch.
unfoldable pub is_sale_move : ℕ → ℕ → Movement → Bool
is_sale_move branch sale m =
    is_sale_type m.movement_type && m.ref_id == sale && m.key.branch == branch

unfoldable pub sale_moves : ℕ → ℕ → List Movement → List Movement
sale_moves branch sale ms = keep (is_sale_move branch sale) ms

abbrev pub restoring : Reversal → ℕ → Movement → Movement
restoring kind sale m = record {
  key = m.key;
  movement_type = movement_of kind;
  ref_id = sale;
  qty_delta = pos (neg_part m.qty_delta);
  unit_cost = none;
  reason_category = none;
}

-- One turn of the loop of `restoreStock`.
abbrev pub give_back : Reversal → ℕ → Movement → Stock → Stock
give_back kind sale m stock = record {
  levels = add_to_level m.key (neg_part m.qty_delta) stock.levels;
  movements = restoring kind sale m ∷ stock.movements;
}

unfoldable pub restore_moves : Reversal → ℕ → List Movement → Stock → Stock
restore_moves kind sale [] stock = stock
restore_moves kind sale (m ∷ ms) stock = restore_moves kind sale ms (give_back kind sale m stock)

unfoldable pub restore_stock : ℕ → ℕ → Reversal → Stock → Stock
restore_stock branch sale kind stock =
    restore_moves kind sale (sale_moves branch sale stock.movements) stock

-- `scoped.sale.update({ where: { id } })`.
unfoldable pub update_sale : ℕ → ℕ → (Sale → Sale) → List Sale → List Sale
update_sale branch id f [] = []
update_sale branch id f (s ∷ sales) =
    if s.id == id && s.branch_id == branch then f s ∷ sales else s ∷ update_sale branch id f sales

-- The status and the shift of the locked row; a malformed id finds nothing.
unfoldable pub lock_sale : ℕ → Ref → List Sale → Option (ℕ × SaleStatus × ℕ)
lock_sale branch Ref.malformed sales = none
lock_sale branch (Ref.uuid id) sales = elim (find_sale branch id sales) [
  | none ↦ none
  | some s ↦ some (id, s.status, s.shift_id)
]

abbrev pub is_completed : SaleStatus → Bool
is_completed SaleStatus.completed = true
is_completed _ = false

abbrev pub mark_voided : ℕ → Text → Sale → Sale
mark_voided now reason s = record s {
  status = SaleStatus.voided;
  voided_at = some now;
  status_reason = some reason;
}

abbrev pub mark_refunded : ℕ → Text → Option ℕ → Sale → Sale
mark_refunded now reason shift s = record s {
  status = SaleStatus.refunded;
  refunded_at = some now;
  status_reason = some reason;
  refund_shift_id = shift;
}

-- `open && open.id === locked.shiftId`.
abbrev pub is_own_shift : Option Shift → ℕ → Bool
is_own_shift none shift = false
is_own_shift (some s) shift = s.id == shift

module _ {W : Type 0} where
  -- The update of the sale's row and of the stock.
  unfoldable pub reverse_sale : Ctx → Db W → ℕ → Reversal → (Sale → Sale) → Db W
  reverse_sale ctx db id kind mark = record db {
    sales = update_sale ctx.branch_id id mark db.sales;
    stock = restore_stock ctx.branch_id id kind (Db.stock db);
  }

  reversed : Ctx → Db W → ℕ → Reversal → (Sale → Sale) → Result (Sale × Db W)
  reversed ctx db id kind mark = elim (find_sale ctx.branch_id id db.sales) [
    | none ↦ err Error.row_missing
    | some s ↦ ok (mark s, reverse_sale ctx db id kind mark)
  ]

  unfoldable pub void_sale : Ctx → Db W → Ref → Text → ℕ → Result (Sale × Db W)
  unfolding reversed
  void_sale ctx db ref reason now =
      if is_empty (trim reason)
      then err Error.validation
      else elim (lock_sale ctx.branch_id ref db.sales) [
        | none ↦ err Error.not_found
        | some (id, status, shift) ↦
            if not (is_completed status)
            then err Error.validation
            else (if not (is_own_shift (find_open_shift ctx db.shifts) shift)
                then err Error.validation
                else reversed ctx db id Reversal.void (mark_voided now (trim reason)))
      ]

  -- The refund past its PIN.
  unfoldable pub refund_checked : Ctx → Db W → Ref → Text → ℕ → Result (Sale × Db W)
  unfolding reversed
  refund_checked ctx db ref reason now =
      if is_empty (trim reason)
      then err Error.validation
      else elim (lock_sale ctx.branch_id ref db.sales) [
        | none ↦ err Error.not_found
        | some (id, status, shift) ↦
            if not (is_completed status)
            then err Error.validation
            else reversed ctx db id Reversal.refund (
                mark_refunded now (trim reason)
                  (if is_own_shift (find_open_shift ctx db.shifts) shift then some shift else none))
      ]

  -- The PIN comes first, and what it writes stays, whatever becomes of the refund.
  unfoldable pub refund_sale :
      {H : Type 0} (verify : H → Text → Bool)
      → Ctx
      → Accounts H
      → Db W
      → Ref
      → Text
      → Text
      → ℕ
      → Accounts H × Result (Sale × Db W)
  refund_sale verify ctx accounts db ref reason pin now =
      let (accounts', checked) = verify_pin_with_lockout verify ctx.owner_id pin now accounts in
      (accounts', elim checked [ err e ↦ err e | ok _ ↦ refund_checked ctx db ref reason now ])

  unfoldable pub get_sale : Ctx → Db W → ℕ → Result Sale
  get_sale ctx db id = elim (find_sale ctx.branch_id id db.sales) [
    | none ↦ err Error.not_found
    | some s ↦ ok s
  ]
