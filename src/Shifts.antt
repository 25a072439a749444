-- ===== src/Shifts.antt =====
-- src/pos/shifts/shifts.service.ts: open a shift, cash in and out, the running totals, and the close with
-- its report. The scoped client pins every query to the terminal's branch. A new row's id is a parameter
-- (the database and `randomUUID` make it), and so is the clock. The branch's and the terminal's codes on
-- the report are left out.
pub mod Totals
pub mod Figures
pub mod Cash
pub mod Lifecycle
mod Tests
use sentry_pos_be.Common.{
  ℕ, Bool, true, false, not, ◌&&◌, ◌==◌, opt_eq, Option, none, some, List, [], ◌∷◌, ◌++◌, ℤ, pos,
  ◌+ℤ◌, ◌-ℤ◌, if◌then◌else◌, keep, length, Error, Result, ok, err,
}
use sentry_pos_be.Text.{Text, trim, is_empty}
use sentry_pos_be.Db.{
  PaymentMethod, SaleStatus, CashMovementType, CashMovement, Shift, Payment, Sale, Db, Ctx,
}
use sentry_pos_be.Sales.Complete.{find_open_shift}

pub record ByMethod : Type 0 where
  pub cash : ℤ
  pub card : ℤ
  pub gcash : ℤ
  pub maya : ℤ
  pub other : ℤ

pub record ShiftTotals : Type 0 where
  pub gross : ℤ
  pub sale_count : ℕ
  pub by_method : ByMethod
  pub void_count : ℕ
  pub void_amount : ℤ
  pub refund_count : ℕ
  pub refund_amount : ℤ
  pub sc_pwd_discount : ℤ
  pub service_charge : ℤ
  pub cash_sales : ℤ
  pub cash_refunds : ℤ
  pub cash_in : ℤ
  pub cash_out : ℤ
  pub expected_cash : ℤ

pub record ZReport : Type 0 where
  pub totals : ShiftTotals
  pub shift_id : ℕ
  pub opened_at : ℕ
  pub closed_at : ℕ
  pub opening_cash : ℤ
  pub counted_cash : ℤ
  pub over_short : ℤ

-- `sum`: whole numbers, so the order of the additions is of no account.
unfoldable pub sum : {A : Type 0} → (A → ℤ) → List A → ℤ
sum pick [] = pos 0
sum pick (row ∷ rows) = pick row +ℤ sum pick rows

abbrev pub empty_by_method : ByMethod
empty_by_method = record { cash = pos 0; card = pos 0; gcash = pos 0; maya = pos 0; other = pos 0 }

unfoldable pub add_method : PaymentMethod → ℤ → ByMethod → ByMethod
add_method PaymentMethod.cash x b = record b { cash = b.cash +ℤ x }
add_method PaymentMethod.card x b = record b { card = b.card +ℤ x }
add_method PaymentMethod.gcash x b = record b { gcash = b.gcash +ℤ x }
add_method PaymentMethod.maya x b = record b { maya = b.maya +ℤ x }
add_method PaymentMethod.other x b = record b { other = b.other +ℤ x }

method_of_payments : List Payment → Option PaymentMethod
method_of_payments [] = none
method_of_payments (p ∷ ps) = some p.method

-- `s.payments[0]?.method`.
unfoldable pub method_of : Sale → Option PaymentMethod
unfolding method_of_payments
method_of s = method_of_payments s.payments

unfoldable pub add_methods : ByMethod → List Sale → ByMethod
add_methods b [] = b
add_methods b (s ∷ sales) = elim (method_of s) [
  | none ↦ add_methods b sales
  | some m ↦ add_methods (add_method m s.total b) sales
]

abbrev pub is_voided : SaleStatus → Bool
is_voided SaleStatus.voided = true
is_voided _ = false

abbrev pub is_refunded : SaleStatus → Bool
is_refunded SaleStatus.refunded = true
is_refunded _ = false

abbrev pub is_cash_method : Option PaymentMethod → Bool
is_cash_method (some PaymentMethod.cash) = true
is_cash_method _ = false

abbrev pub is_cash_in : CashMovementType → Bool
is_cash_in CashMovementType.cash_in = true
is_cash_in CashMovementType.cash_out = false

-- The shift's sales, as the scoped client finds them.
abbrev pub is_of_shift : Shift → Sale → Bool
is_of_shift shift s = s.shift_id == shift.id && s.branch_id == shift.branch_id

abbrev pub is_sold : Shift → Sale → Bool
is_sold shift s = is_of_shift shift s && not (is_voided s.status)

abbrev pub is_void_of : Shift → Sale → Bool
is_void_of shift s = is_of_shift shift s && is_voided s.status

-- The sales, of any shift, that were refunded during this one.
abbrev pub is_refund_of : Shift → Sale → Bool
is_refund_of shift s =
    is_refunded s.status
    && opt_eq s.refund_shift_id (some shift.id)
    && s.branch_id == shift.branch_id

unfoldable pub cash_of : CashMovementType → List CashMovement → ℤ
cash_of CashMovementType.cash_in ms =
    sum CashMovement.amount (keep (λ m. is_cash_in m.cash_type) ms)
cash_of CashMovementType.cash_out ms =
    sum CashMovement.amount (keep (λ m. not (is_cash_in m.cash_type)) ms)

-- `computeTotals`.
unfoldable pub shift_totals : Shift → List Sale → ShiftTotals
shift_totals shift sales =
    let sold = keep (is_sold shift) sales in
    let voided = keep (is_void_of shift) sales in
    let refunds = keep (is_refund_of shift) sales in
    let cash_sales = sum Sale.total (keep (λ s. is_cash_method (method_of s)) sold) in
    let cash_refunds = sum Sale.total (keep (λ s. is_cash_method (method_of s)) refunds) in
    let cash_in = cash_of CashMovementType.cash_in shift.cash_movements in
    let cash_out = cash_of CashMovementType.cash_out shift.cash_movements in
    record {
      gross = sum Sale.total sold;
      sale_count = length sold;
      by_method = add_methods empty_by_method sold;
      void_count = length voided;
      void_amount = sum Sale.total voided;
      refund_count = length refunds;
      refund_amount = sum Sale.total refunds;
      sc_pwd_discount = sum Sale.sc_pwd_discount sold;
      service_charge = sum Sale.service_charge sold;
      cash_sales = cash_sales;
      cash_refunds = cash_refunds;
      cash_in = cash_in;
      cash_out = cash_out;
      expected_cash = shift.opening_cash +ℤ cash_sales -ℤ cash_refunds +ℤ cash_in -ℤ cash_out;
    }

unfoldable pub update_shift : ℕ → (Shift → Shift) → List Shift → List Shift
update_shift id f [] = []
update_shift id f (s ∷ shifts) = if s.id == id then f s ∷ shifts else s ∷ update_shift id f shifts

-- The row that `shift.create` stores.
abbrev pub new_shift : Ctx → ℕ → ℤ → ℕ → Shift
new_shift ctx id opening now = record {
  id = id;
  branch_id = ctx.branch_id;
  terminal_id = ctx.terminal_id;
  opened_at = now;
  closed_at = none;
  opening_cash = opening;
  closing_cash = none;
  expected_cash = none;
  cash_movements = [];
}

abbrev pub close_row : ℕ → ℤ → ℤ → Shift → Shift
close_row now counted expected s = record s {
  closed_at = some now;
  closing_cash = some counted;
  expected_cash = some expected;
}

abbrev pub add_row : CashMovement → Shift → Shift
add_row m s = record s { cash_movements = s.cash_movements ++ m ∷ [] }

module _ {W : Type 0} where
  unfoldable pub current : Ctx → Db W → Option Shift
  current ctx db = find_open_shift ctx db.shifts

  unfoldable pub open_shift : Ctx → Db W → ℕ → ℤ → ℕ → Result (Shift × Db W)
  open_shift ctx db id opening now = elim (find_open_shift ctx db.shifts) [
    | some _ ↦ err Error.validation
    | none ↦ ok (
      new_shift ctx id opening now,
      record db { shifts = new_shift ctx id opening now ∷ db.shifts },
    )
  ]

  unfoldable pub add_cash_movement :
      Ctx → Db W → ℕ → CashMovementType → ℤ → Text → ℕ → Result (CashMovement × Db W)
  add_cash_movement ctx db id kind amount reason now =
      let m : CashMovement = record {
        id = id;
        cash_type = kind;
        amount = amount;
        reason = trim reason;
        at = now;
      } in
      if is_empty (trim reason)
      then err Error.validation
      else elim (find_open_shift ctx db.shifts) [
        | none ↦ err Error.validation
        | some s ↦ ok (m, record db { shifts = update_shift s.id (add_row m) db.shifts })
      ]

  unfoldable pub totals_of_open : Ctx → Db W → Result ShiftTotals
  totals_of_open ctx db = elim (find_open_shift ctx db.shifts) [
    | none ↦ err Error.validation
    | some s ↦ ok (shift_totals s db.sales)
  ]

  unfoldable pub close_shift : Ctx → Db W → ℤ → ℕ → Result (ZReport × Db W)
  close_shift ctx db counted now = elim (find_open_shift ctx db.shifts) [
    | none ↦ err Error.validation
    | some s ↦
        let totals = shift_totals s db.sales in
        let report : ZReport = record {
          totals = totals;
          shift_id = s.id;
          opened_at = s.opened_at;
          closed_at = now;
          opening_cash = s.opening_cash;
          counted_cash = counted;
          over_short = counted -ℤ totals.expected_cash;
        } in
        ok (
          report,
          record db {
            shifts = update_shift s.id (close_row now counted totals.expected_cash) db.shifts;
          },
        )
  ]
