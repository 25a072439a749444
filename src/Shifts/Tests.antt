-- ===== src/Shifts/Tests.antt =====
-- The theorems on the shifts at the sample shop: its sale is voided, or refunded, and the shift closed.
use sentry_pos_be.Common.{
  ◌≡◌, refl, some, none, [], ◌∷◌, ℤ, pos, ◌+◌, ◌+ℤ◌, ◌-ℤ◌, if◌then◌else◌, opt_eq, keep, length,
  Error, ok, err,
}
use sentry_pos_be.Text.{trim}
use sentry_pos_be.Money.Fixed.{Fixed}
use sentry_pos_be.Cart.{Ref}
use sentry_pos_be.Db.{PaymentMethod, Sale, Db}
use sentry_pos_be.Sales.Complete.{find_open_shift, build_sale, insert_sale}
use sentry_pos_be.Sales.Reverse.{Reversal, mark_refunded, reverse_sale, refund_checked}
use sentry_pos_be.Sales.Reverse.Status.{own_shift, refund_checked_iff}
use sentry_pos_be.Shifts.{
  ShiftTotals, ZReport, shift_totals, method_of, is_of_shift, current, totals_of_open, close_shift,
  update_shift, close_row,
}
use sentry_pos_be.Shifts.Totals.{shift_totals_adds_up}
use sentry_pos_be.Shifts.Figures.{cash_total}
use sentry_pos_be.Shifts.Cash.{void_moves_cash, refund_moves_cash}
use sentry_pos_be.Shifts.Lifecycle.{ShiftsAreSound, close_shift_lem}
use sentry_pos_be.Sample.{
  ctx, after, sold, reason, shift, void_mark, undone, sold-IsReversible, sale_voided,
}

is_paid : (m : PaymentMethod) × (method_of sold ≡ some m)
unfolding method_of build_sale
is_paid = (PaymentMethod.cash, refl)

shift_totals_adds_up_example :
    let t = shift_totals shift (sold ∷ []) in
    (t.by_method.cash +ℤ t.by_method.card +ℤ t.by_method.gcash +ℤ t.by_method.maya
        +ℤ t.by_method.other
      ≡ t.gross)
    × (t.by_method.cash ≡ t.cash_sales)
    × (t.sale_count + t.void_count ≡ length (keep (is_of_shift shift) (sold ∷ [])))
shift_totals_adds_up_example = shift_totals_adds_up shift (sold ∷ []) (is_paid, tt)

shift_opened : find_open_shift ctx after.shifts ≡ some shift
unfolding find_open_shift insert_sale
shift_opened = refl

void_moves_cash_example :
    let t = shift_totals shift after.sales in
    let t' = shift_totals shift undone.sales in
    (t'.expected_cash +ℤ cash_total (void_mark sold) ≡ t.expected_cash)
    × (t'.gross +ℤ Sale.total (void_mark sold) ≡ t.gross)
    × (t'.void_amount ≡ t.void_amount +ℤ Sale.total (void_mark sold))
void_moves_cash_example =
    void_moves_cash ctx after 100 reason 6 (void_mark sold) undone shift shift_opened sale_voided

abbrev refunded : Sale
refunded = mark_refunded 6 (trim reason) (own_shift ctx after sold) sold

abbrev after_refund : Db Fixed
after_refund =
    reverse_sale ctx after 100 Reversal.refund
      (mark_refunded 6 (trim reason) (own_shift ctx after sold))

sale_refunded : refund_checked ctx after (Ref.uuid 100) reason 6 ≡ ok (refunded, after_refund)
sale_refunded =
    (refund_checked_iff ctx after 100 reason 6 refunded after_refund).1
      (sold, sold-IsReversible, refl, refl)

refund_moves_cash_example :
    let t = shift_totals shift after.sales in
    let t' = shift_totals shift after_refund.sales in
    let booked = opt_eq refunded.refund_shift_id (some shift.id) in
    (t'.expected_cash +ℤ (if booked then cash_total refunded else pos 0) ≡ t.expected_cash)
    × (t'.gross ≡ t.gross)
    × (t'.refund_amount ≡ t.refund_amount +ℤ (if booked then refunded.total else pos 0))
refund_moves_cash_example =
    refund_moves_cash ctx after 100 reason 6 refunded after_refund shift refl sale_refunded

abbrev counted : ℤ
counted = pos 112_000

abbrev report : ZReport
report =
    let t = shift_totals shift after.sales in
    record {
      totals = t;
      shift_id = 4;
      opened_at = 0;
      closed_at = 9;
      opening_cash = pos 100_000;
      counted_cash = counted;
      over_short = counted -ℤ t.expected_cash;
    }

abbrev after_close : Db Fixed
after_close =
    let expected = ShiftTotals.expected_cash (shift_totals shift after.sales) in
    record after { shifts = update_shift 4 (close_row 9 counted expected) after.shifts }

shift_closed : close_shift ctx after counted 9 ≡ ok (report, after_close)
unfolding close_shift find_open_shift insert_sale
shift_closed = refl

shifts_sound : ShiftsAreSound after.shifts
unfolding insert_sale
shifts_sound = (refl, λ _. refl, tt)

close_shift_lem_example :
    (totals_of_open ctx after ≡ ok report.totals)
    × (report.over_short ≡ counted -ℤ ShiftTotals.expected_cash report.totals)
    × (current ctx after_close ≡ none)
    × (totals_of_open ctx after_close ≡ err Error.validation)
    × (close_shift ctx after_close counted 10 ≡ err Error.validation)
    × ShiftsAreSound after_close.shifts
close_shift_lem_example =
    close_shift_lem ctx after counted 9 10 counted report after_close shifts_sound shift_closed
