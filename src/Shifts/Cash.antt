-- ===== src/Shifts/Cash.antt =====
-- The expected cash of a shift (src/pos/shifts/shifts.service.ts) under voids and refunds
-- (src/pos/sales/sales.service.ts).
use sentry_pos_be.Common.{
  ℕ, ◌≡◌, refl, true, false, ◌==◌, ==_iff, ==_refl, opt_eq, Option, some, List, pos, ◌+ℤ◌, arith,
  int_laws, parts, if◌then◌else◌, ok,
}
use sentry_pos_be.Text.{Text, trim}
use sentry_pos_be.Cart.{Ref}
use sentry_pos_be.Db.{SaleStatus, Shift, Sale, Db, Ctx}
use sentry_pos_be.Sales.Complete.{find_sale, find_open_shift}
use sentry_pos_be.Sales.Reverse.{
  update_sale, mark_voided, mark_refunded, reverse_sale, void_sale, refund_checked,
}
use sentry_pos_be.Sales.Reverse.Status.{void_sale_iff, refund_checked_iff, own_shift}
use sentry_pos_be.Shifts.{method_of, is_sold, is_void_of, is_of_shift, is_refund_of, shift_totals}
use sentry_pos_be.Shifts.Totals.{sum-keep}
use sentry_pos_be.Shifts.Figures.{cash_total, sum-switch, found-branch, open-branch, expected-sums}

module _ (shift : Shift) (branch id now : ℕ) (reason : Text) (sales : List Sale) (s : Sale) where
  void_weights :
      s.status ≡ SaleStatus.completed
      → is_of_shift shift s ≡ true
      → let s' = mark_voided now reason s in
        (is_sold shift s ≡ true)
        × (is_sold shift s' ≡ false)
        × (is_void_of shift s ≡ false)
        × (is_void_of shift s' ≡ true)
        × (is_refund_of shift s ≡ false)
        × (is_refund_of shift s' ≡ false)
        × (cash_total s' ≡ cash_total s)
  unfolding method_of
  void_weights completed member = rw (completed, member) (refl, refl, refl, refl, refl, refl, refl)

  void_figures :
      find_sale branch id sales ≡ some s
      → s.status ≡ SaleStatus.completed
      → is_of_shift shift s ≡ true
      → let t = shift_totals shift sales in
        let t' = shift_totals shift (update_sale branch id (mark_voided now reason) sales) in
        (t'.expected_cash +ℤ cash_total s ≡ t.expected_cash)
        × (t'.gross +ℤ s.total ≡ t.gross)
        × (t'.void_amount ≡ t.void_amount +ℤ s.total)
  unfolding shift_totals
  void_figures found completed member =
      let f = mark_voided now reason in
      let (w1, w2, w3, w4, w5, w6, w7) = void_weights completed member in
      let sales' = update_sale branch id f sales in
      let sold = parts (sum-switch (is_sold shift) cash_total branch id f sales s found w1 w2) in
      let refunds =
        parts (sum-switch (is_refund_of shift) cash_total branch id f sales s found w5 w6) in
      let gross = parts (sum-switch (is_sold shift) Sale.total branch id f sales s found w1 w2) in
      let voids =
        parts (sum-switch (is_void_of shift) Sale.total branch id f sales s found w3 w4) in
      let before = parts (expected-sums shift sales) in
      let then_ = parts (expected-sums shift sales') in
      (
        omega (int_laws, before, then_, sold, refunds),
        rw (sum-keep (is_sold shift) Sale.total sales, sum-keep (is_sold shift) Sale.total sales')
            (omega (int_laws, gross)),
        rw
            (
              sum-keep (is_void_of shift) Sale.total sales,
              sum-keep (is_void_of shift) Sale.total sales',
            )
            (omega (int_laws, voids)),
      )

module _ (shift : Shift) (branch id now : ℕ) (reason : Text) (sales : List Sale) (s : Sale)
    (booked : Option ℕ) where
  refund_weights :
      s.status ≡ SaleStatus.completed
      → (s.branch_id == shift.branch_id) ≡ true
      → let s' = mark_refunded now reason booked s in
        (is_sold shift s ≡ is_of_shift shift s)
        × (is_sold shift s' ≡ is_of_shift shift s)
        × (is_refund_of shift s ≡ false)
        × (is_refund_of shift s' ≡ opt_eq booked (some shift.id))
        × (cash_total s' ≡ cash_total s)
  unfolding method_of
  refund_weights completed place = (ground arith, ground arith, ground arith, ground arith, refl)

  refund_figures :
      find_sale branch id sales ≡ some s
      → s.status ≡ SaleStatus.completed
      → (s.branch_id == shift.branch_id) ≡ true
      → let t = shift_totals shift sales in
        let t' =
          shift_totals shift (update_sale branch id (mark_refunded now reason booked) sales) in
        let here = opt_eq booked (some shift.id) in
        (t'.expected_cash +ℤ (if here then cash_total s else pos 0) ≡ t.expected_cash)
        × (t'.gross ≡ t.gross)
        × (t'.refund_amount ≡ t.refund_amount +ℤ (if here then s.total else pos 0))
  unfolding shift_totals method_of
  refund_figures found completed place =
      let f = mark_refunded now reason booked in
      let (w1, w2, w3, w4, w5) = refund_weights completed place in
      let sales' = update_sale branch id f sales in
      let sold = parts (sum-switch (is_sold shift) cash_total branch id f sales s found w1 w2) in
      let gross = parts (sum-switch (is_sold shift) Sale.total branch id f sales s found w1 w2) in
      let refunds =
        parts (sum-switch (is_refund_of shift) cash_total branch id f sales s found w3 w4) in
      let amount =
        parts (sum-switch (is_refund_of shift) Sale.total branch id f sales s found w3 w4) in
      let before = parts (expected-sums shift sales) in
      let then_ = parts (expected-sums shift sales') in
      (
        omega (int_laws, before, then_, sold, refunds),
        rw (sum-keep (is_sold shift) Sale.total sales, sum-keep (is_sold shift) Sale.total sales')
            (omega (int_laws, gross)),
        rw
            (
              sum-keep (is_refund_of shift) Sale.total sales,
              sum-keep (is_refund_of shift) Sale.total sales',
            )
            (omega (int_laws, amount)),
      )

module _ {W : Type 0} (ctx : Ctx) (db : Db W) where
  -- A void takes the total off what the drawer of the terminal's open shift should hold if the sale was
  -- paid in cash, and leaves it otherwise; it takes the total off the shift's gross amount and adds it to
  -- the voided one.
  pub void_moves_cash :
      (id : ℕ) (reason : Text) (now : ℕ) (s' : Sale) (after : Db W) (shift : Shift)
      → find_open_shift ctx db.shifts ≡ some shift
      → void_sale ctx db (Ref.uuid id) reason now ≡ ok (s', after)
      → let t = shift_totals shift db.sales in
        let t' = shift_totals shift after.sales in
        (t'.expected_cash +ℤ cash_total s' ≡ t.expected_cash)
        × (t'.gross +ℤ s'.total ≡ t.gross)
        × (t'.void_amount ≡ t.void_amount +ℤ s'.total)
  unfolding method_of reverse_sale
  void_moves_cash id reason now s' after shift opened e =
      let (s, (blank, found, status), (sh, opened', own), sale, db') =
        (void_sale_iff ctx db id reason now s' after).0 e in
      let same : sh ≡ shift = cc in
      let own' = rw same at own in
      let place = open-branch ctx db.shifts shift opened in
      let place' = found-branch ctx.branch_id id db.sales s found in
      let member : is_of_shift shift s ≡ true =
        ground (arith, ==_iff s.shift_id shift.id, ==_iff s.branch_id shift.branch_id) in
      rw (sale, db')
        (void_figures shift ctx.branch_id id now (trim reason) db.sales s found status member)

  -- A refund past its PIN takes the total off what the drawer of a shift should hold if the refund is
  -- booked on that shift and the sale was paid in cash, and leaves it otherwise; the refunded amount of the
  -- shift that it is booked on rises by the total, and the gross amount of every shift stays.
  pub refund_moves_cash :
      (id : ℕ) (reason : Text) (now : ℕ) (s' : Sale) (after : Db W) (shift : Shift)
      → shift.branch_id ≡ ctx.branch_id
      → refund_checked ctx db (Ref.uuid id) reason now ≡ ok (s', after)
      → let t = shift_totals shift db.sales in
        let t' = shift_totals shift after.sales in
        let booked = opt_eq s'.refund_shift_id (some shift.id) in
        (t'.expected_cash +ℤ (if booked then cash_total s' else pos 0) ≡ t.expected_cash)
        × (t'.gross ≡ t.gross)
        × (t'.refund_amount ≡ t.refund_amount +ℤ (if booked then s'.total else pos 0))
  unfolding method_of reverse_sale
  refund_moves_cash id reason now s' after shift place e =
      let (s, (blank, found, status), sale, db') =
        (refund_checked_iff ctx db id reason now s' after).0 e in
      let place' = found-branch ctx.branch_id id db.sales s found in
      rw (sale, db')
        (refund_figures shift ctx.branch_id id now (trim reason) db.sales s (own_shift ctx db s)
          found status (ground (arith, ==_refl s.branch_id)))
