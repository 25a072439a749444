-- ===== src/Trade/Drawer.antt =====
-- The report of a shift (src/pos/shifts/shifts.service.ts) and a new sale
-- (src/pos/sales/sales.service.ts).
use sentry_pos_be.Common.{
  ℕ, ◌≡◌, refl, ap, length, ==_refl, Bool, true, false, none, List, ◌∷◌, ℤ, pos, ◌+ℤ◌, int_laws,
  parts, arith, inl, inr, ok, if◌then◌else◌,
}
use sentry_pos_be.Money.{Double}
use sentry_pos_be.Cart.{Cart}
use sentry_pos_be.Totals.{CartTotals}
use sentry_pos_be.Db.{Shift, SaleDraft, Sale, Db, Ctx}
use sentry_pos_be.Sales.Draft.{Costs}
use sentry_pos_be.Sales.Complete.{find_sale, find_any_sale, build_sale, complete_sale}
use sentry_pos_be.Sales.Complete.Persist.{HasPositive}
use sentry_pos_be.Sales.Complete.Replay.{complete_sale_idempotent}
use sentry_pos_be.Shifts.{sum, is_sold, is_refund_of, shift_totals}
use sentry_pos_be.Shifts.Totals.{weight, sum-keep}
use sentry_pos_be.Shifts.Figures.{cash_total, expected-sums}
use sentry_pos_be.Trade.Sold.{complete_sale_writes}

built_weights :
    (ctx : Ctx) (draft : SaleDraft) (totals : CartTotals) (costs : Costs) (now : ℕ) (shift : Shift)
    → shift.id ≡ draft.shift_id
    → shift.branch_id ≡ ctx.branch_id
    → let sale = build_sale ctx draft totals costs now in
      (is_sold shift sale ≡ true) × (is_refund_of shift sale ≡ false)
unfolding build_sale
built_weights ctx draft totals costs now shift own place =
    rw (own, place, ==_refl draft.shift_id, ==_refl ctx.branch_id) (refl, refl)

sum_added :
    (p : Sale → Bool) (pick : Sale → ℤ) (sale : Sale) (sales : List Sale) {b : Bool}
    → p sale ≡ b
    → sum (weight p pick) (sale ∷ sales)
      ≡ (if b then pick sale else pos 0) +ℤ sum (weight p pick) sales
unfolding sum
sum_added p pick sale sales e = rw (← e) refl

added_figures :
    (shift : Shift) (sale : Sale) (sales : List Sale)
    → is_sold shift sale ≡ true
    → is_refund_of shift sale ≡ false
    → let t = shift_totals shift sales in
      let t' = shift_totals shift (sale ∷ sales) in
      (t'.expected_cash ≡ t.expected_cash +ℤ cash_total sale) × (t'.gross ≡ t.gross +ℤ sale.total)
unfolding shift_totals
added_figures shift sale sales sold kept =
    let before = parts (expected-sums shift sales) in
    let then_ = parts (expected-sums shift (sale ∷ sales)) in
    let sales_up = parts (sum_added (is_sold shift) cash_total sale sales sold) in
    let refunds_same = parts (sum_added (is_refund_of shift) cash_total sale sales kept) in
    let gross_up = parts (sum_added (is_sold shift) Sale.total sale sales sold) in
    (
      omega (int_laws, before, then_, sales_up, refunds_same),
      rw
          (
            sum-keep (is_sold shift) Sale.total sales,
            sum-keep (is_sold shift) Sale.total (sale ∷ sales),
          )
          (omega (int_laws, gross_up)),
    )

-- A draft with positive quantities that completes under a new id raises what the drawer of its shift
-- should hold by the total if it was paid in cash, and not otherwise, and the gross amount of the shift
-- by the total.
pub complete_sale_moves_cash :
    {W : Type 0} ⦃d : Double W⦄ (ctx : Ctx) (pre db : Db W) (draft : SaleDraft) (now : ℕ)
    (shift : Shift) (sale : Sale) (after : Db W) (replayed : Bool)
    → HasPositive (Cart.lines draft.cart)
    → find_sale ctx.branch_id draft.id pre.sales ≡ none
    → find_any_sale draft.id db.sales ≡ none
    → shift.id ≡ draft.shift_id
    → shift.branch_id ≡ ctx.branch_id
    → complete_sale ctx pre db draft now ≡ ok (replayed, sale, after)
    → let t = shift_totals shift db.sales in
      let t' = shift_totals shift after.sales in
      (t'.expected_cash ≡ t.expected_cash +ℤ cash_total sale) × (t'.gross ≡ t.gross +ℤ sale.total)
complete_sale_moves_cash ctx pre db draft now shift sale after replayed positive new fresh own place
      e =
    let (first, stored, again) =
      complete_sale_idempotent ctx pre db draft now db now positive new fresh e in
    elim (complete_sale_writes ctx pre db draft now sale after replayed positive e) [
      | inl same ↦ let longer = ap length (rw same at stored) in absurd (omega (arith, longer))
      | inr w ↦
          let (sold, kept) = built_weights ctx draft w.totals w.costs now shift own place in
          rw stored (added_figures shift sale db.sales (rw (w.built) sold) (rw (w.built) kept))
    ]
