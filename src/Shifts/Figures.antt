-- ===== src/Shifts/Figures.antt =====
-- A figure of `computeTotals` in src/pos/shifts/shifts.service.ts as a sum over all sales, and its change
-- with one of them.
use sentry_pos_be.Common.{
  ℕ, ◌≡◌, refl, inl, inr, Bool, ◌&&◌, ◌==◌, some, List, [], ◌∷◌, ℤ, pos, ◌+ℤ◌, ◌-ℤ◌, arith,
  int_laws, parts, if◌then◌else◌, keep, Bool-cases,
}
use sentry_pos_be.Db.{Shift, Sale, Ctx}
use sentry_pos_be.Sales.Complete.{find_sale, find_open_shift}
use sentry_pos_be.Sales.Reverse.{update_sale}
use sentry_pos_be.Shifts.{sum, method_of, is_cash_method, is_sold, is_refund_of, shift_totals}
use sentry_pos_be.Shifts.Totals.{weight}

abbrev pub cash_total : Sale → ℤ
cash_total s = if is_cash_method (method_of s) then s.total else pos 0

abbrev pub is_cash_sale : Sale → Bool
is_cash_sale s = is_cash_method (method_of s)

pub sum-keep-keep :
    (p q : Sale → Bool) (pick : Sale → ℤ) (sales : List Sale)
    → sum pick (keep q (keep p sales)) ≡ sum (weight p (weight q pick)) sales
unfolding sum
sum-keep-keep p q pick [] = refl
sum-keep-keep p q pick (s ∷ sales) =
    let ih = parts (sum-keep-keep p q pick sales) in
    elim (Bool-cases (p s)) [
      | inr e ↦ rw e (omega (int_laws, ih))
      | inl e ↦ elim (Bool-cases (q s)) [
        | inl f ↦ rw (e, f) (omega (int_laws, ih))
        | inr f ↦ rw (e, f) (omega (int_laws, ih))
      ]
    ]

-- A figure after the change of one sale.
pub sum-update :
    (w : Sale → ℤ) (branch id : ℕ) (f : Sale → Sale) (sales : List Sale) (s : Sale)
    → find_sale branch id sales ≡ some s
    → sum w (update_sale branch id f sales) +ℤ w s ≡ sum w sales +ℤ w (f s)
unfolding sum find_sale update_sale
sum-update w branch id f [] s h = absurd (cc h)
sum-update w branch id f (t ∷ sales) s h = elim (Bool-cases (t.id == id && t.branch_id == branch)) [
  | inl same ↦ let h' = rw same at h in let e : t ≡ s = cc in rw (same, e) (omega int_laws)
  | inr other ↦
      let ih = parts (sum-update w branch id f sales s (rw other at h)) in
      rw other (omega (int_laws, ih))
]

-- A figure when a sale starts or stops to count.
pub sum-switch :
    (p : Sale → Bool) (pick : Sale → ℤ) (branch id : ℕ) (f : Sale → Sale) (sales : List Sale)
    (s : Sale) {b c : Bool}
    → find_sale branch id sales ≡ some s
    → p s ≡ b
    → p (f s) ≡ c
    → sum (weight p pick) (update_sale branch id f sales) +ℤ (if b then pick s else pos 0)
      ≡ sum (weight p pick) sales +ℤ (if c then pick (f s) else pos 0)
sum-switch p pick branch id f sales s found e g =
    rw (← e, ← g) (sum-update (weight p pick) branch id f sales s found)

pub found-branch :
    (branch id : ℕ) (sales : List Sale) (s : Sale)
    → find_sale branch id sales ≡ some s
    → s.branch_id ≡ branch
unfolding find_sale
found-branch branch id [] s h = absurd (cc h)
found-branch branch id (t ∷ sales) s h = ground (arith, found-branch branch id sales s)

pub open-branch :
    (ctx : Ctx) (shifts : List Shift) (sh : Shift)
    → find_open_shift ctx shifts ≡ some sh
    → sh.branch_id ≡ ctx.branch_id
unfolding find_open_shift
open-branch ctx [] sh h = absurd (cc h)
open-branch ctx (t ∷ shifts) sh h = ground (arith, open-branch ctx shifts sh)

-- The part of the expected cash that comes from one sale.
pub expected-sums :
    (shift : Shift) (sales : List Sale)
    → let t = shift_totals shift sales in
      t.expected_cash
      ≡ shift.opening_cash
        +ℤ sum (weight (is_sold shift) cash_total) sales
        -ℤ sum (weight (is_refund_of shift) cash_total) sales
        +ℤ t.cash_in
        -ℤ t.cash_out
unfolding shift_totals
expected-sums shift sales =
    rw
      (
        sum-keep-keep (is_sold shift) is_cash_sale Sale.total sales,
        sum-keep-keep (is_refund_of shift) is_cash_sale Sale.total sales,
      )
      refl
