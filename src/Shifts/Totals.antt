-- ===== src/Shifts/Totals.antt =====
-- The figures of `computeTotals` in src/pos/shifts/shifts.service.ts against each other.
use sentry_pos_be.Common.{
  ◌≡◌, refl, Bool, ◌&&◌, some, List, [], ◌∷◌, ℤ, pos, ◌+ℤ◌, arith, int_laws, parts, if◌then◌else◌,
  keep, All, Bool-cases, inl, inr, length, ◌+◌, not,
}
use sentry_pos_be.Db.{PaymentMethod, Shift, Sale}
use sentry_pos_be.Shifts.{
  ByMethod, sum, empty_by_method, add_method, add_methods, method_of, is_cash_method, is_sold,
  is_of_shift, is_voided, shift_totals,
}

-- A figure as a sum over all sales, those that do not count weighing nothing.
abbrev pub weight : (Sale → Bool) → (Sale → ℤ) → Sale → ℤ
weight p pick s = if p s then pick s else pos 0

pub sum-keep :
    (p : Sale → Bool) (pick : Sale → ℤ) (sales : List Sale)
    → sum pick (keep p sales) ≡ sum (weight p pick) sales
unfolding sum
sum-keep p pick [] = refl
sum-keep p pick (s ∷ sales) =
    let ih = parts (sum-keep p pick sales) in
    elim (Bool-cases (p s)) [
      | inl e ↦ rw e (omega (int_laws, ih))
      | inr e ↦ rw e (omega (int_laws, ih))
    ]

abbrev add_up : ByMethod → ℤ
add_up b = b.cash +ℤ b.card +ℤ b.gcash +ℤ b.maya +ℤ b.other

add_method_adds :
    (m : PaymentMethod) (x : ℤ) (b : ByMethod) → add_up (add_method m x b) ≡ add_up b +ℤ x
unfolding add_method
add_method_adds PaymentMethod.cash x b = omega int_laws
add_method_adds PaymentMethod.card x b = omega int_laws
add_method_adds PaymentMethod.gcash x b = omega int_laws
add_method_adds PaymentMethod.maya x b = omega int_laws
add_method_adds PaymentMethod.other x b = omega int_laws

add_method_cash :
    (m : PaymentMethod) (x : ℤ) (b : ByMethod)
    → ByMethod.cash (add_method m x b) ≡ b.cash +ℤ (if is_cash_method (some m) then x else pos 0)
unfolding add_method
add_method_cash PaymentMethod.cash x b = refl
add_method_cash PaymentMethod.card x b = omega int_laws
add_method_cash PaymentMethod.gcash x b = omega int_laws
add_method_cash PaymentMethod.maya x b = omega int_laws
add_method_cash PaymentMethod.other x b = omega int_laws

abbrev pub IsPaid : Sale → Type 0
IsPaid s = (m : PaymentMethod) × (method_of s ≡ some m)

add_methods_adds :
    (b : ByMethod) (sales : List Sale)
    → All IsPaid sales
    → add_up (add_methods b sales) ≡ add_up b +ℤ sum Sale.total sales
unfolding add_methods sum
add_methods_adds b [] paid = omega int_laws
add_methods_adds b (s ∷ sales) ((m, e), paid) =
    rw (add_methods, e)
      (let ih = parts (add_methods_adds (add_method m s.total b) sales paid) in
        let one = parts (add_method_adds m s.total b) in omega (int_laws, ih, one))

add_methods_cash :
    (b : ByMethod) (sales : List Sale)
    → All IsPaid sales
    → ByMethod.cash (add_methods b sales)
      ≡ b.cash +ℤ sum Sale.total (keep (λ s. is_cash_method (method_of s)) sales)
unfolding add_methods sum
add_methods_cash b [] paid = omega int_laws
add_methods_cash b (s ∷ sales) ((m, e), paid) =
    let ih = parts (add_methods_cash (add_method m s.total b) sales paid) in
    let one = parts (add_method_cash m s.total b) in
    elim (Bool-cases (is_cash_method (some m))) [
      | inl cash ↦ rw (add_methods, e, cash) (omega (int_laws, ih, rw cash at one))
      | inr other ↦ rw (add_methods, e, other) (omega (int_laws, ih, rw other at one))
    ]

All-keep : (p : Sale → Bool) (sales : List Sale) → All IsPaid sales → All IsPaid (keep p sales)
All-keep p [] paid = tt
All-keep p (s ∷ sales) (h, hs) =
    let rest = All-keep p sales hs in
    elim (Bool-cases (p s)) [ inl e ↦ rw e (h, rest) | inr e ↦ rw e rest ]

count-split :
    (p q : Sale → Bool) (sales : List Sale)
    → length (keep (λ s. p s && not (q s)) sales) + length (keep (λ s. p s && q s) sales)
      ≡ length (keep p sales)
count-split p q [] = omega arith
count-split p q (s ∷ sales) = ground (arith, count-split p q sales)

-- If every sale has a payment, the report's amounts by method add up to its gross amount, the one of
-- cash is what the expected cash counts as sold, and the shift's sales are those that count as sold
-- and those that count as voided.
pub shift_totals_adds_up :
    (shift : Shift) (sales : List Sale)
    → All IsPaid sales
    → let t = shift_totals shift sales in
      (t.by_method.cash +ℤ t.by_method.card +ℤ t.by_method.gcash +ℤ t.by_method.maya
          +ℤ t.by_method.other
        ≡ t.gross)
      × (t.by_method.cash ≡ t.cash_sales)
      × (t.sale_count + t.void_count ≡ length (keep (is_of_shift shift) sales))
unfolding shift_totals
shift_totals_adds_up shift sales paid =
    let sold = keep (is_sold shift) sales in
    let up = parts (add_methods_adds empty_by_method sold (All-keep (is_sold shift) sales paid)) in
    let cash =
      parts (add_methods_cash empty_by_method sold (All-keep (is_sold shift) sales paid)) in
    (
      omega (int_laws, up),
      omega (int_laws, cash),
      count-split (is_of_shift shift) (λ s. is_voided s.status) sales,
    )
