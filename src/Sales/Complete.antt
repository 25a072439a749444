-- ===== src/Sales/Complete.antt =====
-- src/pos/sales/sales.service.ts, `completeSale`: the checks read one state of the tables (`pre`), and
-- the transaction runs on the state that stands when it holds its locks (`db`), which other requests may
-- have changed in between.
pub mod Persist
pub mod Replay
use Prim.Native.Nat.{max}
use sentry_pos_be.Common.{
  ℕ, ◌+◌, Bool, true, false, not, ◌&&◌, ◌||◌, ◌==◌, Option, none, some, is_some, List, [], ◌∷◌, map,
  ℤ, pos, ◌-ℤ◌, sub_ℕ, if◌then◌else◌, find, any, Error, Result, ok, err, ◌>>=◌, ◌>>◌, throw_if,
}
use sentry_pos_be.Text.{Text, seq_of, text_eq}
use sentry_pos_be.Money.{Double}
use sentry_pos_be.Cart.{CartLine, Cart, DiscountSpec, Ref}
use sentry_pos_be.Totals.{Applied, LineTotals, CartTotals, Rates, compute_totals}
use sentry_pos_be.Inventory.{Movement, MovementType, Stock, log_movement}
use sentry_pos_be.Db.{
  Business, Terminal, Shift, SaleStatus, SaleDraft, SaleItem, Payment, Sale, Db, Ctx,
}
use sentry_pos_be.Sales.Draft.{Costs, validate_lines, validate_discounts, assert_payment, totals_eq}
use sentry_pos_be.Sales.Claims.{
  Claim, claims_of, wanted, lock_stock, Conflict, detect_conflicts, decrement_all,
}

-- `scoped.sale.findFirst({ where: { id } })`, which the choke point pins to the terminal's branch.
unfoldable pub find_sale : ℕ → ℕ → List Sale → Option Sale
find_sale branch id sales = find (λ s. s.id == id && s.branch_id == branch) sales

-- `tx.sale.findFirst({ where: { id } })`, on the raw client.
unfoldable pub find_any_sale : ℕ → List Sale → Option Sale
find_any_sale id sales = find (λ s. s.id == id) sales

abbrev pub is_open_at : ℕ → ℕ → Shift → Bool
is_open_at terminal branch s =
    s.terminal_id == terminal && s.branch_id == branch && not (is_some s.closed_at)

-- The terminal's open shift.
unfoldable pub find_open_shift : Ctx → List Shift → Option Shift
find_open_shift ctx shifts = find (is_open_at ctx.terminal_id ctx.branch_id) shifts

find_business : {W : Type 0} → Ctx → List (Business W) → Option (Business W)
find_business ctx bs =
    find (λ b. b.id == ctx.business_id && b.owner_id == ctx.owner_id && not b.deleted) bs

module _ {W : Type 0} ⦃d : Double W⦄ where
  shift_is_open : Ctx → Db W → ℕ → Bool
  unfolding find_open_shift
  shift_is_open ctx db id = elim (find_open_shift ctx db.shifts) [
    | none ↦ false
    | some s ↦ s.id == id
  ]

  business_rates : Ctx → Db W → Result (Rates W)
  unfolding find_business
  business_rates ctx db = elim (find_business ctx db.businesses) [
    | none ↦ err Error.not_found
    | some b ↦ ok b.rates
  ]

  -- Steps 2 to 6: the totals of the server and the costs of the lines.
  unfoldable pub check_draft : Ctx → Db W → SaleDraft → Result (CartTotals × Costs)
  unfolding shift_is_open business_rates
  check_draft ctx db draft = do
    throw_if (not (shift_is_open ctx db draft.shift_id)) Error.validation
    rates ← business_rates ctx db
    costs ← validate_lines db ctx.business_id [] draft.cart.lines
    validate_discounts db ctx.owner_id draft.cart
    throw_if (not (totals_eq (compute_totals draft.cart rates) draft.totals)) Error.validation
    assert_payment draft.payment (CartTotals.total (compute_totals draft.cart rates))
    ok (compute_totals draft.cart rates, costs)

discount_ref : Option DiscountSpec → Option Ref
discount_ref none = none
discount_ref (some (DiscountSpec.free _ _)) = none
discount_ref (some (DiscountSpec.named ref _ _)) = some ref

is_promo : Applied → Bool
is_promo Applied.promo = true
is_promo Applied.scpwd = false
is_promo Applied.nothing = false

cost_of_line : ℕ → Costs → Option ℤ
cost_of_line id costs = elim (find (λ e. e.0 == id) costs) [ none ↦ none | some e ↦ e.1 ]

sale_item : CartTotals → Costs → CartLine → SaleItem
unfolding discount_ref is_promo cost_of_line
sale_item totals costs line =
    let lt = find (λ t. t.line_id == line.id) totals.lines in
    record {
      product_id = line.product_id;
      variant_id = line.variant_id;
      qty = line.qty;
      unit_price = line.unit_price;
      cost_snapshot = cost_of_line line.id costs;
      discount = elim lt [ none ↦ pos 0 | some t ↦ t.gross -ℤ t.net ];
      discount_id = elim lt [
        | none ↦ none
        | some t ↦ if is_promo t.applied then discount_ref line.discount else none
      ];
      modifiers = line.modifiers;
    }

-- `buildSaleData`, with the columns' defaults.
unfoldable pub build_sale : Ctx → SaleDraft → CartTotals → Costs → ℕ → Sale
unfolding sale_item discount_ref
build_sale ctx draft totals costs now = record {
  id = draft.id;
  branch_id = ctx.branch_id;
  terminal_id = ctx.terminal_id;
  shift_id = draft.shift_id;
  receipt_no = draft.receipt_no;
  order_type = Cart.order_type draft.cart;
  status = SaleStatus.completed;
  status_reason = none;
  subtotal = totals.subtotal;
  discount = totals.promo_discount;
  discount_id = discount_ref (Cart.order_discount draft.cart);
  service_charge = totals.service_charge;
  sc_pwd_discount = totals.sc_pwd_discount;
  vat_exempt_sales = totals.vat_exempt_sales;
  tax = totals.vat;
  total = totals.total;
  created_at = now;
  voided_at = none;
  refunded_at = none;
  refund_shift_id = none;
  items = map (sale_item totals costs) (Cart.lines draft.cart);
  payments = draft.payment ∷ [];
  draft = draft;
}

abbrev pub sale_movement : ℕ → Claim → Movement
sale_movement sale c = record {
  key = c.key;
  movement_type = MovementType.sale;
  ref_id = sale;
  qty_delta = sub_ℕ 0 c.milli;
  unit_cost = none;
  reason_category = none;
}

-- One movement for each tracked line.
unfoldable pub log_sale : ℕ → List Claim → List Movement → List Movement
log_sale sale [] ms = ms
log_sale sale (c ∷ cs) ms = log_sale sale cs (sale_movement sale c ∷ ms)

-- `Math.max(term.receiptSeq, seqOf(dto.receiptNo) + 1)`, written only where it differs.
unfoldable pub bump_seq : ℕ → ℕ → List Terminal → List Terminal
bump_seq terminal printed [] = []
bump_seq terminal printed (t ∷ ts) =
    if t.id == terminal
    then record t { receipt_seq = max t.receipt_seq (printed + 1) } ∷ ts
    else t ∷ bump_seq terminal printed ts

-- The unique index of `sales` on the terminal and the receipt number.
unfoldable pub receipt_taken : ℕ → Text → List Sale → Bool
receipt_taken terminal receipt sales =
    any (λ s. s.terminal_id == terminal && text_eq s.receipt_no receipt) sales

-- The primary key of `sale_payments`.
unfoldable pub payment_taken : ℕ → List Sale → Bool
payment_taken id sales = any (λ s. any (λ (p : Payment). p.id == id) s.payments) sales

unfoldable pub shortages : List Conflict → List (ℕ × ℕ)
shortages = map (λ c. (c.line_id, c.available))

abbrev pub has_conflicts : List Conflict → Bool
has_conflicts [] = false
has_conflicts (c ∷ cs) = true

abbrev pub is_unique_violation : Error → Bool
is_unique_violation Error.unique_violation = true
is_unique_violation _ = false

module _ {W : Type 0} where
  -- The insert and what follows it, on the decremented levels.
  unfoldable pub insert_sale : Ctx → Db W → Sale → List Claim → Db W
  insert_sale ctx db sale cs = record db {
    sales = sale ∷ db.sales;
    stock = record (Db.stock db) {
      movements = log_sale sale.id cs (Stock.movements (Db.stock db));
    };
    terminals = bump_seq ctx.terminal_id (seq_of sale.receipt_no) db.terminals;
  }

  -- `persist`, the body of the transaction.
  unfoldable pub persist : Ctx → Db W → SaleDraft → CartTotals → Costs → ℕ → Result (Sale × Db W)
  persist ctx db draft totals costs now =
      let cs = claims_of ctx.branch_id (Cart.lines draft.cart) in
      let levels = Stock.levels (Db.stock db) in
      let locked = lock_stock ctx.branch_id cs levels in
      let conflicts = detect_conflicts locked [] cs in
      let sale = build_sale ctx draft totals costs now in
      elim (find_any_sale draft.id db.sales) [
        | some concurrent ↦ ok (concurrent, db)
        | none ↦
            if has_conflicts conflicts
            then err (Error.stock_conflict (shortages conflicts))
            else elim (decrement_all locked (wanted [] cs) levels) [
              | err e ↦ err e
              | ok levels' ↦
                  if receipt_taken ctx.terminal_id draft.receipt_no db.sales
                    || payment_taken (Payment.id draft.payment) db.sales
                  then err Error.unique_violation
                  else ok (
                    sale,
                    insert_sale ctx
                        (record db { stock = record (Db.stock db) { levels = levels' } }) sale cs,
                  )
            ]
      ]

  -- The `try` around the transaction.
  unfoldable pub finish :
      Ctx → Db W → SaleDraft → Result (Sale × Db W) → Result (Bool × Sale × Db W)
  finish ctx db draft (ok (sale, after)) = ok (false, sale, after)
  finish ctx db draft (err e) =
      if is_unique_violation e
      then elim (find_sale ctx.branch_id draft.id db.sales) [
        | some dup ↦ ok (true, dup, db)
        | none ↦ err Error.validation
      ]
      else err e

module _ {W : Type 0} ⦃d : Double W⦄ where
  unfoldable pub complete_sale : Ctx → Db W → Db W → SaleDraft → ℕ → Result (Bool × Sale × Db W)
  complete_sale ctx pre db draft now = elim (find_sale ctx.branch_id draft.id pre.sales) [
    | some existing ↦ ok (true, existing, db)
    | none ↦ elim (check_draft ctx pre draft) [
      | err e ↦ err e
      | ok (totals, costs) ↦ finish ctx db draft (persist ctx db draft totals costs now)
    ]
  ]
