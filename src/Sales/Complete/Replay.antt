-- ===== src/Sales/Complete/Replay.antt =====
-- The same draft id more than once: `completeSale` of src/pos/sales/sales.service.ts.
use sentry_pos_be.Common.{
  ℕ, ◌≡◌, ◌∙◌, sym, refl, inl, inr, Bool, true, false, none, some, List, [], ◌∷◌, arith, Result, ok,
  err, ==_refl,
}
use sentry_pos_be.Money.{Double}
use sentry_pos_be.Cart.{Cart}
use sentry_pos_be.Totals.{CartTotals}
use sentry_pos_be.Db.{SaleDraft, Sale, Db, Ctx}
use sentry_pos_be.Sales.Draft.{Costs}
use sentry_pos_be.Sales.Complete.{
  find_sale, find_any_sale, check_draft, build_sale, insert_sale, persist, finish, complete_sale,
}
use sentry_pos_be.Sales.Complete.Persist.{HasPositive, persist_outcome}

pub find_sale-none :
    (branch id : ℕ) (sales : List Sale)
    → find_any_sale id sales ≡ none
    → find_sale branch id sales ≡ none
unfolding find_sale find_any_sale
find_sale-none branch id [] h = refl
find_sale-none branch id (s ∷ sales) h = ground (arith, find_sale-none branch id sales)

find_sale-built :
    (ctx : Ctx) (draft : SaleDraft) (totals : CartTotals) (costs : Costs) (now : ℕ)
    (sales : List Sale)
    → let sale = build_sale ctx draft totals costs now in
      find_sale ctx.branch_id draft.id (sale ∷ sales) ≡ some sale
unfolding find_sale build_sale
find_sale-built ctx draft totals costs now sales =
    ground (arith, ==_refl draft.id, ==_refl ctx.branch_id)

module _ {W : Type 0} ⦃d : Double W⦄ (ctx : Ctx) (pre db : Db W) (draft : SaleDraft) (now : ℕ) where
  -- Past the checks, `completeSale` is its transaction.
  pub complete_sale-persist :
      {totals : CartTotals} {costs : Costs}
      → find_sale ctx.branch_id draft.id pre.sales ≡ none
      → check_draft ctx pre draft ≡ ok (totals, costs)
      → complete_sale ctx pre db draft now
        ≡ finish ctx db draft (persist ctx db draft totals costs now)
  unfolding complete_sale
  complete_sale-persist new checked = ground arith

  pub checks_passed :
      {r : Bool × Sale × Db W}
      → find_sale ctx.branch_id draft.id pre.sales ≡ none
      → complete_sale ctx pre db draft now ≡ ok r
      → (totals : CartTotals) × (costs : Costs) × (check_draft ctx pre draft ≡ ok (totals, costs))
  unfolding complete_sale
  checks_passed new e = go (check_draft ctx pre draft) refl
    where
      go :
          (c : Result (CartTotals × Costs))
          → check_draft ctx pre draft ≡ c
          → (totals : CartTotals) × (costs : Costs) × (check_draft ctx pre draft
              ≡ ok (totals, costs))
      go (ok (totals, costs)) h = (totals, costs, h)
      go (err x) h = absurd (ground arith)

  -- A draft that was just posted, under an id that was in use nowhere.
  posted :
      (totals : CartTotals) (costs : Costs) {sale : Sale} {after : Db W} {replayed : Bool}
      → HasPositive (Cart.lines draft.cart)
      → find_any_sale draft.id db.sales ≡ none
      → finish ctx db draft (persist ctx db draft totals costs now) ≡ ok (replayed, sale, after)
      → (replayed ≡ false)
        × (sale ≡ build_sale ctx draft totals costs now)
        × (after.sales ≡ sale ∷ db.sales)
  unfolding finish insert_sale
  posted totals costs {sale} {after} {replayed} positive fresh e =
      elim (persist_outcome ctx db draft totals costs now positive fresh) [
        | inl (k, l, short, h) ↦ absurd (ground arith)
        | inr (inl (fits, taken, h)) ↦
            absurd (ground (arith, find_sale-none ctx.branch_id draft.id db.sales fresh))
        | inr (inr (levels, sums, free, h)) ↦ ground arith
      ]

  -- A draft with positive quantities that completes under an id that was in use nowhere is stored as a
  -- new sale; sending the same draft again, its look-up reading the tables as that sale left them,
  -- whatever the tables hold later and whatever its checks would say, answers with that sale as a replay and writes nothing.
  pub complete_sale_idempotent :
      (later : Db W) (again : ℕ) {sale : Sale} {after : Db W} {replayed : Bool}
      → HasPositive (Cart.lines draft.cart)
      → find_sale ctx.branch_id draft.id pre.sales ≡ none
      → find_any_sale draft.id db.sales ≡ none
      → complete_sale ctx pre db draft now ≡ ok (replayed, sale, after)
      → (replayed ≡ false)
        × (after.sales ≡ sale ∷ db.sales)
        × (complete_sale ctx after later draft again ≡ ok (true, sale, later))
  unfolding complete_sale
  complete_sale_idempotent later again positive new fresh e =
      let (totals, costs, checked) = checks_passed new e in
      let (first, built, sales) =
        posted totals costs positive fresh (sym (complete_sale-persist new checked) ∙ e) in
      (first, sales, ground (arith, find_sale-built ctx draft totals costs now db.sales))
