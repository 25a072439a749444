-- ===== src/Trade/Sold.antt =====
-- What `completeSale` of src/pos/sales/sales.service.ts writes.
use sentry_pos_be.Common.{
  ℕ, ◌+◌, ◌≡◌, refl, sym, ◌∙◌, ◌⊎◌, inl, inr, Bool, false, none, some, List, arith, Option-cases,
  ok,
}
use sentry_pos_be.Money.{Double}
use sentry_pos_be.KeyMap.{Key, KeyMap}
use sentry_pos_be.Cart.{Cart}
use sentry_pos_be.Totals.{CartTotals}
use sentry_pos_be.Inventory.{Stock, level}
use sentry_pos_be.Db.{SaleDraft, Sale, Db, Ctx}
use sentry_pos_be.Sales.Draft.{Costs}
use sentry_pos_be.Sales.Claims.{Claim, claims_of}
use sentry_pos_be.Sales.Claims.Sum.{total}
use sentry_pos_be.Sales.Complete.{
  find_sale, find_any_sale, build_sale, insert_sale, receipt_taken, persist, finish, complete_sale,
}
use sentry_pos_be.Sales.Complete.Persist.{HasPositive, persist_outcome}
use sentry_pos_be.Sales.Complete.Replay.{find_sale-none, complete_sale-persist, checks_passed}

module _ {W : Type 0} ⦃d : Double W⦄ (ctx : Ctx) (pre db : Db W) (draft : SaleDraft) (now : ℕ) where
  abbrev pub claims : List Claim
  claims = claims_of ctx.branch_id (Cart.lines draft.cart)

  -- The new sale is stored beside the old ones, and its lines' goods have left the shelf.
  pub record IsWritten (sale : Sale) (after : Db W) : Type 0 where
    pub totals : CartTotals
    pub costs : Costs
    pub levels : KeyMap ℕ
    pub built : sale ≡ build_sale ctx draft totals costs now
    pub fresh : find_any_sale draft.id db.sales ≡ none
    pub free : receipt_taken ctx.terminal_id draft.receipt_no db.sales ≡ false
    pub sums : (k : Key) → level k levels + total k claims ≡ level k (Stock.levels (Db.stock db))
    pub result :
        after
        ≡ insert_sale ctx
            (record db { stock = record (Db.stock db) { levels = levels } })
            sale
            claims

  persist-replays :
      (totals : CartTotals) (costs : Costs) {other : Sale}
      → find_any_sale draft.id db.sales ≡ some other
      → persist ctx db draft totals costs now ≡ ok (other, db)
  unfolding persist
  persist-replays totals costs found = ground arith

  finish_writes :
      (totals : CartTotals) (costs : Costs) {sale : Sale} {after : Db W} {replayed : Bool}
      → HasPositive (Cart.lines draft.cart)
      → finish ctx db draft (persist ctx db draft totals costs now) ≡ ok (replayed, sale, after)
      → (after ≡ db) ⊎ IsWritten sale after
  unfolding finish
  finish_writes totals costs {sale} {after} {replayed} positive e =
      elim (Option-cases (find_any_sale draft.id db.sales)) [
        | inr (other, found) ↦
            let same : persist ctx db draft totals costs now ≡ ok (other, db) =
              persist-replays totals costs found in
            inl (ground arith)
        | inl fresh ↦ elim (persist_outcome ctx db draft totals costs now positive fresh) [
          | inl (k, l, short, h) ↦ absurd (ground arith)
          | inr (inl (fits, taken, h)) ↦
              absurd (ground (arith, find_sale-none ctx.branch_id draft.id db.sales fresh))
          | inr (inr (levels, sums, free, h)) ↦
              let built : sale ≡ build_sale ctx draft totals costs now = ground arith in
              inr (record {
                totals = totals;
                costs = costs;
                levels = levels;
                built = built;
                fresh = fresh;
                free = ground arith;
                sums = sums;
                result = rw built (ground arith);
              })
        ]
      ]

  -- An answered draft with positive quantities either wrote nothing or stored its sale.
  pub complete_sale_writes :
      (sale : Sale) (after : Db W) (replayed : Bool)
      → HasPositive (Cart.lines draft.cart)
      → complete_sale ctx pre db draft now ≡ ok (replayed, sale, after)
      → (after ≡ db) ⊎ IsWritten sale after
  unfolding complete_sale
  complete_sale_writes sale after replayed positive e =
      elim (Option-cases (find_sale ctx.branch_id draft.id pre.sales)) [
        | inr (existing, found) ↦ inl (ground arith)
        | inl new ↦
            let (totals, costs, checked) = checks_passed ctx pre db draft now new e in
            finish_writes totals costs positive
              (sym (complete_sale-persist ctx pre db draft now new checked) ∙ e)
      ]

  pub written_keys :
      {sale : Sale} {after : Db W}
      → IsWritten sale after
      → (sale.id ≡ draft.id)
        × (sale.terminal_id ≡ ctx.terminal_id)
        × (sale.receipt_no ≡ draft.receipt_no)
  unfolding build_sale
  written_keys w = rw w.built (refl, refl, refl)
