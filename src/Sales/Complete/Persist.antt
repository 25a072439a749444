-- ===== src/Sales/Complete/Persist.antt =====
-- The outcomes of the transaction body `persist` in src/pos/sales/sales.service.ts.
use sentry_pos_be.Common.{
  ℕ, ◌+◌, ◌≤◌, ◌<◌, ◌≡◌, refl, ◌⊎◌, inl, inr, Bool, true, false, ◌||◌, none, List, [], ◌∷◌, All,
  arith, Bool-cases, Error, ok, err,
}
use sentry_pos_be.KeyMap.{Key, KeyMap, key_eq_iff, lookup, lookup-keep}
use sentry_pos_be.Cart.{CartLine, Cart}
use sentry_pos_be.Totals.{CartTotals}
use sentry_pos_be.Inventory.{Stock, level}
use sentry_pos_be.Db.{Payment, SaleDraft, Db, Ctx}
use sentry_pos_be.Sales.Draft.{Costs}
use sentry_pos_be.Sales.Claims.{
  Claim, claims_of, wanted, lock_stock, is_locked, Conflict, detect_conflicts, decrement_all,
}
use sentry_pos_be.Sales.Claims.Sum.{total, draws_on, total-eq-zero}
use sentry_pos_be.Sales.Claims.Exact.{detect_conflicts-none_iff, conflict_short}
use sentry_pos_be.Sales.Claims.Decrement.{
  asked, asked-wanted, wanted-AllPositive, decrement_all_total,
}
use sentry_pos_be.Sales.Complete.{
  find_any_sale, build_sale, insert_sale, receipt_taken, payment_taken, shortages, persist,
}

-- The quantities that the DTO lets through.
abbrev pub HasPositive : List CartLine → Type 0
HasPositive lines = All (λ l. 0 < CartLine.qty l) lines

abbrev pub OfBranch : ℕ → Claim → Type 0
OfBranch branch c = (0 < c.milli) × (c.key.branch ≡ branch)

pub claims-OfBranch :
    (branch : ℕ) (lines : List CartLine)
    → HasPositive lines
    → All (OfBranch branch) (claims_of branch lines)
unfolding claims_of
claims-OfBranch branch [] h = tt
claims-OfBranch branch (line ∷ lines) (h, hs) = ground (arith, claims-OfBranch branch lines hs)

draws_on-is_locked :
    (branch : ℕ) (k : Key) (cs : List Claim)
    → All (OfBranch branch) cs
    → draws_on k cs ≡ true
    → is_locked branch cs k ≡ true
unfolding is_locked
draws_on-is_locked branch k [] h e = cc
draws_on-is_locked branch k (c ∷ cs) (h, hs) e =
    ground (arith, key_eq_iff c.key k, draws_on-is_locked branch k cs hs)

milli_positive :
    (branch : ℕ) (cs : List Claim) → All (OfBranch branch) cs → All (λ c. 0 < c.milli) cs
milli_positive branch [] h = tt
milli_positive branch (c ∷ cs) (h, hs) = (h.0, milli_positive branch cs hs)

-- A level that the draft draws on is among the locked rows.
level-lock_stock :
    (branch : ℕ) (k : Key) (cs : List Claim) (levels : KeyMap ℕ)
    → All (OfBranch branch) cs
    → draws_on k cs ≡ true
    → level k (lock_stock branch cs levels) ≡ level k levels
unfolding lock_stock
level-lock_stock branch k cs levels h e =
    ground (arith, lookup-keep (is_locked branch cs) k levels, draws_on-is_locked branch k cs h e)

module _ {W : Type 0} (ctx : Ctx) (db : Db W) (draft : SaleDraft) (totals : CartTotals)
    (costs : Costs) (now : ℕ) where
  abbrev claims : List Claim
  claims = claims_of ctx.branch_id (Cart.lines draft.cart)

  abbrev levels : KeyMap ℕ
  levels = Stock.levels (Db.stock db)

  abbrev conflicts : List Conflict
  conflicts = detect_conflicts (lock_stock ctx.branch_id claims levels) [] claims

  -- A draft that finds a level short.
  abbrev pub IsShort : Type 0
  IsShort =
      (k : Key) × (l : List (ℕ × ℕ)) × (level k levels < total k claims)
      × (persist ctx db draft totals costs now ≡ err (Error.stock_conflict l))

  -- The terminal has used the receipt number, or some sale the id of the payment.
  abbrev pub is_taken : Bool
  is_taken =
      receipt_taken ctx.terminal_id draft.receipt_no db.sales
      || payment_taken (Payment.id draft.payment) db.sales

  -- A draft whose receipt number or payment id is in use.
  abbrev pub IsDuplicate : Type 0
  IsDuplicate =
      ((k : Key) → total k claims ≤ level k levels)
      × (is_taken ≡ true)
      × (persist ctx db draft totals costs now ≡ err Error.unique_violation)

  abbrev pub IsPosted : Type 0
  IsPosted =
      (after : KeyMap ℕ) × ((k : Key) → level k after + total k claims ≡ level k levels)
      × (is_taken ≡ false)
      × (persist ctx db draft totals costs now
          ≡ ok (
            build_sale ctx draft totals costs now,
            insert_sale ctx (record db { stock = record (Db.stock db) { levels = after } })
                (build_sale ctx draft totals costs now) claims,
          ))

  module _ (positive : HasPositive (Cart.lines draft.cart)) where
    of_branch : All (OfBranch ctx.branch_id) claims
    of_branch = claims-OfBranch ctx.branch_id (Cart.lines draft.cart) positive

    covered :
        conflicts ≡ []
        → (k : Key)
        → (total k claims ≤ level k (lock_stock ctx.branch_id claims levels))
          × (total k claims ≤ level k levels)
    covered e k = elim (Bool-cases (draws_on k claims)) [
      | inl draws ↦
          let locked =
            (detect_conflicts-none_iff (lock_stock ctx.branch_id claims levels) claims).0 e k
              draws in
          let same = level-lock_stock ctx.branch_id k claims levels of_branch draws in
          (locked, omega arith)
      | inr free ↦ omega (arith, total-eq-zero k claims free)
    ]

    asked-claims : (k : Key) → asked k (wanted [] claims) ≡ total k claims
    unfolding asked
    asked-claims k = omega (arith, asked-wanted k [] claims)

    decremented :
        conflicts ≡ []
        → (after : KeyMap ℕ) × (decrement_all
              (lock_stock ctx.branch_id claims levels)
              (wanted [] claims)
              levels
            ≡ ok after)
          × ((k : Key) → level k after + total k claims ≡ level k levels)
    decremented e =
        let (after, done, sums) =
          decrement_all_total (lock_stock ctx.branch_id claims levels) (wanted [] claims) levels
            (wanted-AllPositive [] claims tt (milli_positive ctx.branch_id claims of_branch))
            (λ k. rw (asked-claims k) ((covered e k).0))
            (λ k. rw (asked-claims k) ((covered e k).1)) in
        (after, done, λ k. rw (← asked-claims k) (sums k))

    persist_covered :
        find_any_sale draft.id db.sales ≡ none → conflicts ≡ [] → IsDuplicate ⊎ IsPosted
    unfolding persist
    persist_covered fresh e =
        let (after, done, sums) = decremented e in
        elim (Bool-cases is_taken) [
          | inl taken ↦ inl ((λ k. (covered e k).1), taken, ground arith)
          | inr free ↦ inr (after, sums, free, ground arith)
        ]

    persist_short :
        {x : Conflict} {xs : List Conflict}
        → find_any_sale draft.id db.sales ≡ none
        → conflicts ≡ x ∷ xs
        → IsShort
    unfolding persist lookup
    persist_short fresh e =
        let (k, draws, short) =
          conflict_short (lock_stock ctx.branch_id claims levels) [] claims e in
        let same = level-lock_stock ctx.branch_id k claims levels of_branch draws in
        (k, shortages conflicts, omega arith, ground arith)

    pub persist_outcome :
        find_any_sale draft.id db.sales ≡ none → IsShort ⊎ (IsDuplicate ⊎ IsPosted)
    persist_outcome fresh = go conflicts refl
      where
        go : (cs : List Conflict) → conflicts ≡ cs → IsShort ⊎ (IsDuplicate ⊎ IsPosted)
        go [] e = inr (persist_covered fresh e)
        go (x ∷ xs) e = inl (persist_short fresh e)
