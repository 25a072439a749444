-- ===== src/Trade/Undo.antt =====
-- The goods of a sale that is voided or refunded later: src/pos/sales/sales.service.ts.
use sentry_pos_be.Common.{
  ℕ, ◌+◌, ◌≡◌, refl, ap, length, ◌⊎◌, inl, inr, ==_refl, Bool, true, none, is_some, List, [], ◌∷◌,
  All, arith, ok,
}
use sentry_pos_be.Text.{Text, trim}
use sentry_pos_be.Money.{Double}
use sentry_pos_be.KeyMap.{Key}
use sentry_pos_be.Cart.{Cart, Ref}
use sentry_pos_be.Inventory.{Stock, level}
use sentry_pos_be.Inventory.Balance.{going}
use sentry_pos_be.Db.{SaleDraft, Sale, Db, Ctx}
use sentry_pos_be.Sales.Claims.{Claim, claims_of}
use sentry_pos_be.Sales.Claims.Sum.{total}
use sentry_pos_be.Sales.Complete.{find_sale, find_any_sale, insert_sale, complete_sale}
use sentry_pos_be.Sales.Complete.Persist.{HasPositive, OfBranch, claims-OfBranch}
use sentry_pos_be.Sales.Complete.Replay.{complete_sale_idempotent}
use sentry_pos_be.Sales.Reverse.{
  Reversal, sale_moves, reverse_sale, mark_voided, mark_refunded, void_sale, refund_checked,
}
use sentry_pos_be.Sales.Reverse.Levels.{restore_stock_levels, log_sale_moves}
use sentry_pos_be.Sales.Reverse.Status.{void_sale_iff, refund_checked_iff, own_shift}
use sentry_pos_be.Trade.{Steps, IsSound}
use sentry_pos_be.Trade.Rows.{unknown_moves}
use sentry_pos_be.Trade.Sold.{claims, IsWritten, written_keys, complete_sale_writes}
use sentry_pos_be.Trade.Moves.{Steps-Has}

claims-branch :
    (branch : ℕ) (cs : List Claim)
    → All (OfBranch branch) cs
    → All (λ c. Key.branch (Claim.key c) ≡ branch) cs
claims-branch branch [] h = tt
claims-branch branch (c ∷ cs) (h, hs) = (h.1, claims-branch branch cs hs)

module _ {W : Type 0} ⦃d : Double W⦄ (ctx : Ctx) (pre db after : Db W) (draft : SaleDraft)
    (now : ℕ) where
  -- What the movements of a new sale take.
  written_going :
      (sale : Sale) (k : Key)
      → IsSound db
      → HasPositive (Cart.lines draft.cart)
      → IsWritten ctx pre db draft now sale after
      → going k (sale_moves ctx.branch_id draft.id (Stock.movements (Db.stock after)))
        ≡ total k (claims ctx pre db draft now)
  unfolding insert_sale going
  written_going sale k sound positive w =
      let (i, t, r) = written_keys ctx pre db draft now w in
      let cs = claims ctx pre db draft now in
      let ms = Stock.movements (Db.stock db) in
      let branch =
        claims-branch ctx.branch_id cs
          (claims-OfBranch ctx.branch_id (Cart.lines draft.cart) positive) in
      let none_before = unknown_moves ctx.branch_id draft.id db.sales ms w.fresh sound.rooted in
      rw (w.result, i)
        (let logged = log_sale_moves ctx.branch_id draft.id cs ms k branch in
          let zero : going k (sale_moves ctx.branch_id draft.id ms) ≡ 0 = rw none_before refl in
          omega (arith, logged, zero))

  written_stored :
      (sale : Sale)
      → IsWritten ctx pre db draft now sale after
      → is_some (find_any_sale draft.id after.sales) ≡ true
  unfolding insert_sale find_any_sale
  written_stored sale w =
      let (i, t, r) = written_keys ctx pre db draft now w in rw (w.result, i, ==_refl draft.id) refl

  reversed_levels :
      (later : Db W) (kind : Reversal) (mark : Sale → Sale) (sale : Sale) (k : Key)
      → IsSound db
      → HasPositive (Cart.lines draft.cart)
      → IsWritten ctx pre db draft now sale after
      → Steps after later
      → level k (Stock.levels (Db.stock (reverse_sale ctx later draft.id kind mark)))
        ≡ level k (Stock.levels (Db.stock later)) + total k (claims ctx pre db draft now)
  unfolding reverse_sale
  reversed_levels later kind mark sale k sound positive w steps =
      let (stored, moves) = Steps-Has ctx.branch_id draft.id steps (written_stored sale w, refl) in
      let goes = written_going sale k sound positive w in
      let back = restore_stock_levels ctx.branch_id draft.id kind (Db.stock later) k in
      rw (back, moves, goes) refl

  -- From sound tables, a draft with positive quantities under a new id goes through. Then, after any further
  -- requests, a void or a refund of its sale from the same branch raises every stock level by exactly what
  -- the lines of the draft took from it; and the levels before the sale were the levels after it and that.
  pub undo_gives_back :
      (later undone : Db W) (reason : Text) (at : ℕ) (sale sale' : Sale) (replayed : Bool) (k : Key)
      → IsSound db
      → HasPositive (Cart.lines draft.cart)
      → find_sale ctx.branch_id draft.id pre.sales ≡ none
      → find_any_sale draft.id db.sales ≡ none
      → complete_sale ctx pre db draft now ≡ ok (replayed, sale, after)
      → Steps after later
      → (void_sale ctx later (Ref.uuid draft.id) reason at ≡ ok (sale', undone))
        ⊎ (refund_checked ctx later (Ref.uuid draft.id) reason at ≡ ok (sale', undone))
      → let taken = total k (claims_of ctx.branch_id (Cart.lines draft.cart)) in
        (level k (Stock.levels (Db.stock undone)) ≡ level k (Stock.levels (Db.stock later)) + taken)
        × (level k (Stock.levels (Db.stock db)) ≡ level k (Stock.levels (Db.stock after)) + taken)
  unfolding insert_sale
  undo_gives_back later undone reason at sale sale' replayed k sound positive new fresh e steps
        back =
      elim (complete_sale_writes ctx pre db draft now sale after replayed positive e) [
        | inl same ↦
            let (first, stored, again) =
              complete_sale_idempotent ctx pre db draft now db now positive new fresh e in
            let longer = ap length (rw same at stored) in absurd (omega (arith, longer))
        | inr w ↦
            let sums = w.sums k in
            let result = w.result in
            elim back [
              | inl v ↦
                  let (s, rev, own, s', db') =
                    (void_sale_iff ctx later draft.id reason at sale' undone).0 v in
                  (
                    rw db' (
                        reversed_levels later Reversal.void (mark_voided at (trim reason)) sale k
                          sound positive w steps),
                    rw result (omega arith),
                  )
              | inr v ↦
                  let (s, rev, s', db') =
                    (refund_checked_iff ctx later draft.id reason at sale' undone).0 v in
                  (
                    rw db' (
                        reversed_levels later Reversal.refund
                          (mark_refunded at (trim reason) (own_shift ctx later s)) sale k sound
                          positive w steps),
                    rw result (omega arith),
                  )
            ]
      ]
