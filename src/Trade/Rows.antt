-- ===== src/Trade/Rows.antt =====
-- Rows of sales and movements under the writes of src/pos/sales/sales.service.ts.
use sentry_pos_be.Common.{
  ℕ, ◌≡◌, refl, true, ◌&&◌, ◌==◌, ==_iff, ==_refl, none, is_some, List, [], ◌∷◌, All, arith,
  Bool-cases, inl, inr,
}
use sentry_pos_be.Text.{Text}
use sentry_pos_be.Inventory.{Movement, Stock}
use sentry_pos_be.Db.{Sale}
use sentry_pos_be.Sales.Claims.{Claim}
use sentry_pos_be.Sales.Complete.{find_any_sale, receipt_taken, sale_movement, log_sale}
use sentry_pos_be.Sales.Reverse.{
  Reversal, is_sale_move, sale_moves, update_sale, give_back, restore_moves, restore_stock,
}
use sentry_pos_be.Trade.{SalesAreDistinct, IsRooted}

-- A change of a sale that keeps what the unique indexes read.
abbrev pub KeepsKeys : (Sale → Sale) → Type 0
KeepsKeys f =
    (s : Sale)
    → ((f s).id ≡ s.id) × ((f s).terminal_id ≡ s.terminal_id) × ((f s).receipt_no ≡ s.receipt_no)

module _ (f : Sale → Sale) (keeps : KeepsKeys f) (branch id : ℕ) where
  pub find_any_sale-update :
      (x : ℕ) (sales : List Sale)
      → is_some (find_any_sale x (update_sale branch id f sales)) ≡ is_some (find_any_sale x sales)
  unfolding find_any_sale update_sale
  find_any_sale-update x [] = refl
  find_any_sale-update x (s ∷ sales) = ground (arith, keeps s, find_any_sale-update x sales)

  receipt_taken-update :
      (terminal : ℕ) (receipt : Text) (sales : List Sale)
      → receipt_taken terminal receipt (update_sale branch id f sales)
        ≡ receipt_taken terminal receipt sales
  unfolding receipt_taken update_sale
  receipt_taken-update terminal receipt [] = refl
  receipt_taken-update terminal receipt (s ∷ sales) =
      let (i, t, r) = keeps s in
      elim (Bool-cases (s.id == id && s.branch_id == branch)) [
        | inl same ↦ rw (same, t, r) refl
        | inr other ↦ rw (other, receipt_taken-update terminal receipt sales) refl
      ]

  pub update_sale-AreDistinct :
      (sales : List Sale)
      → SalesAreDistinct sales
      → SalesAreDistinct (update_sale branch id f sales)
  unfolding update_sale
  update_sale-AreDistinct [] h = tt
  update_sale-AreDistinct (s ∷ sales) (fresh, free, rest) =
      let (i, t, r) = keeps s in
      elim (Bool-cases (s.id == id && s.branch_id == branch)) [
        | inl same ↦ rw (same, i, t, r) (fresh, free, rest)
        | inr other ↦
            rw (other, receipt_taken-update s.terminal_id s.receipt_no sales)
              (
                ground (arith, find_any_sale-update s.id sales),
                free,
                update_sale-AreDistinct sales rest,
              )
      ]

  pub update_sale-IsRooted :
      (sales : List Sale) (ms : List Movement)
      → All (IsRooted sales) ms
      → All (IsRooted (update_sale branch id f sales)) ms
  update_sale-IsRooted sales [] h = tt
  update_sale-IsRooted sales (m ∷ ms) (h, hs) =
      (λ e. rw (find_any_sale-update m.ref_id sales) (h e), update_sale-IsRooted sales ms hs)

is_some-insert :
    (sale : Sale) (x : ℕ) (sales : List Sale)
    → is_some (find_any_sale x sales) ≡ true
    → is_some (find_any_sale x (sale ∷ sales)) ≡ true
unfolding find_any_sale
is_some-insert sale x sales h = ground arith

insert-IsRooted :
    (sale : Sale) (sales : List Sale) (ms : List Movement)
    → All (IsRooted sales) ms
    → All (IsRooted (sale ∷ sales)) ms
insert-IsRooted sale sales [] h = tt
insert-IsRooted sale sales (m ∷ ms) (h, hs) =
    (λ e. is_some-insert sale m.ref_id sales (h e), insert-IsRooted sale sales ms hs)

log_sale-IsRooted :
    (sale : Sale) (sales : List Sale) (cs : List Claim) (ms : List Movement)
    → All (IsRooted (sale ∷ sales)) ms
    → All (IsRooted (sale ∷ sales)) (log_sale sale.id cs ms)
unfolding log_sale find_any_sale
log_sale-IsRooted sale sales [] ms h = h
log_sale-IsRooted sale sales (c ∷ cs) ms h =
    log_sale-IsRooted sale sales cs (sale_movement sale.id c ∷ ms)
      (λ _. rw (==_refl sale.id) refl, h)

pub sold-IsRooted :
    (sale : Sale) (sales : List Sale) (cs : List Claim) (ms : List Movement)
    → All (IsRooted sales) ms
    → All (IsRooted (sale ∷ sales)) (log_sale sale.id cs ms)
sold-IsRooted sale sales cs ms h =
    log_sale-IsRooted sale sales cs ms (insert-IsRooted sale sales ms h)

restore_moves-IsRooted :
    (kind : Reversal) (id : ℕ) (sales : List Sale) (ms : List Movement) (stock : Stock)
    → All (IsRooted sales) stock.movements
    → All (IsRooted sales) (Stock.movements (restore_moves kind id ms stock))
unfolding restore_moves
restore_moves-IsRooted kind id sales [] stock h = h
restore_moves-IsRooted Reversal.void id sales (m ∷ ms) stock h =
    restore_moves-IsRooted Reversal.void id sales ms (give_back Reversal.void id m stock)
      (λ e. absurd (cc e), h)
restore_moves-IsRooted Reversal.refund id sales (m ∷ ms) stock h =
    restore_moves-IsRooted Reversal.refund id sales ms (give_back Reversal.refund id m stock)
      (λ e. absurd (cc e), h)

pub restore_stock-IsRooted :
    (branch id : ℕ) (kind : Reversal) (sales : List Sale) (stock : Stock)
    → All (IsRooted sales) stock.movements
    → All (IsRooted sales) (Stock.movements (restore_stock branch id kind stock))
unfolding restore_stock
restore_stock-IsRooted branch id kind sales stock h =
    restore_moves-IsRooted kind id sales (sale_moves branch id stock.movements) stock h

-- A sale that is not stored has no movements.
pub unknown_moves :
    (branch id : ℕ) (sales : List Sale) (ms : List Movement)
    → find_any_sale id sales ≡ none
    → All (IsRooted sales) ms
    → sale_moves branch id ms ≡ []
unfolding sale_moves is_sale_move
unknown_moves branch id sales [] fresh h = refl
unknown_moves branch id sales (m ∷ ms) fresh (h, hs) =
    ground (arith, ==_iff m.ref_id id, unknown_moves branch id sales ms fresh)
