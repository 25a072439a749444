-- ===== src/Trade/Moves.antt =====
-- The stock movements of one sale under the steps of Trade.
use sentry_pos_be.Common.{
  ℕ, ◌≡◌, refl, sym, ◌∙◌, inl, inr, ◌==◌, ==_iff, true, false, is_some, List, [], ◌∷◌, arith,
  Bool-cases,
}
use sentry_pos_be.Text.{trim}
use sentry_pos_be.Money.{Double}
use sentry_pos_be.KeyMap.{Key}
use sentry_pos_be.Inventory.{Movement, ReasonCategory, Stock}
use sentry_pos_be.Db.{SaleDraft, Sale, Db, Ctx}
use sentry_pos_be.Sales.Claims.{Claim}
use sentry_pos_be.Sales.Complete.{find_any_sale, insert_sale, sale_movement, log_sale}
use sentry_pos_be.Sales.Reverse.{
  Reversal, is_sale_move, sale_moves, give_back, restore_moves, restore_stock, reverse_sale,
  mark_voided, mark_refunded,
}
use sentry_pos_be.Sales.Reverse.Status.{void_sale_iff, refund_checked_iff, own_shift}
use sentry_pos_be.Restock.{ReceiveLine, add_line, set_level}
use sentry_pos_be.Restock.Effects.{receive_once_keeps, adjust_once_keeps}
use sentry_pos_be.Trade.{Step, Steps}
use sentry_pos_be.Trade.Rows.{KeepsKeys, find_any_sale-update}
use sentry_pos_be.Trade.Sold.{claims, IsWritten, written_keys, complete_sale_writes}
use sentry_pos_be.Trade.Invariant.{
  open_shift-IsFrame, add_cash_movement-IsFrame, close_shift-IsFrame,
}

sale_moves-other :
    (branch id other : ℕ) (cs : List Claim) (ms : List Movement)
    → (other == id) ≡ false
    → sale_moves branch id (log_sale other cs ms) ≡ sale_moves branch id ms
unfolding sale_moves is_sale_move log_sale
sale_moves-other branch id other [] ms h = refl
sale_moves-other branch id other (c ∷ cs) ms h =
    let rest = sale_moves-other branch id other cs (sale_movement other c ∷ ms) h in ground arith

sale_moves-restore :
    (branch id : ℕ) (kind : Reversal) (sale : ℕ) (ms : List Movement) (stock : Stock)
    → sale_moves branch id (Stock.movements (restore_moves kind sale ms stock))
      ≡ sale_moves branch id stock.movements
unfolding sale_moves is_sale_move restore_moves
sale_moves-restore branch id kind sale [] stock = refl
sale_moves-restore branch id Reversal.void sale (m ∷ ms) stock =
    sale_moves-restore branch id Reversal.void sale ms (give_back Reversal.void sale m stock)
sale_moves-restore branch id Reversal.refund sale (m ∷ ms) stock =
    sale_moves-restore branch id Reversal.refund sale ms (give_back Reversal.refund sale m stock)

sale_moves-add_line :
    (branch id place operation : ℕ) (line : ReceiveLine) (stock : Stock)
    → sale_moves branch id (Stock.movements (add_line place operation line stock))
      ≡ sale_moves branch id stock.movements
unfolding sale_moves is_sale_move add_line
sale_moves-add_line branch id place operation line stock = refl

sale_moves-set_level :
    (branch id : ℕ) (k : Key) (new_qty : ℕ) (reason : ReasonCategory) (movement : ℕ) (stock : Stock)
    → sale_moves branch id (Stock.movements (set_level k new_qty reason movement stock))
      ≡ sale_moves branch id stock.movements
unfolding sale_moves is_sale_move set_level
sale_moves-set_level branch id k new_qty reason movement stock = refl

module _ {W : Type 0} (branch id : ℕ) where
  -- The sale is stored, with these movements.
  abbrev pub Has : List Movement → Db W → Type 0
  Has ms db =
      (is_some (find_any_sale id db.sales) ≡ true)
      × (sale_moves branch id (Stock.movements (Db.stock db)) ≡ ms)

  reverse_sale-Has :
      (ctx : Ctx) (db : Db W) (x : ℕ) (kind : Reversal) (mark : Sale → Sale) {ms : List Movement}
      → KeepsKeys mark
      → Has ms db
      → Has ms (reverse_sale ctx db x kind mark)
  unfolding reverse_sale restore_stock
  reverse_sale-Has ctx db x kind mark keeps (stored, moves) = (
    find_any_sale-update mark keeps ctx.branch_id x id db.sales ∙ stored,
    sale_moves-restore branch id kind x (sale_moves ctx.branch_id x (Stock.movements (Db.stock db)))
          (Db.stock db)
        ∙ moves,
  )

  module _ ⦃d : Double W⦄ where
    written-Has :
        (ctx : Ctx) (pre db : Db W) (draft : SaleDraft) (now : ℕ) {sale : Sale} {after : Db W}
        {ms : List Movement}
        → IsWritten ctx pre db draft now sale after
        → Has ms db
        → Has ms after
    unfolding insert_sale find_any_sale
    written-Has ctx pre db draft now {sale} {after} w (stored, moves) =
        let (i, t, r) = written_keys ctx pre db draft now w in
        let other : (sale.id == id) ≡ false = elim (Bool-cases (sale.id == id)) [
          | inr apart ↦ apart
          | inl same ↦
              let e : draft.id ≡ id = sym i ∙ (==_iff sale.id id).0 same in
              let clash = rw e at w.fresh in absurd (ground arith)
        ] in
        rw w.result (
          rw other stored,
          sale_moves-other branch id sale.id (claims ctx pre db draft now)
                (Stock.movements (Db.stock db)) other
              ∙ moves,
        )

    Step-Has : {a b : Db W} {ms : List Movement} → Step a b → Has ms a → Has ms b
    Step-Has (Step.sold ctx pre db after draft now replayed sale positive e) h =
        elim (complete_sale_writes ctx pre db draft now sale after replayed positive e) [
          | inl same ↦ rw same h
          | inr w ↦ written-Has ctx pre db draft now w h
        ]
    Step-Has (Step.voided ctx db after x reason now sale e) h =
        let (s, rev, own, sale', db') = (void_sale_iff ctx db x reason now sale after).0 e in
        rw db' (
          reverse_sale-Has ctx db x Reversal.void (mark_voided now (trim reason))
            (λ t. (refl, refl, refl)) h)
    Step-Has (Step.refunded ctx db after x reason now sale e) h =
        let (s, rev, sale', db') = (refund_checked_iff ctx db x reason now sale after).0 e in
        rw db' (
          reverse_sale-Has ctx db x Reversal.refund
            (mark_refunded now (trim reason) (own_shift ctx db s)) (λ t. (refl, refl, refl)) h)
    Step-Has (Step.opened ctx db after x opening now shift fresh e) h =
        let (stock, sales) = open_shift-IsFrame ctx db x opening now e in rw (stock, sales) h
    Step-Has (Step.cash_moved ctx db after x kind amount reason now m e) h =
        let (stock, sales) = add_cash_movement-IsFrame ctx db x kind amount reason now e in
        rw (stock, sales) h
    Step-Has (Step.closed ctx db after counted now z e) h =
        let (stock, sales) = close_shift-IsFrame ctx db counted now e in rw (stock, sales) h
    Step-Has {ms = ms} (Step.received owner place operation now lines db after e) (stored, moves) =
        let (moves', (sales, shifts)) =
          receive_once_keeps owner place operation now lines db after
            (λ stock. sale_moves branch id (Stock.movements stock) ≡ ms)
            (λ line stock h. sale_moves-add_line branch id place operation line stock ∙ h) moves
            e in
        (rw sales stored, moves')
    Step-Has {ms = ms} (Step.adjusted owner k new_qty reason movement db after e) (stored, moves) =
        let (moves', (sales, shifts)) =
          adjust_once_keeps owner k new_qty reason movement db after
            (λ stock. sale_moves branch id (Stock.movements stock) ≡ ms)
            (λ h. sale_moves-set_level branch id k new_qty reason movement (Db.stock db) ∙ h) moves
            e in
        (rw sales stored, moves')

    pub Steps-Has : {a b : Db W} {ms : List Movement} → Steps a b → Has ms a → Has ms b
    Steps-Has (Steps.done db) h = h
    Steps-Has (Steps.then steps step) h = Step-Has step (Steps-Has steps h)
