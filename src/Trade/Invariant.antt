-- ===== src/Trade/Invariant.antt =====
-- The invariant of the tables and the steps of Trade.
use sentry_pos_be.Common.{ℕ, ℤ, ◌≡◌, refl, inl, inr, List, All, arith, Option-cases, ok}
use sentry_pos_be.Text.{Text, trim}
use sentry_pos_be.Money.{Double}
use sentry_pos_be.KeyMap.{Key}
use sentry_pos_be.Inventory.{ReasonCategory, Stock}
use sentry_pos_be.Inventory.Balance.{IsBalanced}
use sentry_pos_be.Db.{CashMovementType, CashMovement, Shift, SaleDraft, Sale, Db, Ctx}
use sentry_pos_be.Sales.Complete.{find_open_shift, insert_sale}
use sentry_pos_be.Sales.Reverse.{Reversal, reverse_sale, mark_voided, mark_refunded}
use sentry_pos_be.Sales.Reverse.Levels.{restore_stock-IsBalanced, log_sale-going}
use sentry_pos_be.Sales.Reverse.Status.{void_sale_iff, refund_checked_iff, own_shift}
use sentry_pos_be.Shifts.{ZReport, open_shift, add_cash_movement, close_shift}
use sentry_pos_be.Shifts.Lifecycle.{
  ShiftsAreSound, open_shift-AreSound, add_cash_movement-AreSound, close_shift-AreSound,
}
use sentry_pos_be.Restock.{ReceiveLine, add_line, set_level}
use sentry_pos_be.Restock.Effects.{
  KeepsTrade, receive_once_keeps, adjust_once_keeps, add_line-IsBalanced, set_level-IsBalanced,
}
use sentry_pos_be.Trade.{Step, Steps, IsRooted, IsSound}
use sentry_pos_be.Trade.Rows.{
  KeepsKeys, update_sale-AreDistinct, update_sale-IsRooted, sold-IsRooted, restore_stock-IsRooted,
}
use sentry_pos_be.Trade.Sold.{claims, IsWritten, written_keys, complete_sale_writes}

reverse_sale-IsSound :
    {W : Type 0} (ctx : Ctx) (db : Db W) (id : ℕ) (kind : Reversal) (mark : Sale → Sale)
    → KeepsKeys mark
    → IsSound db
    → IsSound (reverse_sale ctx db id kind mark)
unfolding reverse_sale
reverse_sale-IsSound ctx db id kind mark keeps sound = record {
  balanced = restore_stock-IsBalanced ctx.branch_id id kind (Db.stock db) sound.balanced;
  distinct = update_sale-AreDistinct mark keeps ctx.branch_id id db.sales sound.distinct;
  rooted = restore_stock-IsRooted ctx.branch_id id kind _ (Db.stock db) (
      update_sale-IsRooted mark keeps ctx.branch_id id db.sales (Stock.movements (Db.stock db))
        sound.rooted);
  shifts_sound = sound.shifts_sound;
}

add_line-IsRooted :
    (branch operation : ℕ) (sales : List Sale) (line : ReceiveLine) (stock : Stock)
    → All (IsRooted sales) stock.movements
    → All (IsRooted sales) (Stock.movements (add_line branch operation line stock))
unfolding add_line
add_line-IsRooted branch operation sales line stock h = (λ e. absurd (cc e), h)

set_level-IsRooted :
    (k : Key) (new_qty : ℕ) (reason : ReasonCategory) (movement : ℕ) (sales : List Sale)
    (stock : Stock)
    → All (IsRooted sales) stock.movements
    → All (IsRooted sales) (Stock.movements (set_level k new_qty reason movement stock))
unfolding set_level
set_level-IsRooted k new_qty reason movement sales stock h = (λ e. absurd (cc e), h)

portal_only :
    {W : Type 0} (db after : Db W)
    → IsBalanced (Db.stock after)
    → All (IsRooted db.sales) (Stock.movements (Db.stock after))
    → KeepsTrade db after
    → IsSound db
    → IsSound after
portal_only db after balanced rooted (sales, shifts) sound = record {
  balanced = balanced;
  distinct = rw sales sound.distinct;
  rooted = rw sales rooted;
  shifts_sound = rw shifts sound.shifts_sound;
}

-- Operations that write only shifts.
module _ {W : Type 0} (ctx : Ctx) (db : Db W) where
  abbrev pub IsFrame : Db W → Type 0
  IsFrame after = (Db.stock after ≡ Db.stock db) × (after.sales ≡ db.sales)

  shifts_only :
      (after : Db W) → IsFrame after → ShiftsAreSound after.shifts → IsSound db → IsSound after
  shifts_only after (stock, sales) shifts sound = record {
    balanced = rw stock sound.balanced;
    distinct = rw sales sound.distinct;
    rooted = rw (stock, sales) sound.rooted;
    shifts_sound = shifts;
  }

  pub open_shift-IsFrame :
      (id : ℕ) (opening : ℤ) (now : ℕ) {s : Shift} {after : Db W}
      → open_shift ctx db id opening now ≡ ok (s, after)
      → IsFrame after
  unfolding open_shift
  open_shift-IsFrame id opening now e = elim (Option-cases (find_open_shift ctx db.shifts)) [
    | inr (x, found) ↦ absurd (ground arith)
    | inl free ↦ (ground arith, ground arith)
  ]

  pub add_cash_movement-IsFrame :
      (id : ℕ) (kind : CashMovementType) (amount : ℤ) (reason : Text) (now : ℕ) {m : CashMovement}
      {after : Db W}
      → add_cash_movement ctx db id kind amount reason now ≡ ok (m, after)
      → IsFrame after
  unfolding add_cash_movement
  add_cash_movement-IsFrame id kind amount reason now e =
      elim (Option-cases (find_open_shift ctx db.shifts)) [
        | inl free ↦ absurd (ground arith)
        | inr (x, found) ↦ (ground arith, ground arith)
      ]

  pub close_shift-IsFrame :
      (counted : ℤ) (now : ℕ) {z : ZReport} {after : Db W}
      → close_shift ctx db counted now ≡ ok (z, after)
      → IsFrame after
  unfolding close_shift
  close_shift-IsFrame counted now e = elim (Option-cases (find_open_shift ctx db.shifts)) [
    | inl free ↦ absurd (ground arith)
    | inr (x, found) ↦ (ground arith, ground arith)
  ]

module _ {W : Type 0} ⦃d : Double W⦄ where
  written-IsSound :
      (ctx : Ctx) (pre db : Db W) (draft : SaleDraft) (now : ℕ) {sale : Sale} {after : Db W}
      → IsSound db
      → IsWritten ctx pre db draft now sale after
      → IsSound after
  unfolding insert_sale
  written-IsSound ctx pre db draft now {sale} {after} sound w =
      let (i, t, r) = written_keys ctx pre db draft now w in
      rw w.result (record {
        balanced = λ k.
            let (goes, comes) =
              log_sale-going sale.id (claims ctx pre db draft now) (Stock.movements (Db.stock db))
                k in
            let sums = w.sums k in let before = sound.balanced k in omega arith;
        distinct = (rw i w.fresh, rw (t, r) w.free, sound.distinct);
        rooted =
            sold-IsRooted sale db.sales (claims ctx pre db draft now)
              (Stock.movements (Db.stock db)) sound.rooted;
        shifts_sound = sound.shifts_sound;
      })

  -- Every step keeps the tables sound.
  pub Step-IsSound : {a b : Db W} → Step a b → IsSound a → IsSound b
  Step-IsSound (Step.sold ctx pre db after draft now replayed sale positive e) sound =
      elim (complete_sale_writes ctx pre db draft now sale after replayed positive e) [
        | inl same ↦ rw same sound
        | inr w ↦ written-IsSound ctx pre db draft now sound w
      ]
  Step-IsSound (Step.voided ctx db after id reason now sale e) sound =
      let (s, rev, own, sale', db') = (void_sale_iff ctx db id reason now sale after).0 e in
      rw db' (
        reverse_sale-IsSound ctx db id Reversal.void (mark_voided now (trim reason))
          (λ t. (refl, refl, refl)) sound)
  Step-IsSound (Step.refunded ctx db after id reason now sale e) sound =
      let (s, rev, sale', db') = (refund_checked_iff ctx db id reason now sale after).0 e in
      rw db' (
        reverse_sale-IsSound ctx db id Reversal.refund
          (mark_refunded now (trim reason) (own_shift ctx db s)) (λ t. (refl, refl, refl)) sound)
  Step-IsSound (Step.opened ctx db after id opening now shift fresh e) sound =
      shifts_only ctx db after (open_shift-IsFrame ctx db id opening now e)
        (open_shift-AreSound ctx db id opening now sound.shifts_sound fresh e) sound
  Step-IsSound (Step.cash_moved ctx db after id kind amount reason now m e) sound =
      shifts_only ctx db after (add_cash_movement-IsFrame ctx db id kind amount reason now e)
        (add_cash_movement-AreSound ctx db id kind amount reason now sound.shifts_sound e) sound
  Step-IsSound (Step.closed ctx db after counted now z e) sound =
      shifts_only ctx db after (close_shift-IsFrame ctx db counted now e)
        (close_shift-AreSound ctx db counted now z after sound.shifts_sound e) sound
  Step-IsSound (Step.received owner branch operation now lines db after e) sound =
      let (balanced, (sales, shifts)) =
        receive_once_keeps owner branch operation now lines db after IsBalanced
          (add_line-IsBalanced branch operation) sound.balanced e in
      let (rooted, keeps) =
        receive_once_keeps owner branch operation now lines db after
          (λ stock. All (IsRooted db.sales) (Stock.movements stock))
          (add_line-IsRooted branch operation db.sales) sound.rooted e in
      portal_only db after balanced rooted (sales, shifts) sound
  Step-IsSound (Step.adjusted owner k new_qty reason movement db after e) sound =
      let (balanced, (sales, shifts)) =
        adjust_once_keeps owner k new_qty reason movement db after IsBalanced
          (set_level-IsBalanced k new_qty reason movement (Db.stock db)) sound.balanced e in
      let (rooted, keeps) =
        adjust_once_keeps owner k new_qty reason movement db after
          (λ stock. All (IsRooted db.sales) (Stock.movements stock))
          (set_level-IsRooted k new_qty reason movement db.sales (Db.stock db)) sound.rooted e in
      portal_only db after balanced rooted (sales, shifts) sound

  -- Whatever requests are carried out in whatever order, where drafts have positive quantities and
  -- new shifts new ids, tables that were sound stay so: every stock level
  -- is what the movements of its key brought less what they took, no two sales share an id, nor two of a
  -- terminal their receipt number, every sale movement belongs to a stored sale, and no terminal has two
  -- open shifts in its branch.
  pub Steps-IsSound : {a b : Db W} → Steps a b → IsSound a → IsSound b
  Steps-IsSound (Steps.done db) sound = sound
  Steps-IsSound (Steps.then steps step) sound = Step-IsSound step (Steps-IsSound steps sound)
