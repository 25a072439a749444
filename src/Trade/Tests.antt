-- ===== src/Trade/Tests.antt =====
-- The sample shop from its first sale to the void.
use sentry_pos_be.Common.{◌+ℤ◌, ◌≡◌, refl, false, ◌+◌, arith, inl}
use sentry_pos_be.Money.Fixed.{fixed_double}
use sentry_pos_be.KeyMap.{lookup}
use sentry_pos_be.Inventory.{Stock, level}
use sentry_pos_be.Inventory.Balance.{coming, going}
use sentry_pos_be.Db.{Db}
use sentry_pos_be.Sales.Claims.{claims_of}
use sentry_pos_be.Sales.Claims.Sum.{total}
use sentry_pos_be.Sales.Complete.{find_sale, find_any_sale}
use sentry_pos_be.Trade.{Step, Steps, IsSound}
use sentry_pos_be.Trade.Invariant.{Steps-IsSound}
use sentry_pos_be.Shifts.{shift_totals}
use sentry_pos_be.Shifts.Figures.{cash_total}
use sentry_pos_be.Trade.Drawer.{complete_sale_moves_cash}
use sentry_pos_be.Trade.Undo.{undo_gives_back}
use sentry_pos_be.Sample.{
  shift, ctx, db, draft, cart, bread_key, sold, after, reason, void_mark, undone, draft_completed,
  sale_voided,
}

db-IsSound : IsSound db
unfolding lookup coming going
db-IsSound = record {
  balanced = λ k. ground arith;
  distinct = tt;
  rooted = (λ e. absurd (cc e), tt);
  shifts_sound = (refl, λ _. refl, tt);
}

Steps-IsSound_example : IsSound undone
unfolding find_sale find_any_sale
Steps-IsSound_example =
    Steps-IsSound
      (Steps.then
        (Steps.then (Steps.done db) (
          Step.sold ctx db db after draft 5 false sold (omega arith, (omega arith, tt))
            draft_completed))
        (Step.voided ctx after undone 100 reason 6 (void_mark sold) sale_voided))
      db-IsSound

undo_gives_back_example :
    let taken = total bread_key (claims_of 2 cart.lines) in
    (level bread_key (Stock.levels (Db.stock undone))
      ≡ level bread_key (Stock.levels (Db.stock after)) + taken)
    × (level bread_key (Stock.levels (Db.stock db))
        ≡ level bread_key (Stock.levels (Db.stock after)) + taken)
unfolding find_sale find_any_sale
undo_gives_back_example =
    undo_gives_back ctx db db after draft 5 after undone reason 6 sold (void_mark sold) false
      bread_key db-IsSound (omega arith, (omega arith, tt)) refl refl draft_completed
      (Steps.done after) (inl sale_voided)

complete_sale_moves_cash_example :
    let t = shift_totals shift db.sales in
    let t' = shift_totals shift after.sales in
    (t'.expected_cash ≡ t.expected_cash +ℤ cash_total sold) × (t'.gross ≡ t.gross +ℤ sold.total)
unfolding find_sale find_any_sale
complete_sale_moves_cash_example =
    complete_sale_moves_cash ctx db db draft 5 shift sold after false
      (omega arith, (omega arith, tt)) refl refl refl refl draft_completed
