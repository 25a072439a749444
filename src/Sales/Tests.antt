-- ===== src/Sales/Tests.antt =====
-- The theorems on selling, voiding and refunding at the sample shop.
use sentry_pos_be.Text.{trim, text_eq}
use sentry_pos_be.Lockout.{User, Accounts, retry_after, find_user, find_owner_user}
use sentry_pos_be.Lockout.Guesses.{IsFound}
use sentry_pos_be.Sales.Reverse.Gate.{refund_while_locked}
use sentry_pos_be.Common.{
  ℕ, some, none, ◌≤◌, ◌≡◌, ◌↔◌, refl, inl, true, false, [], ◌∷◌, arith, Error, ok, err,
}
use sentry_pos_be.Money.Fixed.{fixed_double}
use sentry_pos_be.Cart.{Ref}
use sentry_pos_be.Db.{Sale}
use sentry_pos_be.Sales.Complete.Replay.{complete_sale_idempotent}
use sentry_pos_be.Sales.Reverse.{
  refund_sale, Reversal, mark_refunded, reverse_sale, void_sale, refund_checked, mark_voided,
}
use sentry_pos_be.Sales.Reverse.Status.{
  IsReversible, InOwnShift, own_shift, void_sale_iff, refund_checked_iff,
}
use sentry_pos_be.Sales.Reverse.Once.{reversed_once}
use sentry_pos_be.Sales.Complete.{find_sale, find_any_sale, complete_sale}
use sentry_pos_be.KeyMap.{Key}
use sentry_pos_be.Inventory.{level}
use sentry_pos_be.Sales.Claims.{claims_of, detect_conflicts}
use sentry_pos_be.Sales.Claims.Sum.{total, draws_on}
use sentry_pos_be.Sales.Claims.Exact.{detect_conflicts-none_iff}
use sentry_pos_be.Sample.{
  cart, bread_key, ctx, db, draft, sold, after, draft_completed, reason, void_mark, undone,
  sale_voided,
}

complete_sale_idempotent_example :
    (false ≡ false)
    × (after.sales ≡ sold ∷ db.sales)
    × (complete_sale ctx after after draft 6 ≡ ok (true, sold, after))
unfolding find_sale find_any_sale
complete_sale_idempotent_example =
    complete_sale_idempotent ctx db db draft 5 after 6 (omega arith, (omega arith, tt)) refl refl
      draft_completed

void_sale_iff_example :
    (void_sale ctx after (Ref.uuid 100) reason 6 ≡ ok (void_mark sold, undone)) ↔ (
      (s : Sale) × IsReversible ctx after 100 reason s
      × InOwnShift ctx after s
      × (void_mark sold ≡ mark_voided 6 (trim reason) s)
      × (undone ≡ reverse_sale ctx after 100 Reversal.void (mark_voided 6 (trim reason))))
void_sale_iff_example = void_sale_iff ctx after 100 reason 6 (void_mark sold) undone

abbrev refund_mark : Sale → Sale
refund_mark = mark_refunded 6 (trim reason) (own_shift ctx after sold)

refund_checked_iff_example :
    (refund_checked ctx after (Ref.uuid 100) reason 6
      ≡ ok (refund_mark sold, reverse_sale ctx after 100 Reversal.refund refund_mark))
    ↔ ((s : Sale) × IsReversible ctx after 100 reason s
        × (refund_mark sold ≡ mark_refunded 6 (trim reason) (own_shift ctx after s) s)
        × (reverse_sale ctx after 100 Reversal.refund refund_mark
            ≡ reverse_sale ctx after 100 Reversal.refund
                (mark_refunded 6 (trim reason) (own_shift ctx after s))))
refund_checked_iff_example =
    refund_checked_iff ctx after 100 reason 6 (refund_mark sold)
      (reverse_sale ctx after 100 Reversal.refund refund_mark)

reversed_once_example :
    (void_sale ctx undone (Ref.uuid 100) [] 7 ≡ err Error.validation)
    × (refund_checked ctx undone (Ref.uuid 100) [] 7 ≡ err Error.validation)
reversed_once_example =
    reversed_once ctx after 100 reason 6 (void_mark sold) undone [] 7 (inl sale_voided)

detect_conflicts-none_iff_example :
    let cs = claims_of 2 cart.lines in
    (detect_conflicts ((bread_key, 3000) ∷ []) [] cs ≡ [])
    ↔ ((k : Key) → draws_on k cs ≡ true → total k cs ≤ level k ((bread_key, 3000) ∷ []))
detect_conflicts-none_iff_example =
    detect_conflicts-none_iff ((bread_key, 3000) ∷ []) (claims_of 2 cart.lines)

-- Any PIN, even none, and any sale, even one that is not there, while the owner's PIN is locked.
abbrev locked_owner : User ℕ
locked_owner = record {
  id = 1;
  owner_id = some 7;
  deleted = false;
  pin_hash = some 4;
  failed_pin_count = 4;
  failed_login_count = 0;
  pin_locked_until = some 303_000;
  login_locked_until = none;
}

abbrev locked_accounts : Accounts ℕ
locked_accounts = record { users = locked_owner ∷ []; pin_failures = [] }

locked_owner-IsFound : IsFound 7 locked_accounts.users locked_owner
unfolding find_user find_owner_user
locked_owner-IsFound = record { by_owner = refl; by_id = refl }

refund_while_locked_example :
    refund_sale (λ h t. text_eq t (h ∷ [])) ctx locked_accounts db Ref.malformed [] (4 ∷ []) 3000
    ≡ (locked_accounts, err (Error.pin_locked (retry_after 303_000 3000)))
refund_while_locked_example =
    refund_while_locked (λ h t. text_eq t (h ∷ [])) ctx locked_accounts locked_owner db
      Ref.malformed [] (4 ∷ []) 3000 locked_owner-IsFound refl refl (omega arith)
