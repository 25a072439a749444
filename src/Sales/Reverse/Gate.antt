-- ===== src/Sales/Reverse/Gate.antt =====
-- The PIN before a refund: `refundSale` of src/pos/sales/sales.service.ts.
use sentry_pos_be.Common.{ℕ, ◌≡◌, refl, Bool, some, ◌<◌, Error, err}
use sentry_pos_be.Text.{Text}
use sentry_pos_be.Cart.{Ref}
use sentry_pos_be.Db.{Db, Ctx}
use sentry_pos_be.Lockout.{Accounts, User, retry_after}
use sentry_pos_be.Lockout.Guesses.{IsFound, locked_pin}
use sentry_pos_be.Sales.Reverse.{refund_sale}

module _ {W : Type 0} {H : Type 0} (verify : H → Text → Bool) (ctx : Ctx) where
  -- While the owner's PIN is locked, every refund is answered alike, with the seconds until the lock
  -- ends, whatever the PIN, the sale, the reason and the tables are, and nothing is written.
  pub refund_while_locked :
      (a : Accounts H) (u : User H) {hash : H} {until : ℕ} (db : Db W) (ref : Ref)
      (reason pin : Text) (now : ℕ)
      → IsFound ctx.owner_id a.users u
      → u.pin_hash ≡ some hash
      → u.pin_locked_until ≡ some until
      → now < until
      → refund_sale verify ctx a db ref reason pin now
        ≡ (a, err (Error.pin_locked (retry_after until now)))
  unfolding refund_sale
  refund_while_locked a u db ref reason pin now found has locked early =
      let same = locked_pin verify ctx.owner_id pin now a u found has locked early in rw same refl
