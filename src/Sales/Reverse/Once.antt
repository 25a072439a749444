-- ===== src/Sales/Reverse/Once.antt =====
-- Sales that were voided or refunded: src/pos/sales/sales.service.ts.
use sentry_pos_be.Common.{
  ℕ, ◌≡◌, refl, ◌⊎◌, inl, inr, false, ◌&&◌, ◌==◌, some, List, [], ◌∷◌, arith, Bool-cases, Error, ok,
  err,
}
use sentry_pos_be.Text.{Text, trim}
use sentry_pos_be.Cart.{Ref}
use sentry_pos_be.Db.{Sale, Db, Ctx}
use sentry_pos_be.Sales.Complete.{find_sale}
use sentry_pos_be.Sales.Reverse.{
  Reversal, update_sale, lock_sale, is_completed, mark_voided, mark_refunded, reverse_sale,
  void_sale, refund_checked,
}
use sentry_pos_be.Sales.Reverse.Status.{void_sale_iff, refund_checked_iff, own_shift}

-- A change of a sale that leaves its identity alone.
abbrev pub Keeps : (Sale → Sale) → Type 0
Keeps f = (s : Sale) → ((f s).id ≡ s.id) × ((f s).branch_id ≡ s.branch_id)

pub find_sale-update :
    (branch id : ℕ) (f : Sale → Sale) (sales : List Sale) (s : Sale)
    → Keeps f
    → find_sale branch id sales ≡ some s
    → find_sale branch id (update_sale branch id f sales) ≡ some (f s)
unfolding find_sale update_sale
find_sale-update branch id f [] s keeps h = absurd (cc h)
find_sale-update branch id f (t ∷ sales) s keeps h =
    elim (Bool-cases (t.id == id && t.branch_id == branch)) [
      | inl same ↦ rw same (ground (arith, keeps t))
      | inr other ↦ rw (other, other) (find_sale-update branch id f sales s keeps (rw other at h))
    ]

module _ {W : Type 0} (ctx : Ctx) where
  refused :
      (db : Db W) (id : ℕ) (s : Sale)
      → find_sale ctx.branch_id id db.sales ≡ some s
      → is_completed s.status ≡ false
      → (again : Text) (later : ℕ)
      → (void_sale ctx db (Ref.uuid id) again later ≡ err Error.validation)
        × (refund_checked ctx db (Ref.uuid id) again later ≡ err Error.validation)
  unfolding void_sale refund_checked lock_sale
  refused db id s found over again later = (ground arith, ground arith)

  -- After a void or a refund that went through, voiding or refunding the sale again is refused as
  -- invalid, with any reason and at any time.
  pub reversed_once :
      (db : Db W) (id : ℕ) (reason : Text) (now : ℕ) (s' : Sale) (after : Db W) (again : Text)
      (later : ℕ)
      → (void_sale ctx db (Ref.uuid id) reason now ≡ ok (s', after))
        ⊎ (refund_checked ctx db (Ref.uuid id) reason now ≡ ok (s', after))
      → (void_sale ctx after (Ref.uuid id) again later ≡ err Error.validation)
        × (refund_checked ctx after (Ref.uuid id) again later ≡ err Error.validation)
  unfolding reverse_sale
  reversed_once db id reason now s' after again later (inl e) =
      let (s, (blank, found, status), own, sale, db') =
        (void_sale_iff ctx db id reason now s' after).0 e in
      let mark = mark_voided now (trim reason) in
      rw db' (
        refused (reverse_sale ctx db id Reversal.void mark) id (mark s)
          (find_sale-update ctx.branch_id id mark db.sales s (λ t. (refl, refl)) found) refl again
          later)
  reversed_once db id reason now s' after again later (inr e) =
      let (s, (blank, found, status), sale, db') =
        (refund_checked_iff ctx db id reason now s' after).0 e in
      let mark = mark_refunded now (trim reason) (own_shift ctx db s) in
      rw db' (
        refused (reverse_sale ctx db id Reversal.refund mark) id (mark s)
          (find_sale-update ctx.branch_id id mark db.sales s (λ t. (refl, refl)) found) refl again
          later)
