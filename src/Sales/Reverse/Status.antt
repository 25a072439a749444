-- ===== src/Sales/Reverse/Status.antt =====
-- The conditions of `voidSale` and `refundSale` in src/pos/sales/sales.service.ts.
use sentry_pos_be.Common.{
  ℕ, ◌≡◌, refl, ◌↔◌, inl, inr, true, false, ==_iff, Option, none, some, if◌then◌else◌, arith,
  Option-cases, ok,
}
use sentry_pos_be.Text.{Text, trim, is_empty}
use sentry_pos_be.Cart.{Ref}
use sentry_pos_be.Db.{Shift, SaleStatus, Sale, Db, Ctx}
use sentry_pos_be.Sales.Complete.{find_sale, find_open_shift}
use sentry_pos_be.Sales.Reverse.{
  Reversal, lock_sale, is_completed, mark_voided, mark_refunded, is_own_shift, reverse_sale,
  void_sale, refund_checked,
}

is_completed_iff : (s : SaleStatus) → (is_completed s ≡ true) ↔ (s ≡ SaleStatus.completed)
is_completed_iff SaleStatus.completed = (λ _. refl, λ _. refl)
is_completed_iff SaleStatus.voided = (λ h. cc, λ h. cc)
is_completed_iff SaleStatus.refunded = (λ h. cc, λ h. cc)

-- The sale is there, nothing has become of it, and there is a reason.
abbrev pub IsReversible : {W : Type 0} → Ctx → Db W → ℕ → Text → Sale → Type 0
IsReversible ctx db id reason s =
    (is_empty (trim reason) ≡ false)
    × (find_sale ctx.branch_id id db.sales ≡ some s)
    × (s.status ≡ SaleStatus.completed)

-- The terminal's open shift is the one that the sale was made in.
abbrev pub InOwnShift : {W : Type 0} → Ctx → Db W → Sale → Type 0
InOwnShift ctx db s =
    (sh : Shift) × (find_open_shift ctx db.shifts ≡ some sh) × (sh.id ≡ s.shift_id)

abbrev pub own_shift : {W : Type 0} → Ctx → Db W → Sale → Option ℕ
own_shift ctx db s =
    if is_own_shift (find_open_shift ctx db.shifts) s.shift_id then some s.shift_id else none

module _ {W : Type 0} (ctx : Ctx) (db : Db W) (id : ℕ) (reason : Text) (now : ℕ) where
  is_own_shift-InOwnShift :
      (s : Sale)
      → is_own_shift (find_open_shift ctx db.shifts) s.shift_id ≡ true
      → InOwnShift ctx db s
  is_own_shift-InOwnShift s own = elim (Option-cases (find_open_shift ctx db.shifts)) [
    | inl closed ↦ absurd (ground arith)
    | inr (sh, found) ↦ (sh, found, (==_iff sh.id s.shift_id).0 (rw found at own))
  ]

  void_sale-inverse :
      {s' : Sale} {after : Db W}
      → void_sale ctx db (Ref.uuid id) reason now ≡ ok (s', after)
      → (s : Sale) × IsReversible ctx db id reason s
        × InOwnShift ctx db s
        × (s' ≡ mark_voided now (trim reason) s)
        × (after ≡ reverse_sale ctx db id Reversal.void (mark_voided now (trim reason)))
  unfolding void_sale lock_sale
  void_sale-inverse e = elim (Option-cases (find_sale ctx.branch_id id db.sales)) [
    | inl missing ↦ absurd (ground arith)
    | inr (s, found) ↦ (
      s,
      (ground arith, found, ground (arith, is_completed_iff s.status)),
      is_own_shift-InOwnShift s (ground arith),
      ground arith,
      ground arith,
    )
  ]

  -- A void goes through exactly if its reason is more than white space, the branch has the sale, it is
  -- completed, and the terminal's open shift is the one of the sale; it then marks the sale and puts its
  -- goods back.
  pub void_sale_iff :
      (s' : Sale) (after : Db W)
      → (void_sale ctx db (Ref.uuid id) reason now ≡ ok (s', after)) ↔ (
          (s : Sale) × IsReversible ctx db id reason s
          × InOwnShift ctx db s
          × (s' ≡ mark_voided now (trim reason) s)
          × (after ≡ reverse_sale ctx db id Reversal.void (mark_voided now (trim reason))))
  unfolding void_sale lock_sale
  void_sale_iff s' after = (
    void_sale-inverse,
    λ h.
        let (s, (blank, found, status), (sh, opened, own), sale, db') = h in
        ground (arith, is_completed_iff s.status, ==_iff sh.id s.shift_id),
  )

  refund_checked-inverse :
      {s' : Sale} {after : Db W}
      → refund_checked ctx db (Ref.uuid id) reason now ≡ ok (s', after)
      → (s : Sale) × IsReversible ctx db id reason s
        × (s' ≡ mark_refunded now (trim reason) (own_shift ctx db s) s)
        × (after
            ≡ reverse_sale ctx db id Reversal.refund
                (mark_refunded now (trim reason) (own_shift ctx db s)))
  unfolding refund_checked lock_sale
  refund_checked-inverse e = elim (Option-cases (find_sale ctx.branch_id id db.sales)) [
    | inl missing ↦ absurd (ground arith)
    | inr (s, found) ↦ (
      s,
      (ground arith, found, ground (arith, is_completed_iff s.status)),
      ground arith,
      ground arith,
    )
  ]

  -- A refund past its PIN goes through exactly if its reason is more than white space, the branch has the
  -- sale and it is completed, whatever shift is open; it is booked on the sale's shift if that is the
  -- terminal's open one, and on none otherwise.
  pub refund_checked_iff :
      (s' : Sale) (after : Db W)
      → (refund_checked ctx db (Ref.uuid id) reason now ≡ ok (s', after)) ↔ (
          (s : Sale) × IsReversible ctx db id reason s
          × (s' ≡ mark_refunded now (trim reason) (own_shift ctx db s) s)
          × (after
              ≡ reverse_sale ctx db id Reversal.refund
                  (mark_refunded now (trim reason) (own_shift ctx db s))))
  unfolding refund_checked lock_sale
  refund_checked_iff s' after = (
    refund_checked-inverse,
    λ h.
        let (s, (blank, found, status), sale, db') = h in ground (arith, is_completed_iff s.status),
  )
