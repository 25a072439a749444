-- ===== src/Discounts.antt =====
-- src/portal/discounts/discounts.service.ts and `assertBusinessOwned` of src/portal/shared/tenant-guards.ts.
-- The scoped client limits an owner to the live discounts of its live businesses; a new row's id is a
-- parameter. Names and the listing are left out.
pub mod Range
mod Tests
use sentry_pos_be.Common.{
  ℕ, Bool, true, false, not, ◌&&◌, ◌||◌, ◌==◌, Option, none, some, List, [], ◌∷◌, ℤ, pos, ltb_ℤ,
  if◌then◌else◌, find, Error, Result, ok, err, ◌>>=◌, ◌>>◌, throw_if,
}
use sentry_pos_be.Cart.{DiscountKind}
use sentry_pos_be.Db.{AppliesTo, Discount, Db}
use sentry_pos_be.Sales.Draft.{owns_business}

-- The fields that an update may leave out.
pub record DiscountPatch : Type 0 where
  pub kind : Option DiscountKind
  pub value : Option ℤ
  pub applies_to : Option AppliesTo
  pub active : Option Bool

-- `a ?? b`.
abbrev pub or_else : {A : Type 0} → Option A → A → A
or_else none old = old
or_else (some new) old = new

unfoldable pub assert_percent_range : DiscountKind → ℤ → Result (Unit {0})
assert_percent_range DiscountKind.fixed value = ok tt
assert_percent_range DiscountKind.percent value =
    throw_if (ltb_ℤ value (pos 1) || ltb_ℤ (pos 100) value) Error.validation

abbrev pub patched : DiscountPatch → Discount → Discount
patched dto row = record row {
  kind = or_else dto.kind row.kind;
  value = or_else dto.value row.value;
  applies_to = or_else dto.applies_to row.applies_to;
  active = or_else dto.active row.active;
}

abbrev pub archived : Discount → Discount
archived row = record row { deleted = true }

unfoldable pub update_discount_row : ℕ → (Discount → Discount) → List Discount → List Discount
update_discount_row id f [] = []
update_discount_row id f (row ∷ rows) =
    if row.id == id then f row ∷ rows else row ∷ update_discount_row id f rows

module _ {W : Type 0} where
  unfoldable pub get_discount : ℕ → Db W → ℕ → Result Discount
  get_discount owner db id =
      elim (find (λ row. row.id == id && owns_business db owner row.business_id && not row.deleted)
        db.discounts) [ none ↦ err Error.not_found | some row ↦ ok row ]

  unfoldable pub create_discount :
      ℕ → Db W → ℕ → ℕ → DiscountKind → ℤ → AppliesTo → Option Bool → Result (Discount × Db W)
  create_discount owner db business id kind value applies_to active = do
    throw_if (not (owns_business db owner business)) Error.not_found
    assert_percent_range kind value
    let row : Discount = record {
      id = id;
      business_id = business;
      kind = kind;
      value = value;
      applies_to = applies_to;
      active = or_else active true;
      deleted = false;
    }
    ok (row, record db { discounts = row ∷ db.discounts })

  -- An empty patch writes what is there.
  unfoldable pub update_discount : ℕ → Db W → ℕ → DiscountPatch → Result (Discount × Db W)
  update_discount owner db id dto = do
    row ← get_discount owner db id
    assert_percent_range (or_else dto.kind row.kind) (or_else dto.value row.value)
    ok (
      patched dto row,
      record db { discounts = update_discount_row row.id (patched dto) db.discounts },
    )

  unfoldable pub remove_discount : ℕ → Db W → ℕ → Result (Discount × Db W)
  remove_discount owner db id = do
    row ← get_discount owner db id
    ok (archived row, record db { discounts = update_discount_row row.id archived db.discounts })
