-- ===== src/Discounts/Range.antt =====
-- The range of the stored percentages: src/portal/discounts/discounts.service.ts.
use sentry_pos_be.Common.{
  ℕ, ◌≡◌, refl, Bool, true, false, not, ◌&&◌, ◌==◌, ==_refl, Option, some, List, [], ◌∷◌, ℤ, pos,
  ◌≤ℤ◌, find, All, inl, inr, arith, Bool-cases, Option-cases, Error, ok, >>=-eq-ok, throw_if,
}
use sentry_pos_be.Cart.{DiscountKind}
use sentry_pos_be.Db.{AppliesTo, Discount, Db}
use sentry_pos_be.Sales.Draft.{owns_business}
use sentry_pos_be.Discounts.{
  DiscountPatch, or_else, assert_percent_range, patched, archived, update_discount_row,
  get_discount, create_discount, update_discount, remove_discount,
}

abbrev InRange : DiscountKind → ℤ → Type 0
InRange kind value = kind ≡ DiscountKind.percent → (pos 1 ≤ℤ value) × (value ≤ℤ pos 100)

abbrev pub RowInRange : Discount → Type 0
RowInRange row = InRange row.kind row.value

assert_percent_range-InRange :
    (kind : DiscountKind) (value : ℤ) → assert_percent_range kind value ≡ ok tt → InRange kind value
unfolding assert_percent_range
assert_percent_range-InRange DiscountKind.fixed value h = λ e. absurd (cc e)
assert_percent_range-InRange DiscountKind.percent value h = λ _. (ground arith, ground arith)

-- The ids are distinct, and every stored percentage is in range.
abbrev pub DiscountsAreSound : List Discount → Type 0
DiscountsAreSound [] = Unit
DiscountsAreSound (row ∷ rows) =
    RowInRange row × All (λ other. (row.id == other.id) ≡ false) rows × DiscountsAreSound rows

abbrev KeepsId : (Discount → Discount) → Type 0
KeepsId f = (row : Discount) → (f row).id ≡ row.id

apart-update :
    (f : Discount → Discount) (keeps : KeepsId f) (id x : ℕ) (rows : List Discount)
    → All (λ other. (x == other.id) ≡ false) rows
    → All (λ other. (x == other.id) ≡ false) (update_discount_row id f rows)
unfolding update_discount_row
apart-update f keeps id x [] h = tt
apart-update f keeps id x (row ∷ rows) (h, hs) = elim (Bool-cases (row.id == id)) [
  | inl same ↦ rw (same, keeps row) (h, hs)
  | inr other ↦ rw other (h, apart-update f keeps id x rows hs)
]

apart-found :
    (p : Discount → Bool) (first : Discount) (rows : List Discount) (row : Discount)
    → find p rows ≡ some row
    → All (λ other. (first.id == other.id) ≡ false) rows
    → (first.id == row.id) ≡ false
apart-found p first [] row found h = absurd (cc found)
apart-found p first (r ∷ rows) row found (h, hs) = ground (arith, apart-found p first rows row)

-- The update rewrites the row that the look-up found.
update-AreSound :
    (f : Discount → Discount) (keeps : KeepsId f) (p : Discount → Bool) (rows : List Discount)
    (row : Discount)
    → find p rows ≡ some row
    → RowInRange (f row)
    → DiscountsAreSound rows
    → DiscountsAreSound (update_discount_row row.id f rows)
unfolding update_discount_row
update-AreSound f keeps p [] row found new h = tt
update-AreSound f keeps p (r ∷ rows) row found new (range, apart, rest) = elim (Bool-cases (p r)) [
  | inl here ↦
      let found' = rw here at found in
      let e : r ≡ row = cc in rw (← e, ==_refl r.id, keeps r) (rw (← e) at new, apart, rest)
  | inr other ↦
      let found' = rw other at found in
      rw (apart-found p r rows row found' apart) (
        range,
        apart-update f keeps row.id r.id rows apart,
        update-AreSound f keeps p rows row found' new rest,
      )
]

found-RowInRange :
    (p : Discount → Bool) (rows : List Discount) (row : Discount)
    → find p rows ≡ some row
    → DiscountsAreSound rows
    → RowInRange row
found-RowInRange p [] row found h = absurd (cc found)
found-RowInRange p (r ∷ rows) row found (range, apart, rest) = elim (Bool-cases (p r)) [
  | inl here ↦ let found' = rw here at found in let e : r ≡ row = cc in rw (← e) range
  | inr other ↦ found-RowInRange p rows row (rw other at found) rest
]

module _ {W : Type 0} where
  -- A call of the service that goes through. A new row's id is new.
  pub data Change : Db W → Db W → Type 0 where
    created :
        (owner business id : ℕ) (kind : DiscountKind) (value : ℤ) (applies_to : AppliesTo)
        (active : Option Bool) (db after : Db W) (row : Discount)
        → All (λ other. (id == Discount.id other) ≡ false) db.discounts
        → create_discount owner db business id kind value applies_to active ≡ ok (row, after)
        → Change db after
    updated :
        (owner id : ℕ) (dto : DiscountPatch) (db after : Db W) (row : Discount)
        → update_discount owner db id dto ≡ ok (row, after)
        → Change db after
    removed :
        (owner id : ℕ) (db after : Db W) (row : Discount)
        → remove_discount owner db id ≡ ok (row, after)
        → Change db after

  abbrev is_visible : ℕ → Db W → ℕ → Discount → Bool
  is_visible owner db id row =
      row.id == id && owns_business db owner row.business_id && not row.deleted

  get_discount-found :
      (owner : ℕ) (db : Db W) (id : ℕ) {row : Discount}
      → get_discount owner db id ≡ ok row
      → find (is_visible owner db id) db.discounts ≡ some row
  unfolding get_discount
  get_discount-found owner db id e =
      elim (Option-cases (find (is_visible owner db id) db.discounts)) [
        | inl missing ↦ absurd (ground arith)
        | inr (r, found) ↦ ground arith
      ]

  -- Creating, changing in part and archiving discounts keeps every stored percentage, archived ones
  -- included, between 1 and 100, whichever of kind and value a change names.
  pub Change-DiscountsAreSound :
      {a b : Db W} → Change a b → DiscountsAreSound a.discounts → DiscountsAreSound b.discounts
  unfolding create_discount update_discount remove_discount
  Change-DiscountsAreSound
        (created owner business id kind value applies_to active db after row fresh e) sound =
      let (u, owned, e1) =
        >>=-eq-ok (throw_if (not (owns_business db owner business)) Error.not_found) _ e in
      let (v, range, e2) = >>=-eq-ok (assert_percent_range kind value) _ e1 in
      let new : Discount = record {
        id = id;
        business_id = business;
        kind = kind;
        value = value;
        applies_to = applies_to;
        active = or_else active true;
        deleted = false;
      } in
      let same : after.discounts ≡ new ∷ db.discounts = ground arith in
      rw same (assert_percent_range-InRange kind value range, fresh, sound)
  Change-DiscountsAreSound (updated owner id dto db after row e) sound =
      let (r, got, e1) = >>=-eq-ok (get_discount owner db id) _ e in
      let (v, range, e2) =
        >>=-eq-ok (assert_percent_range (or_else dto.kind r.kind) (or_else dto.value r.value)) _
          e1 in
      let same : after.discounts ≡ update_discount_row r.id (patched dto) db.discounts =
        ground arith in
      rw same (
        update-AreSound (patched dto) (λ t. refl) (is_visible owner db id) db.discounts r
          (get_discount-found owner db id got)
          (assert_percent_range-InRange (or_else dto.kind r.kind) (or_else dto.value r.value) range)
          sound)
  Change-DiscountsAreSound (removed owner id db after row e) sound =
      let (r, got, e1) = >>=-eq-ok (get_discount owner db id) _ e in
      let found = get_discount-found owner db id got in
      let same : after.discounts ≡ update_discount_row r.id archived db.discounts = ground arith in
      rw same (
        update-AreSound archived (λ t. refl) (is_visible owner db id) db.discounts r found
          (found-RowInRange (is_visible owner db id) db.discounts r found sound) sound)
