-- ===== src/Discounts/Tests.antt =====
-- A discount of the sample shop is created.
use sentry_pos_be.Common.{◌≡◌, refl, true, false, none, [], ◌∷◌, pos, ok}
use sentry_pos_be.Money.Fixed.{Fixed}
use sentry_pos_be.Cart.{DiscountKind}
use sentry_pos_be.Db.{AppliesTo, Discount, Db}
use sentry_pos_be.Sales.Draft.{owns_business}
use sentry_pos_be.Discounts.{create_discount, assert_percent_range}
use sentry_pos_be.Discounts.Range.{DiscountsAreSound, Change, Change-DiscountsAreSound}
use sentry_pos_be.Sample.{db}

abbrev tenth : Discount
tenth = record {
  id = 30;
  business_id = 1;
  kind = DiscountKind.percent;
  value = pos 10;
  applies_to = AppliesTo.both;
  active = true;
  deleted = false;
}

abbrev with_tenth : Db Fixed
with_tenth = record db { discounts = tenth ∷ [] }

tenth_created :
    create_discount 7 db 1 30 DiscountKind.percent (pos 10) AppliesTo.both none
    ≡ ok (tenth, with_tenth)
unfolding create_discount assert_percent_range owns_business
tenth_created = refl

Change-DiscountsAreSound_example : DiscountsAreSound with_tenth.discounts
Change-DiscountsAreSound_example =
    Change-DiscountsAreSound
      (Change.created 7 1 30 DiscountKind.percent (pos 10) AppliesTo.both none db with_tenth tenth
        tt tenth_created)
      tt
