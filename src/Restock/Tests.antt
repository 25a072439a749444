-- ===== src/Restock/Tests.antt =====
-- A delivery to the sample shop, and a count of its shelf.
use sentry_pos_be.Common.{◌≡◌, refl, none, some, [], ◌∷◌, List, pos, ◌+◌, if◌then◌else◌, arith, ok}
use sentry_pos_be.Money.Fixed.{Fixed}
use sentry_pos_be.KeyMap.{Key, key_eq, lookup}
use sentry_pos_be.Inventory.{ReasonCategory, Stock, level}
use sentry_pos_be.Inventory.Balance.{IsBalanced, coming, going}
use sentry_pos_be.Db.{Db}
use sentry_pos_be.Sales.Draft.{find_product, live_variants, owns_business}
use sentry_pos_be.Restock.{
  ReceiveLine, receive_once, receive_lines, receive_line, adjust_once, assert_branch, load_product,
  assert_variant_integrity,
}
use sentry_pos_be.Restock.Effects.{KeepsTrade, delivered, receive_once_lem, adjust_once_lem}
use sentry_pos_be.Sample.{db, bread_key}

abbrev loaves : List ReceiveLine
loaves =
    record {
      product_id = 10;
      variant_id = none;
      qty = 4000;
      unit_cost = some (pos 3100);
      expiry_date = none;
    }
    ∷ []

db-IsBalanced : IsBalanced (Db.stock db)
unfolding lookup coming going
db-IsBalanced k = ground arith

delivered_db : (after : Db Fixed) × (receive_once 7 2 50 8 loaves db ≡ ok after)
unfolding receive_once receive_lines receive_line assert_branch load_product
    assert_variant_integrity find_product live_variants owns_business
delivered_db = (_, refl)

receive_once_lem_example :
    ((k : Key)
      → level k (Stock.levels (Db.stock delivered_db.0))
        ≡ level k (Stock.levels (Db.stock db)) + delivered 2 k loaves)
    × IsBalanced (Db.stock delivered_db.0)
    × KeepsTrade db delivered_db.0
receive_once_lem_example =
    receive_once_lem 7 2 50 8 loaves db delivered_db.0 db-IsBalanced delivered_db.1

adjusted_db :
    (after : Db Fixed) × (adjust_once 7 bread_key 2500 ReasonCategory.count_correction 51 db
      ≡ ok after)
unfolding adjust_once assert_branch load_product assert_variant_integrity find_product live_variants
    owns_business
adjusted_db = (_, refl)

adjust_once_lem_example :
    ((j : Key)
      → level j (Stock.levels (Db.stock adjusted_db.0))
        ≡ (if key_eq bread_key j then 2500 else level j (Stock.levels (Db.stock db))))
    × IsBalanced (Db.stock adjusted_db.0)
    × KeepsTrade db adjusted_db.0
adjust_once_lem_example =
    adjust_once_lem 7 bread_key 2500 ReasonCategory.count_correction 51 db adjusted_db.0
      db-IsBalanced adjusted_db.1
