-- ===== src/Restock.antt =====
-- src/portal/stock/stock.service.ts: goods received and levels set from the portal. The scoped client
-- limits an owner to the live branches and products of its businesses; an id that is made up by
-- `randomUUID` is a parameter, and so is the clock. The answers of the two calls repeat what is written
-- and are left out, and so are an adjustment's note and the listing `levels`.
pub mod Checks
pub mod Effects
mod Tests
use sentry_pos_be.Common.{
  ℕ, zero, suc, ◌+◌, Bool, true, false, not, ◌&&◌, ◌==◌, opt_eq, Option, none, some, is_some, List,
  [], ◌∷◌, ℤ, pos, ◌-ℤ◌, if◌then◌else◌, find, any, Error, Result, ok, err, ◌>>=◌, ◌>>◌, throw_if,
}
use sentry_pos_be.KeyMap.{Key, KeyMap, insert}
use sentry_pos_be.Inventory.{
  Movement, MovementType, ReasonCategory, Stock, level, add_to_level, log_movement,
}
use sentry_pos_be.Db.{Variant, Product, Branch, StockBatch, Db}
use sentry_pos_be.Sales.Draft.{owns_business, find_product, live_variants}
use sentry_pos_be.Sales.Complete.{is_unique_violation}

pub record ReceiveLine : Type 0 where
  pub product_id : ℕ
  pub variant_id : Option ℕ
  pub qty : ℕ
  pub unit_cost : Option ℤ
  pub expiry_date : Option ℕ

abbrev pub same_line : ReceiveLine → ReceiveLine → Bool
same_line a b = a.product_id == b.product_id && opt_eq a.variant_id b.variant_id

-- The loop over the lines, with the set of those seen.
unfoldable pub no_duplicates : List ReceiveLine → List ReceiveLine → Result (Unit {0})
no_duplicates seen [] = ok tt
no_duplicates seen (line ∷ lines) =
    if any (same_line line) seen then err Error.validation else no_duplicates (line ∷ seen) lines

-- `withLevelCreateRetry`: the outcome of each run is given, and `left` more are allowed.
unfoldable pub retry {ℓ} : {A : Type ℓ} → ℕ → ℕ → (ℕ → Result A) → Result A
retry zero attempt op = op attempt
retry (suc left) attempt op =
    let rest = retry left (attempt + 1) op in
    elim (op attempt) [ ok a ↦ ok a | err e ↦ if is_unique_violation e then rest else err e ]

abbrev pub with_level_create_retry {ℓ} : {A : Type ℓ} → (ℕ → Result A) → Result A
with_level_create_retry op = retry 2 0 op

unfoldable pub assert_variant_integrity : List Variant → Option ℕ → Result (Unit {0})
assert_variant_integrity [] none = ok tt
assert_variant_integrity [] (some id) = err Error.validation
assert_variant_integrity (v ∷ vs) none = err Error.validation
assert_variant_integrity (v ∷ vs) (some id) =
    if any (λ w. w.id == id) (v ∷ vs) then ok tt else err Error.validation

set_variant_cost : ℕ → ℤ → List Variant → List Variant
set_variant_cost id cost [] = []
set_variant_cost id cost (v ∷ vs) =
    if v.id == id then record v { cost = some cost } ∷ vs else v ∷ set_variant_cost id cost vs

-- The cost that a line brings, on the variant or on the product.
set_cost : ReceiveLine → Product → Product
unfolding set_variant_cost
set_cost line p = elim line.unit_cost [
  | none ↦ p
  | some cost ↦ elim line.variant_id [
    | none ↦ record p { cost = some cost }
    | some id ↦ record p { variants = set_variant_cost id cost p.variants }
  ]
]

update_product : ℕ → (Product → Product) → List Product → List Product
update_product id f [] = []
update_product id f (p ∷ ps) = if p.id == id then f p ∷ ps else p ∷ update_product id f ps

abbrev pub new_batch : ℕ → ReceiveLine → StockBatch
new_batch now line = record {
  product_id = line.product_id;
  variant_id = line.variant_id;
  qty = line.qty;
  received_at = now;
  expires_at = line.expiry_date;
  unit_cost = line.unit_cost;
}

abbrev pub line_key : ℕ → ReceiveLine → Key
line_key branch line = record {
  branch = branch;
  product = line.product_id;
  variant = line.variant_id;
}

abbrev pub received : ℕ → ℕ → ReceiveLine → Movement
received branch operation line = record {
  key = line_key branch line;
  movement_type = MovementType.receive;
  ref_id = operation;
  qty_delta = pos line.qty;
  unit_cost = line.unit_cost;
  reason_category = none;
}

-- The level and its movement.
unfoldable pub add_line : ℕ → ℕ → ReceiveLine → Stock → Stock
add_line branch operation line stock = record {
  levels = add_to_level (line_key branch line) line.qty stock.levels;
  movements = received branch operation line ∷ stock.movements;
}

-- The level's new value and the movement that names the difference.
unfoldable pub set_level : Key → ℕ → ReasonCategory → ℕ → Stock → Stock
set_level k new_qty reason movement stock = record {
  levels = insert k new_qty stock.levels;
  movements =
      record {
        key = k;
        movement_type = MovementType.adjustment;
        ref_id = movement;
        qty_delta = pos new_qty -ℤ pos (level k stock.levels);
        unit_cost = none;
        reason_category = some reason;
      }
      ∷ stock.movements;
}

module _ {W : Type 0} where
  unfoldable pub assert_branch : ℕ → Db W → ℕ → Result Branch
  assert_branch owner db id =
      elim (find (λ b. b.id == id && owns_business db owner b.business_id && not b.deleted)
        db.branches) [ none ↦ err Error.not_found | some b ↦ ok b ]

  unfoldable pub load_product : Db W → ℕ → ℕ → Result Product
  load_product db business id = elim (find_product db business id) [
    | none ↦ err Error.validation
    | some p ↦ ok p
  ]

  unfoldable pub apply_cost_and_batch : ℕ → Product → ReceiveLine → Db W → Db W
  unfolding set_cost update_product
  apply_cost_and_batch now p line db = record db {
    products = update_product p.id (set_cost line) db.products;
    batches = if p.track_expiry then new_batch now line ∷ db.batches else db.batches;
  }

  unfoldable pub receive_line : ℕ → ℕ → ℕ → ℕ → Db W → ReceiveLine → Result (Db W)
  receive_line branch business operation now db line = do
    p ← load_product db business line.product_id
    assert_variant_integrity (live_variants p) line.variant_id
    throw_if (p.track_expiry && not (is_some line.expiry_date)) Error.validation
    ok (
        apply_cost_and_batch now p line
          (record db { stock = add_line branch operation line (Db.stock db) }))

  unfoldable pub receive_lines : ℕ → ℕ → ℕ → ℕ → Db W → List ReceiveLine → Result (Db W)
  receive_lines branch business operation now db [] = ok db
  receive_lines branch business operation now db (line ∷ lines) =
      receive_line branch business operation now db line >>= λ db'.
      receive_lines branch business operation now db' lines

  -- One run of the transaction of `receive`.
  unfoldable pub receive_once : ℕ → ℕ → ℕ → ℕ → List ReceiveLine → Db W → Result (Db W)
  receive_once owner branch operation now lines db = assert_branch owner db branch >>= λ b.
      receive_lines branch b.business_id operation now db lines

  -- Each run sees the tables as they are then, or is refused with a row that another request just made.
  unfoldable pub receive : ℕ → ℕ → ℕ → ℕ → List ReceiveLine → (ℕ → Result (Db W)) → Result (Db W)
  receive owner branch operation now lines seen =
      no_duplicates [] lines
      >> with_level_create_retry
          (λ attempt. seen attempt >>= receive_once owner branch operation now lines)

  -- One run of the transaction of `adjust`.
  unfoldable pub adjust_once : ℕ → Key → ℕ → ReasonCategory → ℕ → Db W → Result (Db W)
  adjust_once owner k new_qty reason movement db = do
    b ← assert_branch owner db k.branch
    p ← load_product db b.business_id k.product
    assert_variant_integrity (live_variants p) k.variant
    ok (record db { stock = set_level k new_qty reason movement (Db.stock db) })

  unfoldable pub adjust : ℕ → Key → ℕ → ReasonCategory → ℕ → (ℕ → Result (Db W)) → Result (Db W)
  adjust owner k new_qty reason movement seen =
      with_level_create_retry
        (λ attempt. seen attempt >>= adjust_once owner k new_qty reason movement)
