-- ===== src/Restock/Effects.antt =====
-- Levels and ledger under `receive` and `adjust` of src/portal/stock/stock.service.ts.
use sentry_pos_be.Common.{
  ℕ, ◌+◌, ◌≡◌, refl, ◌∙◌, ◌&&◌, not, is_some, List, [], ◌∷◌, pos, -ℤ_parts, if◌then◌else◌, arith,
  Error, ok, >>=-eq-ok, throw_if,
}
use sentry_pos_be.KeyMap.{Key, key_eq, key_eq_iff}
use sentry_pos_be.Inventory.{ReasonCategory, Stock, level}
use sentry_pos_be.Inventory.Balance.{level-add, level-insert, coming, going, IsBalanced}
use sentry_pos_be.Db.{Db}
use sentry_pos_be.Sales.Draft.{live_variants}
use sentry_pos_be.Restock.{
  ReceiveLine, line_key, add_line, assert_variant_integrity, assert_branch, load_product,
  apply_cost_and_batch, receive_line, receive_lines, receive_once, set_level, adjust_once,
}

-- What the lines bring to a key.
unfoldable pub delivered : ℕ → Key → List ReceiveLine → ℕ
delivered branch k [] = 0
delivered branch k (line ∷ lines) =
    let rest = delivered branch k lines in
    if key_eq (line_key branch line) k then line.qty + rest else rest

level-add_line :
    (branch operation : ℕ) (line : ReceiveLine) (stock : Stock) (k : Key)
    → level k (Stock.levels (add_line branch operation line stock))
      ≡ level k stock.levels + delivered branch k (line ∷ [])
unfolding add_line delivered
level-add_line branch operation line stock k =
    let added = level-add (line_key branch line) k line.qty stock.levels in
    ground (arith, key_eq_iff (line_key branch line) k)

pub add_line-IsBalanced :
    (branch operation : ℕ) (line : ReceiveLine) (stock : Stock)
    → IsBalanced stock
    → IsBalanced (add_line branch operation line stock)
unfolding add_line coming going
add_line-IsBalanced branch operation line stock balanced k =
    let added = level-add (line_key branch line) k line.qty stock.levels in
    let before = balanced k in ground (arith, key_eq_iff (line_key branch line) k)

pub set_level-IsBalanced :
    (k : Key) (new_qty : ℕ) (reason : ReasonCategory) (movement : ℕ) (stock : Stock)
    → IsBalanced stock
    → IsBalanced (set_level k new_qty reason movement stock)
unfolding set_level coming going
set_level-IsBalanced k new_qty reason movement stock balanced j =
    let written = level-insert k j new_qty stock.levels in
    let difference = -ℤ_parts (pos new_qty) (pos (level k stock.levels)) in
    let before = balanced j in ground (arith, key_eq_iff k j)

module _ {W : Type 0} where
  -- An operation of the portal touches neither the sales nor the shifts.
  abbrev pub KeepsTrade : Db W → Db W → Type 0
  KeepsTrade db after = (after.sales ≡ db.sales) × (after.shifts ≡ db.shifts)

  receive_line_stock :
      (branch business operation now : ℕ) (db : Db W) (line : ReceiveLine) {after : Db W}
      → receive_line branch business operation now db line ≡ ok after
      → (Db.stock after ≡ add_line branch operation line (Db.stock db)) × KeepsTrade db after
  unfolding receive_line apply_cost_and_batch
  receive_line_stock branch business operation now db line e =
      let (p, loaded, e1) = >>=-eq-ok (load_product db business line.product_id) _ e in
      let (u, fits, e2) =
        >>=-eq-ok (assert_variant_integrity (live_variants p) line.variant_id) _ e1 in
      let (v, dated, e3) =
        >>=-eq-ok (throw_if (p.track_expiry && not (is_some line.expiry_date)) Error.validation) _
          e2 in
      (ground arith, (ground arith, ground arith))

  -- What every line keeps, a delivery keeps.
  receive_lines_keeps :
      (branch business operation now : ℕ) (db : Db W) (lines : List ReceiveLine) {after : Db W}
      (P : Stock → Type 0)
      → ((line : ReceiveLine) (stock : Stock) → P stock → P (add_line branch operation line stock))
      → P (Db.stock db)
      → receive_lines branch business operation now db lines ≡ ok after
      → P (Db.stock after) × KeepsTrade db after
  unfolding receive_lines
  receive_lines_keeps branch business operation now db [] {after} P step p e =
      let same : db ≡ after = cc in rw (← same) (p, (refl, refl))
  receive_lines_keeps branch business operation now db (line ∷ lines) P step p e =
      let (db', one, rest) = >>=-eq-ok (receive_line branch business operation now db line) _ e in
      let (stock, (sales, shifts)) = receive_line_stock branch business operation now db line one in
      let (q, (sales', shifts')) =
        receive_lines_keeps branch business operation now db' lines P step
          (rw stock (step line (Db.stock db) p)) rest in
      (q, (sales' ∙ sales, shifts' ∙ shifts))

  receive_lines_levels :
      (branch business operation now : ℕ) (db : Db W) (lines : List ReceiveLine) {after : Db W}
      (k : Key)
      → receive_lines branch business operation now db lines ≡ ok after
      → level k (Stock.levels (Db.stock after))
        ≡ level k (Stock.levels (Db.stock db)) + delivered branch k lines
  unfolding receive_lines delivered
  receive_lines_levels branch business operation now db [] {after} k e =
      let same : db ≡ after = cc in rw (← same) (omega arith)
  receive_lines_levels branch business operation now db (line ∷ lines) k e =
      let (db', one, rest) = >>=-eq-ok (receive_line branch business operation now db line) _ e in
      let (stock, keeps) = receive_line_stock branch business operation now db line one in
      let ih = receive_lines_levels branch business operation now db' lines k rest in
      let here = level-add_line branch operation line (Db.stock db) k in
      let ih' = rw stock at ih in ground arith

  pub receive_once_keeps :
      (owner branch operation now : ℕ) (lines : List ReceiveLine) (db after : Db W)
      (P : Stock → Type 0)
      → ((line : ReceiveLine) (stock : Stock) → P stock → P (add_line branch operation line stock))
      → P (Db.stock db)
      → receive_once owner branch operation now lines db ≡ ok after
      → P (Db.stock after) × KeepsTrade db after
  unfolding receive_once
  receive_once_keeps owner branch operation now lines db after P step p e =
      let (b, found, rest) = >>=-eq-ok (assert_branch owner db branch) _ e in
      receive_lines_keeps branch b.business_id operation now db lines P step p rest

  -- A delivery that goes through raises every level by what its lines bring to it, keeps the ledger
  -- balanced, and touches neither the sales nor the shifts.
  pub receive_once_lem :
      (owner branch operation now : ℕ) (lines : List ReceiveLine) (db after : Db W)
      → IsBalanced (Db.stock db)
      → receive_once owner branch operation now lines db ≡ ok after
      → ((k : Key)
          → level k (Stock.levels (Db.stock after))
            ≡ level k (Stock.levels (Db.stock db)) + delivered branch k lines)
        × IsBalanced (Db.stock after)
        × KeepsTrade db after
  unfolding receive_once
  receive_once_lem owner branch operation now lines db after balanced e =
      let (b, found, rest) = >>=-eq-ok (assert_branch owner db branch) _ e in
      let (q, keeps) =
        receive_lines_keeps branch b.business_id operation now db lines IsBalanced
          (add_line-IsBalanced branch operation) balanced rest in
      ((λ k. receive_lines_levels branch b.business_id operation now db lines k rest), q, keeps)

  adjust_once_stock :
      (owner : ℕ) (k : Key) (new_qty : ℕ) (reason : ReasonCategory) (movement : ℕ) (db : Db W)
      {after : Db W}
      → adjust_once owner k new_qty reason movement db ≡ ok after
      → (Db.stock after ≡ set_level k new_qty reason movement (Db.stock db)) × KeepsTrade db after
  unfolding adjust_once
  adjust_once_stock owner k new_qty reason movement db e =
      let (b, found, e1) = >>=-eq-ok (assert_branch owner db k.branch) _ e in
      let (p, loaded, e2) = >>=-eq-ok (load_product db b.business_id k.product) _ e1 in
      let (u, fits, e3) = >>=-eq-ok (assert_variant_integrity (live_variants p) k.variant) _ e2 in
      (ground arith, (ground arith, ground arith))

  pub adjust_once_keeps :
      (owner : ℕ) (k : Key) (new_qty : ℕ) (reason : ReasonCategory) (movement : ℕ) (db after : Db W)
      (P : Stock → Type 0)
      → (P (Db.stock db) → P (set_level k new_qty reason movement (Db.stock db)))
      → P (Db.stock db)
      → adjust_once owner k new_qty reason movement db ≡ ok after
      → P (Db.stock after) × KeepsTrade db after
  adjust_once_keeps owner k new_qty reason movement db after P step p e =
      let (stock, keeps) = adjust_once_stock owner k new_qty reason movement db e in
      (rw stock (step p), keeps)

  -- An adjustment that goes through leaves its level at the quantity it names, whatever it was, and every
  -- other level alone; it keeps the ledger balanced, and touches neither the sales nor the shifts.
  pub adjust_once_lem :
      (owner : ℕ) (k : Key) (new_qty : ℕ) (reason : ReasonCategory) (movement : ℕ) (db after : Db W)
      → IsBalanced (Db.stock db)
      → adjust_once owner k new_qty reason movement db ≡ ok after
      → ((j : Key)
          → level j (Stock.levels (Db.stock after))
            ≡ (if key_eq k j then new_qty else level j (Stock.levels (Db.stock db))))
        × IsBalanced (Db.stock after)
        × KeepsTrade db after
  unfolding set_level
  adjust_once_lem owner k new_qty reason movement db after balanced e =
      let (stock, keeps) = adjust_once_stock owner k new_qty reason movement db e in
      (
        λ j. rw stock (level-insert k j new_qty (Stock.levels (Db.stock db))),
        rw stock (set_level-IsBalanced k new_qty reason movement (Db.stock db) balanced),
        keeps,
      )
