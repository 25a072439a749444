-- ===== src/Sales/Claims.antt =====
-- src/pos/sales/sales.service.ts: what the tracked lines of a draft want of the stock
-- (`wantedMilli`), `lockStock`, `detectConflicts` and the decrements.
pub mod Sum
pub mod Exact
pub mod Decrement
use sentry_pos_be.Common.{
  ℕ, ◌+◌, Bool, true, false, ◌&&◌, ◌==◌, Option, none, some, List, [], ◌∷◌, if◌then◌else◌, keep,
  any, Error, Result, ok, err, ltb, ◌>>=◌,
}
use sentry_pos_be.KeyMap.{Key, KeyMap, lookup, insert}
use sentry_pos_be.Cart.{CartLine}
use sentry_pos_be.Inventory.{level, take_from_level}

-- A line of a real product that tracks its stock.
pub record Claim : Type 0 where
  pub line_id : ℕ
  pub key : Key
  pub milli : ℕ

claim_of : ℕ → CartLine → Option Claim
claim_of branch line = elim line.product_id [
  | none ↦ none
  | some id ↦
      if line.track_stock
      then some (record {
        line_id = line.id;
        key = record { branch = branch; product = id; variant = line.variant_id };
        milli = line.qty;
      })
      else none
]

-- `dto.lines.filter((l) => l.productId !== null && l.trackStock)`.
unfoldable pub claims_of : ℕ → List CartLine → List Claim
unfolding claim_of
claims_of branch [] = []
claims_of branch (line ∷ lines) =
    let rest = claims_of branch lines in
    elim (claim_of branch line) [ none ↦ rest | some c ↦ c ∷ rest ]

-- `wantedMilli.set(k, (wantedMilli.get(k) ?? 0) + qtyToMilli(l.qty))`, line by line.
unfoldable pub wanted : KeyMap ℕ → List Claim → KeyMap ℕ
unfolding lookup insert
wanted m [] = m
wanted m (c ∷ cs) = wanted (insert c.key (level c.key m + c.milli) m) cs

unfoldable pub is_locked : ℕ → List Claim → Key → Bool
is_locked branch cs k = k.branch == branch && any (λ c. c.key.product == k.product) cs

-- The rows that `SELECT … FOR UPDATE` returns.
unfoldable pub lock_stock : ℕ → List Claim → KeyMap ℕ → KeyMap ℕ
unfolding is_locked
lock_stock branch cs levels = keep (λ e. is_locked branch cs e.0) levels

pub record Conflict : Type 0 where
  pub line_id : ℕ
  pub key : Key
  pub available : ℕ

-- A line conflicts if it and the lines before it want more than there is.
unfoldable pub detect_conflicts : KeyMap ℕ → KeyMap ℕ → List Claim → List Conflict
detect_conflicts locked claimed [] = []
detect_conflicts locked claimed (c ∷ cs) =
    let available = level c.key locked in
    let want = level c.key claimed + c.milli in
    let rest = detect_conflicts locked (insert c.key want claimed) cs in
    if ltb available want
    then record { line_id = c.line_id; key = c.key; available = available } ∷ rest
    else rest

-- `for (const [k, milli] of wantedMilli)`.
unfoldable pub decrement_all : KeyMap ℕ → KeyMap ℕ → KeyMap ℕ → Result (KeyMap ℕ)
unfolding take_from_level
decrement_all locked [] levels = ok levels
decrement_all locked ((k, milli) ∷ wants) levels = elim (lookup k locked) [
  | none ↦ err Error.validation
  | some _ ↦ elim (take_from_level k milli levels) [
    | ok levels' ↦ decrement_all locked wants levels'
    | err e ↦ err e
  ]
]
