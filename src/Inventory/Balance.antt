-- ===== src/Inventory/Balance.antt =====
-- The levels of `branch_stock` under writes, and the ledger of `stock_movements`.
use sentry_pos_be.Common.{
  ℕ, ◌+◌, ◌-◌, ◌≤◌, ◌<◌, ◌≡◌, List, [], ◌∷◌, pos_part, neg_part, arith, if◌then◌else◌, Bool-cases,
  Option-cases, inl, inr, ok, leb,
}
use sentry_pos_be.KeyMap.{Key, KeyMap, key_eq, lookup, insert, lookup-insert}
use sentry_pos_be.Inventory.{Movement, Stock, level, add_to_level, take_from_level}

pub level-insert :
    (k j : Key) (q : ℕ) (d : KeyMap ℕ)
    → level j (insert k q d) ≡ (if key_eq k j then q else level j d)
level-insert k j q d = ground (arith, lookup-insert k j q d)

pub level-add :
    (k j : Key) (q : ℕ) (d : KeyMap ℕ)
    → level j (add_to_level k q d) ≡ (if key_eq k j then level k d + q else level j d)
unfolding add_to_level
level-add k j q d = ground (arith, lookup-insert k j q d, lookup-insert k j (level k d + q) d)

-- A decrement that goes through leaves the difference on its own level, and the others alone.
pub take_from_level_effect :
    (k : Key) (q : ℕ) (d : KeyMap ℕ) {d' : KeyMap ℕ}
    → take_from_level k q d ≡ ok d'
    → (q ≤ level k d) × ((j : Key) → level j d' ≡ (if key_eq k j then level k d - q else level j d))
unfolding take_from_level
take_from_level_effect k q d e = elim (Option-cases (lookup k d)) [
  | inl missing ↦ absurd (ground arith)
  | inr (old, found) ↦ elim (Bool-cases (leb q old)) [
    | inl enough ↦ (ground arith, λ j. ground (arith, lookup-insert k j (old - q) d))
    | inr short ↦ absurd (ground arith)
  ]
]

-- A decrement of something that the level covers goes through.
pub take_from_level_total :
    (k : Key) (q : ℕ) (d : KeyMap ℕ)
    → 0 < q
    → q ≤ level k d
    → take_from_level k q d ≡ ok (insert k (level k d - q) d)
unfolding take_from_level
take_from_level_total k q d positive enough = ground arith

-- What the movements of a key bring in all, and what they take.
unfoldable pub coming : Key → List Movement → ℕ
coming k [] = 0
coming k (m ∷ ms) =
    let rest = coming k ms in if key_eq m.key k then pos_part m.qty_delta + rest else rest

unfoldable pub going : Key → List Movement → ℕ
going k [] = 0
going k (m ∷ ms) =
    let rest = going k ms in if key_eq m.key k then neg_part m.qty_delta + rest else rest

-- The ledger: each level is what came less what went.
abbrev pub IsBalanced : Stock → Type 0
IsBalanced stock =
    (k : Key)
    → level k (Stock.levels stock) + going k (Stock.movements stock)
      ≡ coming k (Stock.movements stock)
