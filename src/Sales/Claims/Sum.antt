-- ===== src/Sales/Claims/Sum.antt =====
-- What the lines of a draft want of each stock level, added up: an independent view of `wantedMilli` in
-- src/pos/sales/sales.service.ts.
use sentry_pos_be.Common.{ℕ, ◌+◌, ◌≡◌, refl, Bool, false, List, [], ◌∷◌, if◌then◌else◌, any, arith}
use sentry_pos_be.KeyMap.{Key, KeyMap, key_eq, key_eq_iff, insert}
use sentry_pos_be.Inventory.{level}
use sentry_pos_be.Inventory.Balance.{level-insert}
use sentry_pos_be.Sales.Claims.{Claim, wanted}

unfoldable pub total : Key → List Claim → ℕ
total k [] = 0
total k (c ∷ cs) = (if key_eq c.key k then c.milli else 0) + total k cs

-- Some line draws on the level.
abbrev pub draws_on : Key → List Claim → Bool
draws_on k cs = any (λ c. key_eq c.key k) cs

pub total-eq-zero : (k : Key) (cs : List Claim) → draws_on k cs ≡ false → total k cs ≡ 0
unfolding total
total-eq-zero k [] h = refl
total-eq-zero k (c ∷ cs) h = ground (arith, total-eq-zero k cs)

pub level-wanted :
    (k : Key) (m : KeyMap ℕ) (cs : List Claim) → level k (wanted m cs) ≡ level k m + total k cs
unfolding total wanted
level-wanted k m [] = omega arith
level-wanted k m (c ∷ cs) = ground (
  arith,
  level-wanted k (insert c.key (level c.key m + c.milli) m) cs,
  level-insert c.key k (level c.key m + c.milli) m,
  key_eq_iff c.key k,
)
