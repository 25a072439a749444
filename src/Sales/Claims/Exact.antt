-- ===== src/Sales/Claims/Exact.antt =====
-- `detectConflicts` of src/pos/sales/sales.service.ts against the sums of what the lines want.
use sentry_pos_be.Common.{
  ℕ, ◌+◌, ◌≤◌, ◌<◌, ◌≡◌, refl, ◌↔◌, true, List, [], ◌∷◌, arith, ltb, Bool-cases, inl, inr,
}
use sentry_pos_be.KeyMap.{Key, KeyMap, key_eq_iff, key_eq_refl, lookup, insert}
use sentry_pos_be.Inventory.{level}
use sentry_pos_be.Inventory.Balance.{level-insert}
use sentry_pos_be.Sales.Claims.{Claim, Conflict, detect_conflicts}
use sentry_pos_be.Sales.Claims.Sum.{total, draws_on, total-eq-zero}

abbrev Covers : KeyMap ℕ → KeyMap ℕ → List Claim → Type 0
Covers locked claimed cs =
    (k : Key) → draws_on k cs ≡ true → level k claimed + total k cs ≤ level k locked

none-Covers :
    (locked claimed : KeyMap ℕ) (cs : List Claim)
    → detect_conflicts locked claimed cs ≡ []
    → Covers locked claimed cs
unfolding detect_conflicts total
none-Covers locked claimed [] h k draws = absurd (ground arith)
none-Covers locked claimed (c ∷ cs) h k draws =
    let want = level c.key claimed + c.milli in
    elim (Bool-cases (ltb (level c.key locked) want)) [
      | inl over ↦ absurd (ground arith)
      | inr fits ↦ ground (
        arith,
        none-Covers locked (insert c.key want claimed) cs (rw fits at h) k,
        level-insert c.key k want claimed,
        key_eq_iff c.key k,
        total-eq-zero k cs,
      )
    ]

Covers-none :
    (locked claimed : KeyMap ℕ) (cs : List Claim)
    → Covers locked claimed cs
    → detect_conflicts locked claimed cs ≡ []
unfolding detect_conflicts total
Covers-none locked claimed [] h = refl
Covers-none locked claimed (c ∷ cs) h =
    let want = level c.key claimed + c.milli in
    let rest =
      Covers-none locked (insert c.key want claimed) cs
        (λ k draws. ground (arith, h k, level-insert c.key k want claimed, key_eq_iff c.key k)) in
    ground (arith, h c.key, key_eq_refl c.key, rest)

-- `detectConflicts`, which stops at no line and adds the lines up as it goes, reports nothing exactly
-- when every level that the draft draws on covers the sum of what its lines want.
pub detect_conflicts-none_iff :
    (locked : KeyMap ℕ) (cs : List Claim)
    → (detect_conflicts locked [] cs ≡ [])
      ↔ ((k : Key) → draws_on k cs ≡ true → total k cs ≤ level k locked)
unfolding lookup
detect_conflicts-none_iff locked cs = (
  λ e k draws. omega (arith, none-Covers locked [] cs e k draws),
  λ h. Covers-none locked [] cs (λ k draws. omega (arith, h k draws)),
)

-- A reported conflict is a level that is wanted beyond what there is.
pub conflict_short :
    (locked claimed : KeyMap ℕ) (cs : List Claim) {x : Conflict} {xs : List Conflict}
    → detect_conflicts locked claimed cs ≡ x ∷ xs
    → (k : Key) × (draws_on k cs ≡ true) × (level k locked < level k claimed + total k cs)
unfolding detect_conflicts total
conflict_short locked claimed [] h = absurd (cc h)
conflict_short locked claimed (c ∷ cs) h =
    let want = level c.key claimed + c.milli in
    elim (Bool-cases (ltb (level c.key locked) want)) [
      | inl over ↦ (c.key, ground (arith, key_eq_refl c.key), ground (arith, key_eq_refl c.key))
      | inr fits ↦
          let (k, draws, short) =
            conflict_short locked (insert c.key want claimed) cs (rw fits at h) in
          (k, ground arith, ground (arith, level-insert c.key k want claimed, key_eq_iff c.key k))
    ]
