-- ===== src/Restock/Checks.antt =====
-- The checks of a delivery and the retry of its transaction: src/portal/stock/stock.service.ts.
use sentry_pos_be.Common.{
  ℕ, Bool, Result, suc, ◌+◌, if◌then◌else◌, err, ◌≡◌, refl, ◌↔◌, inl, inr, true, false, ==_iff,
  opt_eq_iff, List, [], ◌∷◌, All, any, arith, Bool-cases, ok,
}
use sentry_pos_be.Restock.{ReceiveLine, same_line, no_duplicates, retry, with_level_create_retry}
use sentry_pos_be.Sales.Complete.{is_unique_violation}

-- Two lines of the same product and variant.
abbrev IsSame : ReceiveLine → ReceiveLine → Type 0
IsSame a b = (a.product_id ≡ b.product_id) × (a.variant_id ≡ b.variant_id)

-- No line is of the same product and variant as a line before it.
abbrev pub AreDistinct : List ReceiveLine → Type 0
AreDistinct [] = Unit
AreDistinct (line ∷ lines) = All (λ later. ¬ IsSame later line) lines × AreDistinct lines

abbrev Unseen : List ReceiveLine → ReceiveLine → Type 0
Unseen seen line = any (same_line line) seen ≡ false

same_line_iff : (a b : ReceiveLine) → (same_line a b ≡ true) ↔ IsSame a b
same_line_iff a b =
    ground (arith, ==_iff a.product_id b.product_id, opt_eq_iff a.variant_id b.variant_id)

different : (a b : ReceiveLine) → ¬ IsSame a b → same_line a b ≡ false
different a b h = elim (Bool-cases (same_line a b)) [
  | inl same ↦ absurd (h ((same_line_iff a b).0 same))
  | inr apart ↦ apart
]

Unseen-split :
    (seen lines : List ReceiveLine) (line : ReceiveLine)
    → All (Unseen (line ∷ seen)) lines
    → All (λ later. ¬ IsSame later line) lines × All (Unseen seen) lines
Unseen-split seen [] line h = (tt, tt)
Unseen-split seen (l ∷ lines) line (h, hs) =
    let (apart, unseen) = Unseen-split seen lines line hs in
    elim (Bool-cases (same_line l line)) [
      | inl same ↦ let clash = rw same at h in absurd (cc clash)
      | inr other ↦
          ((λ e. let clash = (same_line_iff l line).1 e in cc, apart), (rw other at h, unseen))
    ]

Unseen-join :
    (seen lines : List ReceiveLine) (line : ReceiveLine)
    → All (λ later. ¬ IsSame later line) lines
    → All (Unseen seen) lines
    → All (Unseen (line ∷ seen)) lines
Unseen-join seen [] line h u = tt
Unseen-join seen (l ∷ lines) line (h, hs) (u, us) =
    (rw (different l line h) u, Unseen-join seen lines line hs us)

no_duplicates-Distinct :
    (seen lines : List ReceiveLine)
    → no_duplicates seen lines ≡ ok tt
    → AreDistinct lines × All (Unseen seen) lines
unfolding no_duplicates
no_duplicates-Distinct seen [] h = (tt, tt)
no_duplicates-Distinct seen (line ∷ lines) h = elim (Bool-cases (any (same_line line) seen)) [
  | inl found ↦ let clash = rw found at h in absurd (cc clash)
  | inr unseen ↦
      let (distinct, rest) = no_duplicates-Distinct (line ∷ seen) lines (rw unseen at h) in
      let (apart, before) = Unseen-split seen lines line rest in
      ((apart, distinct), (unseen, before))
]

Distinct-no_duplicates :
    (seen lines : List ReceiveLine)
    → AreDistinct lines
    → All (Unseen seen) lines
    → no_duplicates seen lines ≡ ok tt
unfolding no_duplicates
Distinct-no_duplicates seen [] h u = refl
Distinct-no_duplicates seen (line ∷ lines) (apart, distinct) (u, us) =
    rw u
      (Distinct-no_duplicates (line ∷ seen) lines distinct (Unseen-join seen lines line apart us))

All-Unseen : (lines : List ReceiveLine) → All (Unseen []) lines
All-Unseen [] = tt
All-Unseen (line ∷ lines) = (refl, All-Unseen lines)

-- A delivery passes the check of its lines exactly if no line is of the same product and variant as
-- one before it.
pub no_duplicates_iff :
    (lines : List ReceiveLine) → (no_duplicates [] lines ≡ ok tt) ↔ AreDistinct lines
no_duplicates_iff lines = (
  λ h. (no_duplicates-Distinct [] lines h).0,
  λ h. Distinct-no_duplicates [] lines h (All-Unseen lines),
)

-- The database refused the insert, as another request was first.
abbrev pub is_refused {ℓ} : {A : Type ℓ} → Result A → Bool
is_refused (ok a) = false
is_refused (err e) = is_unique_violation e

retry_run {ℓ} :
    {A : Type ℓ} (left attempt : ℕ) (op : ℕ → Result A)
    → retry (suc left) attempt op
      ≡ (if is_refused (op attempt) then retry left (attempt + 1) op else op attempt)
unfolding retry
retry_run {A = A} left attempt op = go (op attempt)
  where
    go :
        (r : Result A)
        → elim r [
          | ok a ↦ ok a
          | err e ↦ if is_unique_violation e then retry left (attempt + 1) op else err e
        ]
          ≡ (if is_refused r then retry left (attempt + 1) op else r)
    go (ok a) = refl
    go (err e) = refl

-- The operation runs at most three times: its answer is that of the first run that is not refused for a
-- row that another request made first, and if the first two are, that of the third.
pub with_level_create_retry_lem {ℓ} :
    {A : Type ℓ} (op : ℕ → Result A)
    → with_level_create_retry op
      ≡ (if is_refused (op 0) then (if is_refused (op 1) then op 2 else op 1) else op 0)
unfolding retry
with_level_create_retry_lem op = rw (retry_run 1 0 op, retry_run 0 1 op) refl
