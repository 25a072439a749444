-- ===== src/KeyMap.antt =====
-- The key of a stock level, and maps from such keys in insertion order.
use sentry_pos_be.Common.{
  ℕ, ◌≡◌, refl, ◌↔◌, Bool, true, ◌&&◌, ◌==◌, opt_eq, opt_eq_iff, Option, none, some, List, [], ◌∷◌,
  arith, if◌then◌else◌, Bool-cases, inl, inr, keep,
}

pub record Key : Type 0 where
  pub branch : ℕ
  pub product : ℕ
  pub variant : Option ℕ

unfoldable pub key_eq : Key → Key → Bool
key_eq a b = a.branch == b.branch && a.product == b.product && opt_eq a.variant b.variant

pub key_eq_iff : (a b : Key) → (key_eq a b ≡ true) ↔ (a ≡ b)
unfolding key_eq
key_eq_iff a b = ground (arith, opt_eq_iff a.variant b.variant)

pub key_eq_refl : (a : Key) → key_eq a a ≡ true
key_eq_refl a = (key_eq_iff a a).1 refl

abbrev pub KeyMap {ℓ} : Type ℓ → Type ℓ
KeyMap V = List (Key × V)

module _ {ℓ} {V : Type ℓ} where
  unfoldable pub lookup : Key → KeyMap V → Option V
  lookup k [] = none
  lookup k ((j, v) ∷ d) = if key_eq j k then some v else lookup k d

  unfoldable pub insert : Key → V → KeyMap V → KeyMap V
  insert k v [] = (k, v) ∷ []
  insert k v ((j, w) ∷ d) = if key_eq j k then (k, v) ∷ d else (j, w) ∷ insert k v d

  pub lookup-insert :
      (k j : Key) (v : V) (d : KeyMap V)
      → lookup j (insert k v d) ≡ (if key_eq k j then some v else lookup j d)
  unfolding lookup insert
  lookup-insert k j v [] = refl
  lookup-insert k j v ((i, w) ∷ d) =
      ground (arith, key_eq_iff k j, key_eq_iff i k, key_eq_iff i j, lookup-insert k j v d)

  -- Only the rows that a query selects.
  pub lookup-keep :
      (p : Key → Bool) (k : Key) (d : KeyMap V)
      → lookup k (keep (λ e. p e.0) d) ≡ (if p k then lookup k d else none)
  unfolding lookup
  lookup-keep p k [] = elim (Bool-cases (p k)) [ inl e ↦ rw e | inr e ↦ rw e ]
  lookup-keep p k ((j, v) ∷ d) = ground (arith, key_eq_iff j k, lookup-keep p k d)
