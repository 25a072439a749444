-- ===== src/Modifiers.antt =====
-- The tables of src/portal/catalog/modifier-groups.service.ts: modifier groups with their modifiers, and
-- the links of products to groups. Names and the dates of the rows are left out.
mod Links
mod Diff
mod Marks
mod Replace
mod Exact
mod Tests
use sentry_pos_be.Common.{ℕ, Bool, ◌==◌, List, any, ℤ}

pub record Modifier : Type 0 where
  pub id : ℕ
  pub name : ℕ
  pub price_delta : ℤ
  pub deleted : Bool

pub record ModifierGroup : Type 0 where
  pub id : ℕ
  pub business_id : ℕ
  pub min_select : ℕ
  pub max_select : ℕ
  pub modifiers : List Modifier
  pub deleted : Bool

-- A row of product_modifier_groups.
pub record Link : Type 0 where
  pub id : ℕ
  pub product_id : ℕ
  pub group_id : ℕ
  pub deleted : Bool

-- `Set.has`.
abbrev pub includes : ℕ → List ℕ → Bool
includes x xs = any (λ y. y == x) xs
