-- ===== src/Scope/Resolve.antt =====
-- The walk of `resolveRefBusinessId` in src/prisma/scoped-prisma.ts from a row to its business.
use sentry_pos_be.Common.{
  if◌then◌else◌, ℕ, suc, ◌≡◌, refl, ap, true, Option, none, some, is_some, arith,
}
use mathlib.Core.Path.{fun_ext}
use sentry_pos_be.Scope.{Model, Dmmf, is_platform, tenant_direct, child_parent_fk}
use sentry_pos_be.Scope.Query.{Context, Tables, Row}
use sentry_pos_be.Scope.Police.{resolve, walk_fuel, walk_up, business_of_row, parent_business}
use sentry_pos_be.Scope.Filter.{find_row}

module _ (dmmf : Dmmf) (t : Tables) (ctx : Context) where
  abbrev Walk : Type 0
  Walk = Model → ℕ → Option (Option ℕ)

  -- A row with a scope column names its business without a further round.
  direct :
      (walk other : Walk) (m : Model) (k : ℕ)
      → is_some (tenant_direct m) ≡ true
      → walk_up dmmf t ctx walk m k ≡ walk_up dmmf t ctx other m k
  unfolding walk_up
  direct walk other Model.owner k h = cc
  direct walk other Model.business k h = refl
  direct walk other m k h = ground arith

  module _ (walk other : Walk) where
    via_parent :
        (m parent : Model) (row : Option Row)
        → is_some (tenant_direct parent) ≡ true
        → parent_business dmmf t ctx
            (walk_up dmmf t ctx walk parent)
            (child_parent_fk dmmf m parent)
            row
          ≡ parent_business dmmf t ctx
              (walk_up dmmf t ctx other parent)
              (child_parent_fk dmmf m parent)
              row
    via_parent m parent row h =
        ap (λ w. parent_business dmmf t ctx w (child_parent_fk dmmf m parent) row)
          (fun_ext (λ k. direct walk other parent k h))

    two_rounds :
        (m : Model) (row : Option Row)
        → business_of_row dmmf t ctx (walk_up dmmf t ctx walk) m row
          ≡ business_of_row dmmf t ctx (walk_up dmmf t ctx other) m row
    unfolding business_of_row
    two_rounds Model.owner row = refl
    two_rounds Model.product_variant row = via_parent Model.product_variant Model.product row refl
    two_rounds Model.modifier row = via_parent Model.modifier Model.modifier_group row refl
    two_rounds Model.product_modifier_group row =
        via_parent Model.product_modifier_group Model.product row refl
    two_rounds Model.sale_item row = via_parent Model.sale_item Model.sale row refl
    two_rounds Model.sale_payment row = via_parent Model.sale_payment Model.sale row refl
    two_rounds Model.shift_cash_movement row =
        via_parent Model.shift_cash_movement Model.shift row refl
    two_rounds Model.stock_count_item row =
        via_parent Model.stock_count_item Model.stock_count row refl
    two_rounds m row = refl

  -- The walk from any row of any model to its business ends within two rounds: with more fuel it gives
  -- the same answer.
  pub resolve_ends :
      (more : ℕ) (m : Model) (k : ℕ)
      → resolve dmmf t ctx (suc (suc more)) m k ≡ resolve dmmf t ctx walk_fuel m k
  unfolding resolve walk_up
  resolve_ends more m k =
      ap
        (λ (b : Option ℕ).
          if is_platform m
          then none
          else (elim (ctx.ref_business m k) [ some hit ↦ some hit | none ↦ some b ]))
        (two_rounds (resolve dmmf t ctx more) (resolve dmmf t ctx 0) m (find_row k (t.rows m)))
