-- ===== src/Scope/Sample.antt =====
-- An example shop for the tests of the scoped client.
use sentry_pos_be.Common.{ℕ, refl, true, false, none, some, [], ◌∷◌}
use sentry_pos_be.Scope.{Model, Dmmf, owner_id_column, business_id_column}
use sentry_pos_be.Scope.Query.{
  Condition, Where, Args, Clause, Data, Row, Context, RequestScope, ActorType, Tables,
}
use sentry_pos_be.Scope.Reads.{IsFresh}
use sentry_pos_be.Scope.Engine.{overlay}

abbrev pub product_name : ℕ
product_name = 6

abbrev pub variants : ℕ
variants = 7

abbrev pub category : ℕ
category = 8

abbrev pub category_id : ℕ
category_id = 9

-- Products have variants and a category, and a variant its product.
abbrev pub dmmf : Dmmf
dmmf Model.product =
    (record {
      name = variants;
      relation = true;
      target = Model.product_variant;
      many = true;
      from = none;
    })
    ∷ ((record {
      name = category;
      relation = true;
      target = Model.category;
      many = false;
      from = some category_id;
    })
        ∷ [])
dmmf Model.product_variant =
    (record { name = 10; relation = true; target = Model.product; many = false; from = some 11 })
    ∷ []
dmmf _ = []

abbrev pub row : ℕ → Data → Row
row k d = record { id = k; columns = λ c. overlay d c none }

abbrev pub owned : ℕ → ℕ → Row
owned k o = row k (Data.value owner_id_column (some o) Data.end)

abbrev pub of_business : ℕ → ℕ → Row
of_business k b = row k (Data.value business_id_column (some b) Data.end)

-- Owner 1 has business 10, and owner 2 business 11.
abbrev pub tables : Tables
tables = record {
  rows = λ m. elim m [
    | Model.business ↦ owned 10 1 ∷ (owned 11 2 ∷ [])
    | Model.branch ↦ of_business 20 10 ∷ (of_business 21 11 ∷ [])
    | Model.category ↦ of_business 40 10 ∷ (of_business 41 11 ∷ [])
    | Model.product ↦ of_business 30 10 ∷ (of_business 31 11 ∷ [])
    | Model.product_variant ↦ row 50 (Data.value 11 (some 30) Data.end) ∷ []
    | _ ↦ []
  ];
  audits = [];
}

abbrev pub context : RequestScope → Context
context s = record {
  scope = some s;
  actor = some (ActorType.owner_actor, 1);
  owner_id = some 1;
  business_id = none;
  branch_id = none;
  business_ids = none;
  branch_ids = none;
  branch_business = λ k. none;
  ref_business = λ m k. none;
}

abbrev pub signed_in : Context
signed_in = context RequestScope.tenant

pub signed_in-IsFresh : IsFresh signed_in 1
signed_in-IsFresh = record { scoped = refl; owned = refl; businesses = refl; branches = refl }

abbrev pub with_variants : Args
with_variants =
    Args.args none (Clause.whole variants (Clause.whole category Clause.done)) Clause.absent

abbrev pub by_id : ℕ → Where
by_id k = Where.column 0 (Condition.equals (some k)) Where.anything
