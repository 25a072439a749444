-- ===== src/Scope.antt =====
-- What the scoped client of src/prisma/scoped-prisma.ts works on: the models and their scope columns
-- (src/prisma/model-scope-map.ts), the metadata that it derives from Prisma's data model, rows, the
-- arguments of a query, the request's context and the operations. An id, a time and any other value of
-- a column is a number, `null` is `none`, and a column is a number too. The columns that the database
-- stamps by itself (createdAt, updatedAt) are left out of the rows.
use sentry_pos_be.Common.{
  ℕ, Bool, true, false, Option, none, some, List, [], ◌∷◌, ◌==◌, if◌then◌else◌, find,
}
mod Filter
mod Query
mod Police
mod Nested
mod Engine
mod Audit
mod Mutate
mod Dispatch
mod Visible
mod Reads
mod Loads
mod Resolve
mod Plain
mod Work
mod Effects
mod Mutations
mod Appends
mod History
mod References
mod Creates
mod Gates
mod Deletes
mod Memory
mod Obedience
mod Sample
mod Tests

pub data Model : Type 0 where
  owner user auth_token refresh_token : Model
  business branch category product modifier_group discount notification audit_log : Model
  terminal branch_stock stock_movement shift sale stock_count stock_batch : Model
  product_variant modifier product_modifier_group sale_item sale_payment shift_cash_movement
        stock_count_item :
      Model

pub data ScopeColumn : Type 0 where
  owner_column business_column branch_column : ScopeColumn

-- `PLATFORM_MODEL_SET.has(model)`.
abbrev pub is_platform : Model → Bool
is_platform Model.owner = true
is_platform Model.user = true
is_platform Model.auth_token = true
is_platform Model.refresh_token = true
is_platform _ = false

-- `TENANT_DIRECT[model]`.
abbrev pub tenant_direct : Model → Option ScopeColumn
tenant_direct Model.business = some ScopeColumn.owner_column
tenant_direct Model.branch = some ScopeColumn.business_column
tenant_direct Model.category = some ScopeColumn.business_column
tenant_direct Model.product = some ScopeColumn.business_column
tenant_direct Model.modifier_group = some ScopeColumn.business_column
tenant_direct Model.discount = some ScopeColumn.business_column
tenant_direct Model.notification = some ScopeColumn.business_column
tenant_direct Model.audit_log = some ScopeColumn.business_column
tenant_direct Model.terminal = some ScopeColumn.branch_column
tenant_direct Model.branch_stock = some ScopeColumn.branch_column
tenant_direct Model.stock_movement = some ScopeColumn.branch_column
tenant_direct Model.shift = some ScopeColumn.branch_column
tenant_direct Model.sale = some ScopeColumn.branch_column
tenant_direct Model.stock_count = some ScopeColumn.branch_column
tenant_direct Model.stock_batch = some ScopeColumn.branch_column
tenant_direct _ = none

-- `CHILD_PARENT[model]`.
abbrev pub child_parent : Model → Option Model
child_parent Model.product_variant = some Model.product
child_parent Model.modifier = some Model.modifier_group
child_parent Model.product_modifier_group = some Model.product
child_parent Model.sale_item = some Model.sale
child_parent Model.sale_payment = some Model.sale
child_parent Model.shift_cash_movement = some Model.shift
child_parent Model.stock_count_item = some Model.stock_count
child_parent _ = none

-- `CHILD_ONLY_SET.has(model)`.
abbrev pub is_child_only : Model → Bool
is_child_only Model.product_variant = true
is_child_only Model.modifier = true
is_child_only Model.product_modifier_group = true
is_child_only Model.sale_item = true
is_child_only Model.sale_payment = true
is_child_only Model.shift_cash_movement = true
is_child_only Model.stock_count_item = true
is_child_only _ = false

-- `model === 'auditLog'`.
abbrev pub is_audit_log : Model → Bool
is_audit_log Model.audit_log = true
is_audit_log _ = false

-- Two models are the same, by their numbers.
abbrev pub model_no : Model → ℕ
model_no Model.owner = 0
model_no Model.user = 1
model_no Model.auth_token = 2
model_no Model.refresh_token = 3
model_no Model.business = 4
model_no Model.branch = 5
model_no Model.category = 6
model_no Model.product = 7
model_no Model.modifier_group = 8
model_no Model.discount = 9
model_no Model.notification = 10
model_no Model.audit_log = 11
model_no Model.terminal = 12
model_no Model.branch_stock = 13
model_no Model.stock_movement = 14
model_no Model.shift = 15
model_no Model.sale = 16
model_no Model.stock_count = 17
model_no Model.stock_batch = 18
model_no Model.product_variant = 19
model_no Model.modifier = 20
model_no Model.product_modifier_group = 21
model_no Model.sale_item = 22
model_no Model.sale_payment = 23
model_no Model.shift_cash_movement = 24
model_no Model.stock_count_item = 25

abbrev pub same_model : Model → Model → Bool
same_model a b = model_no a == model_no b

-- The columns that the client itself names; any other column has another number.
abbrev pub id_column : ℕ
id_column = 0

abbrev pub owner_id_column : ℕ
owner_id_column = 1

abbrev pub business_id_column : ℕ
business_id_column = 2

abbrev pub branch_id_column : ℕ
branch_id_column = 3

abbrev pub deleted_at_column : ℕ
deleted_at_column = 4

abbrev pub actor_type_column : ℕ
actor_type_column = 5

abbrev pub number_of : ScopeColumn → ℕ
number_of ScopeColumn.owner_column = owner_id_column
number_of ScopeColumn.business_column = business_id_column
number_of ScopeColumn.branch_column = branch_id_column

-- A field of a model in `Prisma.dmmf.datamodel`: a scalar, or an object (a relation) with its target,
-- whether it is a list, and the column that backs it, `relationFromFields`.
pub record Field : Type 0 where
  pub name : ℕ
  pub relation : Bool
  pub target : Model
  pub many : Bool
  pub from : Option ℕ

abbrev pub Dmmf : Type 0
Dmmf = Model → List Field

-- `RELATION_TARGET[model][field]` with `RELATION_IS_LIST[model][field]`.
unfoldable pub relation_of : Dmmf → Model → ℕ → Option Field
relation_of dmmf m field = find (λ f. if f.relation then f.name == field else false) (dmmf m)

-- `FK_REFS[model]`: the scalar column, the relation field and the model that it points at.
pub record FkRef : Type 0 where
  pub fk_column : ℕ
  pub relation_field : ℕ
  pub target : Model

unfoldable pub refs_among : List Field → List FkRef
refs_among [] = []
refs_among (f ∷ fs) =
    let later = refs_among fs in
    elim f.from [
      | none ↦ later
      | some column ↦
          if f.relation
          then (record { fk_column = column; relation_field = f.name; target = f.target }) ∷ later
          else later
    ]

unfoldable pub fk_refs : Dmmf → Model → List FkRef
unfolding refs_among
fk_refs dmmf m = refs_among (dmmf m)

-- `CHILD_PARENT_FK[child]`: the column of the first relation to the declared parent that has one.
unfoldable pub child_parent_fk : Dmmf → Model → Model → Option ℕ
unfolding fk_refs
child_parent_fk dmmf child parent =
    elim (find (λ (r : FkRef). same_model r.target parent) (fk_refs dmmf child)) [
      | none ↦ none
      | some r ↦ some r.fk_column
    ]
