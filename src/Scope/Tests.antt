-- ===== src/Scope/Tests.antt =====
-- Runs of the scoped client on an example shop, and its theorems at inputs that meet their hypotheses.
use sentry_pos_be.Common.{
  ℕ, ◌≡◌, ◌⊎◌, refl, true, false, none, some, [], ◌∷◌, ◌&&◌, ◌||◌, All, keep, Error, Result, err,
  ok, any,
}
use sentry_pos_be.Scope.{Model, ScopeColumn, business_id_column, fk_refs}
use sentry_pos_be.Scope.Query.{
  Where, Data, Row, Context, RequestScope, Tables, Operation, matches, meets,
}
use sentry_pos_be.Scope.Filter.{is_live}
use sentry_pos_be.Scope.Police.{resolve, walk_fuel}
use sentry_pos_be.Scope.Mutate.{Answer, create_one, update_one, delete_one, run_mutation}
use sentry_pos_be.Scope.Dispatch.{runner, where_of, scoped_args, platform_args, all_operations}
use sentry_pos_be.Scope.Visible.{asked, is_visible}
use sentry_pos_be.Scope.Reads.{read_lem}
use sentry_pos_be.Scope.Loads.{ArgsLoadLive, scoped_args-ArgsLoadLive}
use sentry_pos_be.Scope.Resolve.{resolve_ends}
use sentry_pos_be.Scope.Work.{IsWork}
use sentry_pos_be.Scope.Mutations.{rows_answered, run_mutation_bounded}
use sentry_pos_be.Scope.Appends.{Extends}
use sentry_pos_be.Scope.History.{Served, AllListed, Served-Extends}
use sentry_pos_be.Scope.Creates.{create_one_visible, create_one_refs}
use sentry_pos_be.Scope.References.{RefIsInside}
use sentry_pos_be.Scope.Gates.{IsAudit, IsUnchecked, platform_writes_bounded}
use sentry_pos_be.Scope.Deletes.{unseen_refused, IsSoftDeleted, delete_one_lem}
use sentry_pos_be.Scope.Obedience.{memory-Obeys}
use sentry_pos_be.Scope.Memory.{insert_row, change_row, change_rows, memory}
use sentry_pos_be.Scope.Sample.{
  product_name, category_id, dmmf, owned, of_business, tables, context, signed_in,
  signed_in-IsFresh, with_variants, by_id,
}

-- The owner's products are read, and those of the other owner are not.
read_own :
    all_operations memory dmmf 5 tables
      (some signed_in)
      Model.product
      (Operation.read false with_variants)
      none
    ≡ ok (Answer.found (of_business 30 10 ∷ []), tables)
unfolding all_operations meets
read_own = refl

-- A product of the other owner is refused to a delete as one that is not there.
delete_foreign :
    delete_one memory dmmf 5 tables signed_in Model.product (by_id 31) tables
    ≡ err Error.out_of_scope
unfolding delete_one meets matches
delete_foreign = refl

-- A product without a business is refused, and so is one with a foreign category.
create_homeless :
    create_one memory dmmf 5 tables signed_in Model.product
      (Data.value product_name (some 3) Data.end)
      tables
    ≡ err Error.out_of_scope
unfolding create_one
create_homeless = refl

abbrev bread : ℕ → Data
bread k = Data.value business_id_column (some 10) (Data.value category_id (some k) Data.end)

create_foreign_category :
    create_one memory dmmf 5 tables signed_in Model.product (bread 41) tables
    ≡ err Error.out_of_scope
unfolding create_one meets
create_foreign_category = refl

-- A variant's walk goes through its product.
resolve_variant : resolve dmmf tables signed_in walk_fuel Model.product_variant 50 ≡ some (some 10)
unfolding resolve
resolve_variant = refl

read_lem_example :
    all_operations memory dmmf 5 tables
      (some signed_in)
      Model.product
      (Operation.read false with_variants)
      none
    ≡ ok (
      Answer.found (
          keep
            (λ r.
              (false || is_live r)
              && (asked memory.judge r (where_of with_variants)
                  && is_visible tables 1 signed_in (some ScopeColumn.business_column) r))
            (tables.rows Model.product)),
      runner tables none,
    )
read_lem_example =
    read_lem memory dmmf 5 tables signed_in 1 signed_in-IsFresh Model.product
      ScopeColumn.business_column refl refl false with_variants none

scoped_args-ArgsLoadLive_example :
    ArgsLoadLive dmmf Model.product with_variants
      (platform_args memory dmmf 5 tables Model.product false with_variants)
    × ArgsLoadLive dmmf Model.product with_variants
        (scoped_args memory dmmf 5 tables signed_in Model.product false with_variants)
scoped_args-ArgsLoadLive_example =
    scoped_args-ArgsLoadLive dmmf memory 5 tables signed_in Model.product with_variants

resolve_ends_example :
    resolve dmmf tables signed_in 9 Model.product_variant 50
    ≡ resolve dmmf tables signed_in walk_fuel Model.product_variant 50
resolve_ends_example = resolve_ends dmmf tables signed_in 7 Model.product_variant 50

abbrev rename : Data
rename = Data.value product_name (some 4) Data.end

-- What an operation on the products of the example comes to.
abbrev answer_of : Result (Answer × Tables) → Answer × Tables
answer_of (ok r) = r
answer_of (err e) = (Answer.count 0, tables)

renamed : Answer × Tables
unfolding run_mutation
renamed = answer_of (
    run_mutation memory dmmf 5 tables signed_in Model.product
      (Operation.update_many Where.anything rename) tables)

renamed_lem :
    run_mutation memory dmmf 5 tables signed_in Model.product
      (Operation.update_many Where.anything rename)
      tables
    ≡ ok (renamed.0, renamed.1)
unfolding renamed meets matches change_row
renamed_lem = refl

run_mutation_bounded_example :
    IsWork memory tables signed_in Model.product (rows_answered renamed.0) tables renamed.1
run_mutation_bounded_example =
    run_mutation_bounded memory memory-Obeys dmmf 5 tables signed_in Model.product refl
      (Operation.update_many Where.anything rename) tables renamed.0 renamed.1 (refl, tt)
      renamed_lem

served : Result (Answer × Tables)
unfolding all_operations
served =
    all_operations memory dmmf 5 tables (some signed_in) Model.product (Operation.delete (by_id 30))
      none

served_lem :
    all_operations memory dmmf 5 tables
      (some signed_in)
      Model.product
      (Operation.delete (by_id 30))
      none
    ≡ ok ((answer_of served).0, (answer_of served).1)
unfolding served meets matches change_row
served_lem = refl

Served-Extends_example : Extends tables (answer_of served).1
unfolding AllListed
Served-Extends_example =
    Served-Extends memory dmmf memory-Obeys
      (Served.request 5 (some signed_in) Model.product (Operation.delete (by_id 30))
        (answer_of served).0 Served.start served_lem)
      (refl, tt)

abbrev row_answer : Result (Row × Tables) → Row × Tables
row_answer (ok r) = r
row_answer (err e) = (owned 0 0, tables)

baked : Row × Tables
unfolding create_one
baked = row_answer (create_one memory dmmf 5 tables signed_in Model.product (bread 40) tables)

baked_lem :
    create_one memory dmmf 5 tables signed_in Model.product (bread 40) tables
    ≡ ok (baked.0, baked.1)
unfolding baked meets insert_row
baked_lem = refl

create_one_visible_example :
    is_visible tables 1 signed_in (some ScopeColumn.business_column) baked.0 ≡ true
create_one_visible_example =
    create_one_visible memory memory-Obeys dmmf 5 tables signed_in 1 signed_in-IsFresh Model.product
      ScopeColumn.business_column refl (λ b h. absurd (cc h)) (λ h. absurd (cc h)) (bread 40)
      (refl, (refl, tt)) tables baked.0 baked.1 baked_lem

create_one_refs_example :
    All
      (RefIsInside dmmf tables signed_in 1 signed_in-IsFresh Model.product (bread 40))
      (fk_refs dmmf Model.product)
create_one_refs_example =
    create_one_refs memory memory-Obeys dmmf 5 tables signed_in 1 signed_in-IsFresh Model.product
      ScopeColumn.business_column refl (λ b h. absurd (cc h)) (λ h. absurd (cc h)) (bread 40)
      (refl, (refl, tt)) tables baked.0 baked.1 baked_lem (cc)

abbrev admin : Context
admin = context RequestScope.platform

-- An admin's `updateManyAndReturn` on the products of every owner.
abbrev rename_all : Operation
rename_all = Operation.update_many_and_return false none rename

abbrev renamed_all : Result (Answer × Tables)
renamed_all = all_operations memory dmmf 5 tables (some admin) Model.product rename_all none

platform_writes :
    all_operations memory dmmf 5 tables (some admin) Model.product rename_all none
    ≡ ok ((answer_of renamed_all).0, (answer_of renamed_all).1)
unfolding all_operations change_rows
platform_writes = refl

platform_writes_bounded_example :
    ((answer_of renamed_all).1 ≡ runner tables none)
    ⊎ (IsAudit memory dmmf 5 tables admin Model.product rename_all none
          (answer_of renamed_all).0
          (answer_of renamed_all).1
          platform_writes
          rename_all
        ⊎ IsUnchecked memory dmmf 5 tables admin Model.product rename_all none
            (answer_of renamed_all).0
            (answer_of renamed_all).1
            platform_writes
            rename_all)
platform_writes_bounded_example =
    platform_writes_bounded memory dmmf 5 tables admin Model.product rename_all none
      (answer_of renamed_all).0 (answer_of renamed_all).1 platform_writes refl

unseen :
    any
      (λ x.
        matches memory.judge x (by_id 31)
        && is_visible tables 1 signed_in (some ScopeColumn.business_column) x)
      (tables.rows Model.product)
    ≡ false
unfolding matches meets
unseen = refl

unseen_refused_example :
    (update_one memory dmmf 5 tables signed_in Model.product (by_id 31) rename tables
      ≡ err Error.out_of_scope)
    × (delete_one memory dmmf 5 tables signed_in Model.product (by_id 31) tables
        ≡ err Error.out_of_scope)
unseen_refused_example =
    unseen_refused memory dmmf 5 tables signed_in 1 signed_in-IsFresh Model.product
      ScopeColumn.business_column refl refl (by_id 31) tables unseen rename

deleted : Row × Tables
unfolding delete_one
deleted = row_answer (delete_one memory dmmf 5 tables signed_in Model.product (by_id 30) tables)

deleted_lem :
    delete_one memory dmmf 5 tables signed_in Model.product (by_id 30) tables
    ≡ ok (deleted.0, deleted.1)
unfolding deleted meets matches change_row
deleted_lem = refl

delete_one_lem_example :
    (before : Row) × (((matches memory.judge before (by_id 30)
          && is_visible tables 1 signed_in (some ScopeColumn.business_column) before)
        && is_live before)
      ≡ true)
    × IsSoftDeleted Model.product 5 tables deleted.0 deleted.1 before
delete_one_lem_example =
    delete_one_lem memory memory-Obeys dmmf 5 tables signed_in 1 signed_in-IsFresh Model.product
      ScopeColumn.business_column refl refl (by_id 30) tables deleted.0 deleted.1 deleted_lem
