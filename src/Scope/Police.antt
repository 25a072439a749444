-- ===== src/Scope/Police.antt =====
-- The checks on the data of a create in src/prisma/scoped-prisma.ts: `resolveRefBusinessId`,
-- `policeCreateRefs` and `policeCreateData`.
use sentry_pos_be.Common.{
  ℕ, zero, suc, Bool, false, Option, none, some, List, [], ◌∷◌, ◌==◌, if◌then◌else◌, not, Error,
  Result, err, ok, throw_if, ◌>>=◌, ◌>>◌,
}
use sentry_pos_be.Scope.{
  Model, ScopeColumn, is_platform, tenant_direct, child_parent, number_of, id_column,
  owner_id_column, business_id_column, branch_id_column, FkRef, Dmmf, fk_refs, child_parent_fk,
}
use sentry_pos_be.Scope.Query.{
  Condition, Where, Data, Writes, Row, Context, is_terminal, Tables, read_column,
}
use sentry_pos_be.Scope.Filter.{
  allowed_business_ids, allowed_branch_ids, branch_to_business, find_row, in_one_of,
}

-- `data[column]`: none where the key is absent or null.
abbrev pub value_of : ℕ → Data → Option ℕ
value_of c Data.end = none
value_of c (Data.value k v d) = if k == c then v else value_of c d
value_of c (Data.nested k w d) = value_of c d

-- `out[column] = v`.
abbrev pub assign : ℕ → Option ℕ → Data → Data
assign c v Data.end = Data.value c v Data.end
assign c v (Data.value k u d) = if k == c then Data.value k v d else Data.value k u (assign c v d)
assign c v (Data.nested k w d) = Data.nested k w (assign c v d)

-- `data[relation].connect`.
abbrev pub connects_of : ℕ → Data → List Where
connects_of k Data.end = []
connects_of k (Data.value c v d) = connects_of k d
connects_of k (Data.nested j (Writes.writes made connected updated deleted many gone) d) =
    if j == k then connected else connects_of k d

-- `c.id`, where `c` has one.
abbrev pub id_asked : Where → Option ℕ
id_asked Where.anything = none
id_asked (Where.column c (Condition.equals v) w) = if c == id_column then v else id_asked w
id_asked (Where.column c (Condition.differs v) w) = id_asked w
id_asked (Where.column c (Condition.among vs) w) = id_asked w
id_asked (Where.all_of ws w) = id_asked w
id_asked (Where.any_of ws w) = id_asked w
id_asked (Where.special n w) = id_asked w

abbrev pub is_scope_column : Option ScopeColumn → ℕ → Bool
is_scope_column none c = false
is_scope_column (some s) c = number_of s == c

abbrev pub column_of : ℕ → Option Row → Option ℕ
column_of c none = none
column_of c (some r) = read_column r c

abbrev pub and_then : Option ℕ → (ℕ → Option ℕ) → Option ℕ
and_then none f = none
and_then (some k) f = f k

abbrev pub or_null : Option (Option ℕ) → Option ℕ
or_null none = none
or_null (some k) = k

-- A child's parent stands under a scope column itself, so two rounds end every walk.
abbrev pub walk_fuel : ℕ
walk_fuel = 2

module _ (dmmf : Dmmf) (t : Tables) (ctx : Context) where
  -- The parent's business, where the row has a parent.
  abbrev pub parent_business : (ℕ → Option (Option ℕ)) → Option ℕ → Option Row → Option ℕ
  parent_business walk none row = none
  parent_business walk (some fk) row = and_then (column_of fk row) (λ p. or_null (walk p))

  abbrev pub through_parent :
      (Model → ℕ → Option (Option ℕ)) → Model → Option Row → Option Model → Option ℕ
  through_parent walk m row none = none
  through_parent walk m row (some parent) =
      parent_business (walk parent) (child_parent_fk dmmf m parent) row

  -- The business of a row that is not in the cache: the row is the business, names its business or its
  -- branch, or has a parent.
  unfoldable pub business_of_row : (Model → ℕ → Option (Option ℕ)) → Model → Option Row → Option ℕ
  unfolding branch_to_business child_parent_fk
  business_of_row walk m row = elim (tenant_direct m) [
    | some ScopeColumn.owner_column ↦ column_of id_column row
    | some ScopeColumn.business_column ↦ column_of business_id_column row
    | some ScopeColumn.branch_column ↦
        and_then (column_of branch_id_column row) (branch_to_business t ctx)
    | none ↦ through_parent walk m row (child_parent m)
  ]

  unfoldable pub walk_up : (Model → ℕ → Option (Option ℕ)) → Model → ℕ → Option (Option ℕ)
  unfolding business_of_row
  walk_up walk m k = if is_platform m then none else (elim (ctx.ref_business m k) [
    | some hit ↦ some hit
    | none ↦ some (business_of_row walk m (find_row k (t.rows m)))
  ])

  -- `resolveRefBusinessId`, on fuel: none for a platform model, `some none` where there is no row.
  unfoldable pub resolve : ℕ → Model → ℕ → Option (Option ℕ)
  unfolding walk_up
  resolve zero m k = some none
  resolve (suc fuel) m k = walk_up (resolve fuel) m k

  -- `assertInScope`.
  unfoldable pub assert_in_scope : Model → ℕ → Result (Unit {0})
  unfolding resolve allowed_business_ids
  assert_in_scope target k = elim (resolve walk_fuel target k) [
    | none ↦ ok tt
    | some b ↦ throw_if (not (in_one_of (allowed_business_ids t ctx) b)) Error.out_of_scope
  ]

  unfoldable pub check_connects : Model → List Where → Result (Unit {0})
  unfolding assert_in_scope
  check_connects target [] = ok tt
  check_connects target (c ∷ cs) =
      let here : Result (Unit {0}) = elim (id_asked c) [
        | none ↦ ok tt
        | some k ↦ assert_in_scope target k
      ] in
      here >> check_connects target cs

  -- One round of the loop over `FK_REFS[model]`.
  unfoldable pub check_ref : Model → Data → FkRef → Result (Unit {0})
  unfolding check_connects assert_in_scope
  check_ref m d ref =
      let nested_ones = check_connects ref.target (connects_of ref.relation_field d) in
      elim (value_of ref.fk_column d) [
        | none ↦ nested_ones
        | some k ↦
            if is_scope_column (tenant_direct m) ref.fk_column
            then ok tt
            else assert_in_scope ref.target k >> nested_ones
      ]

  unfoldable pub check_refs : Model → Data → List FkRef → Result (Unit {0})
  unfolding check_ref
  check_refs m d [] = ok tt
  check_refs m d (ref ∷ refs) = check_ref m d ref >> check_refs m d refs

  -- `policeCreateRefs`.
  unfoldable pub police_create_refs : Model → Data → Result Data
  unfolding check_refs fk_refs
  police_create_refs m d = check_refs m d (fk_refs dmmf m) >> ok d

  unfoldable pub police_business : Data → Result Data
  unfolding allowed_business_ids
  police_business d = elim (value_of business_id_column d) [
    | some b ↦
        throw_if (not (in_one_of (allowed_business_ids t ctx) (some b))) Error.out_of_scope >> ok d
    | none ↦ elim ctx.business_id [
      | some b ↦ ok (assign business_id_column (some b) d)
      | none ↦ err Error.out_of_scope
    ]
  ]

  unfoldable pub police_branch : Data → Result Data
  unfolding allowed_branch_ids
  police_branch d =
      if is_terminal ctx
      then ok (assign branch_id_column ctx.branch_id d)
      else (elim (value_of branch_id_column d) [
        | some b ↦
            throw_if (not (in_one_of (allowed_branch_ids t ctx) (some b))) Error.out_of_scope
            >> ok d
        | none ↦ err Error.out_of_scope
      ])

  -- `policeCreateData`.
  unfoldable pub police_create_data : Model → Data → Result Data
  unfolding police_business police_branch police_create_refs
  police_create_data m d = elim (tenant_direct m) [
    | none ↦ ok d
    | some ScopeColumn.owner_column ↦ ok (assign owner_id_column ctx.owner_id d)
    | some ScopeColumn.business_column ↦ police_business d >>= police_create_refs m
    | some ScopeColumn.branch_column ↦ police_branch d >>= police_create_refs m
  ]
