-- ===== src/Scope/Filter.antt =====
-- The look-ups and filters of src/prisma/scoped-prisma.ts: the sets of the caller's businesses and
-- branches, the filter that keeps a query inside them, and the filter on soft-deleted rows.
use sentry_pos_be.Common.{
  ℕ, Bool, true, false, Option, none, some, List, [], ◌∷◌, ◌==◌, if◌then◌else◌, opt_eq, find, keep,
  any, map,
}
use sentry_pos_be.Scope.{
  Model, ScopeColumn, tenant_direct, is_audit_log, owner_id_column, business_id_column,
  branch_id_column, deleted_at_column, actor_type_column, Field, Dmmf, relation_of,
}
use sentry_pos_be.Scope.Query.{
  Condition, Where, Wheres, Args, Clause, Row, Context, is_terminal, Tables, ActorType, actor_code,
}

abbrev pub member : ℕ → List ℕ → Bool
member k ks = any (λ j. k == j) ks

abbrev pub id_of : Row → ℕ
id_of r = r.id

abbrev pub is_live : Row → Bool
is_live r = opt_eq (r.columns deleted_at_column) none

-- `where: { ownerId: ctx.ownerId ?? undefined }`: Prisma leaves out a key that is `undefined`.
abbrev pub is_owned_by : Option ℕ → Row → Bool
is_owned_by none r = true
is_owned_by (some o) r = opt_eq (r.columns owner_id_column) (some o)

unfoldable pub query_business_ids : Tables → Context → List ℕ
query_business_ids t ctx =
    map id_of
      (keep (λ r. if is_owned_by ctx.owner_id r then is_live r else false) (t.rows Model.business))

-- `allowedBusinessIds`: what the request has found before, or the owner's live businesses.
unfoldable pub allowed_business_ids : Tables → Context → List ℕ
unfolding query_business_ids
allowed_business_ids t ctx = elim ctx.business_ids [
  | some hit ↦ hit
  | none ↦ query_business_ids t ctx
]

abbrev pub in_one_of : List ℕ → Option ℕ → Bool
in_one_of ks none = false
in_one_of ks (some k) = member k ks

unfoldable pub query_branch_ids : Tables → List ℕ → List ℕ
query_branch_ids t [] = []
query_branch_ids t (b ∷ bs) = map id_of (
    keep (λ r. if in_one_of (b ∷ bs) (r.columns business_id_column) then is_live r else false)
      (t.rows Model.branch))

-- `allowedBranchIds`.
unfoldable pub allowed_branch_ids : Tables → Context → List ℕ
unfolding allowed_business_ids query_branch_ids
allowed_branch_ids t ctx = elim ctx.branch_ids [
  | some hit ↦ hit
  | none ↦ query_branch_ids t (allowed_business_ids t ctx)
]

abbrev pub find_row : ℕ → List Row → Option Row
find_row k rows = find (λ r. r.id == k) rows

-- `branchToBusiness`.
unfoldable pub branch_to_business : Tables → Context → ℕ → Option ℕ
branch_to_business t ctx branch = elim (ctx.branch_business branch) [
  | some hit ↦ hit
  | none ↦ elim (find_row branch (t.rows Model.branch)) [
    | some r ↦ r.columns business_id_column
    | none ↦ none
  ]
]

-- The filter on `audit_logs`.
unfoldable pub audit_where : Tables → Context → Where
unfolding allowed_business_ids
audit_where t ctx =
    Where.all_of
      (Wheres.with_one
        (Where.column actor_type_column
          (Condition.differs (actor_code ActorType.platform_admin_actor)) Where.anything)
        (Wheres.with_one
          (Where.any_of
            (Wheres.with_one
              (Where.column business_id_column (Condition.among (allowed_business_ids t ctx))
                Where.anything)
              (Wheres.with_one
                (Where.column business_id_column (Condition.equals none)
                  (Where.column owner_id_column (Condition.equals ctx.owner_id) Where.anything))
                Wheres.no_more))
            Where.anything)
          Wheres.no_more))
      Where.anything

unfoldable pub branch_where : Tables → Context → Where
unfolding allowed_branch_ids
branch_where t ctx =
    Where.column branch_id_column
      (if is_terminal ctx
        then Condition.equals ctx.branch_id
        else Condition.among (allowed_branch_ids t ctx))
      Where.anything

unfoldable pub column_where : Tables → Context → Option ScopeColumn → Where
unfolding branch_where allowed_business_ids
column_where t ctx (some ScopeColumn.owner_column) =
    Where.column owner_id_column (Condition.equals ctx.owner_id) Where.anything
column_where t ctx (some ScopeColumn.business_column) =
    Where.column business_id_column (Condition.among (allowed_business_ids t ctx)) Where.anything
column_where t ctx (some ScopeColumn.branch_column) = branch_where t ctx
column_where t ctx none = branch_where t ctx

-- `tenantWhereFor`.
unfoldable pub tenant_where : Tables → Context → Model → Where
unfolding audit_where column_where
tenant_where t ctx m =
    if is_audit_log m then audit_where t ctx else column_where t ctx (tenant_direct m)

abbrev pub both : Where → Where → Where
both a b = Where.all_of (Wheres.with_one a (Wheres.with_one b Wheres.no_more)) Where.anything

-- `andWhere`.
unfoldable pub and_where : Option Where → Where → Where
and_where none scope = scope
and_where (some Where.anything) scope = scope
and_where (some existing) scope = both existing scope

-- `'deletedAt' in where`: among the keys of the object itself.
unfoldable pub asks_deleted_at : Where → Bool
asks_deleted_at Where.anything = false
asks_deleted_at (Where.column c cond w) = if c == deleted_at_column then true else asks_deleted_at w
asks_deleted_at (Where.all_of ws w) = asks_deleted_at w
asks_deleted_at (Where.any_of ws w) = asks_deleted_at w
asks_deleted_at (Where.special n w) = asks_deleted_at w

abbrev pub not_deleted : Where → Where
not_deleted w = Where.column deleted_at_column (Condition.equals none) w

-- `mergeDeletedNull`.
unfoldable pub merge_deleted_null : Option Where → Where
unfolding asks_deleted_at
merge_deleted_null none = not_deleted Where.anything
merge_deleted_null (some w) = if asks_deleted_at w then w else not_deleted w

-- A list is loaded with a filter on soft-deleted rows, a single row as the caller asks.
unfoldable pub load_where : Field → Option Where → Option Where
unfolding merge_deleted_null
load_where f w = if f.many then some (merge_deleted_null w) else w

-- A relation that is requested with `true`.
unfoldable pub expand_whole : Option Field → ℕ → Clause → Clause
expand_whole none key c = Clause.whole key c
expand_whole (some f) key c =
    if f.many
    then Clause.load key (Args.args (some (not_deleted Where.anything)) Clause.absent Clause.absent)
        c
    else Clause.whole key c

module _ (dmmf : Dmmf) where
  -- `injectNestedSoftDelete`, and its `walkClause` over the keys of an `include` or a `select`: what is
  -- no relation is left as it is.
  unfoldable mutual
    unfolding load_where relation_of expand_whole

    pub inject : Model → Args → Args
    inject m (Args.args w include select) =
        Args.args w (inject_clause m include) (inject_clause m select)

    pub inject_load : Option Field → Args → Args
    inject_load none a = a
    inject_load (some f) (Args.args w include select) =
        Args.args (load_where f w) (inject_clause f.target include) (inject_clause f.target select)

    pub inject_clause : Model → Clause → Clause
    inject_clause m Clause.absent = Clause.absent
    inject_clause m Clause.done = Clause.done
    inject_clause m (Clause.load key a c) =
        Clause.load key (inject_load (relation_of dmmf m key) a) (inject_clause m c)
    inject_clause m (Clause.whole key c) =
        expand_whole (relation_of dmmf m key) key (inject_clause m c)
    inject_clause m (Clause.skip key c) = Clause.skip key (inject_clause m c)
