-- ===== src/Scope/Reads.antt =====
-- The reads of a tenant in src/prisma/scoped-prisma.ts against what the owner may see.
use sentry_pos_be.Common.{
  ℕ, ◌≡◌, refl, ◌∙◌, ap, Bool, true, false, Option, none, some, ◌&&◌, ◌||◌, keep, arith, Bool-cases,
  inl, inr, ok,
}
use sentry_pos_be.Scope.{
  Model, ScopeColumn, tenant_direct, is_audit_log, business_id_column, branch_id_column, Dmmf,
  is_platform, is_child_only,
}
use sentry_pos_be.Scope.Query.{
  Condition, Where, Row, meets, matches, Context, is_terminal, Tables, Args, Operation,
  RequestScope,
}
use sentry_pos_be.Scope.Filter.{
  is_live, column_where, tenant_where, and_where, asks_deleted_at, merge_deleted_null, branch_where,
  allowed_business_ids, allowed_branch_ids,
}
use sentry_pos_be.Scope.Visible.{
  asked, matches-and_where, matches-not_deleted, keep_congr, is_visible, is_own_business?,
  is_own_branch?, member-allowed_business_ids, member-allowed_branch_ids,
}
use sentry_pos_be.Scope.Engine.{Engine, rows_of}
use sentry_pos_be.Scope.Mutate.{Answer}
use sentry_pos_be.Scope.Dispatch.{
  runner, where_of, query, scoped_args, mapped_scope, tenant_scope, all_operations,
}

and_true : (b : Bool) → (b && true) ≡ b
and_true true = refl
and_true false = refl

-- The scope's filter asks nothing of deletedAt, and the caller's own filter is put under `AND`.
asks_deleted_at-column_where :
    (t : Tables) (ctx : Context) (c : ScopeColumn)
    → asks_deleted_at (column_where t ctx (some c)) ≡ false
unfolding asks_deleted_at column_where branch_where
asks_deleted_at-column_where t ctx ScopeColumn.owner_column = refl
asks_deleted_at-column_where t ctx ScopeColumn.business_column = refl
asks_deleted_at-column_where t ctx ScopeColumn.branch_column = refl

asks_deleted_at-and_where :
    (t : Tables) (ctx : Context) (w : Option Where) (c : ScopeColumn)
    → asks_deleted_at (and_where w (column_where t ctx (some c))) ≡ false
unfolding asks_deleted_at and_where
asks_deleted_at-and_where t ctx none c = asks_deleted_at-column_where t ctx c
asks_deleted_at-and_where t ctx (some Where.anything) c = asks_deleted_at-column_where t ctx c
asks_deleted_at-and_where t ctx (some (Where.column k cond w)) c = refl
asks_deleted_at-and_where t ctx (some (Where.all_of ws w)) c = refl
asks_deleted_at-and_where t ctx (some (Where.any_of ws w)) c = refl
asks_deleted_at-and_where t ctx (some (Where.special n w)) c = refl

pub mapped_is_open :
    (m : Model) (c : ScopeColumn)
    → tenant_direct m ≡ some c
    → (is_platform m ≡ false) × (is_child_only m ≡ false)
mapped_is_open Model.owner c e = absurd (cc e)
mapped_is_open m c e = ground arith

-- The context of a signed-in owner, or of a terminal, that has nothing cached.
pub record IsFresh (ctx : Context) (o : ℕ) : Type 0 where
  pub scoped : ctx.scope ≡ some RequestScope.tenant
  pub owned : ctx.owner_id ≡ some o
  pub businesses : ctx.business_ids ≡ none
  pub branches : ctx.branch_ids ≡ none

module _ (judge : ℕ → Row → Bool) (t : Tables) (ctx : Context) (o : ℕ) (fresh : IsFresh ctx o) where
  among_businesses :
      (v : Option ℕ)
      → (meets v (Condition.among (allowed_business_ids t ctx)) && true) ≡ is_own_business? t o v
  unfolding meets
  among_businesses none = refl
  among_businesses (some k) =
      and_true _ ∙ member-allowed_business_ids t o ctx fresh.owned fresh.businesses k

  among_branches :
      (v : Option ℕ)
      → (meets v (Condition.among (allowed_branch_ids t ctx)) && true) ≡ is_own_branch? t o v
  unfolding meets
  among_branches none = refl
  among_branches (some k) =
      and_true _ ∙ member-allowed_branch_ids t o ctx fresh.owned fresh.businesses k fresh.branches

  module _ (r : Row) where
    pub matches-column_where :
        (c : ScopeColumn)
        → matches judge r (column_where t ctx (some c)) ≡ is_visible t o ctx (some c) r
    unfolding matches meets column_where branch_where
    matches-column_where ScopeColumn.owner_column = rw fresh.owned (and_true _)
    matches-column_where ScopeColumn.business_column =
        among_businesses (r.columns business_id_column)
    matches-column_where ScopeColumn.branch_column = elim (Bool-cases (is_terminal ctx)) [
      | inl terminal ↦ rw terminal (unfold meets in and_true _)
      | inr not_terminal ↦ rw not_terminal (among_branches (r.columns branch_id_column))
    ]

    -- The whole filter of a read, with and without the soft-deleted rows.
    pub matches-scoped :
        (w : Option Where) (c : ScopeColumn)
        → matches judge r (and_where w (column_where t ctx (some c)))
          ≡ (asked judge r w && is_visible t o ctx (some c) r)
    matches-scoped w c = rw (matches-and_where judge r w _, matches-column_where c)

    pub matches-scoped_live :
        (w : Option Where) (c : ScopeColumn)
        → matches judge r (merge_deleted_null (some (and_where w (column_where t ctx (some c)))))
          ≡ (is_live r && (asked judge r w && is_visible t o ctx (some c) r))
    unfolding merge_deleted_null
    matches-scoped_live w c =
        rw (asks_deleted_at-and_where t ctx w c, matches-not_deleted judge r, matches-scoped w c)

module _ (e : Engine) (dmmf : Dmmf) (now : ℕ) (t : Tables) (ctx : Context) (o : ℕ)
    (fresh : IsFresh ctx o) (m : Model) (c : ScopeColumn) (mapped : tenant_direct m ≡ some c)
    (plain : is_audit_log m ≡ false) where
  -- A tenant's read of a model, with the soft-deleted rows or without, returns just the rows of the
  -- model that meet the caller's filter and that the owner may see.
  pub read_lem :
      (include_deleted : Bool) (a : Args) (tx : Option Tables)
      → all_operations e dmmf now t (some ctx) m (Operation.read include_deleted a) tx
        ≡ ok (
          Answer.found (
              keep
                (λ r.
                  (include_deleted || is_live r)
                  && (asked e.judge r (where_of a) && is_visible t o ctx (some c) r))
                (t.rows m)),
          runner t tx,
        )
  unfolding all_operations tenant_scope mapped_scope scoped_args query tenant_where rows_of
  read_lem true (Args.args w include select) tx =
      let (open_model, top_level) = mapped_is_open m c mapped in
      rw (fresh.scoped, open_model, top_level, mapped, plain)
        (ap (λ rows. ok (Answer.found rows, runner t tx))
          (keep_congr _ _ (t.rows m) (λ r. matches-scoped e.judge t ctx o fresh r w c)))
  read_lem false (Args.args w include select) tx =
      let (open_model, top_level) = mapped_is_open m c mapped in
      rw (fresh.scoped, open_model, top_level, mapped, plain)
        (ap (λ rows. ok (Answer.found rows, runner t tx))
          (keep_congr _ _ (t.rows m) (λ r. matches-scoped_live e.judge t ctx o fresh r w c)))
