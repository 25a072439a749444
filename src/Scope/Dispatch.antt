-- ===== src/Scope/Dispatch.antt =====
-- `$allOperations` of `createScopedPrisma` in src/prisma/scoped-prisma.ts: what becomes of an
-- operation on a model, by the scope of the request.
use sentry_pos_be.Common.{
  Bool, Option, none, some, List, if◌then◌else◌, keep, is_some, ℕ, Error, Result, err, ok, ◌>>=◌,
}
use sentry_pos_be.Scope.{Model, is_platform, is_child_only, is_audit_log, tenant_direct, Dmmf}
use sentry_pos_be.Scope.Query.{
  Where, Args, Clause, Row, matches, RequestScope, Context, Tables, Operation, Data,
}
use sentry_pos_be.Scope.Filter.{tenant_where, and_where, merge_deleted_null, inject}
use sentry_pos_be.Scope.Engine.{Engine, rows_of}
use sentry_pos_be.Scope.Mutate.{Answer, run_mutation}

-- The tables of the request: the committed ones, and those of a registered transaction.
abbrev pub runner : Tables → Option Tables → Tables
runner base none = base
runner base (some tx) = tx

abbrev pub where_of : Args → Option Where
where_of (Args.args w include select) = w

abbrev pub with_where : Where → Args → Args
with_where w (Args.args _ include select) = Args.args (some w) include select

module _ (e : Engine) (dmmf : Dmmf) (now : ℕ) (base : Tables) where
  -- `query(a)` of a read: the rows that its `where` matches.
  unfoldable pub query : Model → Args → List Row
  unfolding rows_of matches
  query m a = elim (where_of a) [
    | none ↦ rows_of base m
    | some w ↦ keep (λ r. matches e.judge r w) (rows_of base m)
  ]

  -- `query(a)` of `auditLog.create`.
  unfoldable pub create_freely : Model → Data → Tables → Result (Answer × Tables)
  create_freely m d tx = e.create_row m d tx >>= λ made. ok (Answer.one made.0, made.1)

  -- The arguments of a tenant's read.
  unfoldable pub scoped_args : Context → Model → Bool → Args → Args
  unfolding tenant_where and_where merge_deleted_null inject
  scoped_args ctx m include_deleted a =
      let scoped = and_where (where_of a) (tenant_where base ctx m) in
      if include_deleted
      then with_where scoped a
      else inject dmmf m (with_where (merge_deleted_null (some scoped)) a)

  -- `query(a)` of `updateManyAndReturn`.
  unfoldable pub update_freely : Model → Option Where → Data → Tables → Result (Answer × Tables)
  update_freely m w d tx = e.update_rows m w d tx >>= λ made. ok (Answer.found made.0, made.1)

  -- The arguments of the platform's read.
  unfoldable pub platform_args : Model → Bool → Args → Args
  unfolding inject
  platform_args m include_deleted a = if include_deleted then a else inject dmmf m a

  unfoldable pub platform_scope : Model → Operation → Tables → Result (Answer × Tables)
  unfolding query create_freely update_freely platform_args
  platform_scope m (Operation.read include_deleted a) tx =
      ok (Answer.found (query m (platform_args m include_deleted a)), tx)
  platform_scope m (Operation.create d) tx =
      if is_audit_log m then create_freely m d tx else err Error.platform_write
  platform_scope m (Operation.update_many_and_return _ w d) tx = update_freely m w d tx
  platform_scope m _ tx = err Error.platform_write

  -- The branch of `auditLog`: `createMany` and `createManyAndReturn` are left to Prisma as well.
  unfoldable pub audit_log_scope : Context → Operation → Tables → Result (Answer × Tables)
  unfolding query create_freely update_freely tenant_where and_where
  audit_log_scope ctx (Operation.read include_deleted a) tx = ok (
    Answer.found (
        query Model.audit_log
          (with_where (and_where (where_of a) (tenant_where base ctx Model.audit_log)) a)),
    tx,
  )
  audit_log_scope ctx (Operation.create d) tx = create_freely Model.audit_log d tx
  audit_log_scope ctx (Operation.create_many ds) tx =
      e.create_rows Model.audit_log ds tx >>= λ made. ok (Answer.found made.0, made.1)
  audit_log_scope ctx (Operation.create_many_and_return ds) tx =
      e.create_rows Model.audit_log ds tx >>= λ made. ok (Answer.found made.0, made.1)
  audit_log_scope ctx (Operation.update_many_and_return _ w d) tx =
      update_freely Model.audit_log (some (and_where w (tenant_where base ctx Model.audit_log))) d
        tx
  audit_log_scope ctx _ tx = err Error.out_of_scope

  unfoldable pub mapped_scope : Context → Model → Operation → Tables → Result (Answer × Tables)
  unfolding query scoped_args update_freely run_mutation
  mapped_scope ctx m (Operation.read include_deleted a) tx =
      ok (Answer.found (query m (scoped_args ctx m include_deleted a)), tx)
  mapped_scope ctx m (Operation.update_many_and_return include_deleted w d) tx =
      update_freely m
        (where_of (scoped_args ctx m include_deleted (Args.args w Clause.absent Clause.absent))) d
        tx
  mapped_scope ctx m op tx = run_mutation e dmmf now base ctx m op tx

  unfoldable pub tenant_scope : Context → Model → Operation → Tables → Result (Answer × Tables)
  unfolding audit_log_scope mapped_scope
  tenant_scope ctx m op tx =
      if is_platform m
      then err Error.out_of_scope
      else if is_child_only m
      then err Error.out_of_scope
      else if is_some (tenant_direct m)
      then (if is_audit_log m then audit_log_scope ctx op tx else mapped_scope ctx m op tx)
      else err Error.out_of_scope

  -- `$allOperations`.
  unfoldable pub all_operations :
      Option Context → Model → Operation → Option Tables → Result (Answer × Tables)
  unfolding platform_scope tenant_scope
  all_operations none m op tx = err Error.no_context
  all_operations (some ctx) m op tx = elim ctx.scope [
    | none ↦ err Error.no_context
    | some RequestScope.platform ↦ platform_scope m op (runner base tx)
    | some RequestScope.tenant ↦ tenant_scope ctx m op (runner base tx)
  ]
