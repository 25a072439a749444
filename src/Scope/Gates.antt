-- ===== src/Scope/Gates.antt =====
-- The requests of the platform in src/prisma/scoped-prisma.ts.
use sentry_pos_be.Common.{
  ℕ, ◌≡◌, ◌⊎◌, refl, ◌∙◌, ap, Bool, true, List, Option, some, arith, ok, >>=-eq-ok, Bool-cases, inl,
  inr,
}
use sentry_pos_be.Scope.{Model, Dmmf, is_audit_log}
use sentry_pos_be.Scope.Query.{Context, RequestScope, Tables, Operation, Data, Row, Where}
use sentry_pos_be.Scope.Engine.{Engine}
use sentry_pos_be.Scope.Mutate.{Answer}
use sentry_pos_be.Scope.Dispatch.{runner, platform_scope, update_freely, all_operations}

module _ (e : Engine) (dmmf : Dmmf) (now : ℕ) (base : Tables) (ctx : Context) (m : Model)
    (op : Operation) (tx : Option Tables) (answer : Answer) (after : Tables)
    (done : all_operations e dmmf now base (some ctx) m op tx ≡ ok (answer, after)) where
  abbrev pub IsAudit : Operation → Type 0
  IsAudit op = (is_audit_log m ≡ true) × ((d : Data) × (op ≡ Operation.create d))

  -- An `updateManyAndReturn`, with what Prisma made of it.
  abbrev pub IsUnchecked : Operation → Type 0
  IsUnchecked op =
      (include_deleted : Bool) × (w : Option Where) × (d : Data) × (rows : List Row) × (op
        ≡ Operation.update_many_and_return include_deleted w d)
      × (e.update_rows m w d (runner base tx) ≡ ok (rows, after))

  platform_case :
      (op : Operation)
      → platform_scope e dmmf now base m op (runner base tx) ≡ ok (answer, after)
      → (after ≡ runner base tx) ⊎ (IsAudit op ⊎ IsUnchecked op)
  unfolding platform_scope update_freely
  platform_case (Operation.read deleted a) h = inl (cc h)
  platform_case (Operation.create d) h = elim (Bool-cases (is_audit_log m)) [
    | inl log ↦ inr (inl (log, (d, refl)))
    | inr other ↦ absurd (ground arith)
  ]
  platform_case (Operation.update_many_and_return deleted w d) h =
      let (made, h1, e1) = >>=-eq-ok (e.update_rows m w d (runner base tx)) _ h in
      let same : made.1 ≡ after = cc e1 in
      inr (inr (deleted, w, d, made.0, refl, h1 ∙ ap (λ t. ok (made.0, t)) same))
  platform_case op h = absurd (cc h)

  -- A request of the platform that goes through leaves every table as it was, unless it adds to the
  -- audit log, or it is an `updateManyAndReturn`, which the code takes for a read: that one Prisma carries
  -- out as it is, on any model.
  pub platform_writes_bounded :
      ctx.scope ≡ some RequestScope.platform
      → (after ≡ runner base tx) ⊎ (IsAudit op ⊎ IsUnchecked op)
  unfolding all_operations
  platform_writes_bounded scope = platform_case op (rw scope at done)
