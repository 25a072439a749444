-- ===== src/Scope/History.antt =====
-- The audit log over the requests that the scoped client of src/prisma/scoped-prisma.ts carries out,
-- nested writes included: what every request leaves of it.
use sentry_pos_be.Common.{
  ℕ, ◌≡◌, refl, false, Option, none, some, List, [], ◌∷◌, arith, Result, ok, >>=-eq-ok,
  Option-cases, Bool-cases, inl, inr,
}
use mathlib.Core.Path.{subst}
use sentry_pos_be.Scope.{Model, Dmmf, is_audit_log}
use sentry_pos_be.Scope.Query.{
  Row, Context, RequestScope, Tables, Operation, is_unlisted, Data, Where,
}
use sentry_pos_be.Scope.Filter.{both, and_where, not_deleted, tenant_where}
use sentry_pos_be.Scope.Engine.{Engine, Obeys}
use sentry_pos_be.Scope.Audit.{first, all_matching, capture_nested_before}
use sentry_pos_be.Scope.Mutate.{
  Answer, create_one, police_all, audit_made, create_each, update_one, live_target, upsert_one,
  delete_one, delete_all, delete_each, update_all, update_each, run_mutation,
}
use sentry_pos_be.Scope.Dispatch.{
  runner, platform_scope, audit_log_scope, mapped_scope, tenant_scope, all_operations,
  create_freely,
}
use sentry_pos_be.Scope.Appends.{
  Extends, same-Extends, same_log, Extends-trans, update_found-Extends, create_one-Extends,
  delete_found-Extends, delete_all-Extends, update_all-Extends, made-Extends,
}

module _ (e : Engine) (law : Obeys e) (dmmf : Dmmf) (now : ℕ) (base : Tables) where
  module _ (ctx : Context) (m : Model) (logged_model : is_audit_log m ≡ false) where
    update_one-Extends :
        (w : Where) (d : Data) (tx : Tables) (r : Row) (after : Tables)
        → update_one e dmmf now base ctx m w d tx ≡ ok (r, after)
        → Extends tx after
    unfolding update_one
    update_one-Extends w d tx r after h =
        elim (Option-cases (first e base m (both w (tenant_where base ctx m)))) [
          | inl e0 ↦ absurd (ground arith)
          | inr (before, e0) ↦
              update_found-Extends e law dmmf now base ctx m logged_model
                (capture_nested_before e dmmf base m d) before d tx r after (ground arith)
        ]

    upsert_one-Extends :
        (w : Where) (changes made : Data) (tx : Tables) (r : Row) (after : Tables)
        → upsert_one e dmmf now base ctx m w changes made tx ≡ ok (r, after)
        → Extends tx after
    unfolding upsert_one
    upsert_one-Extends w changes made tx r after h =
        elim (Option-cases (first e base m (live_target e dmmf now base ctx m w))) [
          | inl e0 ↦
              create_one-Extends e law dmmf now base ctx m logged_model made tx r after
                (ground arith)
          | inr (before, e0) ↦
              update_found-Extends e law dmmf now base ctx m logged_model [] before changes tx r
                after (ground arith)
        ]

    delete_one-Extends :
        (w : Where) (tx : Tables) (r : Row) (after : Tables)
        → delete_one e dmmf now base ctx m w tx ≡ ok (r, after)
        → Extends tx after
    unfolding delete_one
    delete_one-Extends w tx r after h =
        elim (Option-cases (first e base m (live_target e dmmf now base ctx m w))) [
          | inl e0 ↦ absurd (ground arith)
          | inr (before, e0) ↦
              delete_found-Extends e law dmmf now base ctx m logged_model before tx r after
                (ground arith)
        ]

    create_each-Extends :
        (ds : List Data) (tx : Tables) (n : ℕ) (after : Tables)
        → create_each e dmmf now base ctx m ds tx ≡ ok (n, after)
        → Extends tx after
    unfolding create_each
    create_each-Extends ds tx n after h =
        let (policed, h1, e1) = >>=-eq-ok (police_all e dmmf now base ctx m ds) _ h in
        let (made, h2, e2) = >>=-eq-ok (e.create_rows m policed tx) _ e1 in
        let (final, h3, e3) = >>=-eq-ok (audit_made e dmmf now base ctx m made.0 made.1) _ e2 in
        let same : final ≡ after = cc e3 in
        subst (Extends tx) same (
          Extends-trans
            (same_log tx made.1 (law.creates_audits m policed tx made.1 made.0 logged_model h2))
            (made-Extends e law dmmf now base ctx m logged_model made.0 made.1 final h3))

    delete_each-Extends :
        (w : Where) (tx : Tables) (n : ℕ) (after : Tables)
        → delete_each e dmmf now base ctx m w tx ≡ ok (n, after)
        → Extends tx after
    unfolding delete_each
    delete_each-Extends w tx n after h =
        let targets : List Row =
          all_matching e base m
            (both (and_where (some w) (tenant_where base ctx m)) (not_deleted Where.anything)) in
        let (final, h1, e1) = >>=-eq-ok (delete_all e dmmf now base ctx m targets tx) _ h in
        let same : final ≡ after = cc e1 in
        subst (Extends tx) same
          (delete_all-Extends e law dmmf now base ctx m logged_model targets tx final h1)

    update_each-Extends :
        (w : Where) (d : Data) (tx : Tables) (n : ℕ) (after : Tables)
        → update_each e dmmf now base ctx m w d tx ≡ ok (n, after)
        → Extends tx after
    unfolding update_each
    update_each-Extends w d tx n after h =
        let targets : List Row =
          all_matching e base m (and_where (some w) (tenant_where base ctx m)) in
        let (final, h1, e1) = >>=-eq-ok (update_all e dmmf now base ctx m d targets tx) _ h in
        let same : final ≡ after = cc e1 in
        subst (Extends tx) same
          (update_all-Extends e law dmmf now base ctx m logged_model d targets tx final h1)

    answered :
        {a answer : Answer} {t u after : Tables}
        → ◌≡◌ {A = Result (Answer × Tables)} (ok (a, u)) (ok (answer, after))
        → Extends t u
        → Extends t after
    answered {t = t} h x = subst (Extends t) (cc h) x

    run_mutation-Extends :
        (op : Operation) (tx : Tables) (answer : Answer) (after : Tables)
        → run_mutation e dmmf now base ctx m op tx ≡ ok (answer, after)
        → Extends tx after
    unfolding run_mutation
    run_mutation-Extends (Operation.create d) tx answer after h =
        let (r, h1, e1) = >>=-eq-ok (create_one e dmmf now base ctx m d tx) _ h in
        answered e1 (create_one-Extends e law dmmf now base ctx m logged_model d tx r.0 r.1 h1)
    run_mutation-Extends (Operation.create_many ds) tx answer after h =
        let (r, h1, e1) = >>=-eq-ok (create_each e dmmf now base ctx m ds tx) _ h in
        answered e1 (create_each-Extends ds tx r.0 r.1 h1)
    run_mutation-Extends (Operation.upsert w changes made) tx answer after h =
        let (r, h1, e1) = >>=-eq-ok (upsert_one e dmmf now base ctx m w changes made tx) _ h in
        answered e1 (upsert_one-Extends w changes made tx r.0 r.1 h1)
    run_mutation-Extends (Operation.delete w) tx answer after h =
        let (r, h1, e1) = >>=-eq-ok (delete_one e dmmf now base ctx m w tx) _ h in
        answered e1 (delete_one-Extends w tx r.0 r.1 h1)
    run_mutation-Extends (Operation.delete_many w) tx answer after h =
        let (r, h1, e1) = >>=-eq-ok (delete_each e dmmf now base ctx m w tx) _ h in
        answered e1 (delete_each-Extends w tx r.0 r.1 h1)
    run_mutation-Extends (Operation.update w d) tx answer after h =
        let (r, h1, e1) = >>=-eq-ok (update_one e dmmf now base ctx m w d tx) _ h in
        answered e1 (update_one-Extends w d tx r.0 r.1 h1)
    run_mutation-Extends (Operation.update_many w d) tx answer after h =
        let (r, h1, e1) = >>=-eq-ok (update_each e dmmf now base ctx m w d tx) _ h in
        answered e1 (update_each-Extends w d tx r.0 r.1 h1)
    run_mutation-Extends (Operation.create_many_and_return ds) tx answer after h = absurd (cc h)
    run_mutation-Extends (Operation.read deleted a) tx answer after h = absurd (cc h)
    run_mutation-Extends (Operation.update_many_and_return deleted w d) tx answer after h =
        absurd (cc h)

    mapped-Extends :
        (op : Operation) (tx : Tables) (answer : Answer) (after : Tables)
        → is_unlisted op ≡ false
        → mapped_scope e dmmf now base ctx m op tx ≡ ok (answer, after)
        → Extends tx after
    unfolding mapped_scope
    mapped-Extends (Operation.read deleted a) tx answer after listed h =
        same-Extends tx after (cc h)
    mapped-Extends (Operation.update_many_and_return deleted w d) tx answer after listed h =
        absurd (cc listed)
    mapped-Extends op tx answer after listed h = run_mutation-Extends op tx answer after h

  free-Extends :
      (d : Data) (tx : Tables) (answer : Answer) (after : Tables)
      → create_freely e dmmf now base Model.audit_log d tx ≡ ok (answer, after)
      → Extends tx after
  unfolding create_freely
  free-Extends d tx answer after h =
      let (made, h1, e1) = >>=-eq-ok (e.create_row Model.audit_log d tx) _ h in
      let (a, adds) = law.free_audit d tx made.1 made.0 h1 in
      let same : made.1 ≡ after = cc e1 in
      subst (Extends tx) same (record { more = (a ∷ [], adds) })

  free_many-Extends :
      (ds : List Data) (tx : Tables) (made : List Row × Tables)
      → e.create_rows Model.audit_log ds tx ≡ ok made
      → Extends tx made.1
  free_many-Extends ds tx made h = record { more = law.free_audits ds tx made.1 made.0 h }

  audit_log-Extends :
      (ctx : Context) (op : Operation) (tx : Tables) (answer : Answer) (after : Tables)
      → is_unlisted op ≡ false
      → audit_log_scope e dmmf now base ctx op tx ≡ ok (answer, after)
      → Extends tx after
  unfolding audit_log_scope
  audit_log-Extends ctx (Operation.read deleted a) tx answer after listed h =
      same-Extends tx after (cc h)
  audit_log-Extends ctx (Operation.create d) tx answer after listed h =
      free-Extends d tx answer after h
  audit_log-Extends ctx (Operation.create_many ds) tx answer after listed h =
      let (made, h1, e1) = >>=-eq-ok (e.create_rows Model.audit_log ds tx) _ h in
      let same : made.1 ≡ after = cc e1 in subst (Extends tx) same (free_many-Extends ds tx made h1)
  audit_log-Extends ctx (Operation.create_many_and_return ds) tx answer after listed h =
      let (made, h1, e1) = >>=-eq-ok (e.create_rows Model.audit_log ds tx) _ h in
      let same : made.1 ≡ after = cc e1 in subst (Extends tx) same (free_many-Extends ds tx made h1)
  audit_log-Extends ctx (Operation.update_many_and_return deleted w d) tx answer after listed h =
      absurd (cc listed)
  audit_log-Extends ctx op tx answer after listed h = absurd (cc h)

  platform-Extends :
      (m : Model) (op : Operation) (tx : Tables) (answer : Answer) (after : Tables)
      → is_unlisted op ≡ false
      → platform_scope e dmmf now base m op tx ≡ ok (answer, after)
      → Extends tx after
  unfolding platform_scope
  platform-Extends m (Operation.read deleted a) tx answer after listed h =
      same-Extends tx after (cc h)
  platform-Extends Model.audit_log (Operation.create d) tx answer after listed h =
      free-Extends d tx answer after h
  platform-Extends m (Operation.create d) tx answer after listed h = absurd (cc h)
  platform-Extends m (Operation.update_many_and_return deleted w d) tx answer after listed h =
      absurd (cc listed)
  platform-Extends m op tx answer after listed h = absurd (cc h)

  tenant-Extends :
      (ctx : Context) (m : Model) (op : Operation) (tx : Tables) (answer : Answer) (after : Tables)
      → is_unlisted op ≡ false
      → tenant_scope e dmmf now base ctx m op tx ≡ ok (answer, after)
      → Extends tx after
  unfolding tenant_scope
  tenant-Extends ctx m op tx answer after listed h = elim (Bool-cases (is_audit_log m)) [
    | inl log ↦ audit_log-Extends ctx op tx answer after listed (ground arith)
    | inr other ↦ mapped-Extends ctx m other op tx answer after listed (ground arith)
  ]

  pub all_operations-Extends :
      (ctx : Option Context) (m : Model) (op : Operation) (tx : Option Tables) (answer : Answer)
      (after : Tables)
      → is_unlisted op ≡ false
      → all_operations e dmmf now base ctx m op tx ≡ ok (answer, after)
      → Extends (runner base tx) after
  unfolding all_operations
  all_operations-Extends none m op tx answer after listed h = absurd (cc h)
  all_operations-Extends (some ctx) m op tx answer after listed h = go ctx.scope refl
    where
      go : (s : Option RequestScope) → ctx.scope ≡ s → Extends (runner base tx) after
      go none es = absurd (ground arith)
      go (some RequestScope.platform) es =
          platform-Extends m op (runner base tx) answer after listed (ground arith)
      go (some RequestScope.tenant) es =
          tenant-Extends ctx m op (runner base tx) answer after listed (ground arith)

module _ (e : Engine) (dmmf : Dmmf) where
  -- Requests that are carried out one after the other, of any contexts, at any times.
  pub data Served (t : Tables) : Tables → Type 0 where
    start : Served t t
    request :
        {u v : Tables} (now : ℕ) (ctx : Option Context) (m : Model) (op : Operation)
        (answer : Answer)
        → Served t u
        → all_operations e dmmf now u ctx m op none ≡ ok (answer, v)
        → Served t v

  -- None of them is an `updateManyAndReturn`.
  unfoldable pub AllListed : {t u : Tables} → Served t u → Type 0
  AllListed start = Unit
  AllListed (request now ctx m op answer earlier h) = (is_unlisted op ≡ false) × AllListed earlier

  -- Whatever requests of whatever scope are served, none of them an `updateManyAndReturn`, the audit log
  -- that was there is still there, below what they added: no request changes or removes an audit row.
  pub Served-Extends :
      (law : Obeys e) {t u : Tables} (served : Served t u) → AllListed served → Extends t u
  unfolding AllListed
  Served-Extends law {t} start listed = same-Extends t t refl
  Served-Extends law (request now ctx m op answer earlier h) (one, listed) =
      Extends-trans (Served-Extends law earlier listed)
        (all_operations-Extends e law dmmf now _ ctx m op none answer _ one h)
