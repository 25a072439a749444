-- ===== src/Scope/Effects.antt =====
-- The mutations of `runMutation` in src/prisma/scoped-prisma.ts, with data that has no nested writes.
use sentry_pos_be.Common.{
  ℕ, ◌≡◌, refl, ◌∙◌, true, false, Option, none, some, List, [], ◌∷◌, ◌==◌, length, All, arith, ok,
  >>=-eq-ok,
}
use mathlib.Core.Path.{subst}
use sentry_pos_be.Scope.{Model, Dmmf, is_audit_log}
use sentry_pos_be.Scope.Query.{Row, Context, AuditAction, Tables, Data}
use sentry_pos_be.Scope.Police.{police_create_data}
use sentry_pos_be.Scope.Nested.{stamp}
use sentry_pos_be.Scope.Engine.{Engine, Obeys, IsPlain}
use sentry_pos_be.Scope.Audit.{Captured, write_audit, audit_nested}
use sentry_pos_be.Scope.Mutate.{
  create_one, police_all, audit_made, update_found, delete_found, delete_all, update_plainly,
  update_all,
}
use sentry_pos_be.Scope.Plain.{rewrite_plain, touched_plain, police-IsPlain}
use sentry_pos_be.Scope.Work.{in_reach, IsWork, no-IsWork, more-IsWork, write_audit-IsWork}

module _ (e : Engine) (law : Obeys e) (dmmf : Dmmf) (now : ℕ) (base : Tables) (ctx : Context)
    (m : Model) (logged_model : is_audit_log m ≡ false) where
  abbrev Work : ℕ → Tables → Tables → Type 0
  Work = IsWork e base ctx m

  abbrev Reached : Row → Type 0
  Reached r = in_reach e base ctx m r.id ≡ true

  -- A row of the scope is written.
  update-IsWork :
      (r after : Row) (d : Data) (t t' : Tables)
      → Reached r
      → IsPlain d
      → e.update_row m r.id d t ≡ ok (after, t')
      → Work 0 t t'
  update-IsWork r after d t t' reached plain h = record {
    spared = λ other k x out found.
        law.update_elsewhere m r.id d t t' after plain h other k (ground (arith, ==_lem r.id k))
        ∙ found;
    logged = ([], law.update_audits m r.id d t t' after logged_model h, refl, tt);
  }
    where
      ==_lem : (a b : ℕ) → (a == b) ≡ true → a ≡ b
      ==_lem a b q = ground arith

  create-IsWork :
      (r : Row) (d : Data) (t t' : Tables)
      → IsPlain d
      → e.create_row m d t ≡ ok (r, t')
      → Work 0 t t'
  create-IsWork r d t t' plain h = record {
    spared = λ other k x out found. law.create_elsewhere m d t t' r plain h other k x found;
    logged = ([], law.create_audits m d t t' r logged_model h, refl, tt);
  }

  -- A write of one row, and its audit row.
  written :
      (action : AuditAction) (before after : Option Row) (r : Row) (t u v : Tables)
      → Work 0 t u
      → write_audit e base ctx m action before after r u ≡ ok v
      → Work 1 t v
  written action before after r t u v first h =
      more-IsWork e base ctx m first
        (write_audit-IsWork e base ctx m law action before after r u v h)

  pub update_found-IsWork :
      (seen : Captured) (before : Row) (d : Data) (tx : Tables) (r : Row) (after : Tables)
      → Reached before
      → IsPlain d
      → update_found e dmmf now base ctx m seen before d tx ≡ ok (r, after)
      → Work 1 tx after
  unfolding update_found audit_nested
  update_found-IsWork seen before d tx r after reached plain h =
      let h' = rw (rewrite_plain dmmf now m d plain, touched_plain dmmf m d plain) at h in
      let (done, h1, e1) = >>=-eq-ok (e.update_row m before.id d tx) _ h' in
      let (logged, h2, e2) =
        >>=-eq-ok
          (write_audit e base ctx m AuditAction.updated (some before) (some done.0) done.0 done.1) _
          e1 in
      let same : logged ≡ after = cc e2 in
      subst (Work 1 tx) same (
        written AuditAction.updated (some before) (some done.0) done.0 tx done.1 logged
          (update-IsWork before done.0 d tx done.1 reached plain h1) h2)

  pub create_one-IsWork :
      (d : Data) (tx : Tables) (r : Row) (after : Tables)
      → IsPlain d
      → create_one e dmmf now base ctx m d tx ≡ ok (r, after)
      → Work 1 tx after
  unfolding create_one audit_nested
  create_one-IsWork d tx r after plain h =
      let (policed, h0, e0) = >>=-eq-ok (police_create_data dmmf base ctx m d) _ h in
      let still = police-IsPlain dmmf base ctx m d policed plain h0 in
      let e0' =
        rw (rewrite_plain dmmf now m policed still, touched_plain dmmf m policed still) at e0 in
      let (made, h1, e1) = >>=-eq-ok (e.create_row m policed tx) _ e0' in
      let (logged, h2, e2) =
        >>=-eq-ok (write_audit e base ctx m AuditAction.created none (some made.0) made.0 made.1) _
          e1 in
      let same : logged ≡ after = cc e2 in
      subst (Work 1 tx) same (
        written AuditAction.created none (some made.0) made.0 tx made.1 logged
          (create-IsWork made.0 policed tx made.1 still h1) h2)

  pub delete_found-IsWork :
      (before : Row) (tx : Tables) (r : Row) (after : Tables)
      → Reached before
      → delete_found e dmmf now base ctx m before tx ≡ ok (r, after)
      → Work 1 tx after
  unfolding delete_found
  delete_found-IsWork before tx r after reached h =
      let (done, h1, e1) = >>=-eq-ok (e.update_row m before.id (stamp now) tx) _ h in
      let (logged, h2, e2) =
        >>=-eq-ok (write_audit e base ctx m AuditAction.deleted (some before) none before done.1) _
          e1 in
      let same : logged ≡ after = cc e2 in
      subst (Work 1 tx) same (
        written AuditAction.deleted (some before) none before tx done.1 logged
          (update-IsWork before done.0 (stamp now) tx done.1 reached (refl, tt) h1) h2)

  -- Loops over the rows that a filter within the scope has found.
  pub delete_all-IsWork :
      (rs : List Row) (tx after : Tables)
      → All Reached rs
      → delete_all e dmmf now base ctx m rs tx ≡ ok after
      → Work (length rs) tx after
  unfolding delete_all
  delete_all-IsWork [] tx after _ h =
      let same : tx ≡ after = cc in subst (Work 0 tx) same (no-IsWork e base ctx m tx)
  delete_all-IsWork (r ∷ rs) tx after (here, there) h =
      let (done, h1, e1) = >>=-eq-ok (delete_found e dmmf now base ctx m r tx) _ h in
      subst (λ n. Work n tx after) (omega arith)
        (more-IsWork e base ctx m (delete_found-IsWork r tx done.0 done.1 here h1)
          (delete_all-IsWork rs done.1 after there e1))

  update_plainly-IsWork :
      (d : Data) (before : Row) (tx after : Tables)
      → Reached before
      → IsPlain d
      → update_plainly e dmmf now base ctx m d before tx ≡ ok after
      → Work 1 tx after
  unfolding update_plainly
  update_plainly-IsWork d before tx after reached plain h =
      let (done, h1, e1) = >>=-eq-ok (e.update_row m before.id d tx) _ h in
      written AuditAction.updated (some before) (some done.0) done.0 tx done.1 after
        (update-IsWork before done.0 d tx done.1 reached plain h1) e1

  pub update_all-IsWork :
      (d : Data) (rs : List Row) (tx after : Tables)
      → IsPlain d
      → All Reached rs
      → update_all e dmmf now base ctx m d rs tx ≡ ok after
      → Work (length rs) tx after
  unfolding update_all
  update_all-IsWork d [] tx after plain _ h =
      let same : tx ≡ after = cc in subst (Work 0 tx) same (no-IsWork e base ctx m tx)
  update_all-IsWork d (r ∷ rs) tx after plain (here, there) h =
      let (mid, h1, e1) = >>=-eq-ok (update_plainly e dmmf now base ctx m d r tx) _ h in
      subst (λ n. Work n tx after) (omega arith)
        (more-IsWork e base ctx m (update_plainly-IsWork d r tx mid here plain h1)
          (update_all-IsWork d rs mid after plain there e1))

  pub audit_made-IsWork :
      (rs : List Row) (t after : Tables)
      → audit_made e dmmf now base ctx m rs t ≡ ok after
      → Work (length rs) t after
  unfolding audit_made
  audit_made-IsWork [] t after h =
      let same : t ≡ after = cc in subst (Work 0 t) same (no-IsWork e base ctx m t)
  audit_made-IsWork (r ∷ rs) t after h =
      let (mid, h1, e1) =
        >>=-eq-ok (write_audit e base ctx m AuditAction.created_many none (some r) r t) _ h in
      subst (λ n. Work n t after) (omega arith)
        (more-IsWork e base ctx m
          (write_audit-IsWork e base ctx m law AuditAction.created_many none (some r) r t mid h1)
          (audit_made-IsWork rs mid after e1))

  pub police_all-IsPlain :
      (ds out : List Data)
      → All IsPlain ds
      → police_all e dmmf now base ctx m ds ≡ ok out
      → All IsPlain out
  unfolding police_all
  police_all-IsPlain [] out _ h = let same : [] ≡ out = cc in subst (All IsPlain) same tt
  police_all-IsPlain (d ∷ ds) out (here, there) h =
      let (policed, h1, e1) = >>=-eq-ok (police_create_data dmmf base ctx m d) _ h in
      let (rest, h2, e2) = >>=-eq-ok (police_all e dmmf now base ctx m ds) _ e1 in
      let same : (policed ∷ rest) ≡ out = cc e2 in
      subst (All IsPlain) same
        (police-IsPlain dmmf base ctx m d policed here h1, police_all-IsPlain ds rest there h2)
