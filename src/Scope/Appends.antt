-- ===== src/Scope/Appends.antt =====
-- The audit log over the requests that the scoped client of src/prisma/scoped-prisma.ts carries out,
-- nested writes included.
use sentry_pos_be.Common.{
  ℕ, ◌≡◌, refl, sym, false, Option, none, some, List, [], ◌∷◌, ◌++◌, arith, ok, >>=-eq-ok,
}
use mathlib.Core.Path.{subst}
use mathlib.Core.List.{append_assoc}
use sentry_pos_be.Scope.{Model, Dmmf, is_audit_log}
use sentry_pos_be.Scope.Query.{Row, Context, AuditAction, Audit, Tables, Data}
use sentry_pos_be.Scope.Police.{police_create_data}
use sentry_pos_be.Scope.Nested.{TouchKind, Touched, stamp, rewrite_nested, touched_by}
use sentry_pos_be.Scope.Engine.{Engine, Obeys}
use sentry_pos_be.Scope.Audit.{
  captured, captured, Captured, first, all_matching, audit_entry, write_audit, audit_gone,
  audit_touched, audit_nested,
}
use sentry_pos_be.Scope.Mutate.{
  create_one, audit_made, update_found, delete_found, delete_all, update_plainly, update_all,
}

-- The audit log of `t` with more rows.
pub record Extends (t after : Tables) : Type 0 where
  pub more : (new : List Audit) × (after.audits ≡ new ++ t.audits)

pub same-Extends : (t u : Tables) → t ≡ u → Extends t u
same-Extends t u h = subst (Extends t) h (record { more = ([], refl) })

pub same_log : (t u : Tables) → u.audits ≡ t.audits → Extends t u
same_log t u h = record { more = ([], h) }

pub Extends-trans : {t u v : Tables} → Extends t u → Extends u v → Extends t v
Extends-trans {t} first second =
    let (new, e) = first.more in
    let (newer, e') = second.more in
    record { more = (newer ++ new, rw (e', e) (sym (append_assoc newer new t.audits))) }

module _ (e : Engine) (law : Obeys e) (base : Tables) (ctx : Context) where
  audit-Extends :
      (m : Model) (action : AuditAction) (before after : Option Row) (r : Row) (t u : Tables)
      → write_audit e base ctx m action before after r t ≡ ok u
      → Extends t u
  unfolding write_audit
  audit-Extends m action before after r t u h = record {
    more = (audit_entry base ctx m action before after r ∷ [], (law.audit_adds _ t u h).0);
  }

  gone-Extends :
      (m : Model) (rs : List Row) (t u : Tables) → audit_gone e base ctx m rs t ≡ ok u → Extends t u
  unfolding audit_gone
  gone-Extends m [] t u h = same-Extends t u (cc)
  gone-Extends m (r ∷ rs) t u h =
      let (mid, h1, e1) =
        >>=-eq-ok (write_audit e base ctx m AuditAction.deleted (some r) none r t) _ h in
      Extends-trans (audit-Extends m AuditAction.deleted (some r) none r t mid h1)
        (gone-Extends m rs mid u e1)

  touched-Extends :
      (seen : Captured) (x : Touched) (t u : Tables)
      → audit_touched e base ctx seen x t ≡ ok u
      → Extends t u
  unfolding audit_touched
  touched-Extends seen x t u h = go x.kind (first e t x.model x.where_) refl refl
    where
      go :
          (k : TouchKind) (o : Option Row)
          → x.kind ≡ k
          → first e t x.model x.where_ ≡ o
          → Extends t u
      go TouchKind.touch_create o ek eo = same-Extends t u (ground arith)
      go TouchKind.touch_update none ek eo = same-Extends t u (ground arith)
      go TouchKind.touch_delete none ek eo = same-Extends t u (ground arith)
      go TouchKind.touch_update (some r) ek eo =
          audit-Extends x.model AuditAction.updated (captured seen x.model r.id) (some r) r t u
            (ground arith)
      go TouchKind.touch_delete (some r) ek eo =
          let before : Row = elim (captured seen x.model r.id) [ none ↦ r | some b ↦ b ] in
          audit-Extends x.model AuditAction.deleted (some before) none r t u (ground arith)
      go TouchKind.touch_delete_many o ek eo =
          gone-Extends x.model (all_matching e t x.model x.where_) t u (ground arith)

  nested-Extends :
      (seen : Captured) (xs : List Touched) (t u : Tables)
      → audit_nested e base ctx seen xs t ≡ ok u
      → Extends t u
  unfolding audit_nested
  nested-Extends seen [] t u h = same-Extends t u (cc)
  nested-Extends seen (x ∷ xs) t u h =
      let (mid, h1, e1) = >>=-eq-ok (audit_touched e base ctx seen x t) _ h in
      Extends-trans (touched-Extends seen x t mid h1) (nested-Extends seen xs mid u e1)

module _ (e : Engine) (law : Obeys e) (dmmf : Dmmf) (now : ℕ) (base : Tables) (ctx : Context)
    (m : Model) (logged_model : is_audit_log m ≡ false) where
  -- One write on another table, and its audit row.
  logs :
      (action : AuditAction) (before after : Option Row) (r : Row) (t u v : Tables)
      → u.audits ≡ t.audits
      → write_audit e base ctx m action before after r u ≡ ok v
      → Extends t v
  logs action before after r t u v same h =
      Extends-trans (same_log t u same) (audit-Extends e law base ctx m action before after r u v h)

  pub update_found-Extends :
      (seen : Captured) (before : Row) (d : Data) (tx : Tables) (r : Row) (after : Tables)
      → update_found e dmmf now base ctx m seen before d tx ≡ ok (r, after)
      → Extends tx after
  unfolding update_found
  update_found-Extends seen before d tx r after h =
      let rewritten : Data = rewrite_nested dmmf now m d in
      let (done, h1, e1) = >>=-eq-ok (e.update_row m before.id rewritten tx) _ h in
      let (logged, h2, e2) =
        >>=-eq-ok
          (write_audit e base ctx m AuditAction.updated (some before) (some done.0) done.0 done.1) _
          e1 in
      let (final, h3, e3) =
        >>=-eq-ok (audit_nested e base ctx seen (touched_by dmmf m d) logged) _ e2 in
      let same : final ≡ after = cc e3 in
      subst (Extends tx) same (
        Extends-trans
          (logs AuditAction.updated (some before) (some done.0) done.0 tx done.1 logged
            (law.update_audits m before.id rewritten tx done.1 done.0 logged_model h1) h2)
          (nested-Extends e law base ctx seen (touched_by dmmf m d) logged final h3))

  pub create_one-Extends :
      (d : Data) (tx : Tables) (r : Row) (after : Tables)
      → create_one e dmmf now base ctx m d tx ≡ ok (r, after)
      → Extends tx after
  unfolding create_one
  create_one-Extends d tx r after h =
      let (policed, h0, e0) = >>=-eq-ok (police_create_data dmmf base ctx m d) _ h in
      let rewritten : Data = rewrite_nested dmmf now m policed in
      let (made, h1, e1) = >>=-eq-ok (e.create_row m rewritten tx) _ e0 in
      let (logged, h2, e2) =
        >>=-eq-ok (write_audit e base ctx m AuditAction.created none (some made.0) made.0 made.1) _
          e1 in
      let (final, h3, e3) =
        >>=-eq-ok (audit_nested e base ctx [] (touched_by dmmf m policed) logged) _ e2 in
      let same : final ≡ after = cc e3 in
      subst (Extends tx) same (
        Extends-trans
          (logs AuditAction.created none (some made.0) made.0 tx made.1 logged
            (law.create_audits m rewritten tx made.1 made.0 logged_model h1) h2)
          (nested-Extends e law base ctx [] (touched_by dmmf m policed) logged final h3))

  pub delete_found-Extends :
      (before : Row) (tx : Tables) (r : Row) (after : Tables)
      → delete_found e dmmf now base ctx m before tx ≡ ok (r, after)
      → Extends tx after
  unfolding delete_found
  delete_found-Extends before tx r after h =
      let (done, h1, e1) = >>=-eq-ok (e.update_row m before.id (stamp now) tx) _ h in
      let (logged, h2, e2) =
        >>=-eq-ok (write_audit e base ctx m AuditAction.deleted (some before) none before done.1) _
          e1 in
      let same : logged ≡ after = cc e2 in
      subst (Extends tx) same (
        logs AuditAction.deleted (some before) none before tx done.1 logged
          (law.update_audits m before.id (stamp now) tx done.1 done.0 logged_model h1) h2)

  pub delete_all-Extends :
      (rs : List Row) (tx after : Tables)
      → delete_all e dmmf now base ctx m rs tx ≡ ok after
      → Extends tx after
  unfolding delete_all
  delete_all-Extends [] tx after h = same-Extends tx after (cc)
  delete_all-Extends (r ∷ rs) tx after h =
      let (done, h1, e1) = >>=-eq-ok (delete_found e dmmf now base ctx m r tx) _ h in
      Extends-trans (delete_found-Extends r tx done.0 done.1 h1)
        (delete_all-Extends rs done.1 after e1)

  pub update_all-Extends :
      (d : Data) (rs : List Row) (tx after : Tables)
      → update_all e dmmf now base ctx m d rs tx ≡ ok after
      → Extends tx after
  unfolding update_all update_plainly
  update_all-Extends d [] tx after h = same-Extends tx after (cc)
  update_all-Extends d (r ∷ rs) tx after h =
      let (mid, h1, e1) = >>=-eq-ok (update_plainly e dmmf now base ctx m d r tx) _ h in
      let (done, h2, e2) = >>=-eq-ok (e.update_row m r.id d tx) _ h1 in
      Extends-trans
        (logs AuditAction.updated (some r) (some done.0) done.0 tx done.1 mid
          (law.update_audits m r.id d tx done.1 done.0 logged_model h2) e2)
        (update_all-Extends d rs mid after e1)

  pub made-Extends :
      (rs : List Row) (t after : Tables)
      → audit_made e dmmf now base ctx m rs t ≡ ok after
      → Extends t after
  unfolding audit_made
  made-Extends [] t after h = same-Extends t after (cc)
  made-Extends (r ∷ rs) t after h =
      let (mid, h1, e1) =
        >>=-eq-ok (write_audit e base ctx m AuditAction.created_many none (some r) r t) _ h in
      Extends-trans
        (audit-Extends e law base ctx m AuditAction.created_many none (some r) r t mid h1)
        (made-Extends rs mid after e1)
