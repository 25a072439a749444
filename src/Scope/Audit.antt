-- ===== src/Scope/Audit.antt =====
-- What `runMutation` of src/prisma/scoped-prisma.ts reads and writes for the audit log: `stampScope`,
-- `writeAudit`, `captureNestedBefore` and `auditNested`.
use sentry_pos_be.Common.{
  ℕ, Bool, true, false, Option, none, some, List, [], ◌∷◌, ◌++◌, ◌==◌, if◌then◌else◌, find, keep,
  Result, ok, ◌>>=◌,
}
use sentry_pos_be.Scope.{Model, same_model, business_id_column, branch_id_column, Dmmf, relation_of}
use sentry_pos_be.Scope.Query.{
  Where, Data, Writes, Changes, Row, matches, ActorType, Context, AuditAction, Audit, Tables,
}
use sentry_pos_be.Scope.Filter.{branch_to_business}
use sentry_pos_be.Scope.Police.{and_then}
use sentry_pos_be.Scope.Nested.{TouchKind, Touched}
use sentry_pos_be.Scope.Engine.{Engine}

abbrev pub or_other : Option ℕ → Option ℕ → Option ℕ
or_other none b = b
or_other (some a) b = some a

abbrev pub actor_type_for : Context → ActorType
actor_type_for ctx = elim ctx.actor [
  | some (ActorType.terminal_actor, _) ↦ ActorType.terminal_actor
  | some (ActorType.platform_admin_actor, _) ↦ ActorType.platform_admin_actor
  | some (ActorType.owner_actor, _) ↦ ActorType.owner_actor
  | none ↦ ActorType.owner_actor
]

abbrev pub acting_id : Context → Option ℕ
acting_id ctx = elim ctx.actor [ some (_, k) ↦ some k | none ↦ none ]

abbrev pub is_business : Model → Bool
is_business Model.business = true
is_business _ = false

module _ (base : Tables) (ctx : Context) where
  -- `stampScope`: the entity's own columns, the context's where it has none.
  unfoldable pub stamp_scope : Model → Row → Option ℕ × Option ℕ
  unfolding branch_to_business
  stamp_scope m entity =
      let named = or_other (entity.columns business_id_column) ctx.business_id in
      let branch = or_other (entity.columns branch_id_column) ctx.branch_id in
      let business = if is_business m then some entity.id else named in
      let resolved = and_then branch (branch_to_business base ctx) in
      (or_other business resolved, branch)

  -- The row that `writeAudit` inserts.
  unfoldable pub audit_entry : Model → AuditAction → Option Row → Option Row → Row → Audit
  unfolding stamp_scope
  audit_entry m action before after entity =
      let scope = stamp_scope m entity in
      record {
        actor_type = actor_type_for ctx;
        actor_id = acting_id ctx;
        owner_id = ctx.owner_id;
        business_id = scope.0;
        branch_id = scope.1;
        entity = m;
        action = action;
        entity_id = entity.id;
        before = before;
        after = after;
      }

-- What `captureNestedBefore` has read: rows by model.
abbrev pub Captured : Type 0
Captured = List (Model × Row)

abbrev pub captured : Captured → Model → ℕ → Option Row
captured [] m k = none
captured ((n, r) ∷ rest) m k =
    if same_model n m then (if r.id == k then some r else captured rest m k) else captured rest m k

module _ (e : Engine) where
  abbrev pub first : Tables → Model → Where → Option Row
  first t m w = find (λ r. matches e.judge r w) (t.rows m)

  abbrev pub all_matching : Tables → Model → Where → List Row
  all_matching t m w = keep (λ r. matches e.judge r w) (t.rows m)

module _ (e : Engine) (base : Tables) where
  unfoldable pub capture_deletes : Model → List Where → Captured
  capture_deletes m [] = []
  capture_deletes m (w ∷ ws) = elim (first e base m w) [
    | none ↦ capture_deletes m ws
    | some r ↦ (m, r) ∷ capture_deletes m ws
  ]

  unfoldable pub capture_updates : Model → Changes → Captured
  capture_updates m Changes.no_changes = []
  capture_updates m (Changes.changing w d cs) = elim (first e base m w) [
    | none ↦ capture_updates m cs
    | some r ↦ (m, r) ∷ capture_updates m cs
  ]

  unfoldable pub capture_writes : Model → Writes → Captured
  unfolding capture_updates capture_deletes
  capture_writes m (Writes.writes made connected updated deleted many gone) =
      capture_updates m updated ++ capture_deletes m deleted

module _ (e : Engine) (dmmf : Dmmf) (base : Tables) where
  -- `captureNestedBefore`.
  unfoldable pub capture_nested_before : Model → Data → Captured
  unfolding relation_of capture_writes
  capture_nested_before m Data.end = []
  capture_nested_before m (Data.value c v d) = capture_nested_before m d
  capture_nested_before m (Data.nested key w d) = elim (relation_of dmmf m key) [
    | none ↦ capture_nested_before m d
    | some f ↦ capture_writes e base f.target w ++ capture_nested_before m d
  ]

module _ (e : Engine) (base : Tables) (ctx : Context) where
  -- `writeAudit`.
  unfoldable pub write_audit :
      Model → AuditAction → Option Row → Option Row → Row → Tables → Result Tables
  unfolding audit_entry
  write_audit m action before after entity t =
      e.insert_audit (audit_entry base ctx m action before after entity) t

  unfoldable pub audit_gone : Model → List Row → Tables → Result Tables
  unfolding write_audit
  audit_gone m [] t = ok t
  audit_gone m (r ∷ rs) t = write_audit m AuditAction.deleted (some r) none r t >>= audit_gone m rs

  -- One round of `auditNested`.
  unfoldable pub audit_touched : Captured → Touched → Tables → Result Tables
  unfolding write_audit audit_gone
  audit_touched seen x t = elim x.kind [
    | TouchKind.touch_create ↦ ok t
    | TouchKind.touch_update ↦ elim (first e t x.model x.where_) [
      | none ↦ ok t
      | some r ↦ write_audit x.model AuditAction.updated (captured seen x.model r.id) (some r) r t
    ]
    | TouchKind.touch_delete ↦ elim (first e t x.model x.where_) [
      | none ↦ ok t
      | some r ↦
          let before : Row = elim (captured seen x.model r.id) [ none ↦ r | some b ↦ b ] in
          write_audit x.model AuditAction.deleted (some before) none r t
    ]
    | TouchKind.touch_delete_many ↦ audit_gone x.model (all_matching e t x.model x.where_) t
  ]

  -- `auditNested`.
  unfoldable pub audit_nested : Captured → List Touched → Tables → Result Tables
  unfolding audit_touched
  audit_nested seen [] t = ok t
  audit_nested seen (x ∷ xs) t = audit_touched seen x t >>= audit_nested seen xs
