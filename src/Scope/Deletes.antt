-- ===== src/Scope/Deletes.antt =====
-- Updates and deletes of src/prisma/scoped-prisma.ts that find no row, and what a delete does.
use sentry_pos_be.Common.{
  ℕ, ◌≡◌, refl, ◌∙◌, ap, sym, Bool, true, false, none, some, List, [], ◌∷◌, ◌==◌, ◌&&◌,
  if◌then◌else◌, arith, Result, err, ok, >>=-eq-ok, Option-cases, Bool-cases, inl, inr, Error, find,
  any,
}
use sentry_pos_be.Scope.{Model, ScopeColumn, Dmmf, tenant_direct, is_audit_log, deleted_at_column}
use sentry_pos_be.Scope.Query.{
  Audit, Wheres, meets, Row, Context, Tables, Where, matches, AuditAction, Data,
}
use sentry_pos_be.Scope.Filter.{both, find_row, is_live, tenant_where, not_deleted}
use sentry_pos_be.Scope.Visible.{any_congr, matches-both, is_visible}
use sentry_pos_be.Scope.Reads.{IsFresh, matches-column_where}
use sentry_pos_be.Scope.Work.{row_of}
use sentry_pos_be.Scope.Nested.{stamp}
use sentry_pos_be.Scope.Engine.{Engine, Obeys}
use sentry_pos_be.Scope.Audit.{audit_entry, first, write_audit}
use sentry_pos_be.Scope.Mutate.{update_one, live_target, delete_found, delete_one}

any-find : (p : Row → Bool) (rows : List Row) → any p rows ≡ false → find p rows ≡ none
any-find p [] h = refl
any-find p (x ∷ rows) h = ground (arith, any-find p rows)

any_and :
    (p q : Row → Bool) (rows : List Row) → any p rows ≡ false → any (λ x. p x && q x) rows ≡ false
any_and p q [] h = refl
any_and p q (x ∷ rows) h = ground (arith, any_and p q rows)

all_three :
    (e : Engine) (x : Row) (a b : Where)
    → matches e.judge x (
        Where.all_of
          (Wheres.with_one a
            (Wheres.with_one b (Wheres.with_one (not_deleted Where.anything) Wheres.no_more)))
          Where.anything)
      ≡ ((matches e.judge x a && matches e.judge x b) && is_live x)
unfolding matches meets
all_three e x a b = ground arith

module _ (e : Engine) (dmmf : Dmmf) (now : ℕ) (base : Tables) (ctx : Context) (o : ℕ)
    (fresh : IsFresh ctx o) (m : Model) (c : ScopeColumn) (mapped : tenant_direct m ≡ some c)
    (plain : is_audit_log m ≡ false) (w : Where) (tx : Tables) where
  in_scope :
      (x : Row) → matches e.judge x (tenant_where base ctx m) ≡ is_visible base o ctx (some c) x
  unfolding tenant_where
  in_scope x = rw (plain, mapped) (matches-column_where e.judge base ctx o fresh x c)

  both_visible :
      (x : Row)
      → matches e.judge x (both w (tenant_where base ctx m))
        ≡ (matches e.judge x w && is_visible base o ctx (some c) x)
  both_visible x = rw (matches-both e.judge x w _, in_scope x)

  live_target_visible :
      (x : Row)
      → matches e.judge x (live_target e dmmf now base ctx m w)
        ≡ ((matches e.judge x w && is_visible base o ctx (some c) x) && is_live x)
  unfolding live_target
  live_target_visible x =
      all_three e x w (tenant_where base ctx m)
      ∙ ap (λ (v : Bool). (matches e.judge x w && v) && is_live x) (in_scope x)

  -- Where no row that the owner may see meets the caller's filter, an update and a delete are refused
  -- as if there were none.
  pub unseen_refused :
      any (λ x. matches e.judge x w && is_visible base o ctx (some c) x) (base.rows m) ≡ false
      → (d : Data)
      → (update_one e dmmf now base ctx m w d tx ≡ err Error.out_of_scope)
        × (delete_one e dmmf now base ctx m w tx ≡ err Error.out_of_scope)
  unfolding update_one delete_one
  unseen_refused none_seen d =
      let no_target : first e base m (both w (tenant_where base ctx m)) ≡ none =
        any-find _ (base.rows m) (any_congr _ _ (base.rows m) both_visible ∙ none_seen) in
      let no_live_target : first e base m (live_target e dmmf now base ctx m w) ≡ none =
        any-find _ (base.rows m) (
          any_congr _ _ (base.rows m) live_target_visible
          ∙ any_and _ is_live (base.rows m) none_seen) in
      (ground arith, ground arith)

-- The row is still there, with deletedAt set and nothing else changed, and the audit log has one row
-- more, which holds what was deleted.
abbrev pub IsSoftDeleted : Model → ℕ → Tables → Row → Tables → Row → Type 0
IsSoftDeleted m now tx r after before =
    (find_row before.id (after.rows m) ≡ some r)
    × ((old : Row) × (find_row before.id (tx.rows m) ≡ some old)
        × ((k : ℕ) → r.columns k ≡ (if deleted_at_column == k then some now else old.columns k)))
    × ((a : Audit) × (after.audits ≡ a ∷ tx.audits) × (a.before ≡ some before))

find_passes : (p : Row → Bool) (rows : List Row) (x : Row) → find p rows ≡ some x → p x ≡ true
find_passes p [] x h = absurd (cc h)
find_passes p (y ∷ rows) x h = elim (Bool-cases (p y)) [
  | inl e ↦ let same : y ≡ x = ground arith in rw (← same) e
  | inr e ↦ find_passes p rows x (rw e at h)
]

tables_of :
    {x r : Row} {u v : Tables} → ◌≡◌ {A = Result (Row × Tables)} (ok (x, u)) (ok (r, v)) → u ≡ v
tables_of h = cc h

module _ (e : Engine) (law : Obeys e) (dmmf : Dmmf) (now : ℕ) (base : Tables) (ctx : Context)
    (m : Model) (tx : Tables) (r : Row) (after : Tables) where
  softened :
      (before old : Row) (a : Audit) (row : Row) (u v : Tables)
      → row ≡ r
      → v ≡ after
      → find_row before.id (u.rows m) ≡ some row
      → find_row before.id (tx.rows m) ≡ some old
      → ((k : ℕ) → row.columns k ≡ (if deleted_at_column == k then some now else old.columns k))
      → u.audits ≡ tx.audits
      → v.audits ≡ a ∷ u.audits
      → v.rows ≡ u.rows
      → a.before ≡ some before
      → IsSoftDeleted m now tx r after before
  softened before old a row u v same_row same_tables stored was set kept adds rows held =
      (cc, (old, was, λ k. rw (← same_row) (set k)), (a, cc, held))

  delete_found_lem :
      (plain : is_audit_log m ≡ false) (before : Row)
      → delete_found e dmmf now base ctx m before tx ≡ ok (r, after)
      → IsSoftDeleted m now tx r after before
  unfolding delete_found write_audit audit_entry
  delete_found_lem plain before h =
      let (done, h1, e1) = >>=-eq-ok (e.update_row m before.id (stamp now) tx) _ h in
      let entry = audit_entry base ctx m AuditAction.deleted (some before) none before in
      let (logged, h2, e2) = >>=-eq-ok (e.insert_audit entry done.1) _ e1 in
      let (id, stored, (old, was, set)) =
        law.update_sets m before.id (stamp now) tx done.1 done.0 (refl, tt) h1 in
      let (adds, same_rows) = law.audit_adds entry done.1 logged h2 in
      let kept = law.update_audits m before.id (stamp now) tx done.1 done.0 plain h1 in
      softened before old entry done.0 done.1 logged (row_of e2) (tables_of e2) stored was set kept
        adds same_rows refl

module _ (e : Engine) (law : Obeys e) (dmmf : Dmmf) (now : ℕ) (base : Tables) (ctx : Context)
    (o : ℕ) (fresh : IsFresh ctx o) (m : Model) (c : ScopeColumn)
    (mapped : tenant_direct m ≡ some c) (plain : is_audit_log m ≡ false) (w : Where) (tx : Tables)
    (r : Row) (after : Tables) where
  -- A delete that goes through marks a live row that meets the caller's filter and that the owner may
  -- see: the row is still there, deletedAt is the present time and nothing else of it has changed, and
  -- the audit log has one row more, which holds what the row was before.
  pub delete_one_lem :
      delete_one e dmmf now base ctx m w tx ≡ ok (r, after)
      → (before : Row) × (((matches e.judge before w && is_visible base o ctx (some c) before)
            && is_live before)
          ≡ true)
        × IsSoftDeleted m now tx r after before
  unfolding delete_one
  delete_one_lem h = elim (Option-cases (first e base m (live_target e dmmf now base ctx m w))) [
    | inl e0 ↦ absurd (ground arith)
    | inr (before, e0) ↦ (
      before,
      sym (live_target_visible e dmmf now base ctx o fresh m c mapped plain w tx before)
          ∙ find_passes _ (base.rows m) before e0,
      delete_found_lem e law dmmf now base ctx m tx r after plain before (ground arith),
    )
  ]
