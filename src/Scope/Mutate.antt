-- ===== src/Scope/Mutate.antt =====
-- `runMutation` of src/prisma/scoped-prisma.ts with the audit rows that it writes. What the client
-- reads beforehand it reads from `base`, the committed tables; it writes on `tx`, the tables of the
-- registered transaction, or of a fresh one over `base`.
use sentry_pos_be.Common.{ℕ, none, some, List, [], ◌∷◌, length, Error, Result, err, ok, ◌>>=◌}
use sentry_pos_be.Scope.{Model, Dmmf}
use sentry_pos_be.Scope.Query.{Where, Wheres, Data, Row, Context, AuditAction, Tables, Operation}
use sentry_pos_be.Scope.Filter.{tenant_where, and_where, both, not_deleted}
use sentry_pos_be.Scope.Police.{police_create_data}
use sentry_pos_be.Scope.Nested.{stamp, rewrite_nested, touched_by}
use sentry_pos_be.Scope.Engine.{Engine}
use sentry_pos_be.Scope.Audit.{
  Captured, first, all_matching, capture_nested_before, write_audit, audit_nested,
}

pub data Answer : Type 0 where
  found : List Row → Answer
  one : Row → Answer
  count : ℕ → Answer

module _ (e : Engine) (dmmf : Dmmf) (now : ℕ) (base : Tables) (ctx : Context) where
  -- `create`, and the second branch of `upsert_one`.
  unfoldable pub create_one : Model → Data → Tables → Result (Row × Tables)
  unfolding police_create_data rewrite_nested touched_by write_audit audit_nested
  create_one m d tx = do
    policed ← police_create_data dmmf base ctx m d
    made ← e.create_row m (rewrite_nested dmmf now m policed) tx
    logged ← write_audit e base ctx m AuditAction.created none (some made.0) made.0 made.1
    final ← audit_nested e base ctx [] (touched_by dmmf m policed) logged
    ok (made.0, final)

  unfoldable pub police_all : Model → List Data → Result (List Data)
  unfolding police_create_data
  police_all m [] = ok []
  police_all m (d ∷ ds) = do
    policed ← police_create_data dmmf base ctx m d
    rest ← police_all m ds
    ok (policed ∷ rest)

  unfoldable pub audit_made : Model → List Row → Tables → Result Tables
  unfolding write_audit
  audit_made m [] t = ok t
  audit_made m (r ∷ rs) t =
      write_audit e base ctx m AuditAction.created_many none (some r) r t >>= audit_made m rs

  unfoldable pub create_each : Model → List Data → Tables → Result (ℕ × Tables)
  unfolding police_all audit_made
  create_each m ds tx = do
    policed ← police_all m ds
    made ← e.create_rows m policed tx
    final ← audit_made m made.0 made.1
    ok (length made.0, final)

  -- The writes of `update`, and of the first branch of `upsert_one`.
  unfoldable pub update_found : Model → Captured → Row → Data → Tables → Result (Row × Tables)
  unfolding rewrite_nested touched_by write_audit audit_nested
  update_found m seen before d tx = do
    done ← e.update_row m before.id (rewrite_nested dmmf now m d) tx
    logged ← write_audit e base ctx m AuditAction.updated (some before) (some done.0) done.0 done.1
    final ← audit_nested e base ctx seen (touched_by dmmf m d) logged
    ok (done.0, final)

  unfoldable pub update_one : Model → Where → Data → Tables → Result (Row × Tables)
  unfolding tenant_where capture_nested_before update_found
  update_one m w d tx = elim (first e base m (both w (tenant_where base ctx m))) [
    | none ↦ err Error.out_of_scope
    | some before ↦ update_found m (capture_nested_before e dmmf base m d) before d tx
  ]

  -- `{ AND: [where, scopeWhere, { deletedAt: null }] }`.
  unfoldable pub live_target : Model → Where → Where
  unfolding tenant_where
  live_target m w =
      Where.all_of
        (Wheres.with_one w (
          Wheres.with_one (tenant_where base ctx m)
            (Wheres.with_one (not_deleted Where.anything) Wheres.no_more)))
        Where.anything

  unfoldable pub upsert_one : Model → Where → Data → Data → Tables → Result (Row × Tables)
  unfolding live_target update_found create_one
  upsert_one m w changes made tx = elim (first e base m (live_target m w)) [
    | some existing ↦ update_found m [] existing changes tx
    | none ↦ create_one m made tx
  ]

  -- One soft delete with its audit row.
  unfoldable pub delete_found : Model → Row → Tables → Result (Row × Tables)
  unfolding write_audit
  delete_found m before tx = do
    done ← e.update_row m before.id (stamp now) tx
    final ← write_audit e base ctx m AuditAction.deleted (some before) none before done.1
    ok (done.0, final)

  unfoldable pub delete_one : Model → Where → Tables → Result (Row × Tables)
  unfolding live_target delete_found
  delete_one m w tx = elim (first e base m (live_target m w)) [
    | none ↦ err Error.out_of_scope
    | some before ↦ delete_found m before tx
  ]

  unfoldable pub delete_all : Model → List Row → Tables → Result Tables
  unfolding delete_found
  delete_all m [] tx = ok tx
  delete_all m (r ∷ rs) tx = delete_found m r tx >>= λ done. delete_all m rs done.1

  unfoldable pub delete_each : Model → Where → Tables → Result (ℕ × Tables)
  unfolding and_where tenant_where delete_all
  delete_each m w tx =
      let targets =
        all_matching e base m
          (both (and_where (some w) (tenant_where base ctx m)) (not_deleted Where.anything)) in
      do final ← delete_all m targets tx; ok (length targets, final)

  -- One round of `updateMany`, whose data is passed on as it is.
  unfoldable pub update_plainly : Model → Data → Row → Tables → Result Tables
  unfolding write_audit
  update_plainly m d before tx = do
    done ← e.update_row m before.id d tx
    write_audit e base ctx m AuditAction.updated (some before) (some done.0) done.0 done.1

  unfoldable pub update_all : Model → Data → List Row → Tables → Result Tables
  unfolding update_plainly
  update_all m d [] tx = ok tx
  update_all m d (r ∷ rs) tx = update_plainly m d r tx >>= update_all m d rs

  unfoldable pub update_each : Model → Where → Data → Tables → Result (ℕ × Tables)
  unfolding and_where tenant_where update_all
  update_each m w d tx =
      let targets = all_matching e base m (and_where (some w) (tenant_where base ctx m)) in
      do final ← update_all m d targets tx; ok (length targets, final)

  abbrev pub as_one : Row × Tables → Result (Answer × Tables)
  as_one r = ok (Answer.one r.0, r.1)

  abbrev pub as_count : ℕ × Tables → Result (Answer × Tables)
  as_count r = ok (Answer.count r.0, r.1)

  -- `runMutation`.
  unfoldable pub run_mutation : Model → Operation → Tables → Result (Answer × Tables)
  unfolding create_one create_each upsert_one delete_one delete_each update_one update_each
  run_mutation m (Operation.create d) tx = create_one m d tx >>= as_one
  run_mutation m (Operation.create_many ds) tx = create_each m ds tx >>= as_count
  run_mutation m (Operation.upsert w changes made) tx = upsert_one m w changes made tx >>= as_one
  run_mutation m (Operation.delete w) tx = delete_one m w tx >>= as_one
  run_mutation m (Operation.delete_many w) tx = delete_each m w tx >>= as_count
  run_mutation m (Operation.update w d) tx = update_one m w d tx >>= as_one
  run_mutation m (Operation.update_many w d) tx = update_each m w d tx >>= as_count
  run_mutation m (Operation.create_many_and_return ds) tx = err Error.out_of_scope
  run_mutation m (Operation.read deleted a) tx = err Error.out_of_scope
  run_mutation m (Operation.update_many_and_return deleted w d) tx = err Error.out_of_scope
