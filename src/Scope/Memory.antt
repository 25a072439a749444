-- ===== src/Scope/Memory.antt =====
-- A client that keeps its tables in lists and does what Engine asks of Prisma below
-- src/prisma/scoped-prisma.ts: the tests run on it, and it shows that the demands can be met.
use sentry_pos_be.Common.{
  ℕ, ◌+◌, Bool, true, Option, map, keep, none, some, List, [], ◌∷◌, ◌++◌, ◌==◌, if◌then◌else◌,
  length, Result, err, ok, ◌>>=◌, Error,
}
use sentry_pos_be.Scope.{Model, same_model, is_audit_log}
use sentry_pos_be.Scope.Query.{Row, Tables, Data, Where, matches, Audit, AuditAction, ActorType}
use sentry_pos_be.Scope.Filter.{find_row}
use sentry_pos_be.Scope.Engine.{Engine, overlay}

abbrev pub on_rows : Model → (List Row → List Row) → Tables → Tables
on_rows m f t = record t { rows = λ n. if same_model m n then f (t.rows n) else t.rows n }

abbrev pub free_entry : Audit
free_entry = record {
  actor_type = ActorType.platform_admin_actor;
  actor_id = none;
  owner_id = none;
  business_id = none;
  branch_id = none;
  entity = Model.audit_log;
  action = AuditAction.created;
  entity_id = 0;
  before = none;
  after = none;
}

abbrev pub added : Model → Row → Tables → Tables
added m r t =
    if is_audit_log m
    then record t { audits = free_entry ∷ t.audits }
    else on_rows m (λ rows. rows ++ (r ∷ [])) t

abbrev pub make : Data → List Row → Row
make d rows = record { id = length rows + 100; columns = λ c. overlay d c none }

unfoldable pub insert_row : Model → Data → Tables → Result (Row × Tables)
insert_row m d t = let r = make d (t.rows m) in ok (r, added m r t)

unfoldable pub insert_rows : Model → List Data → Tables → Result (List Row × Tables)
unfolding insert_row
insert_rows m [] t = ok ([], t)
insert_rows m (d ∷ ds) t = do
  made ← insert_row m d t
  rest ← insert_rows m ds made.1
  ok (made.0 ∷ rest.0, rest.1)

abbrev pub swap : ℕ → Row → List Row → List Row
swap k r [] = []
swap k r (x ∷ rows) = if x.id == k then r ∷ rows else x ∷ swap k r rows

unfoldable pub change_row : Model → ℕ → Data → Tables → Result (Row × Tables)
change_row m k d t = elim (find_row k (t.rows m)) [
  | none ↦ err Error.row_missing
  | some old ↦
      let r : Row = record { id = k; columns = λ c. overlay d c (old.columns c) } in
      ok (r, on_rows m (swap k r) t)
]

unfoldable pub is_hit : Option Where → Row → Bool
unfolding matches
is_hit none x = true
is_hit (some w) x = matches (λ n r. true) x w

-- The rows that match, changed.
abbrev pub changed_rows : Option Where → Data → List Row → List Row
changed_rows w d rows =
    map
      (λ (x : Row). if is_hit w x then record x { columns = λ c. overlay d c (x.columns c) } else x)
      rows

unfoldable pub change_rows : Model → Option Where → Data → Tables → Result (List Row × Tables)
unfolding is_hit
change_rows m w d t =
    ok (keep (is_hit w) (changed_rows w d (t.rows m)), on_rows m (changed_rows w d) t)

abbrev pub memory : Engine
memory = record {
  judge = λ n r. true;
  create_row = insert_row;
  create_rows = insert_rows;
  update_rows = change_rows;
  update_row = change_row;
  insert_audit = λ a t. ok (record t { audits = a ∷ t.audits });
}
