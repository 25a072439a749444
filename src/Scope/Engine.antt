-- ===== src/Scope/Engine.antt =====
-- Prisma's own client below the scoped one of src/prisma/scoped-prisma.ts, as a parameter: how it
-- judges the filters that the model does not read, and its writes. A write returns the tables of its
-- transaction, or fails and the transaction is rolled back.
use sentry_pos_be.Common.{
  ℕ, ◌≡◌, Bool, false, Option, none, some, List, [], ◌∷◌, ◌++◌, All, ◌==◌, if◌then◌else◌, length,
  Result, ok,
}
use sentry_pos_be.Scope.{
  Model, is_audit_log, same_model, id_column, owner_id_column, business_id_column, branch_id_column,
  actor_type_column,
}
use sentry_pos_be.Scope.Query.{Data, Where, Row, read_column, Audit, actor_code, Tables}
use sentry_pos_be.Scope.Filter.{find_row}

pub record Engine : Type 0 where
  pub judge : ℕ → Row → Bool
  pub create_row : Model → Data → Tables → Result (Row × Tables)
  pub create_rows : Model → List Data → Tables → Result (List Row × Tables)
  pub update_rows : Model → Option Where → Data → Tables → Result (List Row × Tables)
  pub update_row : Model → ℕ → Data → Tables → Result (Row × Tables)
  pub insert_audit : Audit → Tables → Result Tables

abbrev pub audit_columns : Audit → ℕ → Option ℕ
audit_columns a c =
    if c == owner_id_column
    then a.owner_id
    else if c == business_id_column
    then a.business_id
    else if c == branch_id_column
    then a.branch_id
    else if c == actor_type_column
    then some (actor_code a.actor_type)
    else none

abbrev pub audit_rows : List Audit → List Row
audit_rows [] = []
audit_rows (a ∷ older) =
    (record { id = length older; columns = audit_columns a }) ∷ audit_rows older

-- The rows that a query of a model runs over.
unfoldable pub rows_of : Tables → Model → List Row
rows_of t m = if is_audit_log m then audit_rows t.audits else t.rows m

-- `data` that sets columns only, and not the id.
abbrev pub IsPlain : Data → Type 0
IsPlain Data.end = Unit
IsPlain (Data.value c v d) = ((c == id_column) ≡ false) × IsPlain d
IsPlain (Data.nested k w d) = ⊥

-- The column as `data` sets it, or else as it was.
abbrev pub overlay : Data → ℕ → Option ℕ → Option ℕ
overlay Data.end c old = old
overlay (Data.value k v d) c old = if k == c then v else overlay d c old
overlay (Data.nested k w d) c old = overlay d c old

-- What Prisma documents of its writes, where `data` has no nested ones.
pub record Obeys (e : Engine) : Type 0 where
  pub create_elsewhere :
      (m : Model) (d : Data) (t after : Tables) (r : Row)
      → IsPlain d
      → e.create_row m d t ≡ ok (r, after)
      → (n : Model) (j : ℕ) (x : Row) → find_row j (t.rows n) ≡ some x
      → find_row j (after.rows n) ≡ some x
  pub create_sets :
      (m : Model) (d : Data) (t after : Tables) (r : Row)
      → IsPlain d
      → e.create_row m d t ≡ ok (r, after)
      → (c : ℕ) (k : ℕ) → overlay d c none ≡ some k
      → read_column r c ≡ some k
  pub creates_elsewhere :
      (m : Model) (ds : List Data) (t after : Tables) (rs : List Row)
      → All IsPlain ds
      → e.create_rows m ds t ≡ ok (rs, after)
      → (n : Model) (j : ℕ) (x : Row) → find_row j (t.rows n) ≡ some x
      → find_row j (after.rows n) ≡ some x
  pub create_audits :
      (m : Model) (d : Data) (t after : Tables) (r : Row)
      → is_audit_log m ≡ false
      → e.create_row m d t ≡ ok (r, after)
      → after.audits ≡ t.audits
  pub creates_audits :
      (m : Model) (ds : List Data) (t after : Tables) (rs : List Row)
      → is_audit_log m ≡ false
      → e.create_rows m ds t ≡ ok (rs, after)
      → after.audits ≡ t.audits
  pub free_audit :
      (d : Data) (t after : Tables) (r : Row)
      → e.create_row Model.audit_log d t ≡ ok (r, after)
      → (a : Audit) × (after.audits ≡ a ∷ t.audits)
  pub free_audits :
      (ds : List Data) (t after : Tables) (rs : List Row)
      → e.create_rows Model.audit_log ds t ≡ ok (rs, after)
      → (more : List Audit) × (after.audits ≡ more ++ t.audits)
  pub update_elsewhere :
      (m : Model) (k : ℕ) (d : Data) (t after : Tables) (r : Row)
      → IsPlain d
      → e.update_row m k d t ≡ ok (r, after)
      → (n : Model) (j : ℕ) → (if same_model m n then k == j else false) ≡ false
      → find_row j (after.rows n) ≡ find_row j (t.rows n)
  pub update_sets :
      (m : Model) (k : ℕ) (d : Data) (t after : Tables) (r : Row)
      → IsPlain d
      → e.update_row m k d t ≡ ok (r, after)
      → (r.id ≡ k)
        × (find_row k (after.rows m) ≡ some r)
        × ((old : Row) × (find_row k (t.rows m) ≡ some old)
            × ((c : ℕ) → r.columns c ≡ overlay d c (old.columns c)))
  pub update_audits :
      (m : Model) (k : ℕ) (d : Data) (t after : Tables) (r : Row)
      → is_audit_log m ≡ false
      → e.update_row m k d t ≡ ok (r, after)
      → after.audits ≡ t.audits
  pub audit_adds :
      (a : Audit) (t after : Tables)
      → e.insert_audit a t ≡ ok after
      → (after.audits ≡ a ∷ t.audits) × (after.rows ≡ t.rows)
