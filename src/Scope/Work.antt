-- ===== src/Scope/Work.antt =====
-- What one write with its audit row does to the tables, in src/prisma/scoped-prisma.ts.
use sentry_pos_be.Common.{
  Result, ℕ, ◌+◌, ◌≡◌, refl, sym, Bool, true, false, Option, some, List, [], ◌∷◌, ◌++◌, ◌==◌,
  if◌then◌else◌, length, length-append, find, keep, any, All, All-append, arith, ok, Bool-cases,
  inl, inr, ==_refl,
}
use mathlib.Core.List.{append_assoc}
use sentry_pos_be.Scope.{Model, same_model}
use sentry_pos_be.Scope.Query.{Row, Context, AuditAction, Audit, Tables, matches}
use sentry_pos_be.Scope.Filter.{tenant_where, find_row}
use sentry_pos_be.Scope.Engine.{Engine, Obeys}
use sentry_pos_be.Scope.Audit.{audit_entry, write_audit}

-- Some row with the id passes the test.
abbrev pub reaches : (Row → Bool) → List Row → ℕ → Bool
reaches p rows k = any (λ (x : Row). if x.id == k then p x else false) rows

module _ (p q : Row → Bool) (sub : (r : Row) → p r ≡ true → q r ≡ true) where
  pub find-reaches : (rows : List Row) (r : Row) → find p rows ≡ some r → reaches q rows r.id ≡ true
  find-reaches [] r h = absurd (ground arith)
  find-reaches (x ∷ rows) r h = ground (arith, sub x, find-reaches rows r)

  keep-reaches_from :
      (all : List Row) (rows : List Row)
      → ((r : Row) → reaches q rows r.id ≡ true → reaches q all r.id ≡ true)
      → All (λ (r : Row). reaches q all r.id ≡ true) (keep p rows)
  keep-reaches_from all [] up = tt
  keep-reaches_from all (x ∷ rows) up =
      let rest = keep-reaches_from all rows (λ r h. up r (ground arith)) in
      elim (Bool-cases (p x)) [
        | inl e ↦ rw e (up x (ground (arith, sub x, ==_refl x.id)), rest)
        | inr e ↦ rw e rest
      ]

  pub keep-reaches : (rows : List Row) → All (λ (r : Row). reaches q rows r.id ≡ true) (keep p rows)
  keep-reaches rows = keep-reaches_from rows rows (λ r h. h)

-- The row of an answer.
pub row_of :
    {x r : Row} {u v : Tables} → ◌≡◌ {A = Result (Row × Tables)} (ok (x, u)) (ok (r, v)) → x ≡ r
row_of h = cc h

module _ (e : Engine) (base : Tables) (ctx : Context) (m : Model) where
  -- The id of a row that the caller's scope holds.
  abbrev pub in_reach : ℕ → Bool
  in_reach = reaches (λ r. matches e.judge r (tenant_where base ctx m)) (base.rows m)

  abbrev pub IsOurs : Audit → Type 0
  IsOurs a = (a.entity ≡ m) × (a.owner_id ≡ ctx.owner_id)

  -- Every row that was there is as it was, unless it is one of the model within the scope; and the
  -- audit log has `n` rows more, of the model and the caller's owner.
  pub record IsWork (n : ℕ) (t after : Tables) : Type 0 where
    pub spared :
        (other : Model) (k : ℕ) (x : Row)
        → (if same_model m other then in_reach k else false) ≡ false
        → find_row k (t.rows other) ≡ some x
        → find_row k (after.rows other) ≡ some x
    pub logged :
        (new : List Audit) × (after.audits ≡ new ++ t.audits) × (length new ≡ n) × All IsOurs new

  pub no-IsWork : (t : Tables) → IsWork 0 t t
  no-IsWork t = record { spared = λ other k x out h. h; logged = ([], refl, refl, tt) }

  pub more-IsWork : {a b : ℕ} {t u v : Tables} → IsWork a t u → IsWork b u v → IsWork (b + a) t v
  more-IsWork {a} {b} {t} {u} {v} first second =
      let (new, e1, n1, ours1) = first.logged in
      let (newer, e2, n2, ours2) = second.logged in
      record {
        spared = λ other k x out h. second.spared other k x out (first.spared other k x out h);
        logged = (
          newer ++ new,
          rw (e2, e1) (sym (append_assoc newer new t.audits)),
          rw (length-append newer new, n1, n2),
          All-append IsOurs newer new ours2 ours1,
        );
      }

  module _ (law : Obeys e) where
    -- The audit row alone.
    pub write_audit-IsWork :
        (action : AuditAction) (before after : Option Row) (r : Row) (t t' : Tables)
        → write_audit e base ctx m action before after r t ≡ ok t'
        → IsWork 1 t t'
    unfolding write_audit audit_entry
    write_audit-IsWork action before after r t t' h =
        let (adds, same) = law.audit_adds (audit_entry base ctx m action before after r) t t' h in
        record {
          spared = λ other k x out found. rw same found;
          logged =
              (audit_entry base ctx m action before after r ∷ [], adds, refl, ((refl, refl), tt));
        }
