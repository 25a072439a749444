-- ===== src/Scope/Mutations.antt =====
-- `runMutation` of src/prisma/scoped-prisma.ts as a whole.
use sentry_pos_be.Common.{
  ℕ, ◌+◌, ◌≡◌, refl, ap, Bool, true, false, some, List, [], ◌&&◌, length, All, arith, Result, ok,
  >>=-eq-ok, Option-cases, inl, inr,
}
use mathlib.Core.Path.{subst}
use sentry_pos_be.Scope.{Model, Dmmf, is_audit_log}
use sentry_pos_be.Scope.Query.{Row, Context, Tables, Operation, Data, Where, matches}
use sentry_pos_be.Scope.Filter.{tenant_where, both, and_where, not_deleted}
use sentry_pos_be.Scope.Visible.{matches-both, matches-and_where}
use sentry_pos_be.Scope.Engine.{Engine, Obeys, IsPlain}
use sentry_pos_be.Scope.Audit.{first, all_matching, capture_nested_before}
use sentry_pos_be.Scope.Mutate.{
  Answer, create_one, police_all, audit_made, create_each, update_one, live_target, upsert_one,
  delete_one, delete_all, delete_each, update_all, update_each, run_mutation,
}
use sentry_pos_be.Scope.Work.{IsWork, more-IsWork, find-reaches, keep-reaches}
use sentry_pos_be.Scope.Effects.{
  update_found-IsWork, create_one-IsWork, delete_found-IsWork, delete_all-IsWork, update_all-IsWork,
  audit_made-IsWork, police_all-IsPlain,
}

-- The data of the operation have no nested writes.
abbrev pub OperationIsPlain : Operation → Type 0
OperationIsPlain (Operation.read deleted a) = Unit
OperationIsPlain (Operation.create d) = IsPlain d
OperationIsPlain (Operation.create_many ds) = All IsPlain ds
OperationIsPlain (Operation.create_many_and_return ds) = All IsPlain ds
OperationIsPlain (Operation.update w d) = IsPlain d
OperationIsPlain (Operation.update_many w d) = IsPlain d
OperationIsPlain (Operation.upsert w changes made) = IsPlain changes × IsPlain made
OperationIsPlain (Operation.delete w) = Unit
OperationIsPlain (Operation.delete_many w) = Unit
OperationIsPlain (Operation.update_many_and_return deleted w d) = IsPlain d

-- The rows that an answer tells of.
abbrev pub rows_answered : Answer → ℕ
rows_answered (Answer.found rows) = length rows
rows_answered (Answer.one r) = 1
rows_answered (Answer.count n) = n

and_left : (a b : Bool) → (a && b) ≡ true → a ≡ true
and_left true b h = refl
and_left false b h = h

and_right : (a b : Bool) → (a && b) ≡ true → b ≡ true
and_right true b h = h
and_right false b h = absurd (cc h)

module _ (e : Engine) (law : Obeys e) (dmmf : Dmmf) (now : ℕ) (base : Tables) (ctx : Context)
    (m : Model) (logged_model : is_audit_log m ≡ false) where
  abbrev Work : ℕ → Tables → Tables → Type 0
  Work = IsWork e base ctx m

  as_answered : {a n : ℕ} {t u after : Tables} → a ≡ n → u ≡ after → Work a t u → Work n t after
  as_answered {a} {n} {t} {u} {after} p q w = subst (λ k. Work k t after) p (subst (Work a t) q w)

  from_answer :
      {a answer : Answer} {t u after : Tables}
      → ◌≡◌ {A = Result (Answer × Tables)} (ok (a, u)) (ok (answer, after))
      → Work (rows_answered a) t u
      → Work (rows_answered answer) t after
  from_answer {a} {answer} h w =
      let same : a ≡ answer = cc h in as_answered (ap rows_answered same) (cc h) w

  abbrev scope : Where
  scope = tenant_where base ctx m

  -- The filters by which targets are looked up lie within the scope.
  within_both :
      (w : Where) (r : Row)
      → matches e.judge r (both w scope) ≡ true
      → matches e.judge r scope ≡ true
  within_both w r h = and_right _ _ (rw (matches-both e.judge r w scope) at h)

  within_live :
      (w : Where) (r : Row)
      → matches e.judge r (live_target e dmmf now base ctx m w) ≡ true
      → matches e.judge r scope ≡ true
  unfolding live_target matches
  within_live w r h = ground arith

  within_and :
      (w : Where) (r : Row)
      → matches e.judge r (and_where (some w) scope) ≡ true
      → matches e.judge r scope ≡ true
  within_and w r h = and_right _ _ (rw (matches-and_where e.judge r (some w) scope) at h)

  within_many :
      (w : Where) (r : Row)
      → matches e.judge r (both (and_where (some w) scope) (not_deleted Where.anything)) ≡ true
      → matches e.judge r scope ≡ true
  within_many w r h = within_and w r (and_left _ _ (rw (matches-both e.judge r _ _) at h))

  update_one-IsWork :
      (w : Where) (d : Data) (tx : Tables) (r : Row) (after : Tables)
      → IsPlain d
      → update_one e dmmf now base ctx m w d tx ≡ ok (r, after)
      → Work 1 tx after
  unfolding update_one
  update_one-IsWork w d tx r after plain h = elim (Option-cases (first e base m (both w scope))) [
    | inl e0 ↦ absurd (ground arith)
    | inr (before, e0) ↦
        update_found-IsWork e law dmmf now base ctx m logged_model
          (capture_nested_before e dmmf base m d) before d tx r after
          (find-reaches _ _ (within_both w) (base.rows m) before e0) plain (ground arith)
  ]

  upsert_one-IsWork :
      (w : Where) (changes made : Data) (tx : Tables) (r : Row) (after : Tables)
      → IsPlain changes
      → IsPlain made
      → upsert_one e dmmf now base ctx m w changes made tx ≡ ok (r, after)
      → Work 1 tx after
  unfolding upsert_one
  upsert_one-IsWork w changes made tx r after plain plain' h =
      elim (Option-cases (first e base m (live_target e dmmf now base ctx m w))) [
        | inl e0 ↦
            create_one-IsWork e law dmmf now base ctx m logged_model made tx r after plain'
              (ground arith)
        | inr (before, e0) ↦
            update_found-IsWork e law dmmf now base ctx m logged_model [] before changes tx r after
              (find-reaches _ _ (within_live w) (base.rows m) before e0) plain (ground arith)
      ]

  delete_one-IsWork :
      (w : Where) (tx : Tables) (r : Row) (after : Tables)
      → delete_one e dmmf now base ctx m w tx ≡ ok (r, after)
      → Work 1 tx after
  unfolding delete_one
  delete_one-IsWork w tx r after h =
      elim (Option-cases (first e base m (live_target e dmmf now base ctx m w))) [
        | inl e0 ↦ absurd (ground arith)
        | inr (before, e0) ↦
            delete_found-IsWork e law dmmf now base ctx m logged_model before tx r after
              (find-reaches _ _ (within_live w) (base.rows m) before e0) (ground arith)
      ]

  create_each-IsWork :
      (ds : List Data) (tx : Tables) (n : ℕ) (after : Tables)
      → All IsPlain ds
      → create_each e dmmf now base ctx m ds tx ≡ ok (n, after)
      → Work n tx after
  unfolding create_each
  create_each-IsWork ds tx n after plain h =
      let (policed, h1, e1) = >>=-eq-ok (police_all e dmmf now base ctx m ds) _ h in
      let still = police_all-IsPlain e law dmmf now base ctx m logged_model ds policed plain h1 in
      let (made, h2, e2) = >>=-eq-ok (e.create_rows m policed tx) _ e1 in
      let (final, h3, e3) = >>=-eq-ok (audit_made e dmmf now base ctx m made.0 made.1) _ e2 in
      let same : final ≡ after = cc e3 in
      let counted : length made.0 ≡ n = cc e3 in
      let inserted : Work 0 tx made.1 = record {
        spared = λ other k x out found.
            law.creates_elsewhere m policed tx made.1 made.0 still h2 other k x found;
        logged = ([], law.creates_audits m policed tx made.1 made.0 logged_model h2, refl, tt);
      } in
      let steps : Work (length made.0 + 0) tx final =
        more-IsWork e base ctx m inserted
          (audit_made-IsWork e law dmmf now base ctx m logged_model made.0 made.1 final h3) in
      as_answered (omega (arith, counted)) same steps

  delete_each-IsWork :
      (w : Where) (tx : Tables) (n : ℕ) (after : Tables)
      → delete_each e dmmf now base ctx m w tx ≡ ok (n, after)
      → Work n tx after
  unfolding delete_each
  delete_each-IsWork w tx n after h =
      let targets : List Row =
        all_matching e base m (both (and_where (some w) scope) (not_deleted Where.anything)) in
      let (final, h1, e1) = >>=-eq-ok (delete_all e dmmf now base ctx m targets tx) _ h in
      as_answered (cc e1) (cc e1) (
        delete_all-IsWork e law dmmf now base ctx m logged_model targets tx final
          (keep-reaches _ _ (within_many w) (base.rows m)) h1)

  update_each-IsWork :
      (w : Where) (d : Data) (tx : Tables) (n : ℕ) (after : Tables)
      → IsPlain d
      → update_each e dmmf now base ctx m w d tx ≡ ok (n, after)
      → Work n tx after
  unfolding update_each
  update_each-IsWork w d tx n after plain h =
      let targets : List Row = all_matching e base m (and_where (some w) scope) in
      let (final, h1, e1) = >>=-eq-ok (update_all e dmmf now base ctx m d targets tx) _ h in
      as_answered (cc e1) (cc e1) (
        update_all-IsWork e law dmmf now base ctx m logged_model d targets tx final plain
          (keep-reaches _ _ (within_and w) (base.rows m)) h1)

  -- A mutation whose data have no nested writes, of any model but the audit log, changes no row that
  -- was there, unless it is a row of the model within the caller's scope; and for each row that its
  -- answer tells of, the audit log has one row more, with the model and the caller's owner.
  pub run_mutation_bounded :
      (op : Operation) (tx : Tables) (answer : Answer) (after : Tables)
      → OperationIsPlain op
      → run_mutation e dmmf now base ctx m op tx ≡ ok (answer, after)
      → IsWork e base ctx m (rows_answered answer) tx after
  unfolding run_mutation
  run_mutation_bounded (Operation.create d) tx answer after plain h =
      let (r, h1, e1) = >>=-eq-ok (create_one e dmmf now base ctx m d tx) _ h in
      from_answer e1
        (create_one-IsWork e law dmmf now base ctx m logged_model d tx r.0 r.1 plain h1)
  run_mutation_bounded (Operation.create_many ds) tx answer after plain h =
      let (r, h1, e1) = >>=-eq-ok (create_each e dmmf now base ctx m ds tx) _ h in
      from_answer e1 (create_each-IsWork ds tx r.0 r.1 plain h1)
  run_mutation_bounded (Operation.upsert w changes made) tx answer after (plain, plain') h =
      let (r, h1, e1) = >>=-eq-ok (upsert_one e dmmf now base ctx m w changes made tx) _ h in
      from_answer e1 (upsert_one-IsWork w changes made tx r.0 r.1 plain plain' h1)
  run_mutation_bounded (Operation.delete w) tx answer after plain h =
      let (r, h1, e1) = >>=-eq-ok (delete_one e dmmf now base ctx m w tx) _ h in
      from_answer e1 (delete_one-IsWork w tx r.0 r.1 h1)
  run_mutation_bounded (Operation.delete_many w) tx answer after plain h =
      let (r, h1, e1) = >>=-eq-ok (delete_each e dmmf now base ctx m w tx) _ h in
      from_answer e1 (delete_each-IsWork w tx r.0 r.1 h1)
  run_mutation_bounded (Operation.update w d) tx answer after plain h =
      let (r, h1, e1) = >>=-eq-ok (update_one e dmmf now base ctx m w d tx) _ h in
      from_answer e1 (update_one-IsWork w d tx r.0 r.1 plain h1)
  run_mutation_bounded (Operation.update_many w d) tx answer after plain h =
      let (r, h1, e1) = >>=-eq-ok (update_each e dmmf now base ctx m w d tx) _ h in
      from_answer e1 (update_each-IsWork w d tx r.0 r.1 plain h1)
  run_mutation_bounded (Operation.create_many_and_return ds) tx answer after plain h = absurd (cc h)
  run_mutation_bounded (Operation.read deleted a) tx answer after plain h = absurd (cc h)
  run_mutation_bounded (Operation.update_many_and_return deleted w d) tx answer after plain h =
      absurd (cc h)
