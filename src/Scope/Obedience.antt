-- ===== src/Scope/Obedience.antt =====
-- The client in memory does what Engine asks of Prisma below src/prisma/scoped-prisma.ts.
use sentry_pos_be.Common.{
  ℕ, ◌≡◌, refl, ◌∙◌, ap, sym, false, none, some, List, [], ◌∷◌, ◌++◌, ◌==◌, if◌then◌else◌, arith,
  ok, >>=-eq-ok, Option-cases, Bool-cases, inl, inr, ==_refl,
}
use mathlib.Core.Path.{subst}
use mathlib.Core.List.{append_assoc}
use sentry_pos_be.Scope.{Model, same_model, model_no, is_audit_log, id_column}
use sentry_pos_be.Scope.Query.{Row, Tables, Data, Audit, read_column}
use sentry_pos_be.Scope.Filter.{find_row}
use sentry_pos_be.Scope.Engine.{Obeys, IsPlain, overlay}
use sentry_pos_be.Scope.Memory.{
  on_rows, free_entry, added, make, swap, insert_row, insert_rows, change_row, memory,
}

find-append :
    (j : ℕ) (rows more : List Row) (x : Row)
    → find_row j rows ≡ some x
    → find_row j (rows ++ more) ≡ some x
find-append j [] more x h = absurd (cc h)
find-append j (y ∷ rows) more x h = ground (arith, find-append j rows more x)

find-swap_self :
    (k : ℕ) (r old : Row) (rows : List Row)
    → r.id ≡ k
    → find_row k rows ≡ some old
    → find_row k (swap k r rows) ≡ some r
find-swap_self k r old [] e h = absurd (cc h)
find-swap_self k r old (y ∷ rows) e h = ground (arith, find-swap_self k r old rows e)

find-swap_other :
    (j k : ℕ) (r : Row) (rows : List Row)
    → r.id ≡ k
    → (k == j) ≡ false
    → find_row j (swap k r rows) ≡ find_row j rows
find-swap_other j k r [] e h = refl
find-swap_other j k r (y ∷ rows) e h = ground (arith, find-swap_other j k r rows e)

plain_id : (d : Data) → IsPlain d → overlay d id_column none ≡ none
plain_id Data.end p = refl
plain_id (Data.value c v d) (h, p) = rw h (plain_id d p)
plain_id (Data.nested k w d) p = absurd p

added_keeps :
    (m : Model) (r : Row) (t : Tables) (n : Model) (j : ℕ) (x : Row)
    → find_row j (t.rows n) ≡ some x
    → find_row j (Tables.rows (added m r t) n) ≡ some x
added_keeps m r t n j x h = elim (Bool-cases (is_audit_log m)) [
  | inl log ↦ rw log h
  | inr other ↦ rw other (elim (Bool-cases (same_model m n)) [
    | inl same ↦ rw same (find-append j (t.rows n) (r ∷ []) x h)
    | inr apart ↦ rw apart h
  ])
]

added_audits :
    (m : Model) (r : Row) (t : Tables)
    → is_audit_log m ≡ false
    → Tables.audits (added m r t) ≡ t.audits
added_audits m r t other = rw other

insert_rows_keeps :
    (m : Model) (ds : List Data) (t after : Tables) (rs : List Row)
    → insert_rows m ds t ≡ ok (rs, after)
    → (n : Model) (j : ℕ) (x : Row) → find_row j (t.rows n) ≡ some x
    → find_row j (after.rows n) ≡ some x
unfolding insert_rows
insert_rows_keeps m [] t after rs h n j x f = let same : t ≡ after = cc h in rw (← same) f
insert_rows_keeps m (d ∷ ds) t after rs h n j x f =
    let r = make d (t.rows m) in
    let (rest, h1, e1) = >>=-eq-ok (insert_rows m ds (added m r t)) _ h in
    let same : rest.1 ≡ after = cc e1 in
    subst (λ (u : Tables). find_row j (u.rows n) ≡ some x) same
      (insert_rows_keeps m ds (added m r t) rest.1 rest.0 h1 n j x (added_keeps m r t n j x f))

insert_rows_audits :
    (m : Model) (ds : List Data) (t after : Tables) (rs : List Row)
    → is_audit_log m ≡ false
    → insert_rows m ds t ≡ ok (rs, after)
    → after.audits ≡ t.audits
unfolding insert_rows
insert_rows_audits m [] t after rs other h = let same : t ≡ after = cc h in rw (← same)
insert_rows_audits m (d ∷ ds) t after rs other h =
    let r = make d (t.rows m) in
    let (rest, h1, e1) = >>=-eq-ok (insert_rows m ds (added m r t)) _ h in
    let same : rest.1 ≡ after = cc e1 in
    subst (λ (u : Tables). u.audits ≡ t.audits) same
      (insert_rows_audits m ds (added m r t) rest.1 rest.0 other h1 ∙ added_audits m r t other)

insert_rows_log :
    (ds : List Data) (t after : Tables) (rs : List Row)
    → insert_rows Model.audit_log ds t ≡ ok (rs, after)
    → (more : List Audit) × (after.audits ≡ more ++ t.audits)
unfolding insert_rows
insert_rows_log [] t after rs h = let same : t ≡ after = cc h in ([], rw (← same))
insert_rows_log (d ∷ ds) t after rs h =
    let r = make d (t.rows Model.audit_log) in
    let (rest, h1, e1) =
      >>=-eq-ok (insert_rows Model.audit_log ds (added Model.audit_log r t)) _ h in
    let same : rest.1 ≡ after = cc e1 in
    let (more, e) = insert_rows_log ds (added Model.audit_log r t) rest.1 rest.0 h1 in
    (
      more ++ (free_entry ∷ []),
      subst (λ (u : Tables). u.audits ≡ (more ++ (free_entry ∷ [])) ++ t.audits) same
          (e ∙ sym (append_assoc more (free_entry ∷ []) t.audits)),
    )

-- What a change of a row that is there comes to.
change_row_lem :
    (m : Model) (k : ℕ) (d : Data) (t after : Tables) (r : Row)
    → change_row m k d t ≡ ok (r, after)
    → (old : Row) × (find_row k (t.rows m) ≡ some old)
      × (r.id ≡ k)
      × ((c : ℕ) → r.columns c ≡ overlay d c (old.columns c))
      × (after ≡ on_rows m (swap k r) t)
unfolding change_row
change_row_lem m k d t after r h = elim (Option-cases (find_row k (t.rows m))) [
  | inl e ↦ absurd (ground arith)
  | inr (old, e) ↦
      let made : Row = record { id = k; columns = λ c. overlay d c (old.columns c) } in
      let same : r ≡ made = ground arith in
      let stored : after ≡ on_rows m (swap k made) t = ground arith in
      (
        old,
        e,
        ap (λ (x : Row). x.id) same,
        λ c. ap (λ (x : Row). x.columns c) same,
        subst (λ (x : Row). after ≡ on_rows m (swap k x) t) (sym same) stored,
      )
]

create_sets :
    (m : Model) (d : Data) (t after : Tables) (r : Row)
    → IsPlain d
    → insert_row m d t ≡ ok (r, after)
    → (c k : ℕ) → overlay d c none ≡ some k
    → read_column r c ≡ some k
unfolding insert_row
create_sets m d t after r plain h c k e =
    let same : make d (t.rows m) ≡ r = cc h in
    subst (λ (x : Row). read_column x c ≡ some k) same
      (elim (Bool-cases (c == id_column)) [
        | inl at ↦
            let zero_column : c ≡ id_column = ground arith in
            absurd (cc (plain_id d plain, rw zero_column at e))
        | inr other ↦ rw other e
      ])

create_after :
    (m : Model) (d : Data) (t after : Tables) (r : Row)
    → insert_row m d t ≡ ok (r, after)
    → after ≡ added m (make d (t.rows m)) t
unfolding insert_row
create_after m d t after r h = cc h

update_elsewhere :
    (m : Model) (k : ℕ) (d : Data) (t after : Tables) (r : Row)
    → change_row m k d t ≡ ok (r, after)
    → (n : Model) (j : ℕ) → (if same_model m n then k == j else false) ≡ false
    → find_row j (after.rows n) ≡ find_row j (t.rows n)
update_elsewhere m k d t after r h n j apart =
    let (old, e, id, set, stored) = change_row_lem m k d t after r h in
    rw stored (elim (Bool-cases (same_model m n)) [
      | inl same ↦ rw same (find-swap_other j k r (t.rows n) id (rw same at apart))
      | inr other ↦ rw other
    ])

update_sets :
    (m : Model) (k : ℕ) (d : Data) (t after : Tables) (r : Row)
    → change_row m k d t ≡ ok (r, after)
    → (r.id ≡ k)
      × (find_row k (after.rows m) ≡ some r)
      × ((old : Row) × (find_row k (t.rows m) ≡ some old)
          × ((c : ℕ) → r.columns c ≡ overlay d c (old.columns c)))
update_sets m k d t after r h =
    let (old, e, id, set, stored) = change_row_lem m k d t after r h in
    (id, rw (stored, ==_refl (model_no m)) (find-swap_self k r old (t.rows m) id e), (old, e, set))

update_audits :
    (m : Model) (k : ℕ) (d : Data) (t after : Tables) (r : Row)
    → change_row m k d t ≡ ok (r, after)
    → after.audits ≡ t.audits
update_audits m k d t after r h =
    let (old, e, id, set, stored) = change_row_lem m k d t after r h in rw stored

free_audit :
    (d : Data) (t after : Tables) (r : Row)
    → insert_row Model.audit_log d t ≡ ok (r, after)
    → (a : Audit) × (after.audits ≡ a ∷ t.audits)
free_audit d t after r h = (free_entry, rw (create_after Model.audit_log d t after r h))

kept : {t u : Tables} → ok t ≡ ok u → t ≡ u
kept h = cc h

pub memory-Obeys : Obeys memory
memory-Obeys = record {
  create_elsewhere = λ m d t after r plain h n j x f.
      rw (create_after m d t after r h) (added_keeps m (make d (t.rows m)) t n j x f);
  create_sets = create_sets;
  creates_elsewhere = λ m ds t after rs plain h. insert_rows_keeps m ds t after rs h;
  create_audits = λ m d t after r other h.
      rw (create_after m d t after r h) (added_audits m (make d (t.rows m)) t other);
  creates_audits = insert_rows_audits;
  free_audit = free_audit;
  free_audits = insert_rows_log;
  update_elsewhere = λ m k d t after r plain h. update_elsewhere m k d t after r h;
  update_sets = λ m k d t after r plain h. update_sets m k d t after r h;
  update_audits = λ m k d t after r other h. update_audits m k d t after r h;
  audit_adds = λ a t after h.
      (ap (λ (x : Tables). x.audits) (sym (kept h)), ap (λ (x : Tables). x.rows) (sym (kept h)));
}
