-- ===== src/Scope/Creates.antt =====
-- What the checks of `policeCreateData` in src/prisma/scoped-prisma.ts leave of a create.
use sentry_pos_be.Common.{
  ℕ, ◌≡◌, ◌≢◌, refl, ◌∙◌, sym, true, none, some, [], ◌==◌, All, arith, Result, ok, ◌>>=◌, >>=-eq-ok,
  Bool-cases, inl, inr, ==_refl,
}
use mathlib.Core.Path.{subst}
use sentry_pos_be.Scope.{
  Model, ScopeColumn, Dmmf, fk_refs, tenant_direct, number_of, owner_id_column, business_id_column,
  branch_id_column,
}
use sentry_pos_be.Scope.Query.{read_column, AuditAction, Row, Context, Tables, Data, is_terminal}
use sentry_pos_be.Scope.Visible.{
  is_own_business, is_visible, member-allowed_business_ids, member-allowed_branch_ids,
}
use sentry_pos_be.Scope.Reads.{IsFresh}
use sentry_pos_be.Scope.Police.{
  value_of, assign, police_create_refs, police_business, police_branch, police_create_data,
}
use sentry_pos_be.Scope.Work.{row_of}
use sentry_pos_be.Scope.Nested.{touched_by}
use sentry_pos_be.Scope.Engine.{Engine, Obeys, IsPlain, overlay}
use sentry_pos_be.Scope.Audit.{write_audit, audit_nested}
use sentry_pos_be.Scope.Mutate.{create_one}
use sentry_pos_be.Scope.Plain.{
  rewrite_plain, police-IsPlain, police_create_refs_same, police_business_lem, police_branch_lem,
}
use sentry_pos_be.Scope.References.{RefIsInside, police_create_refs-AreInside, unassigned}

overlay-value_of : (c k : ℕ) (d : Data) → value_of c d ≡ some k → overlay d c none ≡ some k
overlay-value_of c k Data.end h = absurd (cc h)
overlay-value_of c k (Data.value j v d) h = elim (Bool-cases (j == c)) [
  | inl e ↦ rw e (rw e at h)
  | inr e ↦ rw e (overlay-value_of c k d (rw e at h))
]
overlay-value_of c k (Data.nested j w d) h = overlay-value_of c k d h

overlay-assign : (c k : ℕ) (d : Data) → overlay (assign c (some k) d) c none ≡ some k
overlay-assign c k Data.end = rw (==_refl c)
overlay-assign c k (Data.value j v d) = elim (Bool-cases (j == c)) [
  | inl e ↦ rw (e, e)
  | inr e ↦ rw (e, e) (overlay-assign c k d)
]
overlay-assign c k (Data.nested j w d) = overlay-assign c k d

module _ (dmmf : Dmmf) (t : Tables) (ctx : Context) (o : ℕ) (fresh : IsFresh ctx o) where
  -- What the checks make of the data: its scope column holds a value that the owner may see, and its
  -- references are inside.
  abbrev pub Placed : ScopeColumn → Data → Type 0
  Placed c out =
      (k : ℕ) × (overlay out (number_of c) none ≡ some k)
      × ((r : Row) → r.columns (number_of c) ≡ some k → is_visible t o ctx (some c) r ≡ true)

  module _ (m : Model) (d out : Data)
      (own_business : (b : ℕ) → ctx.business_id ≡ some b → is_own_business t o b ≡ true)
      (own_branch : is_terminal ctx ≡ true → (k : ℕ) × (ctx.branch_id ≡ some k)) where
    business-Placed : police_business dmmf t ctx d ≡ ok out → Placed ScopeColumn.business_column out
    business-Placed h = elim (police_business_lem dmmf t ctx d out h) [
      | inl (same, (b, e, allowed)) ↦ (
        b,
        rw same (overlay-value_of business_id_column b d e),
        λ r at.
            rw at
              (sym (member-allowed_business_ids t o ctx fresh.owned fresh.businesses b) ∙ allowed),
      )
      | inr (b, e, same) ↦
          (b, rw same (overlay-assign business_id_column b d), λ r at. rw at (own_business b e))
    ]

    branch-Placed : police_branch dmmf t ctx d ≡ ok out → Placed ScopeColumn.branch_column out
    branch-Placed h = elim (police_branch_lem dmmf t ctx d out h) [
      | inl (same, (b, e, allowed, person)) ↦ (
        b,
        rw same (overlay-value_of branch_id_column b d e),
        λ r at.
            rw (person, at)
              (sym (member-allowed_branch_ids t o ctx fresh.owned fresh.businesses b fresh.branches)
                ∙ allowed),
      )
      | inr (terminal, same) ↦
          let (b, e) = own_branch terminal in
          (
            b,
            rw (same, e) (overlay-assign branch_id_column b d),
            λ r at. rw (terminal, at, e) (==_refl b),
          )
    ]

    -- The checks of a model with a business or a branch, and then of its references.
    calls_of :
        (check : Data → Result Data)
        → (check d >>= police_create_refs dmmf t ctx m) ≡ ok out
        → (check d ≡ ok out) × All (RefIsInside dmmf t ctx o fresh m out) (fk_refs dmmf m)
    calls_of check h =
        let (mid, h1, e1) = >>=-eq-ok (check d) (police_create_refs dmmf t ctx m) h in
        let same = police_create_refs_same dmmf t ctx m mid out e1 in
        (rw same h1, rw same (police_create_refs-AreInside dmmf t ctx o fresh m mid out e1))

    police-Placed :
        (c : ScopeColumn)
        → tenant_direct m ≡ some c
        → police_create_data dmmf t ctx m d ≡ ok out
        → Placed c out
    unfolding police_create_data
    police-Placed ScopeColumn.owner_column mapped h =
        let same : out ≡ assign owner_id_column ctx.owner_id d = ground arith in
        (o, rw (same, fresh.owned) (overlay-assign owner_id_column o d), λ r at. rw at (==_refl o))
    police-Placed ScopeColumn.business_column mapped h =
        business-Placed (calls_of (police_business dmmf t ctx) (ground arith)).0
    police-Placed ScopeColumn.branch_column mapped h =
        branch-Placed (calls_of (police_branch dmmf t ctx) (ground arith)).0

    police-AreInside :
        (c : ScopeColumn)
        → c ≢ ScopeColumn.owner_column
        → tenant_direct m ≡ some c
        → police_create_data dmmf t ctx m d ≡ ok out
        → All (RefIsInside dmmf t ctx o fresh m d) (fk_refs dmmf m)
    unfolding police_create_data
    police-AreInside ScopeColumn.owner_column other mapped h = absurd (other refl)
    police-AreInside ScopeColumn.business_column other mapped h =
        let (first, inside) = calls_of (police_business dmmf t ctx) (ground arith) in
        elim (police_business_lem dmmf t ctx d out first) [
          | inl (same, _) ↦
              subst (λ x. All (RefIsInside dmmf t ctx o fresh m x) (fk_refs dmmf m)) same inside
          | inr (b, e, same) ↦
              unassigned dmmf t ctx o fresh m ScopeColumn.business_column (some b) d
                (fk_refs dmmf m) mapped
                (subst (λ x. All (RefIsInside dmmf t ctx o fresh m x) (fk_refs dmmf m)) same inside)
        ]
    police-AreInside ScopeColumn.branch_column other mapped h =
        let (first, inside) = calls_of (police_branch dmmf t ctx) (ground arith) in
        elim (police_branch_lem dmmf t ctx d out first) [
          | inl (same, _) ↦
              subst (λ x. All (RefIsInside dmmf t ctx o fresh m x) (fk_refs dmmf m)) same inside
          | inr (terminal, same) ↦
              unassigned dmmf t ctx o fresh m ScopeColumn.branch_column ctx.branch_id d
                (fk_refs dmmf m) mapped
                (subst (λ x. All (RefIsInside dmmf t ctx o fresh m x) (fk_refs dmmf m)) same inside)
        ]

read_scope : (c : ScopeColumn) (r : Row) → read_column r (number_of c) ≡ r.columns (number_of c)
read_scope ScopeColumn.owner_column r = refl
read_scope ScopeColumn.business_column r = refl
read_scope ScopeColumn.branch_column r = refl

module _ (e : Engine) (law : Obeys e) (dmmf : Dmmf) (now : ℕ) (t : Tables) (ctx : Context) (o : ℕ)
    (fresh : IsFresh ctx o) (m : Model) (c : ScopeColumn) (mapped : tenant_direct m ≡ some c)
    (own_business : (b : ℕ) → ctx.business_id ≡ some b → is_own_business t o b ≡ true)
    (own_branch : is_terminal ctx ≡ true → (k : ℕ) × (ctx.branch_id ≡ some k)) (d : Data)
    (plain : IsPlain d) (tx : Tables) (r : Row) (after : Tables)
    (done : create_one e dmmf now t ctx m d tx ≡ ok (r, after)) where
  inserted :
      (policed : Data) × (police_create_data dmmf t ctx m d ≡ ok policed)
      × ((made : Tables) × (e.create_row m policed tx ≡ ok (r, made)))
  unfolding create_one
  inserted =
      let (policed, h0, e0) = >>=-eq-ok (police_create_data dmmf t ctx m d) _ done in
      let e0' =
        rw (rewrite_plain dmmf now m policed (police-IsPlain dmmf t ctx m d policed plain h0)) at
          e0 in
      let (made, h1, e1) = >>=-eq-ok (e.create_row m policed tx) _ e0' in
      let (logged, h2, e2) =
        >>=-eq-ok (write_audit e t ctx m AuditAction.created none (some made.0) made.0 made.1) _
          e1 in
      let (final, h3, e3) =
        >>=-eq-ok (audit_nested e t ctx [] (touched_by dmmf m policed) logged) _ e2 in
      let same : made.0 ≡ r = row_of e3 in
      (
        policed,
        h0,
        (made.1, subst (λ (x : Row). e.create_row m policed tx ≡ ok (x, made.1)) same h1),
      )

  -- A row that a tenant's create has made, with data that have no nested writes, is one that the owner
  -- may see, where the context's business, if it has one, is the owner's, and a terminal has a branch.
  pub create_one_visible : is_visible t o ctx (some c) r ≡ true
  create_one_visible =
      let (policed, h0, (made, h1)) = inserted in
      let (k, set, seen) =
        police-Placed dmmf t ctx o fresh m d policed own_business own_branch c mapped h0 in
      seen r (
        sym (read_scope c r)
        ∙ law.create_sets m policed tx made r (police-IsPlain dmmf t ctx m d policed plain h0) h1
            (number_of c) k set)

  -- Every reference of those data, but the scope column itself, is to a platform row or to one
  -- whose walk ends at a live business of the owner; a business itself has no such check.
  pub create_one_refs :
      c ≢ ScopeColumn.owner_column → All (RefIsInside dmmf t ctx o fresh m d) (fk_refs dmmf m)
  unfolding create_one
  create_one_refs other =
      let (policed, h0, e0) = >>=-eq-ok (police_create_data dmmf t ctx m d) _ done in
      police-AreInside dmmf t ctx o fresh m d policed own_business own_branch c other mapped h0
