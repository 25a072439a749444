-- ===== src/Scope/Plain.antt =====
-- Data without nested writes under the checks and the rewriting of src/prisma/scoped-prisma.ts.
use sentry_pos_be.Common.{
  ℕ, ◌≡◌, ◌⊎◌, refl, ap, Bool, true, false, Option, none, some, [], ◌==◌, Bool-cases, inl, inr,
  arith, ok, >>=-eq-ok, ◌>>=◌,
}
use sentry_pos_be.Scope.{
  Model, ScopeColumn, Dmmf, id_column, tenant_direct, owner_id_column, business_id_column,
  branch_id_column,
}
use sentry_pos_be.Scope.Query.{is_terminal, Data, Context, Tables}
use sentry_pos_be.Scope.Police.{
  assign, value_of, police_create_refs, police_business, police_branch, police_create_data,
}
use sentry_pos_be.Scope.Filter.{member, allowed_business_ids, allowed_branch_ids}
use sentry_pos_be.Scope.Nested.{rewrite_nested, touched_by}
use sentry_pos_be.Scope.Engine.{IsPlain}

assign-IsPlain :
    (c : ℕ) (v : Option ℕ) (d : Data)
    → (c == id_column) ≡ false
    → IsPlain d
    → IsPlain (assign c v d)
assign-IsPlain c v Data.end h p = (h, tt)
assign-IsPlain c v (Data.value k u d) h (here, p) = elim (Bool-cases (k == c)) [
  | inl e ↦ rw e (here, p)
  | inr e ↦ rw e (here, assign-IsPlain c v d h p)
]
assign-IsPlain c v (Data.nested k w d) h p = absurd p

pub rewrite_plain :
    (dmmf : Dmmf) (now : ℕ) (m : Model) (d : Data) → IsPlain d → rewrite_nested dmmf now m d ≡ d
unfolding rewrite_nested
rewrite_plain dmmf now m Data.end p = refl
rewrite_plain dmmf now m (Data.value c v d) (h, p) =
    ap (Data.value c v) (rewrite_plain dmmf now m d p)
rewrite_plain dmmf now m (Data.nested k w d) p = absurd p

pub touched_plain : (dmmf : Dmmf) (m : Model) (d : Data) → IsPlain d → touched_by dmmf m d ≡ []
unfolding touched_by
touched_plain dmmf m Data.end p = refl
touched_plain dmmf m (Data.value c v d) (h, p) = touched_plain dmmf m d p
touched_plain dmmf m (Data.nested k w d) p = absurd p

module _ (dmmf : Dmmf) (t : Tables) (ctx : Context) where
  -- The check of the references gives the data back.
  pub police_create_refs_same :
      (m : Model) (d out : Data) → police_create_refs dmmf t ctx m d ≡ ok out → out ≡ d
  unfolding police_create_refs
  police_create_refs_same m d out e = ground arith

  -- The business column was allowed as it stood, or is the context's.
  abbrev pub BusinessCase : Data → Data → Type 0
  BusinessCase d out =
      ((out ≡ d)
        × ((b : ℕ) × (value_of business_id_column d ≡ some b)
            × (member b (allowed_business_ids t ctx) ≡ true)))
      ⊎ ((b : ℕ) × (ctx.business_id ≡ some b) × (out ≡ assign business_id_column (some b) d))

  pub police_business_lem :
      (d out : Data) → police_business dmmf t ctx d ≡ ok out → BusinessCase d out
  unfolding police_business
  police_business_lem d out e = go (value_of business_id_column d) ctx.business_id refl refl
    where
      go :
          (v w : Option ℕ)
          → value_of business_id_column d ≡ v
          → ctx.business_id ≡ w
          → BusinessCase d out
      go (some b) w ev ew = inl (ground arith, (b, ev, ground arith))
      go none (some b) ev ew = inr (b, ew, ground arith)
      go none none ev ew = absurd (ground arith)

  abbrev pub BranchCase : Data → Data → Type 0
  BranchCase d out =
      ((out ≡ d)
        × ((b : ℕ) × (value_of branch_id_column d ≡ some b)
            × (member b (allowed_branch_ids t ctx) ≡ true)
            × (is_terminal ctx ≡ false)))
      ⊎ ((is_terminal ctx ≡ true) × (out ≡ assign branch_id_column ctx.branch_id d))

  pub police_branch_lem : (d out : Data) → police_branch dmmf t ctx d ≡ ok out → BranchCase d out
  unfolding police_branch
  police_branch_lem d out e = go (value_of branch_id_column d) (is_terminal ctx) refl refl
    where
      go :
          (v : Option ℕ) (b : Bool)
          → value_of branch_id_column d ≡ v
          → is_terminal ctx ≡ b
          → BranchCase d out
      go v true ev eb = inr (eb, ground arith)
      go (some b) false ev eb = inl (ground arith, (b, ev, ground arith, eb))
      go none false ev eb = absurd (ground arith)

  pub police-IsPlain :
      (m : Model) (d out : Data)
      → IsPlain d
      → police_create_data dmmf t ctx m d ≡ ok out
      → IsPlain out
  unfolding police_create_data
  police-IsPlain m d out p e = go (tenant_direct m) refl
    where
      go : (c : Option ScopeColumn) → tenant_direct m ≡ c → IsPlain out
      go none ec = let same : out ≡ d = ground arith in rw same p
      go (some ScopeColumn.owner_column) ec =
          let same : out ≡ assign owner_id_column ctx.owner_id d = ground arith in
          rw same (assign-IsPlain owner_id_column ctx.owner_id d refl p)
      go (some ScopeColumn.business_column) ec =
          let calls : (police_business dmmf t ctx d >>= police_create_refs dmmf t ctx m) ≡ ok out =
            ground arith in
          let (mid, first, second) =
            >>=-eq-ok (police_business dmmf t ctx d) (police_create_refs dmmf t ctx m) calls in
          rw (police_create_refs_same m mid out second) (elim (police_business_lem d mid first) [
            | inl (same, _) ↦ rw same p
            | inr (b, _, same) ↦ rw same (assign-IsPlain business_id_column (some b) d refl p)
          ])
      go (some ScopeColumn.branch_column) ec =
          let calls : (police_branch dmmf t ctx d >>= police_create_refs dmmf t ctx m) ≡ ok out =
            ground arith in
          let (mid, first, second) =
            >>=-eq-ok (police_branch dmmf t ctx d) (police_create_refs dmmf t ctx m) calls in
          rw (police_create_refs_same m mid out second) (elim (police_branch_lem d mid first) [
            | inl (same, _) ↦ rw same p
            | inr (_, same) ↦ rw same (assign-IsPlain branch_id_column ctx.branch_id d refl p)
          ])
