-- ===== src/Scope/References.antt =====
-- The references that `policeCreateRefs` of src/prisma/scoped-prisma.ts lets through.
use sentry_pos_be.Common.{
  ℕ, ◌≡◌, ◌⊎◌, refl, ◌∙◌, ap, sym, true, false, Option, none, some, List, [], ◌∷◌, ◌==◌, All,
  if◌then◌else◌, arith, ok, ◌>>◌, >>=-eq-ok, Bool-cases, inl, inr,
}
use sentry_pos_be.Scope.{Model, ScopeColumn, Dmmf, FkRef, fk_refs, tenant_direct, number_of}
use sentry_pos_be.Scope.Query.{Context, Tables, Data}
use sentry_pos_be.Scope.Visible.{is_own_business, member-allowed_business_ids}
use sentry_pos_be.Scope.Reads.{IsFresh}
use sentry_pos_be.Scope.Police.{
  value_of, assign, is_scope_column, resolve, walk_fuel, assert_in_scope, check_connects,
  connects_of, check_ref, check_refs, police_create_refs,
}

value_of-assign :
    (c k : ℕ) (v : Option ℕ) (d : Data)
    → (c == k) ≡ false
    → value_of k (assign c v d) ≡ value_of k d
value_of-assign c k v Data.end h = rw h
value_of-assign c k v (Data.value j u d) h = elim (Bool-cases (j == c)) [
  | inl e ↦ ground arith
  | inr e ↦ rw e (ap (λ (o : Option ℕ). if j == k then u else o) (value_of-assign c k v d h))
]
value_of-assign c k v (Data.nested j w d) h = value_of-assign c k v d h

module _ (dmmf : Dmmf) (t : Tables) (ctx : Context) (o : ℕ) (fresh : IsFresh ctx o) where
  -- A row whose walk ends at a live business of the owner, or a row of a platform model.
  abbrev pub IsInside : Model → ℕ → Type 0
  IsInside target k =
      (resolve dmmf t ctx walk_fuel target k ≡ none)
      ⊎ ((b : ℕ) × (resolve dmmf t ctx walk_fuel target k ≡ some (some b))
          × (is_own_business t o b ≡ true))

  assert_in_scope-IsInside :
      (target : Model) (k : ℕ) → assert_in_scope dmmf t ctx target k ≡ ok tt → IsInside target k
  unfolding assert_in_scope
  assert_in_scope-IsInside target k h = go (resolve dmmf t ctx walk_fuel target k) refl
    where
      go : (x : Option (Option ℕ)) → resolve dmmf t ctx walk_fuel target k ≡ x → IsInside target k
      go none e = inl e
      go (some none) e = absurd (ground arith)
      go (some (some b)) e = inr (
        b,
        e,
        sym (member-allowed_business_ids t o ctx fresh.owned fresh.businesses b) ∙ ground arith,
      )

  -- The references of the data, but the scope column itself.
  abbrev pub RefIsInside : Model → Data → FkRef → Type 0
  RefIsInside m d ref =
      (k : ℕ)
      → is_scope_column (tenant_direct m) ref.fk_column ≡ false
      → value_of ref.fk_column d ≡ some k
      → IsInside ref.target k

  check_ref-IsInside :
      (m : Model) (d : Data) (ref : FkRef)
      → check_ref dmmf t ctx m d ref ≡ ok tt
      → RefIsInside m d ref
  unfolding check_ref
  check_ref-IsInside m d ref h k other e =
      let below = check_connects dmmf t ctx ref.target (connects_of ref.relation_field d) in
      let calls : (assert_in_scope dmmf t ctx ref.target k >> below) ≡ ok tt = ground arith in
      let (x, here, later) =
        >>=-eq-ok (assert_in_scope dmmf t ctx ref.target k) (λ _. below) calls in
      assert_in_scope-IsInside ref.target k here

  check_refs-AreInside :
      (m : Model) (d : Data) (refs : List FkRef)
      → check_refs dmmf t ctx m d refs ≡ ok tt
      → All (RefIsInside m d) refs
  unfolding check_refs
  check_refs-AreInside m d [] h = tt
  check_refs-AreInside m d (ref ∷ refs) h =
      let (x, h1, e1) = >>=-eq-ok (check_ref dmmf t ctx m d ref) _ h in
      (check_ref-IsInside m d ref h1, check_refs-AreInside m d refs e1)

  pub police_create_refs-AreInside :
      (m : Model) (d out : Data)
      → police_create_refs dmmf t ctx m d ≡ ok out
      → All (RefIsInside m d) (fk_refs dmmf m)
  unfolding police_create_refs
  police_create_refs-AreInside m d out h =
      let (x, h1, e1) = >>=-eq-ok (check_refs dmmf t ctx m d (fk_refs dmmf m)) _ h in
      check_refs-AreInside m d (fk_refs dmmf m) h1

  -- The checks look at references that the assignment of the scope column leaves alone.
  pub unassigned :
      (m : Model) (c : ScopeColumn) (v : Option ℕ) (d : Data) (refs : List FkRef)
      → tenant_direct m ≡ some c
      → All (RefIsInside m (assign (number_of c) v d)) refs
      → All (RefIsInside m d) refs
  unassigned m c v d [] mapped h = tt
  unassigned m c v d (ref ∷ refs) mapped (here, there) = (
    λ k other e.
        let apart : (number_of c == ref.fk_column) ≡ false = rw mapped at other in
        here k other (value_of-assign (number_of c) ref.fk_column v d apart ∙ e),
    unassigned m c v d refs mapped there,
  )
