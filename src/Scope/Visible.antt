-- ===== src/Scope/Visible.antt =====
-- What the filters of Filter match.
use sentry_pos_be.Common.{
  ℕ, ◌≡◌, refl, ◌∙◌, sym, Bool, true, false, Option, none, some, List, [], ◌∷◌, ◌==◌, ◌&&◌,
  if◌then◌else◌, opt_eq, keep, any, map, arith,
}
use sentry_pos_be.Scope.{Model, ScopeColumn, owner_id_column, business_id_column, branch_id_column}
use sentry_pos_be.Scope.Query.{Where, Row, meets, matches, Context, is_terminal, Tables}
use sentry_pos_be.Scope.Filter.{
  member, id_of, is_live, is_owned_by, query_business_ids, allowed_business_ids, in_one_of,
  query_branch_ids, allowed_branch_ids, both, and_where, not_deleted,
}

module _ (judge : ℕ → Row → Bool) (r : Row) where
  -- What the caller's own filter asks, if there is one.
  abbrev pub asked : Option Where → Bool
  asked none = true
  asked (some w) = matches judge r w

  pub matches-both :
      (a b : Where) → matches judge r (both a b) ≡ (matches judge r a && matches judge r b)
  unfolding matches
  matches-both a b = ground arith

  pub matches-and_where :
      (w : Option Where) (s : Where)
      → matches judge r (and_where w s) ≡ (asked w && matches judge r s)
  unfolding and_where
  matches-and_where none s = refl
  matches-and_where (some Where.anything) s = unfold matches in refl
  matches-and_where (some (Where.column c cond w)) s = matches-both _ s
  matches-and_where (some (Where.all_of ws w)) s = matches-both _ s
  matches-and_where (some (Where.any_of ws w)) s = matches-both _ s
  matches-and_where (some (Where.special n w)) s = matches-both _ s

  pub matches-not_deleted :
      (w : Where) → matches judge r (not_deleted w) ≡ (is_live r && matches judge r w)
  unfolding matches meets
  matches-not_deleted w = refl

module _ (p : Row → Bool) where
  pub any-map-keep :
      (k : ℕ) (rows : List Row)
      → member k (map id_of (keep p rows)) ≡ any (λ x. p x && (k == x.id)) rows
  any-map-keep k [] = refl
  any-map-keep k (x ∷ rows) = ground (arith, any-map-keep k rows)

pub any_congr {ℓ} :
    {A : Type ℓ} (p q : A → Bool) (xs : List A) → ((x : A) → p x ≡ q x) → any p xs ≡ any q xs
any_congr p q [] h = refl
any_congr p q (x ∷ xs) h = rw (h x, any_congr p q xs h)

pub any-false {ℓ} :
    {A : Type ℓ} (p : A → Bool) (xs : List A) → ((x : A) → p x ≡ false) → any p xs ≡ false
any-false p [] h = refl
any-false p (x ∷ xs) h = rw (h x, any-false p xs h)

pub keep_congr {ℓ} :
    {A : Type ℓ} (p q : A → Bool) (xs : List A) → ((x : A) → p x ≡ q x) → keep p xs ≡ keep q xs
keep_congr p q [] h = refl
keep_congr p q (x ∷ xs) h = rw (h x, keep_congr p q xs h)

module _ (t : Tables) (o : ℕ) where
  -- A live business of the owner.
  abbrev pub is_own_business : ℕ → Bool
  is_own_business k =
      any (λ (x : Row). is_live x && (opt_eq (x.columns owner_id_column) (some o) && (k == x.id)))
        (t.rows Model.business)

  abbrev pub is_own_business? : Option ℕ → Bool
  is_own_business? none = false
  is_own_business? (some k) = is_own_business k

  -- A live branch of such a business.
  abbrev pub is_own_branch : ℕ → Bool
  is_own_branch k =
      any
        (λ (x : Row). is_live x && (is_own_business? (x.columns business_id_column) && (k == x.id)))
        (t.rows Model.branch)

  abbrev pub is_own_branch? : Option ℕ → Bool
  is_own_branch? none = false
  is_own_branch? (some k) = is_own_branch k

  -- What a request of the owner may see: rows of the owner, of the owner's businesses, or of their
  -- branches, and only those of its own branch from a terminal.
  abbrev pub is_visible : Context → Option ScopeColumn → Row → Bool
  is_visible ctx (some ScopeColumn.owner_column) r = opt_eq (r.columns owner_id_column) (some o)
  is_visible ctx (some ScopeColumn.business_column) r =
      is_own_business? (r.columns business_id_column)
  is_visible ctx (some ScopeColumn.branch_column) r =
      if is_terminal ctx
      then opt_eq (r.columns branch_id_column) ctx.branch_id
      else is_own_branch? (r.columns branch_id_column)
  is_visible ctx none r = false

  module _ (ctx : Context) (mine : ctx.owner_id ≡ some o) where
    member-query_business_ids : (k : ℕ) → member k (query_business_ids t ctx) ≡ is_own_business k
    unfolding query_business_ids
    member-query_business_ids k = rw mine (
        any-map-keep (λ x. if is_owned_by (some o) x then is_live x else false) k
          (t.rows Model.business)
        ∙ any_congr _ _ (t.rows Model.business) (λ x. ground arith))

    module _ (fresh : ctx.business_ids ≡ none) where
      pub member-allowed_business_ids :
          (k : ℕ) → member k (allowed_business_ids t ctx) ≡ is_own_business k
      unfolding allowed_business_ids
      member-allowed_business_ids k = rw fresh (member-query_business_ids k)

      in_one_of-allowed :
          (v : Option ℕ) → in_one_of (allowed_business_ids t ctx) v ≡ is_own_business? v
      in_one_of-allowed none = refl
      in_one_of-allowed (some k) = member-allowed_business_ids k

      member-query_branch_ids :
          (k : ℕ) (bs : List ℕ)
          → member k (query_branch_ids t bs)
            ≡ any
                (λ (x : Row).
                  is_live x && (in_one_of bs (x.columns business_id_column) && (k == x.id)))
                (t.rows Model.branch)
      unfolding query_branch_ids
      member-query_branch_ids k [] = sym (
          any-false _ (t.rows Model.branch)
            (λ x. ground (arith, nothing (x.columns business_id_column))))
        where
          nothing : (v : Option ℕ) → in_one_of [] v ≡ false
          nothing none = refl
          nothing (some k) = refl
      member-query_branch_ids k (b ∷ bs) =
          any-map-keep
            (λ x. if in_one_of (b ∷ bs) (x.columns business_id_column) then is_live x else false) k
            (t.rows Model.branch)
          ∙ any_congr _ _ (t.rows Model.branch) (λ x. ground arith)

      pub member-allowed_branch_ids :
          (k : ℕ) → ctx.branch_ids ≡ none → member k (allowed_branch_ids t ctx) ≡ is_own_branch k
      unfolding allowed_branch_ids
      member-allowed_branch_ids k fresh_branches = rw fresh_branches (
          member-query_branch_ids k (allowed_business_ids t ctx)
          ∙ any_congr _ _ (t.rows Model.branch)
              (λ x. rw (in_one_of-allowed (x.columns business_id_column))))
