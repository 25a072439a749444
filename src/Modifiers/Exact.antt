-- ===== src/Modifiers/Exact.antt =====
-- src/portal/catalog/modifier-groups.service.ts: setProductGroups as a whole.
use sentry_pos_be.Common.{
  ℕ, ◌≡◌, ◌↔◌, refl, sym, ap, ◌∙◌, Bool, true, false, not, ◌&&◌, ◌==◌, List, [], ◌∷◌, ◌++◌, arith,
  ok, Option-cases, Bool-cases, inl, inr,
}
use mathlib.Core.Path.{subst}
use sentry_pos_be.Db.{Db}
use sentry_pos_be.Modifiers.{Link, ModifierGroup, includes}
use sentry_pos_be.Modifiers.Links.{
  LinkChanges, mark_links, write_links, link_rows, is_link_of, build_link_replace_set, is_none_left,
  owned_product, missing_group, live_groups, set_product_groups,
}
use sentry_pos_be.Modifiers.Diff.{In, IsKeyed, HasLive, restore-In, archive-In}
use sentry_pos_be.Modifiers.Marks.{append-In, In-left, new-In}
use sentry_pos_be.Modifiers.Replace.{
  own, own-In, changes, survives, comes_from, live_is_desired, desired_is_live,
}

-- The product is linked to just the wanted groups, every other product to those it was linked to.
abbrev pub IsReplaced : ℕ → List ℕ → List Link → List Link → Type 0
IsReplaced product desired before after =
    ((g : ℕ) → HasLive product g after ↔ (includes g desired ≡ true))
    × ((q g : ℕ) → (q == product) ≡ false → HasLive q g after ↔ HasLive q g before)

module _ (next product : ℕ) (links : List Link) (desired : List ℕ)
    (keyed : IsKeyed next links) where
  not_own :
      (z l : Link)
      → In z links
      → (z.product_id == product) ≡ false
      → In l (own next product links desired keyed)
      → l.id ≡ z.id
      → ⊥
  not_own z l at other i same =
      let (there, of) = own-In next product links desired keyed l i in
      let is_z : l ≡ z = IsKeyed.by_id keyed l z there at same in
      let whose : z.product_id ≡ product = sym (ap Link.product_id is_z) ∙ of in
      absurd (ground arith)

  others_stay :
      (q g : ℕ)
      → (q == product) ≡ false
      → HasLive q g (write_links next product (changes next product links desired keyed) links)
        ↔ HasLive q g links
  others_stay q g other =
      let plan = changes next product links desired keyed in
      (
        λ after.
            let (z, at, of, to, kept, back) =
              comes_from next product links desired keyed q g after in
            elim (append-In z links (link_rows next product (LinkChanges.create plan)) at) [
              | inr new ↦
                  let (_, of_new, _, _) = new-In z next product (LinkChanges.create plan) new in
                  absurd (ground arith)
              | inl old ↦ elim back [
                | inl up ↦
                    let (l, at_l, same, _, _) =
                      restore-In z.id (own next product links desired keyed) _ up in
                    absurd (not_own z l old (ground arith) at_l same)
                | inr live ↦ (z, old, of, to, live)
              ]
            ],
        λ (z, at, of, to, live).
            let kept : includes z.id (LinkChanges.delete plan) ≡ false =
              elim (Bool-cases (includes z.id (LinkChanges.delete plan))) [
                | inr kept ↦ kept
                | inl gone ↦
                    let (l, at_l, same, _, _) =
                      archive-In z.id (own next product links desired keyed) desired gone in
                    absurd (not_own z l at (ground arith) at_l same)
              ] in
            subst (λ n. HasLive n g (write_links next product plan links)) of
              (subst (λ n. HasLive z.product_id n (write_links next product plan links)) to
                (survives next product links desired keyed z (In-left z links _ at) kept
                  (inr live))),
      )

  written-IsReplaced :
      IsReplaced product desired links
        (write_links next product (changes next product links desired keyed) links)
  written-IsReplaced = (
    λ g. (
      live_is_desired next product links desired keyed g,
      desired_is_live next product links desired keyed g,
    ),
    others_stay,
  )

marks_none : (gone : Bool) (links : List Link) → mark_links gone [] links ≡ links
unfolding mark_links
marks_none gone [] = refl
marks_none gone (l ∷ links) = ap (λ rest. l ∷ rest) (marks_none gone links)

append_none : (links : List Link) → links ++ [] ≡ links
append_none [] = refl
append_none (l ∷ links) = ap (λ rest. l ∷ rest) (append_none links)

empty_list : (xs : List ℕ) → is_none_left xs ≡ true → xs ≡ []
empty_list [] e = refl
empty_list (x ∷ xs) e = absurd (cc e)

writes_nothing :
    (next product : ℕ) (plan : LinkChanges) (links : List Link)
    → (is_none_left plan.create && is_none_left plan.update && is_none_left plan.delete) ≡ true
    → write_links next product plan links ≡ links
unfolding write_links link_rows
writes_nothing next product plan links e =
    let created = empty_list plan.create (ground arith) in
    let updated = empty_list plan.update (ground arith) in
    let deleted = empty_list plan.delete (ground arith) in
    rw (write_links, created, updated, deleted)
      (marks_none true (mark_links false [] (links ++ []))
        ∙ marks_none false (links ++ [])
        ∙ append_none links)

live_groups-HasLive :
    (product g : ℕ) (links : List Link)
    → includes g (live_groups product links) ≡ true
    → HasLive product g links
unfolding live_groups
live_groups-HasLive product g [] e = absurd (cc e)
live_groups-HasLive product g (x ∷ links) e =
    elim (Bool-cases ((is_link_of product x && not x.deleted) && x.group_id == g)) [
      | inl this ↦ (x, inl refl, ground arith, ground arith, ground arith)
      | inr other ↦
          let (l, i, of, to, live) = live_groups-HasLive product g links (ground arith) in
          (l, inr i, of, to, live)
    ]

HasLive-live_groups :
    (product g : ℕ) (links : List Link)
    → HasLive product g links
    → includes g (live_groups product links) ≡ true
unfolding live_groups
HasLive-live_groups product g [] (l, i, of, to, live) = absurd i
HasLive-live_groups product g (x ∷ links) (l, inl same, of, to, live) =
    let of_x : x.product_id ≡ product = sym (ap Link.product_id same) ∙ of in
    let to_x : x.group_id ≡ g = sym (ap Link.group_id same) ∙ to in
    let live_x : x.deleted ≡ false = sym (ap Link.deleted same) ∙ live in ground arith
HasLive-live_groups product g (x ∷ links) (l, inr i, of, to, live) =
    let rest = HasLive-live_groups product g links (l, i, of, to, live) in
    elim (Bool-cases (is_link_of product x && not x.deleted)) [
      | inl this ↦ ground arith
      | inr other ↦ ground arith
    ]

live_groups_replaced :
    (product : ℕ) (desired : List ℕ) (before after : List Link)
    → IsReplaced product desired before after
    → (g : ℕ) → includes g (live_groups product after) ≡ includes g desired
live_groups_replaced product desired before after (exact, _) g =
    elim (Bool-cases (includes g desired)) [
      | inl wanted ↦ HasLive-live_groups product g after ((exact g).1 wanted) ∙ sym wanted
      | inr unwanted ↦ elim (Bool-cases (includes g (live_groups product after))) [
        | inl shown ↦
            let wanted = (exact g).0 (live_groups-HasLive product g after shown) in
            absurd (cc (wanted, unwanted))
        | inr hidden ↦ hidden ∙ sym unwanted
      ]
    ]

-- Setting the groups of a product, when it goes through and the ids of the links are unique, leaves the
-- product linked to exactly the groups that were sent, whichever of them were new, archived or linked
-- before and however often one was sent, and it answers with those; the live links of the other
-- products are as they were.
pub set_product_groups_lem :
    {W : Type 0} (owner : ℕ) (db : Db W) (next : ℕ) (groups : List ModifierGroup) (product : ℕ)
    (desired : List ℕ) (links : List Link) (answer : List ℕ) (after : List Link)
    → IsKeyed next links
    → set_product_groups owner db next groups product desired links ≡ ok (answer, after)
    → IsReplaced product desired links after × ((g : ℕ) → includes g answer ≡ includes g desired)
unfolding set_product_groups build_link_replace_set
set_product_groups_lem owner db next groups product desired links answer after keyed e =
    elim (Option-cases (owned_product owner db product)) [
      | inl unknown ↦ absurd (ground arith)
      | inr (p, known) ↦ elim (Option-cases (missing_group p.business_id groups desired)) [
        | inr (g, missing) ↦ absurd (ground arith)
        | inl complete ↦
            let plan = changes next product links desired keyed in
            let written = write_links next product plan links in
            let replaced = written-IsReplaced next product links desired keyed in
            let (same, told) : (written ≡ after) × (live_groups product after ≡ answer) =
              elim (Bool-cases (
                is_none_left plan.create && is_none_left plan.update && is_none_left plan.delete)) [
                  | inl idle ↦
                      let kept : links ≡ after = ground arith in
                      let told : live_groups product links ≡ answer = ground arith in
                      (
                        writes_nothing next product plan links idle ∙ kept,
                        ap (live_groups product) (sym kept) ∙ told,
                      )
                  | inr busy ↦
                      let kept : written ≡ after = ground arith in
                      let told : live_groups product written ≡ answer = ground arith in
                      (kept, ap (live_groups product) (sym kept) ∙ told)
                ] in
            let exact : IsReplaced product desired links after =
              subst (λ rows. IsReplaced product desired links rows) same replaced in
            (
              exact,
              λ g.
                  ap (λ ids. includes g ids) (sym told)
                  ∙ live_groups_replaced product desired links after exact g,
            )
      ]
    ]
