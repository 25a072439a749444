-- ===== src/Modifiers/Tests.antt =====
-- A product whose groups are set, with a link to keep away, one to bring back and one to make.
use sentry_pos_be.Common.{
  ℕ, ◌<◌, ◌≡◌, refl, sym, ◌∙◌, Bool, true, false, List, [], ◌∷◌, arith, inl, inr,
}
use sentry_pos_be.Sales.Draft.{owns_business}
use sentry_pos_be.Sample.{db}
use sentry_pos_be.Modifiers.{Link, ModifierGroup, includes}
use sentry_pos_be.Modifiers.Links.{
  set_product_groups, owned_product, missing_group, build_link_replace_set, distinct, link_of,
  to_create, to_restore, to_archive, write_links, link_rows, mark_links, live_groups,
}
use sentry_pos_be.Modifiers.Diff.{In, IsKeyed}
use sentry_pos_be.Modifiers.Exact.{IsReplaced, set_product_groups_lem}

abbrev group : ℕ → ModifierGroup
group n = record {
  id = n;
  business_id = 1;
  min_select = 0;
  max_select = 1;
  modifiers = [];
  deleted = false;
}

abbrev link : ℕ → ℕ → ℕ → Bool → Link
link n product to gone = record { id = n; product_id = product; group_id = to; deleted = gone }

abbrev links : List Link
links = link 1 10 1 false ∷ link 2 10 2 true ∷ link 3 11 1 false ∷ []

abbrev links_after : List Link
links_after = link 1 10 1 true ∷ link 2 10 2 false ∷ link 3 11 1 false ∷ link 4 10 3 false ∷ []

below_four : (x : Link) → In x links → x.id < 4
below_four x (inl e) = ground arith
below_four x (inr (inl e)) = ground arith
below_four x (inr (inr (inl e))) = ground arith
below_four x (inr (inr (inr i))) = absurd i

same_row : (x y : Link) → In x links → In y links → x.id ≡ y.id → x ≡ y
same_row x y (inl e) (inl f) same = e ∙ sym f
same_row x y (inr (inl e)) (inr (inl f)) same = e ∙ sym f
same_row x y (inr (inr (inl e))) (inr (inr (inl f))) same = e ∙ sym f
same_row x y (inl e) (inr (inl f)) same = absurd (ground arith)
same_row x y (inl e) (inr (inr (inl f))) same = absurd (ground arith)
same_row x y (inr (inl e)) (inl f) same = absurd (ground arith)
same_row x y (inr (inl e)) (inr (inr (inl f))) same = absurd (ground arith)
same_row x y (inr (inr (inl e))) (inl f) same = absurd (ground arith)
same_row x y (inr (inr (inl e))) (inr (inl f)) same = absurd (ground arith)
same_row x y (inl e) (inr (inr (inr i))) same = absurd i
same_row x y (inr (inl e)) (inr (inr (inr i))) same = absurd i
same_row x y (inr (inr (inl e))) (inr (inr (inr i))) same = absurd i
same_row x y (inr (inr (inr i))) _ same = absurd i

links-IsKeyed : IsKeyed 4 links
links-IsKeyed = record { by_id = same_row; below = below_four }

set_product_groups_lem_example :
    IsReplaced 10 (2 ∷ 3 ∷ 2 ∷ []) links links_after
    × ((g : ℕ) → includes g (2 ∷ 3 ∷ []) ≡ includes g (2 ∷ 3 ∷ 2 ∷ []))
unfolding set_product_groups owned_product missing_group build_link_replace_set distinct link_of
    to_create to_restore to_archive write_links link_rows mark_links live_groups owns_business
set_product_groups_lem_example =
    set_product_groups_lem 7 db 4 (group 1 ∷ group 2 ∷ group 3 ∷ []) 10 (2 ∷ 3 ∷ 2 ∷ []) links
      (2 ∷ 3 ∷ []) links_after links-IsKeyed refl
