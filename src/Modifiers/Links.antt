-- ===== src/Modifiers/Links.antt =====
-- src/portal/catalog/modifier-groups.service.ts: the set of groups that a product is linked to.
use sentry_pos_be.Common.{
  ℕ, ◌+◌, Bool, true, false, not, ◌&&◌, ◌==◌, if◌then◌else◌, Option, none, some, List, [], ◌∷◌,
  ◌++◌, map, any, find, keep, is_some, Error, Result, ok, err,
}
use sentry_pos_be.Db.{Db, Product}
use sentry_pos_be.Sales.Draft.{owns_business}
use sentry_pos_be.Modifiers.{ModifierGroup, Link, includes}

-- The nested writes: groups to link, links to bring back, links to archive.
pub record LinkChanges : Type 0 where
  pub create : List ℕ
  pub update : List ℕ
  pub delete : List ℕ

-- `new Set(desired)`, in the order of the first occurrences.
unfoldable pub distinct : List ℕ → List ℕ
distinct [] = []
distinct (x ∷ xs) = x ∷ keep (λ y. not (y == x)) (distinct xs)

-- `byGroup.get`: of two links to a group the later one is in the map.
unfoldable pub link_of : ℕ → List Link → Option Link
link_of group [] = none
link_of group (l ∷ links) = elim (link_of group links) [
  | some later ↦ some later
  | none ↦ if l.group_id == group then some l else none
]

-- The groups that have no link yet.
unfoldable pub to_create : List Link → List ℕ → List ℕ
unfolding link_of
to_create links groups = keep (λ g. not (is_some (link_of g links))) groups

-- The archived links of the groups.
unfoldable pub to_restore : List Link → List ℕ → List ℕ
unfolding link_of
to_restore links [] = []
to_restore links (g ∷ groups) =
    let rest = to_restore links groups in
    elim (link_of g links) [ none ↦ rest | some l ↦ if l.deleted then l.id ∷ rest else rest ]

-- The live links to other groups.
unfoldable pub to_archive : List Link → List ℕ → List ℕ
to_archive links desired =
    map (λ (l : Link). l.id)
      (keep (λ (l : Link). not l.deleted && not (includes l.group_id desired)) links)

abbrev pub is_none_left : List ℕ → Bool
is_none_left [] = true
is_none_left (_ ∷ _) = false

-- `buildLinkReplaceSet`.
unfoldable pub build_link_replace_set : List Link → List ℕ → Option LinkChanges
unfolding to_create to_restore to_archive distinct
build_link_replace_set links desired =
    let changes : LinkChanges = record {
      create = to_create links (distinct desired);
      update = to_restore links (distinct desired);
      delete = to_archive links desired;
    } in
    if is_none_left changes.create && is_none_left changes.update && is_none_left changes.delete
    then none
    else some changes

-- What the database does: new rows under ids that are free, and the marks on the rows named.
unfoldable pub link_rows : ℕ → ℕ → List ℕ → List Link
link_rows next product [] = []
link_rows next product (g ∷ groups) =
    (record { id = next; product_id = product; group_id = g; deleted = false })
    ∷ link_rows (next + 1) product groups

unfoldable pub mark_links : Bool → List ℕ → List Link → List Link
mark_links gone ids [] = []
mark_links gone ids (l ∷ links) =
    (if includes l.id ids then record l { deleted = gone } else l) ∷ mark_links gone ids links

unfoldable pub write_links : ℕ → ℕ → LinkChanges → List Link → List Link
unfolding link_rows mark_links
write_links next product changes links =
    mark_links true changes.delete
      (mark_links false changes.update (links ++ link_rows next product changes.create))

abbrev pub is_link_of : ℕ → Link → Bool
is_link_of product l = l.product_id == product

-- The first of the groups that the business does not have.
unfoldable pub missing_group : ℕ → List ModifierGroup → List ℕ → Option ℕ
missing_group business groups ids =
    find
      (λ id. not (
        any (λ (g : ModifierGroup). (g.id == id && g.business_id == business) && not g.deleted)
          groups))
      ids

unfoldable pub live_groups : ℕ → List Link → List ℕ
live_groups product links =
    map (λ (l : Link). l.group_id)
      (keep (λ (l : Link). is_link_of product l && not l.deleted) links)

module _ {W : Type 0} where
  -- The product, if the owner may see it.
  unfoldable pub owned_product : ℕ → Db W → ℕ → Option Product
  unfolding owns_business
  owned_product owner db id =
      find (λ p. (p.id == id && not p.deleted) && owns_business db owner p.business_id) db.products

  -- `setProductGroups`: the groups that are linked then, and the links.
  unfoldable pub set_product_groups :
      ℕ → Db W → ℕ → List ModifierGroup → ℕ → List ℕ → List Link → Result (List ℕ × List Link)
  unfolding owned_product missing_group build_link_replace_set write_links live_groups
  set_product_groups owner db next groups product ids links =
      elim (owned_product owner db product) [
        | none ↦ err Error.not_found
        | some p ↦ elim (missing_group p.business_id groups ids) [
          | some _ ↦ err Error.validation
          | none ↦ elim (build_link_replace_set (keep (is_link_of product) links) ids) [
            | none ↦ ok (live_groups product links, links)
            | some changes ↦
                let after = write_links next product changes links in
                ok (live_groups product after, after)
          ]
        ]
      ]
