-- ===== src/Modifiers/Marks.antt =====
-- src/portal/catalog/modifier-groups.service.ts: where the rows come from that the nested writes leave.
use sentry_pos_be.Common.{
  ℕ, ◌+◌, ◌≤◌, ◌≡◌, ◌⊎◌, refl, ap, ◌∙◌, Bool, true, false, ◌==◌, if◌then◌else◌, List, [], ◌∷◌, ◌++◌,
  arith, Bool-cases, inl, inr,
}
use sentry_pos_be.Modifiers.{Link, includes}
use sentry_pos_be.Modifiers.Links.{link_rows, mark_links}
use sentry_pos_be.Modifiers.Diff.{In}

pub marked-In :
    (x : Link) (gone : Bool) (ids : List ℕ) (links : List Link)
    → In x (mark_links gone ids links)
    → (y : Link) × In y links
      × (x.id ≡ y.id)
      × (x.product_id ≡ y.product_id)
      × (x.group_id ≡ y.group_id)
      × (x.deleted ≡ (if includes y.id ids then gone else y.deleted))
unfolding mark_links
marked-In x gone ids [] i = absurd i
marked-In x gone ids (y ∷ links) (inl same) = elim (Bool-cases (includes y.id ids)) [
  | inl named ↦ (
    y,
    inl refl,
    ap Link.id same ∙ rw named refl,
    ap Link.product_id same ∙ rw named refl,
    ap Link.group_id same ∙ rw named refl,
    ap Link.deleted same ∙ rw named refl,
  )
  | inr kept ↦ (
    y,
    inl refl,
    ap Link.id same ∙ rw kept refl,
    ap Link.product_id same ∙ rw kept refl,
    ap Link.group_id same ∙ rw kept refl,
    ap Link.deleted same ∙ rw kept refl,
  )
]
marked-In x gone ids (y ∷ links) (inr i) =
    let (z, there, id_of, product_of, group_of, kept) = marked-In x gone ids links i in
    (z, inr there, id_of, product_of, group_of, kept)

pub In-marked :
    (y : Link) (gone : Bool) (ids : List ℕ) (links : List Link)
    → In y links
    → In (if includes y.id ids then record y { deleted = gone } else y) (mark_links gone ids links)
unfolding mark_links
In-marked y gone ids [] i = absurd i
In-marked y gone ids (z ∷ links) (inl same) =
    inl (ap (λ w. if includes (Link.id w) ids then record w { deleted = gone } else w) same)
In-marked y gone ids (z ∷ links) (inr i) = inr (In-marked y gone ids links i)

pub append-In : (x : Link) (links more : List Link) → In x (links ++ more) → In x links ⊎ In x more
append-In x [] more i = inr i
append-In x (y ∷ links) more (inl same) = inl (inl same)
append-In x (y ∷ links) more (inr i) = elim (append-In x links more i) [
  | inl here ↦ inl (inr here)
  | inr there ↦ inr there
]

pub In-left : (x : Link) (links more : List Link) → In x links → In x (links ++ more)
In-left x [] more i = absurd i
In-left x (y ∷ links) more (inl same) = inl same
In-left x (y ∷ links) more (inr i) = inr (In-left x links more i)

pub In-right : (x : Link) (links more : List Link) → In x more → In x (links ++ more)
In-right x [] more i = i
In-right x (y ∷ links) more i = inr (In-right x links more i)

pub new-In :
    (x : Link) (next product : ℕ) (groups : List ℕ)
    → In x (link_rows next product groups)
    → (next ≤ x.id)
      × (x.product_id ≡ product)
      × (includes x.group_id groups ≡ true)
      × (x.deleted ≡ false)
unfolding link_rows
new-In x next product [] i = absurd i
new-In x next product (g ∷ groups) (inl same) =
    (ground arith, ground arith, ground arith, ground arith)
new-In x next product (g ∷ groups) (inr i) =
    let (later, of, wanted, live) = new-In x (next + 1) product groups i in
    (omega arith, of, ground arith, live)

pub new_has :
    (g next product : ℕ) (groups : List ℕ)
    → includes g groups ≡ true
    → (x : Link) × In x (link_rows next product groups) × (x.group_id ≡ g)
unfolding link_rows
new_has g next product [] e = absurd (cc e)
new_has g next product (y ∷ groups) e = elim (Bool-cases (y == g)) [
  | inl here ↦ (
    record { id = next; product_id = product; group_id = y; deleted = false },
    inl refl,
    ground arith,
  )
  | inr there ↦
      let (x, i, of) = new_has g (next + 1) product groups (ground arith) in (x, inr i, of)
]
