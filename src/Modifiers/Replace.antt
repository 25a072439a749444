-- ===== src/Modifiers/Replace.antt =====
-- src/portal/catalog/modifier-groups.service.ts: the links that setProductGroups leaves.
use sentry_pos_be.Common.{
  ℕ, ◌≡◌, ◌⊎◌, refl, sym, ap, ◌∙◌, true, false, not, ◌&&◌, List, ◌++◌, keep, is_some, arith,
  Option-cases, Bool-cases, inl, inr,
}
use mathlib.Core.Path.{subst}
use sentry_pos_be.Modifiers.{Link, includes}
use sentry_pos_be.Modifiers.Links.{
  LinkChanges, distinct, link_of, to_create, to_restore, to_archive, link_rows, mark_links,
  write_links, is_link_of,
}
use sentry_pos_be.Modifiers.Diff.{
  In, IsKeyed, HasLive, In-keep, keep-In, link_of-In, includes-to_create, includes-distinct,
  restore-In, restore_has, archive-In, archive_has,
}
use sentry_pos_be.Modifiers.Marks.{
  marked-In, In-marked, append-In, In-left, In-right, new-In, new_has,
}

module _ (next product : ℕ) (links : List Link) (desired : List ℕ)
    (keyed : IsKeyed next links) where
  abbrev pub own : List Link
  own = keep (is_link_of product) links

  abbrev pub changes : LinkChanges
  changes = record {
    create = to_create own (distinct desired);
    update = to_restore own (distinct desired);
    delete = to_archive own desired;
  }

  pub own-In : (l : Link) → In l own → In l links × (l.product_id ≡ product)
  own-In l i = let (at, e) = keep-In (is_link_of product) l links i in (at, ground arith)

  In-own : (l : Link) → In l links → l.product_id ≡ product → In l own
  In-own l i e = In-keep (is_link_of product) l links i (ground arith)

  -- A row that is there or new, and live but for the marks, is live afterwards.
  pub survives :
      (z : Link)
      → In z (links ++ link_rows next product changes.create)
      → includes z.id changes.delete ≡ false
      → (includes z.id changes.update ≡ true) ⊎ (z.deleted ≡ false)
      → HasLive z.product_id z.group_id (write_links next product changes links)
  unfolding write_links
  survives z i kept back =
      let rows = links ++ link_rows next product changes.create in
      elim (Bool-cases (includes z.id changes.update)) [
        | inl up ↦
            let y : Link = record z { deleted = false } in
            let there : In y (mark_links false changes.update rows) =
              rw up at (In-marked z false changes.update rows i) in
            let here : In y
                (mark_links true changes.delete (mark_links false changes.update rows)) =
              rw kept at (In-marked y true changes.delete _ there) in
            (y, here, refl, refl, refl)
        | inr still ↦
            let there : In z (mark_links false changes.update rows) =
              rw still at (In-marked z false changes.update rows i) in
            let here : In z
                (mark_links true changes.delete (mark_links false changes.update rows)) =
              rw kept at (In-marked z true changes.delete _ there) in
            (z, here, refl, refl, elim back [ inl up ↦ absurd (cc (up, still)) | inr live ↦ live ])
      ]

  -- A row that is live afterwards was there or is new, is not archived, and was live or is restored.
  pub comes_from :
      (p g : ℕ)
      → HasLive p g (write_links next product changes links)
      → (z : Link) × In z (links ++ link_rows next product changes.create)
        × (z.product_id ≡ p)
        × (z.group_id ≡ g)
        × (includes z.id changes.delete ≡ false)
        × ((includes z.id changes.update ≡ true) ⊎ (z.deleted ≡ false))
  unfolding write_links
  comes_from p g (x, i, of, to, live) =
      let rows = links ++ link_rows next product changes.create in
      let (y, at_y, id_y, product_y, group_y, kept_y) =
        marked-In x true changes.delete (mark_links false changes.update rows) i in
      let (z, at_z, id_z, product_z, group_z, kept_z) =
        marked-In y false changes.update rows at_y in
      elim (Bool-cases (includes y.id changes.delete)) [
        | inl gone ↦ absurd (ground arith)
        | inr kept ↦ (
          z,
          at_z,
          sym product_z ∙ sym product_y ∙ of,
          sym group_z ∙ sym group_y ∙ to,
          ap (λ n. includes n changes.delete) (sym id_z) ∙ kept,
          elim (Bool-cases (includes z.id changes.update)) [
            | inl up ↦ inl up
            | inr still ↦ inr (ground arith)
          ],
        )
      ]

  pub live_is_desired :
      (g : ℕ)
      → HasLive product g (write_links next product changes links)
      → includes g desired ≡ true
  live_is_desired g after =
      let (z, at, of, to, kept, back) = comes_from product g after in
      elim (append-In z links (link_rows next product changes.create) at) [
        | inr new ↦
            let (free, of_new, wanted, live) = new-In z next product changes.create new in
            let asked : (includes z.group_id (distinct desired)
                  && not (is_some (link_of z.group_id own)))
                ≡ true =
              sym (includes-to_create z.group_id own (distinct desired)) ∙ wanted in
            let set_has : includes z.group_id (distinct desired) ≡ true = ground arith in
            subst (λ n. includes n desired ≡ true) to
              (sym (includes-distinct z.group_id desired) ∙ set_has)
        | inl old ↦ elim back [
          | inl up ↦
              let (l, at_l, same, gone, wanted) = restore-In z.id own (distinct desired) up in
              let is_z : l ≡ z = IsKeyed.by_id keyed l z (own-In l at_l).0 old same in
              sym (includes-distinct g desired)
              ∙ subst (λ n. includes n (distinct desired) ≡ true) (ap Link.group_id is_z ∙ to)
                  wanted
          | inr live ↦ elim (Bool-cases (includes z.group_id desired)) [
            | inl wanted ↦ subst (λ n. includes n desired ≡ true) to wanted
            | inr unwanted ↦
                let gone = archive_has z own desired (In-own z old of) live unwanted in
                absurd (cc (gone, kept))
          ]
        ]
      ]

  pub desired_is_live :
      (g : ℕ)
      → includes g desired ≡ true
      → HasLive product g (write_links next product changes links)
  desired_is_live g wanted = elim (Option-cases (link_of g own)) [
    | inl nothing ↦
        let asked : includes g changes.create ≡ true =
          includes-to_create g own (distinct desired)
          ∙ rw (includes-distinct g desired ∙ wanted, nothing) refl in
        let (x, new, to) = new_has g next product changes.create asked in
        let (free, of, _, live) = new-In x next product changes.create new in
        let kept : includes x.id changes.delete ≡ false =
          elim (Bool-cases (includes x.id changes.delete)) [
            | inr kept ↦ kept
            | inl gone ↦
                let (l, at_l, same, _, _) = archive-In x.id own desired gone in
                let low = IsKeyed.below keyed l (own-In l at_l).0 in
                absurd (omega (arith, free, low, same))
          ] in
        subst (λ n. HasLive n g (write_links next product changes links)) of
          (subst (λ n. HasLive x.product_id n (write_links next product changes links)) to
            (survives x (In-right x links _ new) kept (inr live)))
    | inr (l, found) ↦
        let (at, to) = link_of-In g own l found in
        let (there, of) = own-In l at in
        let kept : includes l.id changes.delete ≡ false =
          elim (Bool-cases (includes l.id changes.delete)) [
            | inr kept ↦ kept
            | inl gone ↦
                let (m, at_m, same, _, unwanted) = archive-In l.id own desired gone in
                let is_l : m ≡ l = IsKeyed.by_id keyed m l (own-In m at_m).0 there same in
                let lost : includes g desired ≡ false =
                  subst (λ n. includes n desired ≡ false) (ap Link.group_id is_l ∙ to) unwanted in
                absurd (cc (lost, wanted))
          ] in
        let back : (includes l.id changes.update ≡ true) ⊎ (l.deleted ≡ false) =
          elim (Bool-cases l.deleted) [
            | inl gone ↦ inl (
                restore_has g own (distinct desired) l (includes-distinct g desired ∙ wanted) found
                  gone)
            | inr live ↦ inr live
          ] in
        subst (λ n. HasLive n g (write_links next product changes links)) of
          (subst (λ n. HasLive l.product_id n (write_links next product changes links)) to
            (survives l (In-left l links _ there) kept back))
  ]
