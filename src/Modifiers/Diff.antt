-- ===== src/Modifiers/Diff.antt =====
-- src/portal/catalog/modifier-groups.service.ts: which links the replacement of a product's set
-- names.
use sentry_pos_be.Common.{
  ℕ, ◌<◌, ◌≡◌, ◌⊎◌, refl, sym, ap, ◌∙◌, Bool, true, false, not, ◌&&◌, ◌==◌, none, some, List, [],
  ◌∷◌, keep, is_some, arith, Option-cases, Bool-cases, inl, inr, ==_refl,
}
use mathlib.Core.Path.{subst}
use sentry_pos_be.Modifiers.{Link, includes}
use sentry_pos_be.Modifiers.Links.{distinct, link_of, to_create, to_restore, to_archive}

abbrev pub In : Link → List Link → Type 0
In x [] = ⊥
In x (y ∷ ys) = (x ≡ y) ⊎ In x ys

-- Ids are unique, and those from `next` on are free.
pub record IsKeyed (next : ℕ) (links : List Link) : Type 0 where
  pub by_id : (x y : Link) → In x links → In y links → x.id ≡ y.id → x ≡ y
  pub below : (x : Link) → In x links → x.id < next

-- A live link of the product to the group.
abbrev pub HasLive : ℕ → ℕ → List Link → Type 0
HasLive product group links =
    (l : Link) × In l links × (l.product_id ≡ product) × (l.group_id ≡ group) × (l.deleted ≡ false)

pub In-keep :
    (p : Link → Bool) (x : Link) (links : List Link) → In x links → p x ≡ true → In x (keep p links)
In-keep p x [] i e = absurd i
In-keep p x (y ∷ links) (inl same) e =
    let here : p y ≡ true = subst (λ z. p z ≡ true) same e in rw here (inl same)
In-keep p x (y ∷ links) (inr i) e = elim (Bool-cases (p y)) [
  | inl here ↦ rw here (inr (In-keep p x links i e))
  | inr there ↦ rw there (In-keep p x links i e)
]

pub keep-In :
    (p : Link → Bool) (x : Link) (links : List Link)
    → In x (keep p links)
    → In x links × (p x ≡ true)
keep-In p x [] i = absurd i
keep-In p x (y ∷ links) i = elim (Bool-cases (p y)) [
  | inl here ↦
      let i' : (x ≡ y) ⊎ In x (keep p links) = rw here at i in
      elim i' [
        | inl same ↦ (inl same, subst (λ z. p z ≡ true) (sym same) here)
        | inr more ↦ let (j, e) = keep-In p x links more in (inr j, e)
      ]
  | inr there ↦
      let i' : In x (keep p links) = rw there at i in
      let (j, e) = keep-In p x links i' in (inr j, e)
]

pub link_of-In :
    (g : ℕ) (links : List Link) (l : Link)
    → link_of g links ≡ some l
    → In l links × (l.group_id ≡ g)
unfolding link_of
link_of-In g [] l e = absurd (cc e)
link_of-In g (y ∷ links) l e = elim (Option-cases (link_of g links)) [
  | inl nothing ↦ elim (Bool-cases (y.group_id == g)) [
    | inl here ↦ (inl (ground arith), ground arith)
    | inr there ↦ absurd (ground arith)
  ]
  | inr (x, found) ↦ let (i, of) = link_of-In g links l (ground arith) in (inr i, of)
]

pub link_of-none :
    (g : ℕ) (links : List Link) (l : Link)
    → link_of g links ≡ none
    → In l links
    → (l.group_id == g) ≡ false
unfolding link_of
link_of-none g [] l e i = absurd i
link_of-none g (y ∷ links) l e i = elim (Option-cases (link_of g links)) [
  | inl nothing ↦ elim i [
    | inl same ↦
        let other : (y.group_id == g) ≡ false = ground arith in
        subst (λ z. (Link.group_id z == g) ≡ false) (sym same) other
    | inr more ↦ link_of-none g links l nothing more
  ]
  | inr (x, found) ↦ absurd (ground arith)
]

pub includes-keep :
    (g : ℕ) (p : ℕ → Bool) (xs : List ℕ) → includes g (keep p xs) ≡ (includes g xs && p g)
includes-keep g p [] = refl
includes-keep g p (x ∷ xs) = elim (Bool-cases (x == g)) [
  | inl here ↦
      let same : x ≡ g = ground arith in
      let of_g : p g ≡ p x = ap p (sym same) in
      elim (Bool-cases (p x)) [
        | inl taken ↦ rw (taken, here, of_g ∙ taken) refl
        | inr left ↦
            let rest : includes g (keep p xs) ≡ (includes g xs && p g) = includes-keep g p xs in
            let none_of : (includes g xs && p g) ≡ false = rw (of_g ∙ left) (ground arith) in
            rw (left, here, of_g ∙ left) (rest ∙ none_of)
      ]
  | inr there ↦ elim (Bool-cases (p x)) [
    | inl taken ↦ rw (taken, there) (includes-keep g p xs)
    | inr left ↦ rw (left, there) (includes-keep g p xs)
  ]
]

pub includes-distinct : (g : ℕ) (ids : List ℕ) → includes g (distinct ids) ≡ includes g ids
unfolding distinct
includes-distinct g [] = refl
includes-distinct g (x ∷ ids) = elim (Bool-cases (x == g)) [
  | inl here ↦ ground arith
  | inr there ↦
      let kept = includes-keep g (λ y. not (y == x)) (distinct ids) in
      let rest = includes-distinct g ids in ground arith
]

pub includes-to_create :
    (g : ℕ) (links : List Link) (groups : List ℕ)
    → includes g (to_create links groups) ≡ (includes g groups && not (is_some (link_of g links)))
unfolding to_create
includes-to_create g links groups = includes-keep g (λ x. not (is_some (link_of x links))) groups

pub restore-In :
    (i : ℕ) (links : List Link) (groups : List ℕ)
    → includes i (to_restore links groups) ≡ true
    → (l : Link) × In l links
      × (l.id ≡ i)
      × (l.deleted ≡ true)
      × (includes l.group_id groups ≡ true)
unfolding to_restore
restore-In i links [] e = absurd (cc e)
restore-In i links (g ∷ groups) e = elim (Option-cases (link_of g links)) [
  | inl nothing ↦
      let (l, there, same, gone, wanted) = restore-In i links groups (ground arith) in
      (l, there, same, gone, ground arith)
  | inr (x, found) ↦
      let (at, of) = link_of-In g links x found in
      elim (Bool-cases (x.deleted && x.id == i)) [
        | inl this ↦ (x, at, ground arith, ground arith, ground arith)
        | inr other ↦
            let (l, there, same, gone, wanted) = restore-In i links groups (ground arith) in
            (l, there, same, gone, ground arith)
      ]
]

pub restore_has :
    (g : ℕ) (links : List Link) (groups : List ℕ) (l : Link)
    → includes g groups ≡ true
    → link_of g links ≡ some l
    → l.deleted ≡ true
    → includes l.id (to_restore links groups) ≡ true
unfolding to_restore
restore_has g links [] l e found gone = absurd (cc e)
restore_has g links (x ∷ groups) l e found gone = elim (Bool-cases (x == g)) [
  | inl here ↦
      let same : x ≡ g = ground arith in
      let at_x : link_of x links ≡ some l = ap (λ n. link_of n links) same ∙ found in
      rw (to_restore, at_x, gone, ==_refl l.id) refl
  | inr there ↦
      let rest = restore_has g links groups l (ground arith) found gone in
      elim (Option-cases (link_of x links)) [
        | inl nothing ↦ rw (to_restore, nothing) rest
        | inr (y, at) ↦ ground arith
      ]
]

pub archive-In :
    (i : ℕ) (links : List Link) (desired : List ℕ)
    → includes i (to_archive links desired) ≡ true
    → (l : Link) × In l links
      × (l.id ≡ i)
      × (l.deleted ≡ false)
      × (includes l.group_id desired ≡ false)
unfolding to_archive
archive-In i [] desired e = absurd (cc e)
archive-In i (y ∷ links) desired e =
    elim (Bool-cases ((not y.deleted && not (includes y.group_id desired)) && y.id == i)) [
      | inl this ↦ (y, inl refl, ground arith, ground arith, ground arith)
      | inr other ↦
          let (l, there, same, live, unwanted) = archive-In i links desired (ground arith) in
          (l, inr there, same, live, unwanted)
    ]

pub archive_has :
    (l : Link) (links : List Link) (desired : List ℕ)
    → In l links
    → l.deleted ≡ false
    → includes l.group_id desired ≡ false
    → includes l.id (to_archive links desired) ≡ true
unfolding to_archive
archive_has l [] desired i live unwanted = absurd i
archive_has l (y ∷ links) desired (inl same) live unwanted =
    subst (λ z. includes (Link.id l) (to_archive (z ∷ links) desired) ≡ true) same
      (rw (to_archive, live, unwanted, ==_refl l.id) refl)
archive_has l (y ∷ links) desired (inr i) live unwanted =
    let rest = archive_has l links desired i live unwanted in
    elim (Bool-cases (not y.deleted && not (includes y.group_id desired))) [
      | inl this ↦ elim (Bool-cases (y.id == l.id)) [
        | inl e ↦ rw (to_archive, this, e) refl
        | inr e ↦ rw (to_archive, this, e) rest
      ]
      | inr other ↦ rw (to_archive, other) rest
    ]
