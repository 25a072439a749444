-- ===== src/Scope/Loads.antt =====
-- The relations that a read loads, in src/prisma/scoped-prisma.ts: `injectNestedSoftDelete` as the
-- platform's reads and those of a tenant call it.
use sentry_pos_be.Common.{
  ℕ, ◌≡◌, ◌⊎◌, refl, Bool, true, false, Option, none, some, ◌&&◌, Bool-cases, inl, inr,
}
use sentry_pos_be.Scope.{Model, Field, Dmmf, relation_of}
use sentry_pos_be.Scope.Query.{Where, Args, Clause, Context, Tables, Row, meets, matches}
use sentry_pos_be.Scope.Filter.{
  asks_deleted_at, merge_deleted_null, load_where, expand_whole, inject, inject_load, inject_clause,
  is_live,
}
use sentry_pos_be.Scope.Engine.{Engine}
use sentry_pos_be.Scope.Dispatch.{scoped_args, platform_args}
use sentry_pos_be.Scope.Visible.{asked}

abbrev pub asks? : Option Where → Bool
asks? none = false
asks? (some w) = asks_deleted_at w

-- A filter of the caller's that names deletedAt is left as it is; any other loads the live ones of the
-- rows that it asked for.
abbrev pub LoadsLive : Option Where → Option Where → Type 0
LoadsLive w sent =
    ((asks? w ≡ true) × (sent ≡ w))
    ⊎ ((asks? w ≡ false)
        × ((judge : ℕ → Row → Bool) (r : Row)
            → asked judge r sent ≡ (is_live r && asked judge r w)))

-- A key that stays `true`: no relation, or one to a single row.
abbrev pub IsSingle : Option Field → Type 0
IsSingle none = Unit
IsSingle (some f) = f.many ≡ false

-- A list that is requested with `true`.
abbrev pub IsExpanded : Option Field → Args → Type 0
IsExpanded none sent = ⊥
IsExpanded (some f) (Args.args w include select) =
    LoadsLive none w × ((include ≡ Clause.absent) × (select ≡ Clause.absent))

merge_deleted_null-LoadsLive : (w : Option Where) → LoadsLive w (some (merge_deleted_null w))
unfolding merge_deleted_null matches meets
merge_deleted_null-LoadsLive none = inr (refl, λ judge r. refl)
merge_deleted_null-LoadsLive (some w) = elim (Bool-cases (asks_deleted_at w)) [
  | inl e ↦ inl (e, rw e refl)
  | inr e ↦ inr (e, λ judge r. rw e refl)
]

module _ (dmmf : Dmmf) where
  -- The relations are the same, and at every depth each list among them is loaded live.
  unfoldable mutual
    unfolding relation_of

    pub ArgsLoadLive : Model → Args → Args → Type 0
    ArgsLoadLive m (Args.args w include select) (Args.args w' include' select') =
        ClauseLoadsLive m include include' × ClauseLoadsLive m select select'

    pub FieldLoadsLive : Option Field → Args → Args → Type 0
    FieldLoadsLive none a sent = sent ≡ a
    FieldLoadsLive (some f) (Args.args w include select) (Args.args w' include' select') =
        (f.many ≡ true → LoadsLive w w')
        × (ClauseLoadsLive f.target include include' × ClauseLoadsLive f.target select select')

    pub ClauseLoadsLive : Model → Clause → Clause → Type 0
    ClauseLoadsLive m Clause.absent Clause.absent = Unit
    ClauseLoadsLive m Clause.done Clause.done = Unit
    ClauseLoadsLive m (Clause.load key a c) (Clause.load key' sent c') =
        (key' ≡ key) × (FieldLoadsLive (relation_of dmmf m key) a sent × ClauseLoadsLive m c c')
    ClauseLoadsLive m (Clause.whole key c) (Clause.load key' sent c') =
        (key' ≡ key) × (IsExpanded (relation_of dmmf m key) sent × ClauseLoadsLive m c c')
    ClauseLoadsLive m (Clause.whole key c) (Clause.whole key' c') =
        (key' ≡ key) × (IsSingle (relation_of dmmf m key) × ClauseLoadsLive m c c')
    ClauseLoadsLive m (Clause.skip key c) (Clause.skip key' c') =
        (key' ≡ key) × ClauseLoadsLive m c c'
    ClauseLoadsLive m _ _ = ⊥

  expand_whole-ClauseLoadsLive :
      (m : Model) (key : ℕ) (f : Option Field) (c c' : Clause)
      → relation_of dmmf m key ≡ f
      → ClauseLoadsLive m c c'
      → ClauseLoadsLive m (Clause.whole key c) (expand_whole f key c')
  unfolding expand_whole ArgsLoadLive merge_deleted_null
  expand_whole-ClauseLoadsLive m key none c c' e h = rw e (refl, (tt, h))
  expand_whole-ClauseLoadsLive m key (some f) c c' e h = elim (Bool-cases f.many) [
    | inl many ↦ rw (many, e) (refl, ((merge_deleted_null-LoadsLive none, (refl, refl)), h))
    | inr single ↦ rw (single, e) (refl, (single, h))
  ]

  mutual
    unfolding inject ArgsLoadLive load_where

    args_live : (m : Model) (a : Args) → ArgsLoadLive m a (inject dmmf m a)
    args_live m (Args.args w include select) = (clause_live m include, clause_live m select)

    field_live : (f : Option Field) (a : Args) → FieldLoadsLive f a (inject_load dmmf f a)
    field_live none a = refl
    field_live (some f) (Args.args w include select) = (
      λ many. rw many (merge_deleted_null-LoadsLive w),
      (clause_live f.target include, clause_live f.target select),
    )

    clause_live : (m : Model) (c : Clause) → ClauseLoadsLive m c (inject_clause dmmf m c)
    clause_live m Clause.absent = tt
    clause_live m Clause.done = tt
    clause_live m (Clause.load key a c) =
        (refl, (field_live (relation_of dmmf m key) a, clause_live m c))
    clause_live m (Clause.whole key c) =
        expand_whole-ClauseLoadsLive m key (relation_of dmmf m key) c _ refl (clause_live m c)
    clause_live m (Clause.skip key c) = (refl, clause_live m c)

  -- A read that does not ask for deleted rows, of the platform or of a tenant (the audit log aside,
  -- whose reads are not filtered so), passes on the relations that it loads by `include` and `select`,
  -- and however deep: of every list it loads the live ones of the rows that were asked for, unless the
  -- caller's filter for that list names deletedAt, which is then passed on as it is.
  pub scoped_args-ArgsLoadLive :
      (e : Engine) (now : ℕ) (base : Tables) (ctx : Context) (m : Model) (a : Args)
      → ArgsLoadLive m a (platform_args e dmmf now base m false a)
        × ArgsLoadLive m a (scoped_args e dmmf now base ctx m false a)
  unfolding scoped_args platform_args inject ArgsLoadLive
  scoped_args-ArgsLoadLive e now base ctx m (Args.args w include select) =
      (args_live m (Args.args w include select), (clause_live m include, clause_live m select))
