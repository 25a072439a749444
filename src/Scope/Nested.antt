-- ===== src/Scope/Nested.antt =====
-- `rewriteNestedWrites` of src/prisma/scoped-prisma.ts: nested deletes become updates that set
-- deletedAt, and what the nested writes touch is listed.
use sentry_pos_be.Common.{
  Option, none, some, ℕ, Bool, false, none, some, List, [], ◌∷◌, ◌++◌, ◌==◌, if◌then◌else◌,
}
use sentry_pos_be.Scope.{Model, Field, Dmmf, relation_of, deleted_at_column}
use sentry_pos_be.Scope.Query.{Where, Data, Writes, Creates, Changes}

pub data TouchKind : Type 0 where
  touch_update touch_delete touch_delete_many touch_create : TouchKind

pub record Touched : Type 0 where
  pub model : Model
  pub kind : TouchKind
  pub where_ : Where

-- `{ deletedAt: new Date() }`.
abbrev pub stamp : ℕ → Data
stamp now = Data.value deleted_at_column (some now) Data.end

-- `Object.keys(data).length === 1 && 'deletedAt' in data`.
abbrev pub is_soft_delete : Data → Bool
is_soft_delete (Data.value c v Data.end) = c == deleted_at_column
is_soft_delete _ = false

-- `updates.push({ where: d, data: { deletedAt } })` for each deleted one.
abbrev pub push_stamps : ℕ → Changes → List Where → Changes
push_stamps now Changes.no_changes [] = Changes.no_changes
push_stamps now Changes.no_changes (w ∷ ws) =
    Changes.changing w (stamp now) (push_stamps now Changes.no_changes ws)
push_stamps now (Changes.changing w d cs) ws = Changes.changing w d (push_stamps now cs ws)

abbrev pub touches : Model → TouchKind → List Where → List Touched
touches m kind [] = []
touches m kind (w ∷ ws) = (record { model = m; kind = kind; where_ = w }) ∷ touches m kind ws

abbrev pub touches_of_creates : Model → Creates → List Touched
touches_of_creates m Creates.no_creates = []
touches_of_creates m (Creates.creating d cs) =
    (record { model = m; kind = TouchKind.touch_create; where_ = Where.anything }) ∷ []

module _ (dmmf : Dmmf) (now : ℕ) where
  -- The rewritten data. The deletes are pushed behind the updates, whose data are rewritten in turn;
  -- `updateMany` and `create` are passed on as they are.
  unfoldable mutual
    unfolding relation_of

    pub rewrite_nested : Model → Data → Data
    rewrite_nested m Data.end = Data.end
    rewrite_nested m (Data.value c v d) = Data.value c v (rewrite_nested m d)
    rewrite_nested m (Data.nested key w d) =
        Data.nested key (rewrite_writes (relation_of dmmf m key) w) (rewrite_nested m d)

    pub rewrite_writes : Option Field → Writes → Writes
    rewrite_writes none w = w
    rewrite_writes (some f) (Writes.writes made connected updated deleted many gone) =
        Writes.writes made connected (push_stamps now (rewrite_changes f.target updated) deleted) []
          (push_stamps now many gone) []

    pub rewrite_changes : Model → Changes → Changes
    rewrite_changes m Changes.no_changes = Changes.no_changes
    rewrite_changes m (Changes.changing w d cs) =
        Changes.changing w (rewrite_nested m d) (rewrite_changes m cs)

module _ (dmmf : Dmmf) where
  -- The list `touched` that the same walk fills.
  unfoldable mutual
    unfolding relation_of

    pub touched_by : Model → Data → List Touched
    touched_by m Data.end = []
    touched_by m (Data.value c v d) = touched_by m d
    touched_by m (Data.nested key w d) =
        touched_by_writes (relation_of dmmf m key) w ++ touched_by m d

    pub touched_by_writes : Option Field → Writes → List Touched
    touched_by_writes none w = []
    touched_by_writes (some f) (Writes.writes made connected updated deleted many gone) =
        touches f.target TouchKind.touch_delete deleted
        ++ (touches f.target TouchKind.touch_delete_many gone
            ++ (touched_by_changes f.target updated ++ touches_of_creates f.target made))

    pub touched_by_changes : Model → Changes → List Touched
    touched_by_changes m Changes.no_changes = []
    touched_by_changes m (Changes.changing w d cs) =
        let below = touched_by m d ++ touched_by_changes m cs in
        if is_soft_delete d
        then below
        else (record { model = m; kind = TouchKind.touch_update; where_ = w }) ∷ below
