-- ===== src/Scope/Query.antt =====
-- The arguments of a Prisma call as src/prisma/scoped-prisma.ts walks them, and rows. An object is the
-- list of its keys; where Prisma takes one object or an array of them, there is a list.
use sentry_pos_be.Common.{
  ℕ, Bool, true, false, Option, none, some, List, ◌==◌, if◌then◌else◌, ◌&&◌, ◌||◌, opt_eq, any,
}
use sentry_pos_be.Scope.{Model, id_column}

-- What a filter asks of a column: `{ c: v }`, null included, `{ c: { not: v } }`, `{ c: { in: vs } }`.
pub data Condition : Type 0 where
  equals : Option ℕ → Condition
  differs : ℕ → Condition
  among : List ℕ → Condition

-- A `where`: a condition on a column, `AND: [...]`, `OR: [...]`, or any other filter of Prisma's.
mutual
  pub data Where : Type 0 where
    anything : Where
    column : ℕ → Condition → Where → Where
    all_of any_of : Wheres → Where → Where
    special : ℕ → Where → Where

  pub data Wheres : Type 0 where
    no_more : Wheres
    with_one : Where → Wheres → Wheres

-- `data`: values of columns, and nested writes under relation fields, as the object
-- `{ create, connect, update, delete, updateMany, deleteMany }` of each. Nested `upsert`,
-- `connectOrCreate` and `set`, which the code passes on unread, and a nested `update` without `where`
-- and `data` are left out.
mutual
  pub data Data : Type 0 where
    end : Data
    value : ℕ → Option ℕ → Data → Data
    nested : ℕ → Writes → Data → Data

  pub data Writes : Type 0 where
    writes : Creates → List Where → Changes → List Where → Changes → List Where → Writes

  pub data Creates : Type 0 where
    no_creates : Creates
    creating : Data → Creates → Creates

  pub data Changes : Type 0 where
    no_changes : Changes
    changing : Where → Data → Changes → Changes

-- The arguments of a read: `where`, `include` and `select`. A clause has the keys of an `include` or a
-- `select`: `absent` if there is none, `load` for an object, `whole` for `true`, `skip` for `false`.
mutual
  pub data Args : Type 0 where
    args : Option Where → Clause → Clause → Args

  pub data Clause : Type 0 where
    absent done : Clause
    load : ℕ → Args → Clause → Clause
    whole skip : ℕ → Clause → Clause

pub record Row : Type 0 where
  pub id : ℕ
  pub columns : ℕ → Option ℕ

abbrev pub read_column : Row → ℕ → Option ℕ
read_column r c = if c == id_column then some r.id else r.columns c

unfoldable pub meets : Option ℕ → Condition → Bool
meets v (Condition.equals w) = opt_eq v w
meets none (Condition.differs w) = false
meets (some v) (Condition.differs w) = if v == w then false else true
meets none (Condition.among vs) = false
meets (some v) (Condition.among vs) = any (λ w. v == w) vs

-- Which rows a filter matches; `judge` stands for Prisma's other filters.
unfoldable mutual
  pub matches : (ℕ → Row → Bool) → Row → Where → Bool
  matches judge r Where.anything = true
  matches judge r (Where.column c cond w) = meets (read_column r c) cond && matches judge r w
  matches judge r (Where.all_of ws w) = matches_all judge r ws && matches judge r w
  matches judge r (Where.any_of ws w) = matches_any judge r ws && matches judge r w
  matches judge r (Where.special n w) = judge n r && matches judge r w

  pub matches_all : (ℕ → Row → Bool) → Row → Wheres → Bool
  matches_all judge r Wheres.no_more = true
  matches_all judge r (Wheres.with_one w ws) = matches judge r w && matches_all judge r ws

  pub matches_any : (ℕ → Row → Bool) → Row → Wheres → Bool
  matches_any judge r Wheres.no_more = false
  matches_any judge r (Wheres.with_one w ws) = matches judge r w || matches_any judge r ws

pub data ActorType : Type 0 where
  owner_actor terminal_actor platform_admin_actor : ActorType

-- The value that the column actorType holds.
abbrev pub actor_code : ActorType → ℕ
actor_code ActorType.owner_actor = 0
actor_code ActorType.terminal_actor = 1
actor_code ActorType.platform_admin_actor = 2

pub data RequestScope : Type 0 where
  platform tenant : RequestScope

-- The request's context, with what `scopeCache` already holds for it.
pub record Context : Type 0 where
  pub scope : Option RequestScope
  pub actor : Option (ActorType × ℕ)
  pub owner_id : Option ℕ
  pub business_id : Option ℕ
  pub branch_id : Option ℕ
  pub business_ids : Option (List ℕ)
  pub branch_ids : Option (List ℕ)
  pub branch_business : ℕ → Option (Option ℕ)
  pub ref_business : Model → ℕ → Option (Option ℕ)

abbrev pub is_terminal : Context → Bool
is_terminal ctx = elim ctx.actor [
  | some (ActorType.terminal_actor, _) ↦ true
  | some (_, _) ↦ false
  | none ↦ false
]

pub data AuditAction : Type 0 where
  created created_many updated deleted : AuditAction

-- A row of `audit_logs`, less the metadata of the request.
pub record Audit : Type 0 where
  pub actor_type : ActorType
  pub actor_id : Option ℕ
  pub owner_id : Option ℕ
  pub business_id : Option ℕ
  pub branch_id : Option ℕ
  pub entity : Model
  pub action : AuditAction
  pub entity_id : ℕ
  pub before : Option Row
  pub after : Option Row

-- The rows of each model, and the audit rows that the client wrote, the last one first.
pub record Tables : Type 0 where
  pub rows : Model → List Row
  pub audits : List Audit

pub data Operation : Type 0 where
  read : (include_deleted : Bool) → Args → Operation
  create : Data → Operation
  create_many create_many_and_return : List Data → Operation
  update update_many : Where → Data → Operation
  upsert : Where → (update create : Data) → Operation
  delete delete_many : Where → Operation
  update_many_and_return : (include_deleted : Bool) → Option Where → Data → Operation

-- `MUTATION_OPS.has(operation)`: `updateManyAndReturn` is not in the set.
abbrev pub is_mutation : Operation → Bool
is_mutation (Operation.read _ _) = false
is_mutation (Operation.update_many_and_return _ _ _) = false
is_mutation _ = true

-- A write that the code takes for a read.
abbrev pub is_unlisted : Operation → Bool
is_unlisted (Operation.update_many_and_return _ _ _) = true
is_unlisted _ = false
