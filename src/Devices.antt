-- ===== src/Devices.antt =====
-- src/pos/guards/terminal.guard.ts and the pairing of terminals, src/pos/pairing/pairing.service.ts.
-- sha256 is the parameter `sha`, over tokens and hashes that are numbers; a new token and a new row's id
-- are parameters too. `verifyOwnerCredentials` of src/auth/auth.service.ts has run: `unpair` takes the
-- owner that it returned. A terminal's code is its number `n` in "T" + n. Audit rows, names and the
-- answers' settings are left out.
pub mod Guard
pub mod Codes
mod Tests
use sentry_pos_be.Common.{
  ℕ, ◌+◌, ◌-◌, ◌*◌, Bool, true, false, not, ◌&&◌, ◌||◌, ◌==◌, opt_eq, Option, none, some, is_some,
  List, [], ◌∷◌, if◌then◌else◌, ltb, find, keep, any, length, Error, Result, ok, err, ◌>>=◌,
  throw_if,
}
use sentry_pos_be.Db.{Branch, Shift, Ctx}
use sentry_pos_be.Restock.{retry}

pub data OwnerStatus : Type 0 where
  active suspended hard_suspended closed : OwnerStatus

pub record Owner : Type 0 where
  pub id : ℕ
  pub status : OwnerStatus
  pub suspended_at : Option ℕ

pub record Shop : Type 0 where
  pub id : ℕ
  pub owner_id : ℕ
  pub deleted : Bool

pub record Device : Type 0 where
  pub id : ℕ
  pub branch_id : ℕ
  pub code : ℕ
  pub token_hash : Option ℕ
  pub last_seen_at : Option ℕ
  pub deleted : Bool

pub record Registry : Type 0 where
  pub owners : List Owner
  pub shops : List Shop
  pub branches : List Branch
  pub devices : List Device
  pub shifts : List Shift

abbrev pub suspend_grace_ms : ℕ
suspend_grace_ms = 86_400_000

abbrev pub last_seen_throttle_ms : ℕ
last_seen_throttle_ms = 60_000

unfoldable pub find_device : ℕ → List Device → Option Device
find_device hash devices = find (λ t. opt_eq t.token_hash (some hash) && not t.deleted) devices

-- `terminal.branch.business.owner`; the foreign keys see to it that the rows are there.
unfoldable pub owner_of : Registry → ℕ → Result (Branch × Owner)
owner_of reg branch = elim (find (λ b. b.id == branch) reg.branches) [
  | none ↦ err Error.row_missing
  | some b ↦ elim (find (λ s. s.id == b.business_id) reg.shops) [
    | none ↦ err Error.row_missing
    | some s ↦ elim (find (λ o. o.id == s.owner_id) reg.owners) [
      | none ↦ err Error.row_missing
      | some o ↦ ok (b, o)
    ]
  ]
]

abbrev pub has_open_shift : ℕ → List Shift → Bool
has_open_shift terminal shifts =
    any (λ s. s.terminal_id == terminal && not (is_some s.closed_at)) shifts

within_grace : ℕ → Option ℕ → Bool
within_grace now none = false
within_grace now (some at) = ltb (now - at) suspend_grace_ms

-- The gate on the owner's status.
unfoldable pub status_gate : ℕ → Owner → Bool → Result (Unit {0})
unfolding within_grace
status_gate now owner shift_open = elim owner.status [
  | OwnerStatus.active ↦ ok tt
  | OwnerStatus.suspended ↦
      throw_if (not (within_grace now owner.suspended_at) || not shift_open) Error.owner_suspended
  | OwnerStatus.hard_suspended ↦ err Error.unauthorized
  | OwnerStatus.closed ↦ err Error.unauthorized
]

is_stale : ℕ → Option ℕ → Bool
is_stale now none = true
is_stale now (some at) = ltb last_seen_throttle_ms (now - at)

abbrev pub see : ℕ → Device → Device
see now t = record t { last_seen_at = some now }

unfoldable pub update_device : ℕ → (Device → Device) → List Device → List Device
update_device id f [] = []
update_device id f (t ∷ ts) = if t.id == id then f t ∷ ts else t ∷ update_device id f ts

unfoldable pub touch : ℕ → Device → Registry → Registry
unfolding is_stale
touch now t reg =
    if is_stale now t.last_seen_at
    then record reg { devices = update_device t.id (see now) reg.devices }
    else reg

abbrev pub ctx_of : Device → Branch → Owner → Ctx
ctx_of t b o = record {
  owner_id = o.id;
  business_id = b.business_id;
  branch_id = t.branch_id;
  terminal_id = t.id;
}

module _ (sha : ℕ → ℕ) where
  -- `canActivate`, on the bearer token if there is one.
  unfoldable pub can_activate : ℕ → Option ℕ → Registry → Result (Ctx × Registry)
  can_activate now none reg = err Error.unauthorized
  can_activate now (some token) reg = elim (find_device (sha token) reg.devices) [
    | none ↦ err Error.unauthorized
    | some t ↦ elim (owner_of reg t.branch_id) [
      | err e ↦ err e
      | ok (b, o) ↦ elim (status_gate now o (has_open_shift t.id reg.shifts)) [
        | err e ↦ err e
        | ok _ ↦ ok (ctx_of t b o, touch now t reg)
      ]
    ]
  ]

-- How many terminals the branch ever had.
abbrev pub count_of : ℕ → List Device → ℕ
count_of branch devices = length (keep (λ t. t.branch_id == branch) devices)

unfoldable pub owned_shop : ℕ → ℕ → Registry → Result Shop
owned_shop owner id reg =
    elim (find (λ s. s.id == id && s.owner_id == owner && not s.deleted) reg.shops) [
      | none ↦ err Error.not_found
      | some s ↦ ok s
    ]

unfoldable pub find_branch : ℕ → ℕ → Registry → Result Branch
find_branch business id reg =
    elim (find (λ b. b.id == id && b.business_id == business && not b.deleted) reg.branches) [
      | none ↦ err Error.not_found
      | some b ↦ ok b
    ]

unfoldable pub active_owner : ℕ → Registry → Result Owner
active_owner id reg = elim (find (λ o. o.id == id) reg.owners) [
  | none ↦ err Error.row_missing
  | some o ↦ elim o.status [ OwnerStatus.active ↦ ok o | _ ↦ err Error.owner_suspended ]
]

-- One run of the loop: the count, and the insert under the unique index on branch and code.
unfoldable pub create_device : ℕ → ℕ → ℕ → Registry → Result (Device × Registry)
create_device branch id hash reg =
    let code = count_of branch reg.devices + 1 in
    let t : Device = record {
      id = id;
      branch_id = branch;
      code = code;
      token_hash = some hash;
      last_seen_at = none;
      deleted = false;
    } in
    if any (λ u. u.branch_id == branch && u.code == code) reg.devices
    then err Error.unique_violation
    else ok (t, record reg { devices = t ∷ reg.devices })

abbrev pub forget : Device → Device
forget t = record t { token_hash = none }

module _ (sha : ℕ → ℕ) where
  -- `pair`; each run of the loop sees the tables as they are then.
  unfoldable pub pair : ℕ → ℕ → ℕ → ℕ → ℕ → Registry → (ℕ → Registry) → Result (Device × Registry)
  pair owner business branch id token reg seen = do
    s ← owned_shop owner business reg
    b ← find_branch s.id branch reg
    o ← active_owner owner reg
    retry 3 0 (λ attempt. create_device b.id id (sha token) (seen attempt))

  unfoldable pub unpair : ℕ → ℕ → Registry → Result Registry
  unpair token owner reg = elim (find_device (sha token) reg.devices) [
    | none ↦ err Error.unauthorized
    | some t ↦ elim (owner_of reg t.branch_id) [
      | err e ↦ err e
      | ok (b, o) ↦
          if o.id == owner
          then ok (record reg { devices = update_device t.id forget reg.devices })
          else err Error.unauthorized
    ]
  ]
