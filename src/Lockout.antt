-- ===== src/Lockout.antt =====
-- src/common/lockout/lockout.service.ts: failed PIN and login attempts of a user, and the lock after
-- the fourth. Times are milliseconds. argon2 (`verifySecret`) is the parameter `verify`, over a type of
-- hashes. The audit row of a failed PIN is its user and owner; who made the request is left out.
pub mod Guesses
mod Tests
use sentry_pos_be.Common.{
  ℕ, ◌+◌, ◌-◌, ◌*◌, ◌/◌, Bool, true, false, not, ◌&&◌, ◌==◌, opt_eq, Option, none, some, List, [],
  ◌∷◌, if◌then◌else◌, ltb, leb, find, Error, Result, ok, err,
}
use sentry_pos_be.Text.{Text}

pub data LockoutKind : Type 0 where
  pin login : LockoutKind

pub record User (H : Type 0) : Type 0 where
  pub id : ℕ
  pub owner_id : Option ℕ
  pub deleted : Bool
  pub pin_hash : Option H
  pub failed_pin_count : ℕ
  pub failed_login_count : ℕ
  pub pin_locked_until : Option ℕ
  pub login_locked_until : Option ℕ

pub record Accounts (H : Type 0) : Type 0 where
  pub users : List (User H)
  pub pin_failures : List (ℕ × ℕ)

abbrev pub lockout_ms : ℕ
lockout_ms = 300_000

abbrev pub max_attempts : ℕ
max_attempts = 4

-- `Math.ceil((lockedUntil - now) / 1000)`.
abbrev pub retry_after : ℕ → ℕ → ℕ
retry_after until now = (until - now + 999) / 1000

locked_error : LockoutKind → ℕ → Error
locked_error LockoutKind.pin seconds = Error.pin_locked seconds
locked_error LockoutKind.login seconds = Error.login_locked seconds

invalid_error : LockoutKind → ℕ → Error
invalid_error LockoutKind.pin remaining = Error.pin_invalid remaining
invalid_error LockoutKind.login remaining = Error.login_invalid remaining

module _ {H : Type 0} where
  locked_until : LockoutKind → User H → Option ℕ
  locked_until LockoutKind.pin u = u.pin_locked_until
  locked_until LockoutKind.login u = u.login_locked_until

  failed_count : LockoutKind → User H → ℕ
  failed_count LockoutKind.pin u = u.failed_pin_count
  failed_count LockoutKind.login u = u.failed_login_count

  unfoldable pub assert_not_locked : LockoutKind → ℕ → User H → Result (Unit {0})
  unfolding locked_until locked_error
  assert_not_locked kind now u = elim (locked_until kind u) [
    | none ↦ ok tt
    | some until ↦ if ltb now until then err (locked_error kind (retry_after until now)) else ok tt
  ]

  -- The update of `recordFailure`: the lock is written only from the fourth failure on.
  unfoldable pub count_failure : LockoutKind → ℕ → User H → User H
  count_failure LockoutKind.pin now u = record u {
    failed_pin_count = u.failed_pin_count + 1;
    pin_locked_until =
        if leb max_attempts (u.failed_pin_count + 1)
        then some (now + lockout_ms)
        else u.pin_locked_until;
  }
  count_failure LockoutKind.login now u = record u {
    failed_login_count = u.failed_login_count + 1;
    login_locked_until =
        if leb max_attempts (u.failed_login_count + 1)
        then some (now + lockout_ms)
        else u.login_locked_until;
  }

  -- What `recordFailure` throws; the subtraction stops at 0, as `Math.max` makes it.
  unfoldable pub failure_error : LockoutKind → User H → Error
  unfolding failed_count invalid_error
  failure_error kind u = invalid_error kind (max_attempts - (failed_count kind u + 1))

  -- The update of `recordSuccess`.
  unfoldable pub clear_failures : LockoutKind → User H → User H
  clear_failures LockoutKind.pin u = record u { failed_pin_count = 0; pin_locked_until = none }
  clear_failures LockoutKind.login u = record u {
    failed_login_count = 0;
    login_locked_until = none;
  }

  unfoldable pub find_user : ℕ → List (User H) → Option (User H)
  find_user id users = find (λ u. u.id == id) users

  unfoldable pub update_user : ℕ → (User H → User H) → List (User H) → List (User H)
  update_user id f [] = []
  update_user id f (u ∷ users) = if u.id == id then f u ∷ users else u ∷ update_user id f users

  unfoldable pub record_failure : ℕ → LockoutKind → ℕ → List (User H) → List (User H) × Error
  unfolding failure_error
  record_failure id kind now users = elim (find_user id users) [
    | none ↦ (users, Error.row_missing)
    | some u ↦ (update_user id (count_failure kind now) users, failure_error kind u)
  ]

  unfoldable pub record_success : ℕ → LockoutKind → List (User H) → List (User H)
  unfolding update_user clear_failures
  record_success id kind users = update_user id (clear_failures kind) users

  unfoldable pub find_owner_user : ℕ → List (User H) → Option (User H)
  find_owner_user owner users = find (λ u. opt_eq u.owner_id (some owner) && not u.deleted) users

  module _ (verify : H → Text → Bool) where
    -- The user is found, has a PIN and is not locked: the PIN is tested. The tests, the comparison and the
    -- count are one step here; the code awaits each of them in no transaction.
    unfoldable pub test_pin :
        ℕ → User H → H → Text → ℕ → Accounts H → Accounts H × Result (Unit {0})
    test_pin owner u hash text now a =
        if verify hash text
        then (record a { users = record_success u.id LockoutKind.pin a.users }, ok tt)
        else let (users, e) = record_failure u.id LockoutKind.pin now a.users in
          (record a { users = users; pin_failures = (u.id, owner) ∷ a.pin_failures }, err e)

    unfoldable pub verify_pin_with_lockout :
        ℕ → Text → ℕ → Accounts H → Accounts H × Result (Unit {0})
    unfolding assert_not_locked
    verify_pin_with_lockout owner text now a = elim (find_owner_user owner a.users) [
      | none ↦ (a, err Error.validation)
      | some u ↦ elim u.pin_hash [
        | none ↦ (a, err Error.validation)
        | some hash ↦ elim (assert_not_locked LockoutKind.pin now u) [
          | err e ↦ (a, err e)
          | ok _ ↦ test_pin owner u hash text now a
        ]
      ]
    ]
