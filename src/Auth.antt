-- ===== src/Auth.antt =====
-- The accounts and tokens of src/auth, over the tables users, owners, refresh_tokens and auth_tokens.
-- Times are milliseconds. argon2, sha256, the random tokens and the demo data of a new owner are
-- parameters; a signed token is its payload. Mails and the metadata of the log are left out.
mod Sessions
mod Invites
mod Totp
mod Kept
mod Effects
mod Once
mod Uses
mod Replay
mod Entry
mod Codes
mod Tests
use sentry_pos_be.Common.{
  ℕ, ◌*◌, Bool, true, false, Option, none, some, List, [], ◌∷◌, ◌++◌, ◌==◌, ◌&&◌, if◌then◌else◌,
  find, is_some,
}
use sentry_pos_be.Devices.{Owner}
use sentry_pos_be.Lockout.{User}
use sentry_pos_be.Text.{Text}

pub data Role : Type 0 where
  platform_admin owner : Role

pub data AuthTokenKind : Type 0 where
  invite reset : AuthTokenKind

-- A row of users: the columns of the lockout, and those of signing in. `S` are TOTP secrets.
pub record Account (H S : Type 0) : Type 0 where
  pub user : User H
  pub email : ℕ
  pub role : Role
  pub password_hash : Option H
  pub totp_secret : Option S
  pub totp_pending_secret : Option S
  pub totp_last_time_step : Option ℕ
  pub totp_recovery_codes : List H

pub record RefreshToken : Type 0 where
  pub id : ℕ
  pub token_hash : ℕ
  pub user_id : ℕ
  pub expires_at : ℕ
  pub revoked_at : Option ℕ

pub record AuthToken : Type 0 where
  pub id : ℕ
  pub kind : AuthTokenKind
  pub token_hash : ℕ
  pub user_id : ℕ
  pub expires_at : ℕ
  pub used_at : Option ℕ

pub data AuthEvent : Type 0 where
  login_failed login_suspended login_preauth login refresh_reuse invite_accepted password_reset
        pairing_failed :
      AuthEvent

-- An `auth.*` row of the audit log: what, which user, which owner.
pub record AuthLog : Type 0 where
  pub event : AuthEvent
  pub user_id : ℕ
  pub owner_id : Option ℕ

pub record AuthDb (H S : Type 0) : Type 0 where
  pub accounts : List (Account H S)
  pub owners : List Owner
  pub refresh_tokens : List RefreshToken
  pub auth_tokens : List AuthToken
  pub log : List AuthLog

-- The payload of an access token.
pub record AccessToken : Type 0 where
  pub sub : ℕ
  pub role : Role
  pub sid : ℕ
  pub owner_id : Option ℕ

pub data LoginResult : Type 0 where
  signed_in : AccessToken → (refresh_token : ℕ) → LoginResult
  totp_required totp_setup_required : (pre_auth : ℕ) → LoginResult

abbrev pub day_ms : ℕ
day_ms = 86_400_000

abbrev pub refresh_ttl_ms : ℕ
refresh_ttl_ms = 30 * day_ms

abbrev pub invite_ttl_ms : ℕ
invite_ttl_ms = 7 * day_ms

abbrev pub reset_ttl_ms : ℕ
reset_ttl_ms = 3_600_000

module _ {H S : Type 0} where
  abbrev pub account_id : Account H S → ℕ
  account_id a = User.id a.user

  unfoldable pub find_by_email : ℕ → List (Account H S) → Option (Account H S)
  find_by_email email accounts = find (λ a. a.email == email) accounts

  unfoldable pub find_account : ℕ → List (Account H S) → Option (Account H S)
  find_account id accounts = find (λ a. account_id a == id) accounts

  unfoldable pub update_account :
      ℕ → (Account H S → Account H S) → List (Account H S) → List (Account H S)
  update_account id f [] = []
  update_account id f (a ∷ accounts) =
      let rest = update_account id f accounts in
      if account_id a == id then f a ∷ accounts else a ∷ rest

  -- `AuditService.logAuth`.
  unfoldable pub log_auth : AuthEvent → ℕ → Option ℕ → AuthDb H S → AuthDb H S
  log_auth event user of_owner db = record db {
    log = (record { event = event; user_id = user; owner_id = of_owner }) ∷ db.log;
  }
