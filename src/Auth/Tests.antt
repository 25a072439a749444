-- ===== src/Auth/Tests.antt =====
-- An owner of src/auth who signs in, renews, resets the password, and an admin who gives a code, under
-- stand-ins for argon2, sha256 and otplib.
use sentry_pos_be.Common.{
  ℕ, ◌+◌, ◌≡◌, ◌⊎◌, refl, Bool, true, false, Option, none, some, [], ◌∷◌, ltb, if◌then◌else◌, any,
  arith, Error, Result, ok, err,
}
use sentry_pos_be.Text.{Text, text_eq}
use sentry_pos_be.Devices.{OwnerStatus}
use sentry_pos_be.Lockout.{LockoutKind, assert_not_locked}
use sentry_pos_be.Auth.{
  Account, RefreshToken, AuthToken, AuthTokenKind, AuthDb, AccessToken, Role, find_account,
  find_by_email, update_account, log_auth,
}
use sentry_pos_be.Auth.Sessions.{
  find_token, revoke_where, revoke, mint_token_pair, is_password_of, pass_login, owner_row, enter,
  gate_owner, login, rotate, refresh,
}
use sentry_pos_be.Auth.Invites.{find_auth_token, mark_used, is_void_token, consume_token}
use sentry_pos_be.Auth.Totp.{spend, change, try_recovery, verify_totp}
use sentry_pos_be.Auth.Kept.{is_live_of}
use sentry_pos_be.Auth.Uses.{Evolves}
use sentry_pos_be.Auth.Replay.{refresh_once, consume_token_once}
use sentry_pos_be.Auth.Entry.{SpeaksFor, login-signed_in}
use sentry_pos_be.Auth.Codes.{LooksAfter, IsLater, HasSpent, verify_totp_uses}

-- A hash is the code of the only character, and a code is good for the step that is its character.
abbrev same_digit : ℕ → Text → Bool
unfolding text_eq
same_digit hash text = text_eq text (hash ∷ [])

abbrev first_digit : Text → ℕ
first_digit [] = 0
first_digit (c ∷ _) = c

abbrev digest : ℕ → ℕ
digest n = n + 1

abbrev no_demo : ℕ → Result (Unit {0})
no_demo _ = ok tt

abbrev after_last : ℕ → Option ℕ → Option ℕ
after_last step none = some step
after_last step (some last) = if ltb last step then some step else none

abbrev step_of : ℕ → Text → Option ℕ → ℕ → Option ℕ
step_of secret code last now = after_last (first_digit code) last

abbrev keeper : Account ℕ ℕ
keeper = record {
  user = record {
    id = 1;
    owner_id = some 7;
    deleted = false;
    pin_hash = none;
    failed_pin_count = 0;
    failed_login_count = 2;
    pin_locked_until = none;
    login_locked_until = none;
  };
  email = 10;
  role = Role.owner;
  password_hash = some 4;
  totp_secret = some 33;
  totp_pending_secret = none;
  totp_last_time_step = some 5;
  totp_recovery_codes = 8 ∷ 2 ∷ [];
}

abbrev old_session : RefreshToken
old_session = record { id = 50; token_hash = 101; user_id = 1; expires_at = 999; revoked_at = none }

abbrev reset_row : AuthToken
reset_row = record {
  id = 60;
  kind = AuthTokenKind.reset;
  token_hash = 91;
  user_id = 1;
  expires_at = 999;
  used_at = none;
}

abbrev accounts_db : AuthDb ℕ ℕ
accounts_db = record {
  accounts = keeper ∷ [];
  owners = (record { id = 7; status = OwnerStatus.active; suspended_at = none }) ∷ [];
  refresh_tokens = old_session ∷ [];
  auth_tokens = reset_row ∷ [];
  log = [];
}

abbrev new_token : ℕ → ℕ → AccessToken
new_token user sid = record { sub = user; role = Role.owner; sid = sid; owner_id = some 7 }

login-signed_in_example :
    (a : Account ℕ ℕ) × (find_by_email 10 accounts_db.accounts ≡ some a)
    × (is_password_of same_digit digest a (4 ∷ []) ≡ true)
    × (assert_not_locked LockoutKind.login 20 a.user ≡ ok tt)
    × SpeaksFor same_digit digest (new_token 1 51) a accounts_db
unfolding login find_by_email is_password_of text_eq assert_not_locked pass_login update_account
    gate_owner owner_row enter mint_token_pair log_auth
login-signed_in_example =
    login-signed_in same_digit digest 200 51 20 10 (4 ∷ []) accounts_db _ (new_token 1 51) 200 refl

refresh_once_example :
    ((refresh same_digit digest 400 53 12 100 (
        (refresh same_digit digest 300 52 11 200
          ((refresh same_digit digest 200 51 10 100 accounts_db).0)).0)).1
      ≡ err Error.unauthorized)
    × (any (is_live_of 1) (
          AuthDb.refresh_tokens (
            (refresh same_digit digest 400 53 12 100 (
              (refresh same_digit digest 300 52 11 200
                ((refresh same_digit digest 200 51 10 100 accounts_db).0)).0)).0))
        ≡ false)
unfolding refresh find_token rotate revoke revoke_where mint_token_pair find_account
refresh_once_example =
    refresh_once same_digit (λ _. 0) digest no_demo step_of 200 51 10 100 accounts_db
      ((refresh same_digit digest 200 51 10 100 accounts_db).0) (new_token 1 51) 200 400 53 12 refl
      (Evolves.renew 300 52 11 200 Evolves.start refl)

abbrev reset_used : AuthDb ℕ ℕ
reset_used = record accounts_db { auth_tokens = (record reset_row { used_at = some 10 }) ∷ [] }

consume_token_once_example :
    consume_token {S = ℕ}
      (λ _. 0)
      digest
      no_demo
      AuthTokenKind.reset
      12
      90
      (reset_row ∷ [])
      ((refresh same_digit digest 200 51 11 100 reset_used).0)
    ≡ err Error.invalid_token
unfolding consume_token find_auth_token is_void_token mark_used
consume_token_once_example =
    consume_token_once same_digit (λ _. 0) digest no_demo step_of AuthTokenKind.reset 10 90
      (reset_row ∷ []) accounts_db reset_used reset_row AuthTokenKind.reset 12 90 (reset_row ∷ [])
      reset_row refl (Evolves.renew 200 51 11 100 Evolves.start refl) refl refl

looks_after : LooksAfter same_digit step_of
looks_after secret code last now step e = ground arith

abbrev recovery_used : AuthDb ℕ ℕ
recovery_used = record accounts_db {
  accounts = (record keeper { totp_recovery_codes = 8 ∷ [] }) ∷ [];
}

verify_totp_uses_example :
    (b : Account ℕ ℕ) × (find_account 1 recovery_used.accounts ≡ some b)
    × (IsLater same_digit step_of keeper b ⊎ HasSpent same_digit step_of (2 ∷ []) keeper b)
unfolding verify_totp find_account change update_account try_recovery spend text_eq
verify_totp_uses_example =
    verify_totp_uses same_digit step_of looks_after 10 1 (2 ∷ []) accounts_db recovery_used keeper
      refl refl
