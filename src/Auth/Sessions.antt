-- ===== src/Auth/Sessions.antt =====
-- src/auth/auth.service.ts: signing in, refreshing and signing out, and the check of an owner's
-- credentials for pairing.
use sentry_pos_be.Common.{
  ℕ, ◌+◌, Bool, true, false, not, Option, none, some, List, [], ◌∷◌, ◌++◌, ◌==◌, ◌&&◌, ◌||◌,
  if◌then◌else◌, ltb, find, is_some, any, Error, Result, ok, err,
}
use sentry_pos_be.Text.{Text}
use sentry_pos_be.Devices.{OwnerStatus, Owner}
use sentry_pos_be.Lockout.{
  LockoutKind, User, assert_not_locked, count_failure, failure_error, clear_failures,
}
use sentry_pos_be.Auth.{
  Role, Account, RefreshToken, AuthEvent, AuthDb, AccessToken, LoginResult, refresh_ttl_ms,
  account_id, find_by_email, find_account, update_account, log_auth,
}

-- `revokedAt: new Date()` on the rows that a test picks, unless they are revoked.
unfoldable pub revoke_where : (RefreshToken → Bool) → ℕ → List RefreshToken → List RefreshToken
revoke_where p now [] = []
revoke_where p now (r ∷ rows) =
    let rest = revoke_where p now rows in
    (if p r && not (is_some r.revoked_at) then record r { revoked_at = some now } else r) ∷ rest

unfoldable pub find_token : ℕ → List RefreshToken → Option RefreshToken
find_token hash rows = find (λ (r : RefreshToken). r.token_hash == hash) rows

abbrev pub is_suspended : OwnerStatus → Bool
is_suspended OwnerStatus.active = false
is_suspended _ = true

abbrev pub is_owner : Role → Bool
is_owner Role.owner = true
is_owner Role.platform_admin = false

module _ {H S : Type 0} (verify : H → Text → Bool) (sha : ℕ → ℕ) where
  abbrev pub account_owner : Account H S → Option ℕ
  account_owner a = User.owner_id a.user

  -- `refreshToken.update` of the row `id`.
  unfoldable pub revoke : ℕ → ℕ → AuthDb H S → AuthDb H S
  unfolding revoke_where
  revoke id now db = record db {
    refresh_tokens = revoke_where (λ r. r.id == id) now db.refresh_tokens;
  }

  -- `refreshToken.updateMany` of the user's rows.
  unfoldable pub revoke_all : ℕ → ℕ → AuthDb H S → AuthDb H S
  unfolding revoke_where
  revoke_all user now db = record db {
    refresh_tokens = revoke_where (λ r. r.user_id == user) now db.refresh_tokens;
  }

  -- `mintTokenPair`, with the random token and the id of its row, which are unique.
  unfoldable pub mint_token_pair :
      ℕ → ℕ → ℕ → Account H S → AuthDb H S → AuthDb H S × Result (AccessToken × ℕ)
  mint_token_pair raw fresh now a db =
      let row : RefreshToken = record {
        id = fresh;
        token_hash = sha raw;
        user_id = account_id a;
        expires_at = now + refresh_ttl_ms;
        revoked_at = none;
      } in
      let token : AccessToken = record {
        sub = account_id a;
        role = a.role;
        sid = fresh;
        owner_id = account_owner a;
      } in
      if any (λ (r : RefreshToken). r.id == fresh || r.token_hash == sha raw) db.refresh_tokens
      then (db, err Error.unique_violation)
      else (record db { refresh_tokens = db.refresh_tokens ++ (row ∷ []) }, ok (token, raw))

  -- The password, or the decoy where there is none: it never matches.
  unfoldable pub is_password_of : Account H S → Text → Bool
  is_password_of a password = elim a.password_hash [
    | none ↦ false
    | some hash ↦ verify hash password
  ]

  -- The log of a failed attempt, and `recordFailure`.
  unfoldable pub fail_login : AuthEvent → ℕ → Account H S → AuthDb H S → AuthDb H S × Error
  unfolding log_auth update_account
  fail_login event now a db =
      let logged = log_auth event (account_id a) (account_owner a) db in
      (
        record logged {
          accounts =
              update_account (account_id a)
                (λ x. record x { user = count_failure LockoutKind.login now x.user })
                logged.accounts;
        },
        failure_error LockoutKind.login a.user,
      )

  -- `recordSuccess`.
  unfoldable pub pass_login : Account H S → AuthDb H S → AuthDb H S
  unfolding update_account
  pass_login a db = record db {
    accounts =
        update_account (account_id a)
          (λ x. record x { user = clear_failures LockoutKind.login x.user }) db.accounts;
  }

  unfoldable pub owner_row : Option ℕ → AuthDb H S → Option Owner
  owner_row none db = none
  owner_row (some o) db = find (λ (w : Owner). w.id == o) db.owners

  -- The tokens of a user who has given the password.
  unfoldable pub enter : ℕ → ℕ → ℕ → Account H S → AuthDb H S → AuthDb H S × Result LoginResult
  unfolding mint_token_pair log_auth
  enter raw fresh now a db = elim a.role [
    | Role.platform_admin ↦
        let logged = log_auth AuthEvent.login_preauth (account_id a) none db in
        (
          logged,
          ok (
              if is_some a.totp_secret
              then LoginResult.totp_required (account_id a)
              else LoginResult.totp_setup_required (account_id a)),
        )
    | Role.owner ↦
        let (minted, pair) = mint_token_pair raw fresh now a db in
        elim pair [
          | err e ↦ (minted, err e)
          | ok (token, refresh_token) ↦ (
            log_auth AuthEvent.login (account_id a) (account_owner a) minted,
            ok (LoginResult.signed_in token refresh_token),
          )
        ]
  ]

  -- The gate on the owner's status, past the password.
  unfoldable pub gate_owner : ℕ → ℕ → ℕ → Account H S → AuthDb H S → AuthDb H S × Result LoginResult
  unfolding enter owner_row log_auth
  gate_owner raw fresh now a db =
      let entered = enter raw fresh now a db in
      elim (owner_row (account_owner a) db) [
        | none ↦ entered
        | some w ↦
            if is_suspended w.status
            then (
              log_auth AuthEvent.login_suspended (account_id a) (account_owner a) db,
              err Error.owner_suspended,
            )
            else entered
      ]

  -- `login`.
  unfoldable pub login : ℕ → ℕ → ℕ → ℕ → Text → AuthDb H S → AuthDb H S × Result LoginResult
  unfolding find_by_email is_password_of fail_login pass_login gate_owner assert_not_locked
  login raw fresh now email password db = elim (find_by_email email db.accounts) [
    | none ↦ (db, err (Error.login_invalid 3))
    | some a ↦ elim (assert_not_locked LockoutKind.login now a.user) [
      | err e ↦ (db, err e)
      | ok _ ↦
          let (failed, e) = fail_login AuthEvent.login_failed now a db in
          if is_password_of a password
          then gate_owner raw fresh now a (pass_login a db)
          else (failed, err e)
    ]
  ]

  -- The rotation of a token that is live.
  unfoldable pub rotate :
      ℕ → ℕ → ℕ → RefreshToken → AuthDb H S → AuthDb H S × Result (AccessToken × ℕ)
  unfolding revoke mint_token_pair find_account
  rotate raw fresh now row db = elim (find_account row.user_id db.accounts) [
    | none ↦ (db, err Error.row_missing)
    | some a ↦ mint_token_pair raw fresh now a (revoke row.id now db)
  ]

  -- `refresh`.
  unfoldable pub refresh : ℕ → ℕ → ℕ → ℕ → AuthDb H S → AuthDb H S × Result (AccessToken × ℕ)
  unfolding find_token revoke_all revoke rotate log_auth
  refresh raw fresh now token db = elim (find_token (sha token) db.refresh_tokens) [
    | none ↦ (db, err Error.unauthorized)
    | some row ↦
        let rotated = rotate raw fresh now row db in
        let owner : Option ℕ = elim (find_account row.user_id db.accounts) [
          | none ↦ none
          | some a ↦ account_owner a
        ] in
        if is_some row.revoked_at
        then (
          log_auth AuthEvent.refresh_reuse row.user_id owner (revoke_all row.user_id now db),
          err Error.unauthorized,
        )
        else if ltb row.expires_at now
        then (revoke row.id now db, err Error.unauthorized)
        else rotated
  ]

  -- `logout`.
  unfoldable pub logout : ℕ → ℕ → AuthDb H S → AuthDb H S
  unfolding find_token revoke
  logout now token db = elim (find_token (sha token) db.refresh_tokens) [
    | none ↦ db
    | some row ↦ if is_some row.revoked_at then db else revoke row.id now db
  ]

  -- `verifyOwnerCredentials`, with the event of a failure.
  unfoldable pub verify_owner_credentials :
      AuthEvent → ℕ → ℕ → Text → AuthDb H S → AuthDb H S × Result (Account H S × Owner)
  unfolding find_by_email is_password_of fail_login pass_login owner_row assert_not_locked
  verify_owner_credentials event now email password db = elim (find_by_email email db.accounts) [
    | none ↦ (db, err (Error.login_invalid 3))
    | some a ↦ elim (assert_not_locked LockoutKind.login now a.user) [
      | err e ↦ (db, err e)
      | ok _ ↦
          let (failed, e) = fail_login event now a db in
          let passed = pass_login a db in
          let answer : Result (Account H S × Owner) = elim (owner_row (account_owner a) db) [
            | none ↦ err Error.forbidden
            | some w ↦ ok (a, w)
          ] in
          if is_password_of a password
          then (if (not (User.deleted a.user) && is_owner a.role) && is_some (account_owner a)
              then (passed, answer)
              else (db, err Error.forbidden))
          else (failed, err e)
    ]
  ]
