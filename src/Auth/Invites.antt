-- ===== src/Auth/Invites.antt =====
-- src/auth/invite.service.ts: invitations and password resets, by tokens that serve once. The look-up
-- of a token reads the tables at an earlier moment than its mark writes them.
use sentry_pos_be.Common.{
  ℕ, ◌+◌, Bool, true, false, not, Option, none, some, List, [], ◌∷◌, ◌==◌, ◌&&◌, ◌||◌,
  if◌then◌else◌, ltb, find, is_some, any, Error, Result, ok, err, ◌>>=◌, ◌>>◌,
}
use sentry_pos_be.Text.{Text}
use sentry_pos_be.Devices.{OwnerStatus, Owner}
use sentry_pos_be.Auth.{
  Account, AuthToken, AuthTokenKind, AuthEvent, AuthDb, invite_ttl_ms, reset_ttl_ms, account_id,
  find_by_email, find_account, update_account, log_auth,
}
use sentry_pos_be.Auth.Sessions.{revoke_where}
use sentry_pos_be.Lockout.{User}

abbrev pub same_kind : AuthTokenKind → AuthTokenKind → Bool
same_kind AuthTokenKind.invite AuthTokenKind.invite = true
same_kind AuthTokenKind.reset AuthTokenKind.reset = true
same_kind _ _ = false

unfoldable pub find_auth_token : ℕ → List AuthToken → Option AuthToken
find_auth_token hash rows = find (λ (r : AuthToken). r.token_hash == hash) rows

abbrev pub is_unused : ℕ → AuthToken → Bool
is_unused id r = r.id == id && not (is_some r.used_at)

-- `updateMany({ where: { id, usedAt: null }, data: { usedAt } })`.
unfoldable pub mark_used : ℕ → ℕ → List AuthToken → List AuthToken
mark_used id now [] = []
mark_used id now (r ∷ rows) =
    let rest = mark_used id now rows in
    (if is_unused id r then record r { used_at = some now } else r) ∷ rest

unfoldable pub set_owner : ℕ → (Owner → Owner) → List Owner → List Owner
set_owner id f [] = []
set_owner id f (w ∷ owners) =
    let rest = set_owner id f owners in if w.id == id then f w ∷ owners else w ∷ rest

-- The tests of `consumeToken` on the row.
unfoldable pub is_void_token : AuthTokenKind → ℕ → AuthToken → Bool
is_void_token kind now r =
    if same_kind r.kind kind
    then (if is_some r.used_at then true else ltb r.expires_at now)
    else true

module _ {H S : Type 0} (hash : Text → H) (sha : ℕ → ℕ) (seed_demo : ℕ → Result (Unit {0})) where
  -- A new row of `auth_tokens`, whose id and hash are unique.
  unfoldable pub issue : AuthTokenKind → ℕ → ℕ → ℕ → ℕ → AuthDb H S → Result (AuthDb H S)
  issue kind raw fresh user expires_at db =
      let row : AuthToken = record {
        id = fresh;
        kind = kind;
        token_hash = sha raw;
        user_id = user;
        expires_at = expires_at;
        used_at = none;
      } in
      if any (λ (r : AuthToken). r.id == fresh || r.token_hash == sha raw) db.auth_tokens
      then err Error.unique_violation
      else ok (record db { auth_tokens = row ∷ db.auth_tokens })

  -- `createInvite`: the raw token goes into the mail.
  unfoldable pub create_invite : ℕ → ℕ → ℕ → ℕ → AuthDb H S → Result (AuthDb H S)
  unfolding find_account issue
  create_invite raw fresh now user db = elim (find_account user db.accounts) [
    | none ↦ err Error.row_missing
    | some a ↦ issue AuthTokenKind.invite raw fresh user (now + invite_ttl_ms) db
  ]

  -- `requestReset`, which does nothing where no account has the email.
  unfoldable pub request_reset : ℕ → ℕ → ℕ → ℕ → AuthDb H S → Result (AuthDb H S)
  unfolding find_by_email issue
  request_reset raw fresh now email db = elim (find_by_email email db.accounts) [
    | none ↦ ok db
    | some a ↦ issue AuthTokenKind.reset raw fresh (account_id a) (now + reset_ttl_ms) db
  ]

  -- `consumeToken`.
  unfoldable pub consume_token :
      AuthTokenKind → ℕ → ℕ → List AuthToken → AuthDb H S → Result (AuthToken × AuthDb H S)
  unfolding find_auth_token is_void_token mark_used
  consume_token kind now token pre db = elim (find_auth_token (sha token) pre) [
    | none ↦ err Error.invalid_token
    | some r ↦
        if is_void_token kind now r
        then err Error.invalid_token
        else if any (is_unused r.id) db.auth_tokens
        then ok (r, record db { auth_tokens = mark_used r.id now db.auth_tokens })
        else err Error.invalid_token
  ]

  abbrev pub set_password : Text → Account H S → Account H S
  set_password password a = record a { password_hash = some (hash password) }

  -- The activation of an owner and the demo data.
  unfoldable pub activate : Option ℕ → AuthDb H S → Result (AuthDb H S)
  unfolding set_owner
  activate none db = ok db
  activate (some o) db = do
    seed_demo o
    ok (record db {
      owners =
          set_owner o (λ w. record w { status = OwnerStatus.active; suspended_at = none })
            db.owners;
    })

  -- `acceptInvite`: one transaction.
  unfoldable pub accept_invite : ℕ → ℕ → Text → List AuthToken → AuthDb H S → Result (AuthDb H S)
  unfolding consume_token find_account update_account activate log_auth
  accept_invite now token password pre db = do
    used ← consume_token AuthTokenKind.invite now token pre db
    elim (find_account (AuthToken.user_id used.0) (AuthDb.accounts used.1)) [
      | none ↦ err Error.row_missing
      | some a ↦ do
        activated ← activate (User.owner_id a.user) (record used.1 {
          accounts = update_account (account_id a) (set_password password) (AuthDb.accounts used.1);
        })
        ok (log_auth AuthEvent.invite_accepted (account_id a) (User.owner_id a.user) activated)
    ]

  -- `confirmReset`: one transaction.
  unfoldable pub confirm_reset : ℕ → ℕ → Text → List AuthToken → AuthDb H S → Result (AuthDb H S)
  unfolding consume_token find_account update_account revoke_where log_auth
  confirm_reset now token password pre db = do
    used ← consume_token AuthTokenKind.reset now token pre db
    elim (find_account (AuthToken.user_id used.0) (AuthDb.accounts used.1)) [
      | none ↦ err Error.row_missing
      | some a ↦ ok (
          log_auth AuthEvent.password_reset (account_id a) (User.owner_id a.user) (record used.1 {
            accounts =
                update_account (account_id a) (set_password password) (AuthDb.accounts used.1);
            refresh_tokens =
                revoke_where (λ r. r.user_id == AuthToken.user_id used.0) now
                  (AuthDb.refresh_tokens used.1);
          }))
    ]
