-- ===== src/Auth/Effects.antt =====
-- src/auth: every operation of signing in, of the tokens and of TOTP keeps what is revoked and spent.
use sentry_pos_be.Common.{
  ℕ, ◌≡◌, ◌⊎◌, refl, Bool, not, ◌&&◌, ltb, is_some, Option, none, [], ◌∷◌, ◌==◌, ◌||◌, any, Error,
  Result, ok, err, Option-cases, Bool-cases, inl, inr,
}
use sentry_pos_be.Text.{Text}
use sentry_pos_be.Lockout.{LockoutKind, User, assert_not_locked}
use sentry_pos_be.Auth.{
  Account, RefreshToken, AuthEvent, AuthDb, Role, account_id, find_by_email, find_account, log_auth,
}
use sentry_pos_be.Auth.Sessions.{
  mint_token_pair, revoke, revoke_all, is_password_of, fail_login, pass_login, owner_row, enter,
  gate_owner, login, find_token, rotate, refresh, logout, verify_owner_credentials, account_owner,
  is_suspended, is_owner,
}
use sentry_pos_be.Auth.Kept.{Kept, same-Kept, Kept-trans, revoke_where-Kept, append-Kept}

pub role_cases : (r : Role) → (r ≡ Role.platform_admin) ⊎ (r ≡ Role.owner)
role_cases Role.platform_admin = inl refl
role_cases Role.owner = inr refl

pub Result-cases {ℓ} :
    {A : Type ℓ} (r : Result A) → ((e : Error) × (r ≡ err e)) ⊎ ((a : A) × (r ≡ ok a))
Result-cases (err e) = inl (e, refl)
Result-cases (ok a) = inr (a, refl)

module _ {H S : Type 0} (verify : H → Text → Bool) (sha : ℕ → ℕ) where
  log_auth-Kept :
      (event : AuthEvent) (user : ℕ) (of_owner : Option ℕ) (db : AuthDb H S)
      → Kept db (log_auth event user of_owner db)
  unfolding log_auth
  log_auth-Kept event user of_owner db = same-Kept db _ refl refl

  then_log :
      (event : AuthEvent) (user : ℕ) (of_owner : Option ℕ) (db after : AuthDb H S)
      → Kept db after
      → Kept db (log_auth event user of_owner after)
  then_log event user of_owner db after kept =
      Kept-trans db after _ kept (log_auth-Kept event user of_owner after)

  fail_login-Kept :
      (event : AuthEvent) (now : ℕ) (a : Account H S) (db : AuthDb H S)
      → Kept db ((fail_login verify sha event now a db).0)
  unfolding fail_login log_auth
  fail_login-Kept event now a db = same-Kept db _ refl refl

  pass_login-Kept : (a : Account H S) (db : AuthDb H S) → Kept db (pass_login verify sha a db)
  unfolding pass_login
  pass_login-Kept a db = same-Kept db _ refl refl

  mint_token_pair-Kept :
      (raw fresh now : ℕ) (a : Account H S) (db : AuthDb H S)
      → Kept db ((mint_token_pair verify sha raw fresh now a db).0)
  unfolding mint_token_pair
  mint_token_pair-Kept raw fresh now a db =
      elim (Bool-cases
        (any (λ (r : RefreshToken). r.id == fresh || r.token_hash == sha raw) db.refresh_tokens)) [
          | inl clash ↦ rw (mint_token_pair, clash) (same-Kept db db refl refl)
          | inr new ↦ rw (mint_token_pair, new) (append-Kept (_ ∷ []) db)
        ]

  enter-Kept :
      (raw fresh now : ℕ) (a : Account H S) (db : AuthDb H S)
      → Kept db ((enter verify sha raw fresh now a db).0)
  unfolding enter
  enter-Kept raw fresh now a db = elim (role_cases a.role) [
    | inl admin ↦ rw (enter, admin) (log_auth-Kept AuthEvent.login_preauth (account_id a) none db)
    | inr owns ↦
        let minted = mint_token_pair-Kept raw fresh now a db in
        elim (Result-cases (mint_token_pair verify sha raw fresh now a db).1) [
          | inl (e, refused) ↦ rw (enter, owns, refused) minted
          | inr (pair, made) ↦ rw (enter, owns, made) (then_log _ _ _ db _ minted)
        ]
  ]

  gate_owner-Kept :
      (raw fresh now : ℕ) (a : Account H S) (db : AuthDb H S)
      → Kept db ((gate_owner verify sha raw fresh now a db).0)
  unfolding gate_owner
  gate_owner-Kept raw fresh now a db =
      let entered = enter-Kept raw fresh now a db in
      elim (Option-cases (owner_row verify sha (account_owner verify sha a) db)) [
        | inl unknown ↦ rw (gate_owner, unknown) entered
        | inr (w, known) ↦ elim (Bool-cases (is_suspended w.status)) [
          | inl suspended ↦ rw (gate_owner, known, suspended) (log_auth-Kept _ _ _ db)
          | inr active ↦ rw (gate_owner, known, active) entered
        ]
      ]

  pub login-Kept :
      (raw fresh now email : ℕ) (password : Text) (db : AuthDb H S)
      → Kept db ((login verify sha raw fresh now email password db).0)
  unfolding login
  login-Kept raw fresh now email password db =
      elim (Option-cases (find_by_email email db.accounts)) [
        | inl unknown ↦ rw (login, unknown) (same-Kept db db refl refl)
        | inr (a, known) ↦ elim (Result-cases (assert_not_locked LockoutKind.login now a.user)) [
          | inl (e, locked) ↦ rw (login, known, locked) (same-Kept db db refl refl)
          | inr (_, open_account) ↦ elim (Bool-cases (is_password_of verify sha a password)) [
            | inl right ↦
                rw (login, known, open_account, right)
                  (Kept-trans db _ _ (pass_login-Kept a db)
                    (gate_owner-Kept raw fresh now a (pass_login verify sha a db)))
            | inr wrong ↦
                rw (login, known, open_account, wrong)
                  (fail_login-Kept AuthEvent.login_failed now a db)
          ]
        ]
      ]

  revoke-Kept : (id now : ℕ) (db : AuthDb H S) → Kept db (revoke verify sha id now db)
  unfolding revoke
  revoke-Kept id now db = revoke_where-Kept _ now db

  rotate-Kept :
      (raw fresh now : ℕ) (row : RefreshToken) (db : AuthDb H S)
      → Kept db ((rotate verify sha raw fresh now row db).0)
  unfolding rotate
  rotate-Kept raw fresh now row db = elim (Option-cases (find_account row.user_id db.accounts)) [
    | inl unknown ↦ rw (rotate, unknown) (same-Kept db db refl refl)
    | inr (a, known) ↦
        rw (rotate, known)
          (Kept-trans db _ _ (revoke-Kept row.id now db)
            (mint_token_pair-Kept raw fresh now a (revoke verify sha row.id now db)))
  ]

  pub refresh-Kept :
      (raw fresh now token : ℕ) (db : AuthDb H S)
      → Kept db ((refresh verify sha raw fresh now token db).0)
  unfolding refresh revoke_all
  refresh-Kept raw fresh now token db =
      elim (Option-cases (find_token (sha token) db.refresh_tokens)) [
        | inl unknown ↦ rw (refresh, unknown) (same-Kept db db refl refl)
        | inr (row, known) ↦ elim (Bool-cases (is_some row.revoked_at)) [
          | inl reused ↦
              rw (refresh, known, reused) (then_log _ _ _ db _ (revoke_where-Kept _ now db))
          | inr live ↦ elim (Bool-cases (ltb row.expires_at now)) [
            | inl late ↦ rw (refresh, known, live, late) (revoke-Kept row.id now db)
            | inr fits ↦ rw (refresh, known, live, fits) (rotate-Kept raw fresh now row db)
          ]
        ]
      ]

  pub logout-Kept : (now token : ℕ) (db : AuthDb H S) → Kept db (logout verify sha now token db)
  unfolding logout
  logout-Kept now token db = elim (Option-cases (find_token (sha token) db.refresh_tokens)) [
    | inl unknown ↦ rw (logout, unknown) (same-Kept db db refl refl)
    | inr (row, known) ↦ elim (Bool-cases (is_some row.revoked_at)) [
      | inl dead ↦ rw (logout, known, dead) (same-Kept db db refl refl)
      | inr live ↦ rw (logout, known, live) (revoke-Kept row.id now db)
    ]
  ]

  pub verify_owner_credentials-Kept :
      (event : AuthEvent) (now email : ℕ) (password : Text) (db : AuthDb H S)
      → Kept db ((verify_owner_credentials verify sha event now email password db).0)
  unfolding verify_owner_credentials
  verify_owner_credentials-Kept event now email password db =
      elim (Option-cases (find_by_email email db.accounts)) [
        | inl unknown ↦ rw (verify_owner_credentials, unknown) (same-Kept db db refl refl)
        | inr (a, known) ↦ elim (Result-cases (assert_not_locked LockoutKind.login now a.user)) [
          | inl (e, locked) ↦
              rw (verify_owner_credentials, known, locked) (same-Kept db db refl refl)
          | inr (_, free) ↦ elim (Bool-cases (is_password_of verify sha a password)) [
            | inl right ↦
                elim (Bool-cases (
                  (not (User.deleted a.user) && is_owner a.role)
                  && is_some (account_owner verify sha a))) [
                    | inl owns ↦
                        rw (verify_owner_credentials, known, free, right, owns)
                          (pass_login-Kept a db)
                    | inr barred ↦
                        rw (verify_owner_credentials, known, free, right, barred)
                          (same-Kept db db refl refl)
                  ]
            | inr wrong ↦
                rw (verify_owner_credentials, known, free, wrong) (fail_login-Kept event now a db)
          ]
        ]
      ]
