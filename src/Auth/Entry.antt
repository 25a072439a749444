-- ===== src/Auth/Entry.antt =====
-- src/auth/auth.service.ts: to whom login gives a pair of tokens.
use sentry_pos_be.Common.{
  ℕ, ◌≡◌, refl, ap, sym, ◌∙◌, Bool, true, false, Option, none, some, arith, ok, Option-cases,
  Bool-cases, inl, inr, any, ◌==◌, ◌||◌,
}
use sentry_pos_be.Text.{Text}
use sentry_pos_be.Devices.{Owner}
use sentry_pos_be.Lockout.{LockoutKind, assert_not_locked}
use sentry_pos_be.Auth.{
  Account, RefreshToken, AuthDb, AccessToken, LoginResult, Role, account_id, find_by_email,
}
use sentry_pos_be.Auth.Sessions.{
  mint_token_pair, is_password_of, pass_login, owner_row, enter, gate_owner, login, account_owner,
  is_suspended,
}
use sentry_pos_be.Auth.Effects.{Result-cases, role_cases}

module _ {H S : Type 0} (verify : H → Text → Bool) (sha : ℕ → ℕ) where
  -- The token speaks for the account, an owner's, and nothing suspends the owner.
  abbrev pub SpeaksFor : AccessToken → Account H S → AuthDb H S → Type 0
  SpeaksFor access a db =
      (access.sub ≡ account_id a)
      × (access.owner_id ≡ account_owner verify sha a)
      × (a.role ≡ Role.owner)
      × ((w : Owner)
          → owner_row verify sha (account_owner verify sha a) db ≡ some w
          → is_suspended w.status ≡ false)

  mint_token_pair_payload :
      (raw fresh now : ℕ) (a : Account H S) (db : AuthDb H S) (access : AccessToken) (next : ℕ)
      → (mint_token_pair verify sha raw fresh now a db).1 ≡ ok (access, next)
      → (access.sub ≡ account_id a) × (access.owner_id ≡ account_owner verify sha a)
  unfolding mint_token_pair
  mint_token_pair_payload raw fresh now a db access next e =
      elim (Bool-cases
        (any (λ (r : RefreshToken). r.id == fresh || r.token_hash == sha raw) db.refresh_tokens)) [
          | inl clash ↦ absurd (ground arith)
          | inr new ↦ (ground arith, ground arith)
        ]

  enter-signed_in :
      (raw fresh now : ℕ) (a : Account H S) (db after : AuthDb H S) (access : AccessToken)
      (next : ℕ)
      → enter verify sha raw fresh now a db ≡ (after, ok (LoginResult.signed_in access next))
      → (access.sub ≡ account_id a)
        × (access.owner_id ≡ account_owner verify sha a)
        × (a.role ≡ Role.owner)
  unfolding enter
  enter-signed_in raw fresh now a db after access next e = elim (role_cases a.role) [
    | inl admin ↦ absurd (ground arith)
    | inr owns ↦ elim (Result-cases (mint_token_pair verify sha raw fresh now a db).1) [
      | inl (refusal, refused) ↦ absurd (ground arith)
      | inr ((token, given), made) ↦
          let same : token ≡ access = ground arith in
          let (sub, of) = mint_token_pair_payload raw fresh now a db token given made in
          (sym (ap AccessToken.sub same) ∙ sub, sym (ap AccessToken.owner_id same) ∙ of, owns)
    ]
  ]

  gate_owner-signed_in :
      (raw fresh now : ℕ) (a : Account H S) (db after : AuthDb H S) (access : AccessToken)
      (next : ℕ)
      → gate_owner verify sha raw fresh now a db ≡ (after, ok (LoginResult.signed_in access next))
      → SpeaksFor access a db
  unfolding gate_owner
  gate_owner-signed_in raw fresh now a db after access next e =
      elim (Option-cases (owner_row verify sha (account_owner verify sha a) db)) [
        | inl unknown ↦
            let (sub, owns, role) =
              enter-signed_in raw fresh now a db after access next (ground arith) in
            (sub, owns, role, λ w found. absurd (cc (unknown, found)))
        | inr (x, known) ↦ elim (Bool-cases (is_suspended x.status)) [
          | inl suspended ↦ absurd (ground arith)
          | inr active ↦
              let (sub, owns, role) =
                enter-signed_in raw fresh now a db after access next (ground arith) in
              (sub, owns, role, λ w found. ground (arith))
        ]
      ]

  owner_row-pass_login :
      (o : Option ℕ) (a : Account H S) (db : AuthDb H S)
      → owner_row verify sha o (pass_login verify sha a db) ≡ owner_row verify sha o db
  unfolding owner_row pass_login
  owner_row-pass_login none a db = refl
  owner_row-pass_login (some o) a db = refl

  -- Login gives out an access token only for the account of the email, an owner's: the password is that
  -- account's, no lock of it is in force, the token carries its id and its owner, and the owner's
  -- status, where there is such an owner, is active. A platform admin never gets one here.
  pub login-signed_in :
      (raw fresh now email : ℕ) (password : Text) (db after : AuthDb H S) (access : AccessToken)
      (next : ℕ)
      → login verify sha raw fresh now email password db
        ≡ (after, ok (LoginResult.signed_in access next))
      → (a : Account H S) × (find_by_email email db.accounts ≡ some a)
        × (is_password_of verify sha a password ≡ true)
        × (assert_not_locked LockoutKind.login now a.user ≡ ok tt)
        × SpeaksFor access a db
  unfolding login pass_login
  login-signed_in raw fresh now email password db after access next e =
      elim (Option-cases (find_by_email email db.accounts)) [
        | inl unknown ↦ absurd (ground arith)
        | inr (a, known) ↦ elim (Result-cases (assert_not_locked LockoutKind.login now a.user)) [
          | inl (refusal, locked) ↦ absurd (ground arith)
          | inr (free, unlocked) ↦ elim (Bool-cases (is_password_of verify sha a password)) [
            | inl right ↦
                let (sub, owns, role, serves) =
                  gate_owner-signed_in raw fresh now a (pass_login verify sha a db) after access
                    next (ground arith) in
                (
                  a,
                  known,
                  right,
                  unlocked,
                  (
                    sub,
                    owns,
                    role,
                    λ w found.
                        serves w (owner_row-pass_login (account_owner verify sha a) a db ∙ found),
                  ),
                )
            | inr wrong ↦ absurd (ground arith)
          ]
        ]
      ]
