-- ===== src/Auth/Once.antt =====
-- src/auth/invite.service.ts and totp.service.ts: what the tokens and the codes keep, and how a token
-- is spent.
use sentry_pos_be.Common.{
  ℕ, ◌+◌, ◌≡◌, refl, sym, Bool, true, Option, none, some, List, ◌∷◌, ◌==◌, ◌||◌, any, is_some,
  arith, Result, ok, Option-cases, Bool-cases, inl, inr, >>=-eq-ok, ◌>>=◌,
}
use mathlib.Core.Path.{subst}
use sentry_pos_be.Text.{Text}
use sentry_pos_be.Lockout.{User}
use sentry_pos_be.Auth.{
  Account, AuthToken, AuthTokenKind, AuthEvent, AuthDb, account_id, find_by_email, find_account,
  update_account, log_auth, invite_ttl_ms, reset_ttl_ms,
}
use sentry_pos_be.Auth.Invites.{
  is_unused, mark_used, find_auth_token, issue, create_invite, request_reset, is_void_token,
  consume_token, activate, set_password, accept_invite, confirm_reset,
}
use sentry_pos_be.Auth.Totp.{change, generate_setup, enable_totp, spend, try_recovery, verify_totp}
use sentry_pos_be.Auth.Kept.{
  Kept, same-Kept, Kept-trans, revoke_where-Kept, mark_used-Kept, cons-Kept,
}

module _ {H S : Type 0} (hash : Text → H) (sha : ℕ → ℕ) (seed_demo : ℕ → Result (Unit {0})) where
  issue-Kept :
      (kind : AuthTokenKind) (raw fresh user until : ℕ) (db after : AuthDb H S)
      → issue hash sha seed_demo kind raw fresh user until db ≡ ok after
      → Kept db after
  unfolding issue
  issue-Kept kind raw fresh user until db after h =
      elim (Bool-cases
        (any (λ (r : AuthToken). r.id == fresh || r.token_hash == sha raw) db.auth_tokens)) [
          | inl clash ↦ absurd (ground arith)
          | inr new ↦
              let row : AuthToken = record {
                id = fresh;
                kind = kind;
                token_hash = sha raw;
                user_id = user;
                expires_at = until;
                used_at = none;
              } in
              let e : record db { auth_tokens = row ∷ db.auth_tokens } ≡ after = ground arith in
              subst (λ x. Kept db x) e (cons-Kept row db new)
        ]

  pub create_invite-Kept :
      (raw fresh now user : ℕ) (db after : AuthDb H S)
      → create_invite hash sha seed_demo raw fresh now user db ≡ ok after
      → Kept db after
  unfolding create_invite
  create_invite-Kept raw fresh now user db after h =
      elim (Option-cases (find_account user db.accounts)) [
        | inl unknown ↦ absurd (ground arith)
        | inr (a, known) ↦
            issue-Kept AuthTokenKind.invite raw fresh user (now + invite_ttl_ms) db after
              (ground arith)
      ]

  pub request_reset-Kept :
      (raw fresh now email : ℕ) (db after : AuthDb H S)
      → request_reset hash sha seed_demo raw fresh now email db ≡ ok after
      → Kept db after
  unfolding request_reset
  request_reset-Kept raw fresh now email db after h =
      elim (Option-cases (find_by_email email db.accounts)) [
        | inl unknown ↦ same-Kept db after (ground arith) (ground arith)
        | inr (a, known) ↦
            issue-Kept AuthTokenKind.reset raw fresh (account_id a) (now + reset_ttl_ms) db after
              (ground arith)
      ]

  -- A token is consumed by the mark on an unused row of its id.
  pub consume_token_works :
      (kind : AuthTokenKind) (now token : ℕ) (pre : List AuthToken) (db after : AuthDb H S)
      (r : AuthToken)
      → consume_token hash sha seed_demo kind now token pre db ≡ ok (r, after)
      → (any (is_unused r.id) db.auth_tokens ≡ true)
        × (after ≡ record db { auth_tokens = mark_used r.id now db.auth_tokens })
  unfolding consume_token
  consume_token_works kind now token pre db after r h =
      elim (Option-cases (find_auth_token (sha token) pre)) [
        | inl unknown ↦ absurd (ground arith)
        | inr (q, known) ↦ elim (Bool-cases (is_void_token kind now q)) [
          | inl refused ↦ absurd (ground arith)
          | inr fits ↦ elim (Bool-cases (any (is_unused q.id) db.auth_tokens)) [
            | inl live ↦
                let e : q ≡ r = ground arith in
                (
                  subst (λ x. any (is_unused (AuthToken.id x)) db.auth_tokens ≡ true) e live,
                  ground arith,
                )
            | inr gone ↦ absurd (ground arith)
          ]
        ]
      ]

  consume_token-Kept :
      (kind : AuthTokenKind) (now token : ℕ) (pre : List AuthToken) (db after : AuthDb H S)
      (r : AuthToken)
      → consume_token hash sha seed_demo kind now token pre db ≡ ok (r, after)
      → Kept db after
  consume_token-Kept kind now token pre db after r h =
      subst (λ x. Kept db x) (sym (consume_token_works kind now token pre db after r h).1)
        (mark_used-Kept r.id now db)

  activate-Kept :
      (o : Option ℕ) (db after : AuthDb H S)
      → activate hash sha seed_demo o db ≡ ok after
      → Kept db after
  unfolding activate
  activate-Kept none db after h = same-Kept db after (ground arith) (ground arith)
  activate-Kept (some o) db after h =
      let (_, seeded, e) = >>=-eq-ok (seed_demo o) _ h in
      same-Kept db after (ground arith) (ground arith)

  pub accept_invite-Kept :
      (now token : ℕ) (password : Text) (pre : List AuthToken) (db after : AuthDb H S)
      → accept_invite hash sha seed_demo now token password pre db ≡ ok after
      → Kept db after
  unfolding accept_invite log_auth
  accept_invite-Kept now token password pre db after h =
      let ((r, marked), consumed, rest) =
        >>=-eq-ok (consume_token hash sha seed_demo AuthTokenKind.invite now token pre db) _ h in
      elim (Option-cases (find_account r.user_id marked.accounts)) [
        | inl unknown ↦ absurd (ground arith)
        | inr (a, known) ↦
            let changed : AuthDb H S = record marked {
              accounts =
                  update_account (account_id a) (set_password hash sha seed_demo password)
                    marked.accounts;
            } in
            let calls : (activate hash sha seed_demo (User.owner_id a.user) changed >>= λ x.
            ok (log_auth AuthEvent.invite_accepted (account_id a) (User.owner_id a.user) x))
                ≡ ok after =
              ground arith in
            let (activated, done, logged) =
              >>=-eq-ok (activate hash sha seed_demo (User.owner_id a.user) changed) _ calls in
            Kept-trans db _ after
              (consume_token-Kept AuthTokenKind.invite now token pre db marked r consumed)
              (Kept-trans marked changed after (same-Kept marked changed refl refl) (
                Kept-trans changed activated after
                  (activate-Kept (User.owner_id a.user) changed activated done)
                  (same-Kept activated after (ground arith) (ground arith))))
      ]

  pub confirm_reset-Kept :
      (now token : ℕ) (password : Text) (pre : List AuthToken) (db after : AuthDb H S)
      → confirm_reset hash sha seed_demo now token password pre db ≡ ok after
      → Kept db after
  unfolding confirm_reset log_auth
  confirm_reset-Kept now token password pre db after h =
      let ((r, marked), consumed, rest) =
        >>=-eq-ok (consume_token hash sha seed_demo AuthTokenKind.reset now token pre db) _ h in
      elim (Option-cases (find_account r.user_id marked.accounts)) [
        | inl unknown ↦ absurd (ground arith)
        | inr (a, known) ↦
            Kept-trans db _ after
              (consume_token-Kept AuthTokenKind.reset now token pre db marked r consumed)
              (Kept-trans marked _ after
                (revoke_where-Kept (λ x. x.user_id == r.user_id) now marked)
                (same-Kept _ after (ground arith) (ground arith)))
      ]

module _ {H S : Type 0} (verify : H → Text → Bool)
    (check : S → Text → Option ℕ → ℕ → Option ℕ) where
  pub generate_setup-Kept :
      (secret : S) (user : ℕ) (db after : AuthDb H S)
      → generate_setup verify check secret user db ≡ ok after
      → Kept db after
  unfolding generate_setup change
  generate_setup-Kept secret user db after h = elim (Option-cases (find_account user db.accounts)) [
    | inl unknown ↦ absurd (ground arith)
    | inr (a, known) ↦ same-Kept db after (ground arith) (ground arith)
  ]

  pub enable_totp-Kept :
      (hashes : List H) (now user : ℕ) (code : Text) (db after : AuthDb H S)
      → enable_totp verify check hashes now user code db ≡ ok after
      → Kept db after
  unfolding enable_totp change
  enable_totp-Kept hashes now user code db after h =
      elim (Option-cases (find_account user db.accounts)) [
        | inl unknown ↦ absurd (ground arith)
        | inr (a, known) ↦ elim (Option-cases a.totp_pending_secret) [
          | inl missing ↦ absurd (ground arith)
          | inr (secret, pending) ↦ elim (Bool-cases (is_some (check secret code none now))) [
            | inl right ↦ same-Kept db after (ground arith) (ground arith)
            | inr wrong ↦ absurd (ground arith)
          ]
        ]
      ]

  try_recovery-Kept :
      (user : ℕ) (a : Account H S) (code : Text) (db after : AuthDb H S)
      → try_recovery verify check user a code db ≡ ok after
      → Kept db after
  unfolding try_recovery change
  try_recovery-Kept user a code db after h =
      elim (Option-cases (spend (λ x. verify x code) a.totp_recovery_codes)) [
        | inl missing ↦ absurd (ground arith)
        | inr (left, spent) ↦ same-Kept db after (ground arith) (ground arith)
      ]

  pub verify_totp-Kept :
      (now user : ℕ) (code : Text) (db after : AuthDb H S)
      → verify_totp verify check now user code db ≡ ok after
      → Kept db after
  unfolding verify_totp change
  verify_totp-Kept now user code db after h = elim (Option-cases (find_account user db.accounts)) [
    | inl unknown ↦ absurd (ground arith)
    | inr (a, known) ↦ elim (Option-cases a.totp_secret) [
      | inl missing ↦ absurd (ground arith)
      | inr (secret, enrolled) ↦ elim (Option-cases (check secret code a.totp_last_time_step now)) [
        | inl wrong ↦ try_recovery-Kept user a code db after (ground arith)
        | inr (step, right) ↦ same-Kept db after (ground arith) (ground arith)
      ]
    ]
  ]
