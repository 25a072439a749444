-- ===== src/Auth/Replay.antt =====
-- src/auth: a token serves once, whatever happens after it has served.
use sentry_pos_be.Common.{
  ℕ, ◌+◌, ◌≡◌, refl, ◌∙◌, sym, Bool, true, false, Option, none, some, List, [], ◌∷◌, ◌++◌, ◌==◌,
  ◌||◌, ltb, any, is_some, arith, Error, Result, ok, err, Option-cases, Bool-cases, inl, inr,
  ==_refl,
}
use mathlib.Core.Path.{subst}
use sentry_pos_be.Text.{Text}
use sentry_pos_be.Auth.{
  Account, RefreshToken, AuthToken, AuthTokenKind, AuthDb, AccessToken, account_id, find_account,
  log_auth, refresh_ttl_ms,
}
use sentry_pos_be.Auth.Sessions.{find_token, revoke, revoke_all, mint_token_pair, rotate, refresh}
use sentry_pos_be.Auth.Invites.{is_unused, find_auth_token, is_void_token, consume_token}
use sentry_pos_be.Auth.Kept.{
  IsRevoked, IsSpent, is_live_of, Kept, append-IsRevoked, revoke_where_found, revoke_where_ends,
  mark_used_spends, mark_used_keeps_ids,
}
use sentry_pos_be.Auth.Once.{consume_token_works}
use sentry_pos_be.Auth.Uses.{Evolves, Evolves-Kept}

module _ {H S : Type 0} (verify : H → Text → Bool) (sha : ℕ → ℕ) where
  find_account_works :
      (id : ℕ) (accounts : List (Account H S)) (a : Account H S)
      → find_account id accounts ≡ some a
      → account_id a ≡ id
  unfolding find_account
  find_account_works id [] a e = absurd (cc e)
  find_account_works id (x ∷ accounts) a e = ground (arith, find_account_works id accounts a)

  mint_token_pair_works :
      (raw fresh now : ℕ) (a : Account H S) (db mid : AuthDb H S) (access : AccessToken)
      (next user h : ℕ)
      → mint_token_pair verify sha raw fresh now a db ≡ (mid, ok (access, next))
      → IsRevoked user h db.refresh_tokens
      → (access.sub ≡ account_id a) × IsRevoked user h mid.refresh_tokens
  unfolding mint_token_pair
  mint_token_pair_works raw fresh now a db mid access next user h e old =
      elim (Bool-cases
        (any (λ (r : RefreshToken). r.id == fresh || r.token_hash == sha raw) db.refresh_tokens)) [
          | inl clash ↦ absurd (ground arith)
          | inr new ↦
              let row : RefreshToken = record {
                id = fresh;
                token_hash = sha raw;
                user_id = account_id a;
                expires_at = now + refresh_ttl_ms;
                revoked_at = none;
              } in
              let grown : db.refresh_tokens ++ (row ∷ []) ≡ mid.refresh_tokens = ground arith in
              (
                ground arith,
                subst (λ rows. IsRevoked user h rows) grown
                    (append-IsRevoked user h db.refresh_tokens (row ∷ []) old),
              )
        ]

  rotate_works :
      (raw fresh now h : ℕ) (row : RefreshToken) (db mid : AuthDb H S) (access : AccessToken)
      (next : ℕ)
      → rotate verify sha raw fresh now row db ≡ (mid, ok (access, next))
      → find_token h db.refresh_tokens ≡ some row
      → IsRevoked access.sub h mid.refresh_tokens
  unfolding rotate revoke
  rotate_works raw fresh now h row db mid access next e known =
      elim (Option-cases (find_account row.user_id db.accounts)) [
        | inl unknown ↦ absurd (ground arith)
        | inr (a, found) ↦
            let (sub, old) =
              mint_token_pair_works raw fresh now a (revoke verify sha row.id now db) mid access
                next row.user_id h (ground arith)
                (revoke_where_found (λ r. r.id == row.id) now h db.refresh_tokens row known
                  (==_refl row.id)) in
            subst (λ user. IsRevoked user h mid.refresh_tokens)
              (sym (sub ∙ find_account_works row.user_id db.accounts a found)) old
      ]

  refresh_works :
      (raw fresh now token : ℕ) (db mid : AuthDb H S) (access : AccessToken) (next : ℕ)
      → refresh verify sha raw fresh now token db ≡ (mid, ok (access, next))
      → IsRevoked access.sub (sha token) mid.refresh_tokens
  unfolding refresh
  refresh_works raw fresh now token db mid access next e =
      elim (Option-cases (find_token (sha token) db.refresh_tokens)) [
        | inl unknown ↦ absurd (ground arith)
        | inr (row, known) ↦ elim (Bool-cases (is_some row.revoked_at)) [
          | inl reused ↦ absurd (ground arith)
          | inr live ↦ elim (Bool-cases (ltb row.expires_at now)) [
            | inl late ↦ absurd (ground arith)
            | inr fits ↦
                rotate_works raw fresh now (sha token) row db mid access next (ground arith) known
          ]
        ]
      ]

  refresh_reused :
      (raw fresh now token user : ℕ) (db : AuthDb H S)
      → IsRevoked user (sha token) db.refresh_tokens
      → ((refresh verify sha raw fresh now token db).1 ≡ err Error.unauthorized)
        × (any
              (is_live_of user)
              (AuthDb.refresh_tokens ((refresh verify sha raw fresh now token db).0))
            ≡ false)
  unfolding refresh revoke_all log_auth
  refresh_reused raw fresh now token user db (row, known, whose, dead) = (
    rw (refresh, known, dead) refl,
    rw (refresh, known, dead, whose) (revoke_where_ends now user db.refresh_tokens),
  )

consume_token_stops :
    {H S : Type 0} (hash : Text → H) (sha : ℕ → ℕ) (seed_demo : ℕ → Result (Unit {0}))
    (kind : AuthTokenKind) (now token : ℕ) (pre : List AuthToken) (db : AuthDb H S) (r : AuthToken)
    → find_auth_token (sha token) pre ≡ some r
    → IsSpent r.id db.auth_tokens
    → consume_token hash sha seed_demo kind now token pre db ≡ err Error.invalid_token
unfolding consume_token
consume_token_stops hash sha seed_demo kind now token pre db r found (here, none_left) =
    elim (Bool-cases (is_void_token kind now r)) [
      | inl refused ↦ rw (consume_token, found, refused) refl
      | inr fits ↦ rw (consume_token, found, fits, none_left) refl
    ]

unused_present :
    (id : ℕ) (rows : List AuthToken)
    → any (is_unused id) rows ≡ true
    → any (λ (r : AuthToken). r.id == id) rows ≡ true
unused_present id [] e = absurd (ground arith)
unused_present id (x ∷ rows) e = ground (arith, unused_present id rows)

module _ {H S : Type 0} (verify : H → Text → Bool) (hash : Text → H) (sha : ℕ → ℕ)
    (seed_demo : ℕ → Result (Unit {0})) (check : S → Text → Option ℕ → ℕ → Option ℕ) where
  -- A refresh token that has been exchanged for a new pair is worth nothing from then on: after any
  -- operations whatever, refreshing with it again is refused as unauthorized, and the attempt leaves
  -- no refresh token of that user in force.
  pub refresh_once :
      (raw fresh now token : ℕ) (db mid : AuthDb H S) (access : AccessToken) (next : ℕ)
      {after : AuthDb H S} (raw' fresh' now' : ℕ)
      → refresh verify sha raw fresh now token db ≡ (mid, ok (access, next))
      → Evolves verify hash sha seed_demo check mid after
      → ((refresh verify sha raw' fresh' now' token after).1 ≡ err Error.unauthorized)
        × (any
              (is_live_of access.sub)
              (AuthDb.refresh_tokens ((refresh verify sha raw' fresh' now' token after).0))
            ≡ false)
  refresh_once raw fresh now token db mid access next {after} raw' fresh' now' e later =
      let kept = Evolves-Kept verify hash sha seed_demo check later in
      refresh_reused verify sha raw' fresh' now' token access.sub after (
        Kept.revoked kept access.sub (sha token)
          (refresh_works verify sha raw fresh now token db mid access next e))

  -- An invite or reset token that has been consumed is not consumed again: after any operations
  -- whatever, every attempt with a token of that row is refused as invalid, even one that had read the
  -- row before the first marked it used.
  pub consume_token_once :
      (kind : AuthTokenKind) (now token : ℕ) (pre : List AuthToken) (db mid : AuthDb H S)
      (r : AuthToken) {after : AuthDb H S} (kind' : AuthTokenKind) (now' token' : ℕ)
      (pre' : List AuthToken) (r' : AuthToken)
      → consume_token hash sha seed_demo kind now token pre db ≡ ok (r, mid)
      → Evolves verify hash sha seed_demo check mid after
      → find_auth_token (sha token') pre' ≡ some r'
      → r'.id ≡ r.id
      → consume_token hash sha seed_demo kind' now' token' pre' after ≡ err Error.invalid_token
  consume_token_once kind now token pre db mid r {after} kind' now' token' pre' r' e later found
        same =
      let (live, marked) = consume_token_works hash sha seed_demo kind now token pre db mid r e in
      let spent : IsSpent r.id mid.auth_tokens = rw marked (
        mark_used_keeps_ids r.id r.id now db.auth_tokens ∙ unused_present r.id db.auth_tokens live,
        mark_used_spends r.id now db.auth_tokens,
      ) in
      let kept = Evolves-Kept verify hash sha seed_demo check later in
      consume_token_stops hash sha seed_demo kind' now' token' pre' after r' found
        (rw same (Kept.spent kept r.id spent))
