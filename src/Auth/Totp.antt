-- ===== src/Auth/Totp.antt =====
-- src/auth/totp.service.ts: enrolling in TOTP, and the check of a code or a recovery code. otplib is
-- the parameter `check`: for a secret, a code, the step after which it looks and the time, the step
-- that the code is of, or none where it is wrong or is no code.
use sentry_pos_be.Common.{
  ℕ, Bool, Option, none, some, List, [], ◌∷◌, if◌then◌else◌, is_some, Error, Result, ok, err,
}
use sentry_pos_be.Text.{Text}
use sentry_pos_be.Auth.{Account, AuthDb, find_account, update_account}

-- The hashes without the first that matches, if one does.
unfoldable pub spend {ℓ} : {H : Type ℓ} → (H → Bool) → List H → Option (List H)
spend p [] = none
spend p (h ∷ hs) =
    let rest = spend p hs in
    if p h then some hs else (elim rest [ none ↦ none | some left ↦ some (h ∷ left) ])

module _ {H S : Type 0} (verify : H → Text → Bool)
    (check : S → Text → Option ℕ → ℕ → Option ℕ) where
  unfoldable pub change : ℕ → (Account H S → Account H S) → AuthDb H S → AuthDb H S
  unfolding update_account
  change user f db = record db { accounts = update_account user f db.accounts }

  -- `generateSetup`, with the new secret.
  unfoldable pub generate_setup : S → ℕ → AuthDb H S → Result (AuthDb H S)
  unfolding find_account change
  generate_setup secret user db = elim (find_account user db.accounts) [
    | none ↦ err Error.row_missing
    | some a ↦ ok (change user (λ x. record x { totp_pending_secret = some secret }) db)
  ]

  -- `enableTotp`, with the hashes of the new recovery codes.
  unfoldable pub enable_totp : List H → ℕ → ℕ → Text → AuthDb H S → Result (AuthDb H S)
  unfolding find_account change
  enable_totp hashes now user code db = elim (find_account user db.accounts) [
    | none ↦ err Error.row_missing
    | some a ↦ elim a.totp_pending_secret [
      | none ↦ err Error.totp_invalid
      | some secret ↦
          if is_some (check secret code none now)
          then ok (
              change user
                (λ x. record x {
                  totp_secret = some secret;
                  totp_pending_secret = none;
                  totp_recovery_codes = hashes;
                })
                db)
          else err Error.totp_invalid
    ]
  ]

  -- The recovery codes, tried in order.
  unfoldable pub try_recovery : ℕ → Account H S → Text → AuthDb H S → Result (AuthDb H S)
  unfolding spend change
  try_recovery user a code db = elim (spend (λ h. verify h code) a.totp_recovery_codes) [
    | none ↦ err Error.totp_invalid
    | some left ↦ ok (change user (λ x. record x { totp_recovery_codes = left }) db)
  ]

  -- `verifyTotp`.
  unfoldable pub verify_totp : ℕ → ℕ → Text → AuthDb H S → Result (AuthDb H S)
  unfolding find_account change try_recovery
  verify_totp now user code db = elim (find_account user db.accounts) [
    | none ↦ err Error.row_missing
    | some a ↦ elim a.totp_secret [
      | none ↦ err Error.totp_invalid
      | some secret ↦ elim (check secret code a.totp_last_time_step now) [
        | some step ↦ ok (change user (λ x. record x { totp_last_time_step = some step }) db)
        | none ↦ try_recovery user a code db
      ]
    ]
  ]
