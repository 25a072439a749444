-- ===== src/Auth/Uses.antt =====
-- src/auth: the operations one after the other, and what a token that has served is worth then.
use sentry_pos_be.Common.{ℕ, ◌≡◌, refl, Bool, Option, List, Result, ok}
use mathlib.Core.Path.{subst}
use sentry_pos_be.Text.{Text}
use sentry_pos_be.Auth.{AuthToken, AuthEvent, AuthDb}
use sentry_pos_be.Auth.Sessions.{login, refresh, logout, verify_owner_credentials}
use sentry_pos_be.Auth.Invites.{create_invite, request_reset, accept_invite, confirm_reset}
use sentry_pos_be.Auth.Totp.{generate_setup, enable_totp, verify_totp}
use sentry_pos_be.Auth.Kept.{Kept, same-Kept, Kept-trans}
use sentry_pos_be.Auth.Effects.{
  login-Kept, refresh-Kept, logout-Kept, verify_owner_credentials-Kept,
}
use sentry_pos_be.Auth.Once.{
  create_invite-Kept, request_reset-Kept, accept_invite-Kept, confirm_reset-Kept,
  generate_setup-Kept, enable_totp-Kept, verify_totp-Kept,
}

module _ {H S : Type 0} (verify : H → Text → Bool) (hash : Text → H) (sha : ℕ → ℕ)
    (seed_demo : ℕ → Result (Unit {0})) (check : S → Text → Option ℕ → ℕ → Option ℕ) where
  -- Operations of src/auth, one after the other, each by whomever and at whatever time. Those that run
  -- in a transaction and fail leave the state as it was.
  pub data Evolves (db : AuthDb H S) : AuthDb H S → Type 0 where
    start : Evolves db db
    sign_in :
        {mid after : AuthDb H S} (raw fresh now email : ℕ) (password : Text)
        → Evolves db mid
        → (login verify sha raw fresh now email password mid).0 ≡ after
        → Evolves db after
    renew :
        {mid after : AuthDb H S} (raw fresh now token : ℕ)
        → Evolves db mid
        → (refresh verify sha raw fresh now token mid).0 ≡ after
        → Evolves db after
    sign_out :
        {mid after : AuthDb H S} (now token : ℕ)
        → Evolves db mid
        → logout verify sha now token mid ≡ after
        → Evolves db after
    check_owner :
        {mid after : AuthDb H S} (event : AuthEvent) (now email : ℕ) (password : Text)
        → Evolves db mid
        → (verify_owner_credentials verify sha event now email password mid).0 ≡ after
        → Evolves db after
    send_invite :
        {mid after : AuthDb H S} (raw fresh now user : ℕ)
        → Evolves db mid
        → create_invite hash sha seed_demo raw fresh now user mid ≡ ok after
        → Evolves db after
    ask_reset :
        {mid after : AuthDb H S} (raw fresh now email : ℕ)
        → Evolves db mid
        → request_reset hash sha seed_demo raw fresh now email mid ≡ ok after
        → Evolves db after
    take_invite :
        {mid after : AuthDb H S} (now token : ℕ) (password : Text) (pre : List AuthToken)
        → Evolves db mid
        → accept_invite hash sha seed_demo now token password pre mid ≡ ok after
        → Evolves db after
    take_reset :
        {mid after : AuthDb H S} (now token : ℕ) (password : Text) (pre : List AuthToken)
        → Evolves db mid
        → confirm_reset hash sha seed_demo now token password pre mid ≡ ok after
        → Evolves db after
    set_up :
        {mid after : AuthDb H S} (secret : S) (user : ℕ)
        → Evolves db mid
        → generate_setup verify check secret user mid ≡ ok after
        → Evolves db after
    enrol :
        {mid after : AuthDb H S} (hashes : List H) (now user : ℕ) (code : Text)
        → Evolves db mid
        → enable_totp verify check hashes now user code mid ≡ ok after
        → Evolves db after
    give_code :
        {mid after : AuthDb H S} (now user : ℕ) (code : Text)
        → Evolves db mid
        → verify_totp verify check now user code mid ≡ ok after
        → Evolves db after

  pub Evolves-Kept : {db after : AuthDb H S} → Evolves db after → Kept db after
  Evolves-Kept {db} start = same-Kept db db refl refl
  Evolves-Kept {db} {after} (sign_in {mid} raw fresh now email password earlier e) =
      Kept-trans db mid after (Evolves-Kept earlier)
        (subst (λ x. Kept mid x) e (login-Kept verify sha raw fresh now email password mid))
  Evolves-Kept {db} {after} (renew {mid} raw fresh now token earlier e) =
      Kept-trans db mid after (Evolves-Kept earlier)
        (subst (λ x. Kept mid x) e (refresh-Kept verify sha raw fresh now token mid))
  Evolves-Kept {db} {after} (sign_out {mid} now token earlier e) =
      Kept-trans db mid after (Evolves-Kept earlier)
        (subst (λ x. Kept mid x) e (logout-Kept verify sha now token mid))
  Evolves-Kept {db} {after} (check_owner {mid} event now email password earlier e) =
      Kept-trans db mid after (Evolves-Kept earlier) (
        subst (λ x. Kept mid x) e
          (verify_owner_credentials-Kept verify sha event now email password mid))
  Evolves-Kept {db} {after} (send_invite {mid} raw fresh now user earlier e) =
      Kept-trans db mid after (Evolves-Kept earlier)
        (create_invite-Kept hash sha seed_demo raw fresh now user mid after e)
  Evolves-Kept {db} {after} (ask_reset {mid} raw fresh now email earlier e) =
      Kept-trans db mid after (Evolves-Kept earlier)
        (request_reset-Kept hash sha seed_demo raw fresh now email mid after e)
  Evolves-Kept {db} {after} (take_invite {mid} now token password pre earlier e) =
      Kept-trans db mid after (Evolves-Kept earlier)
        (accept_invite-Kept hash sha seed_demo now token password pre mid after e)
  Evolves-Kept {db} {after} (take_reset {mid} now token password pre earlier e) =
      Kept-trans db mid after (Evolves-Kept earlier)
        (confirm_reset-Kept hash sha seed_demo now token password pre mid after e)
  Evolves-Kept {db} {after} (set_up {mid} secret user earlier e) =
      Kept-trans db mid after (Evolves-Kept earlier)
        (generate_setup-Kept verify check secret user mid after e)
  Evolves-Kept {db} {after} (enrol {mid} hashes now user code earlier e) =
      Kept-trans db mid after (Evolves-Kept earlier)
        (enable_totp-Kept verify check hashes now user code mid after e)
  Evolves-Kept {db} {after} (give_code {mid} now user code earlier e) =
      Kept-trans db mid after (Evolves-Kept earlier)
        (verify_totp-Kept verify check now user code mid after e)
