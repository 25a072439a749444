-- ===== src/Auth/Codes.antt =====
-- src/auth/totp.service.ts: what a code that verifies leaves of the account.
use sentry_pos_be.Common.{
  ℕ, ◌≡◌, ◌<◌, ◌⊎◌, refl, sym, ap, Bool, true, Option, some, List, [], ◌∷◌, ◌++◌, ◌==◌, arith, ok,
  Option-cases, Bool-cases, inl, inr,
}
use mathlib.Core.Path.{subst}
use sentry_pos_be.Text.{Text}
use sentry_pos_be.Auth.{Account, AuthDb, account_id, find_account, update_account}
use sentry_pos_be.Auth.Totp.{spend, change, try_recovery, verify_totp}

module _ {H S : Type 0} (verify : H → Text → Bool)
    (check : S → Text → Option ℕ → ℕ → Option ℕ) where
  -- otplib's `afterTimeStep`: a code of that step or an earlier one is not valid.
  abbrev pub LooksAfter : Type 0
  LooksAfter =
      (secret : S) (code : Text) (last now step : ℕ)
      → check secret code (some last) now ≡ some step
      → last < step

  -- A code of a step later than the last: it is the last now, and the recovery codes are as they were.
  abbrev pub IsLater : Account H S → Account H S → Type 0
  IsLater a b =
      (step : ℕ) × (b.totp_last_time_step ≡ some step)
      × ((last : ℕ) → a.totp_last_time_step ≡ some last → last < step)
      × (b.totp_recovery_codes ≡ a.totp_recovery_codes)

  -- The code matches a recovery code, the first that it matches: that one is taken out.
  abbrev pub HasSpent : Text → Account H S → Account H S → Type 0
  HasSpent code a b =
      (used : H) × (before after : List H) × (a.totp_recovery_codes ≡ before ++ (used ∷ after))
      × (b.totp_recovery_codes ≡ before ++ after)
      × (verify used code ≡ true)
      × (b.totp_last_time_step ≡ a.totp_last_time_step)

  find-update_account :
      (id : ℕ) (f : Account H S → Account H S) (accounts : List (Account H S)) (a : Account H S)
      → ((x : Account H S) → account_id (f x) ≡ account_id x)
      → find_account id accounts ≡ some a
      → find_account id (update_account id f accounts) ≡ some (f a)
  unfolding find_account update_account
  find-update_account id f [] a same e = absurd (cc e)
  find-update_account id f (x ∷ accounts) a same e = elim (Bool-cases (account_id x == id)) [
    | inl here ↦
        let moved : x ≡ a = ground arith in
        let stays : (account_id (f x) == id) ≡ true =
          subst (λ n. (n == id) ≡ true) (sym (same x)) here in
        rw (here, stays) (ap (λ y. some (f y)) moved)
    | inr there ↦ let rest = find-update_account id f accounts a same (ground arith) in ground arith
  ]

  spend_works :
      (p : H → Bool) (codes left : List H)
      → spend p codes ≡ some left
      → (used : H) × (before after : List H) × (codes ≡ before ++ (used ∷ after))
        × (left ≡ before ++ after)
        × (p used ≡ true)
  unfolding spend
  spend_works p [] left e = absurd (cc e)
  spend_works p (x ∷ codes) left e = elim (Bool-cases (p x)) [
    | inl right ↦ (x, [], codes, refl, ground arith, right)
    | inr wrong ↦ elim (Option-cases (spend p codes)) [
      | inl none_left ↦ absurd (ground arith)
      | inr (rest, spent) ↦
          let (used, before, after, whole, remains, right) = spend_works p codes rest spent in
          (used, x ∷ before, after, ap (λ l. x ∷ l) whole, ground arith, right)
    ]
  ]

  try_recovery_works :
      (user : ℕ) (a : Account H S) (code : Text) (db after : AuthDb H S)
      → find_account user db.accounts ≡ some a
      → try_recovery verify check user a code db ≡ ok after
      → (b : Account H S) × (find_account user after.accounts ≡ some b) × HasSpent code a b
  unfolding try_recovery change
  try_recovery_works user a code db after known e =
      elim (Option-cases (spend (λ x. verify x code) a.totp_recovery_codes)) [
        | inl missing ↦ absurd (ground arith)
        | inr (left, spent) ↦
            let f : Account H S → Account H S = λ x. record x { totp_recovery_codes = left } in
            let now_there : update_account user f db.accounts ≡ after.accounts = ground arith in
            (
              f a,
              subst (λ l. find_account user l ≡ some (f a)) now_there
                  (find-update_account user f db.accounts a (λ x. refl) known),
              let (used, before, rest, whole, remains, right) =
                    spend_works (λ x. verify x code) a.totp_recovery_codes left spent in
                  (used, before, rest, whole, remains, right, refl),
            )
      ]

  -- Where otplib looks for a code only after the step that it is given: a code that verifies leaves the
  -- account with a last step later than any it had, and the recovery codes as they were; or it matches
  -- a recovery code, which is gone then, while the others are left in their order and the last step is
  -- as it was.
  pub verify_totp_uses :
      LooksAfter
      → (now user : ℕ) (code : Text) (db after : AuthDb H S) (a : Account H S)
      → find_account user db.accounts ≡ some a
      → verify_totp verify check now user code db ≡ ok after
      → (b : Account H S) × (find_account user after.accounts ≡ some b)
        × (IsLater a b ⊎ HasSpent code a b)
  unfolding verify_totp change
  verify_totp_uses looks now user code db after a known e = elim (Option-cases a.totp_secret) [
    | inl missing ↦ absurd (ground arith)
    | inr (secret, enrolled) ↦ elim (Option-cases (check secret code a.totp_last_time_step now)) [
      | inl wrong ↦
          let (b, there, spent) = try_recovery_works user a code db after known (ground arith) in
          (b, there, inr spent)
      | inr (step, right) ↦
          let f : Account H S → Account H S = λ x. record x { totp_last_time_step = some step } in
          let now_there : update_account user f db.accounts ≡ after.accounts = ground arith in
          (
            f a,
            subst (λ l. find_account user l ≡ some (f a)) now_there
                (find-update_account user f db.accounts a (λ x. refl) known),
            inl (
              step,
              refl,
              λ last was.
                  looks secret code last now step
                    (subst (λ o. check secret code o now ≡ some step) was right),
              refl,
            ),
          )
    ]
  ]
