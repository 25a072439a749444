-- ===== src/Lockout/Tests.antt =====
-- A user who enters wrong PINs, under a stand-in for argon2.
use sentry_pos_be.Common.{
  ℕ, ◌+◌, ◌-◌, ◌/◌, ◌≤◌, refl, Bool, false, some, none, List, [], ◌∷◌, arith,
}
use sentry_pos_be.Text.{Text, text_eq}
use sentry_pos_be.Lockout.{User, Accounts, lockout_ms, find_user, find_owner_user}
use sentry_pos_be.Lockout.Guesses.{IsFound, guesses, guesses_bounded}

-- A hash that is the code of the PIN's only digit.
abbrev one_digit : ℕ → Text → Bool
unfolding text_eq
one_digit hash text = text_eq text (hash ∷ [])

abbrev manager : User ℕ
manager = record {
  id = 1;
  owner_id = some 7;
  deleted = false;
  pin_hash = some 4;
  failed_pin_count = 0;
  failed_login_count = 0;
  pin_locked_until = none;
  login_locked_until = none;
}

abbrev accounts : Accounts ℕ
accounts = record { users = manager ∷ []; pin_failures = [] }

abbrev wrong_pins : List (ℕ × Text)
wrong_pins =
    (0, 5 ∷ [])
    ∷ (1000, [])
    ∷ (2000, 6 ∷ [])
    ∷ (3000, 7 ∷ [])
    ∷ (4000, 8 ∷ [])
    ∷ (303_000, 9 ∷ [])
    ∷ []

is_found : IsFound 7 accounts.users manager
unfolding find_user find_owner_user
is_found = record { by_owner = refl; by_id = refl }

guesses_bounded_example :
    guesses one_digit 7 wrong_pins accounts ≤ 4 - 0 + (303_000 - 0) / lockout_ms
unfolding text_eq
guesses_bounded_example =
    guesses_bounded one_digit 7 wrong_pins 0 303_000 accounts manager is_found refl
      (refl, (refl, (refl, (refl, (refl, (refl, tt))))))
      (
        omega arith,
        omega arith,
        (
          omega arith,
          omega arith,
          (
            omega arith,
            omega arith,
            (omega arith, omega arith, (omega arith, omega arith, (omega arith, omega arith, tt))),
          ),
        ),
      )
      (omega arith) refl (omega arith)
