-- ===== src/Common/Outcome.antt =====
-- What a call of a handler returns: a value, or one of the errors that the program throws.
use Prim.Native.Nat.{ℕ}
use mathlib.Core.Bool.{Bool, true, false}
use mathlib.Core.Path.{◌≡◌, refl}
use mathlib.Core.List.{List}

-- The exceptions of src/common/errors/api-errors.ts, with the numbers that they carry, and the
-- database's own refusals: a stock conflict names each short line and what there is for it;
-- `check_violation` is `branch_stock_qty_nonnegative`, `unique_violation`
-- is Prisma's P2002, `row_missing` is a `findUniqueOrThrow` that finds nothing. The last three are the
-- refusals of the scoped client, `TenantScopeError`, `PlatformWriteError` and a query with no context.
pub data Error : Type 0 where
  validation not_found unauthorized forbidden owner_suspended totp_invalid invalid_token email_taken
        max_businesses_reached :
      Error
  platform_write_forbidden : Error
  pin_invalid pin_locked login_invalid login_locked : ℕ → Error
  stock_conflict : List (ℕ × ℕ) → Error
  check_violation unique_violation row_missing out_of_scope platform_write no_context : Error

-- A call throws, or returns a value.
pub data Result {ℓ} (A : Type ℓ) : Type ℓ where
  err : Error → Result A
  ok : A → Result A

-- `if (c) throw e;`
abbrev pub throw_if : Bool → Error → Result (Unit {0})
throw_if false _ = ok tt
throw_if true e = err e

infixl 5 ◌>>=◌ ◌>>◌
-- What follows a call runs on its value, and is left out when it throws.
abbrev pub ◌>>=◌ {κ ℓ} : {A : Type κ} {B : Type ℓ} → Result A → (A → Result B) → Result B
err thrown >>= next = err thrown
ok value >>= next = next value

abbrev pub ◌>>◌ {κ} : {A : Type κ} → Result (Unit {0}) → Result A → Result A
check >> next = check >>= λ _. next

-- Where two calls in a row return, the first has returned.
pub >>=-eq-ok {κ ℓ} :
    {A : Type κ} {B : Type ℓ} (call : Result A) (next : A → Result B) {b : B}
    → (call >>= next) ≡ ok b
    → (value : A) × (call ≡ ok value) × (next value ≡ ok b)
>>=-eq-ok (err thrown) next h = cc
>>=-eq-ok (ok value) next h = (value, refl, h)
