-- ===== src/Money/Fixed.antt =====
-- A stand-in for doubles on which the laws of `IsIeee` can be checked: numbers in billionths, not
-- negative where it matters, with products and quotients rounded down.
use native.Mathlib.Nat.{mul-le-mul_left, div-le_of_le-mul}
use sentry_pos_be.Common.{
  ℕ, ◌+◌, ◌*◌, ◌/◌, ◌≤◌, ◌≡◌, refl, ◌⊎◌, zero, inl, inr, ℤ, pos, negsuc, pos_part, ◌≤ℤ◌, leb_ℤ,
  eq_ℤ, ltb_ℤ, abs_ℤ, arith, if◌then◌else◌, suc,
}
use sentry_pos_be.Money.{Double}
use sentry_pos_be.Money.Laws.{IsIeee, IsAmount, IsRate, ◌≼◌, IsSafe}

pub record Fixed : Type 0 where
  pub billionths : ℤ

abbrev pub fixed : ℤ → Fixed
fixed x = record { billionths = x }

abbrev pub parts_per_one : ℕ
parts_per_one = 1_000_000_000

abbrev of_whole : ℤ → Fixed
of_whole (pos n) = fixed (pos (n * parts_per_one))
of_whole (negsuc n) = fixed (negsuc (n * parts_per_one + 999_999_999))

abbrev sign_of : ℤ → ℤ
sign_of (pos n) = if ltb_ℤ (pos 0) (pos n) then pos 1 else pos 0
sign_of (negsuc n) = negsuc 0

abbrev round_whole : ℤ → ℤ
round_whole (pos n) = pos ((n * 2 + parts_per_one) / 2_000_000_000)
round_whole (negsuc n) = pos 0

instance abbrev pub fixed_double : Double Fixed
fixed_double = record {
  of_ℤ = of_whole;
  add = λ x y. fixed (pos (pos_part x.billionths + pos_part y.billionths));
  mul = λ x y. fixed (pos (pos_part x.billionths * pos_part y.billionths / parts_per_one));
  div = λ x y. fixed (pos (pos_part x.billionths * parts_per_one / pos_part y.billionths));
  is_zero = λ x. eq_ℤ x.billionths (pos 0);
  le = λ x y. leb_ℤ x.billionths y.billionths;
  sign = λ x. sign_of x.billionths;
  abs = λ x. fixed (pos (abs_ℤ x.billionths));
  round = λ x. round_whole x.billionths;
}

of_mono_fixed : (a b : ℤ) → a ≤ℤ b → of_whole a ≼ of_whole b
of_mono_fixed (pos a) (pos b) h = ground arith
of_mono_fixed (pos a) (negsuc b) h = absurd (omega arith)
of_mono_fixed (negsuc a) (pos b) h = ground arith
of_mono_fixed (negsuc a) (negsuc b) h = ground arith

round_mono_fixed : (x y : ℤ) → fixed x ≼ fixed y → round_whole x ≤ℤ round_whole y
round_mono_fixed (pos x) (pos y) h = let ordered : x ≤ y = ground arith in omega arith
round_mono_fixed (pos x) (negsuc y) h = absurd (ground arith)
round_mono_fixed (negsuc x) (pos y) h = ground arith
round_mono_fixed (negsuc x) (negsuc y) h = ground arith

round_of_fixed : (a : ℤ) → IsSafe a → fixed_double.round (of_whole a) ≡ a
round_of_fixed (pos a) safe = ground arith
round_of_fixed (negsuc a) safe = absurd (omega arith)

abs_fixed : (x : ℤ) → fixed (pos 0) ≼ fixed x → fixed (pos (abs_ℤ x)) ≡ fixed x
abs_fixed (pos x) h = ground arith
abs_fixed (negsuc x) h = ground arith

sign_fixed :
    (x : ℤ)
    → fixed (pos 0) ≼ fixed x
    → (sign_of x ≡ pos 1) ⊎ ((sign_of x ≡ pos 0) × (fixed x ≡ fixed (pos 0)))
sign_fixed (pos zero) h = inr (refl, refl)
sign_fixed (pos (suc x)) h = inl (ground arith)
sign_fixed (negsuc x) h = ground arith

mul_fixed :
    (x r : ℤ)
    → IsAmount (fixed x)
    → IsRate (fixed r)
    → (fixed (pos 0) ≼ fixed_double.mul (fixed x) (fixed r))
      × (fixed_double.mul (fixed x) (fixed r) ≼ fixed x)
mul_fixed (pos x) (pos r) hx hr =
    let small : r ≤ parts_per_one = ground arith in
    let bounded : x * r / parts_per_one ≤ x =
      div-le_of_le-mul parts_per_one (omega (arith, mul-le-mul_left x small)) in
    (ground arith, ground arith)
mul_fixed (negsuc x) r hx hr = absurd (ground arith)
mul_fixed x (negsuc r) hx hr = absurd (ground arith)

div_fixed :
    (x y : ℤ)
    → IsAmount (fixed x)
    → fixed (pos parts_per_one) ≼ fixed y
    → (fixed (pos 0) ≼ fixed_double.div (fixed x) (fixed y))
      × (fixed_double.div (fixed x) (fixed y) ≼ fixed x)
div_fixed (pos x) (pos y) hx hy =
    let large : parts_per_one ≤ y = ground arith in
    let bounded : x * parts_per_one / y ≤ x =
      div-le_of_le-mul y (omega (arith, mul-le-mul_left x large)) in
    (ground arith, ground arith)
div_fixed (negsuc x) y hx hy = absurd (ground arith)
div_fixed x (negsuc y) hx hy = absurd (ground arith)

one_add_fixed :
    (r : ℤ)
    → IsRate (fixed r)
    → (fixed (pos parts_per_one) ≼ fixed (pos (parts_per_one + pos_part r)))
      × (fixed (pos (parts_per_one + pos_part r)) ≼ fixed (pos 2_000_000_000))
one_add_fixed (pos r) h = ground arith
one_add_fixed (negsuc r) h = ground arith

pub fixed-IsIeee : IsIeee Fixed
fixed-IsIeee = record {
  le_trans = λ x y z h k. ground arith;
  of_mono = of_mono_fixed;
  round_mono = λ x y. round_mono_fixed x.billionths y.billionths;
  round_of = round_of_fixed;
  abs_nonneg = λ x. abs_fixed x.billionths;
  sign_nonneg = λ x. sign_fixed x.billionths;
  mul_rate_le = λ x r. mul_fixed x.billionths r.billionths;
  div_le = λ x y hx hy _. div_fixed x.billionths y.billionths hx hy;
  one_add = λ r. one_add_fixed r.billionths;
}
