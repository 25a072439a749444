-- ===== src/Text.antt =====
-- Text as the list of its UTF-16 code units: `String.prototype.trim` and the trailing number of a
-- receipt (`seqOf` of src/pos/sales/sales.service.ts).
use mathlib.Core.List.{reverse}
use sentry_pos_be.Common.{
  ℕ, ◌+◌, ◌-◌, ◌*◌, Bool, true, false, ◌&&◌, ◌||◌, ◌==◌, leb, List, [], ◌∷◌, if◌then◌else◌,
}

abbrev pub Text : Type 0
Text = List ℕ

-- White space and line ends, which `\s` and `trim` share.
pub is_space : ℕ → Bool
is_space c =
    (leb 9 c && leb c 13)
    || c == 32
    || c == 160
    || c == 0x1680
    || (leb 0x2000 c && leb c 0x200a)
    || c == 0x2028
    || c == 0x2029
    || c == 0x202f
    || c == 0x205f
    || c == 0x3000
    || c == 0xfeff

pub is_digit : ℕ → Bool
is_digit c = leb b'0' c && leb c b'9'

drop_while : (ℕ → Bool) → Text → Text
drop_while p [] = []
drop_while p (c ∷ s) = let rest = drop_while p s in if p c then rest else c ∷ s

take_while : (ℕ → Bool) → Text → Text
take_while p [] = []
take_while p (c ∷ s) = let rest = take_while p s in if p c then c ∷ rest else []

unfoldable pub trim : Text → Text
unfolding drop_while is_space
trim s = reverse (drop_while is_space (reverse (drop_while is_space s)))

-- `!trimmed`.
abbrev pub is_empty : Text → Bool
is_empty [] = true
is_empty (c ∷ s) = false

-- `parseInt` of a run of digits that stands last digit first.
value_reversed : Text → ℕ
value_reversed [] = 0
value_reversed (c ∷ s) = (c - b'0') + 10 * value_reversed s

-- The digits before the trailing white space; without any, `parseInt` is not called and 0 is returned.
unfoldable pub seq_of : Text → ℕ
unfolding drop_while take_while is_space is_digit value_reversed
seq_of s = value_reversed (take_while is_digit (drop_while is_space (reverse s)))

unfoldable pub text_eq : Text → Text → Bool
text_eq [] [] = true
text_eq (a ∷ s) (b ∷ t) = a == b && text_eq s t
text_eq _ _ = false
