-- ===== src/Capacity/Integer.antt =====
-- Python's `int` as a type, and the function `int(text)`, whose ValueError is `none`.
use openmux_server.Base.{
  ℕ, ◌+◌, ◌-◌, ◌*◌, Bool, false, ◌&&◌, ◌||◌, Option, none, some, [], ◌∷◌, Text, strip, ◌==◌, leb,
  if◌then◌else◌,
}

-- `negsuc n` is -(n + 1).
pub data ℤ : Type 0 where
  pos : ℕ → ℤ
  negsuc : ℕ → ℤ

abbrev pub negate : ℕ → ℤ
negate n = if n == 0 then pos 0 else negsuc (n - 1)

abbrev pub is_digit : ℕ → Bool
is_digit c = leb 48 c && leb c 57

-- Digits, with single underscores between them. `after_digit` tells whether a digit came last.
unfoldable pub parse_digits : Text → Bool → ℕ → Option ℕ
parse_digits [] after_digit acc = if after_digit then some acc else none
parse_digits (c ∷ s) after_digit acc =
    if is_digit c || (c == b'_' && after_digit)
    then parse_digits s (is_digit c) (if is_digit c then acc * 10 + (c - 48) else acc)
    else none

abbrev pub signed : (ℕ → ℤ) → Option ℕ → Option ℤ
signed f none = none
signed f (some n) = some (f n)

unfoldable pub parse_signed : Text → Option ℤ
parse_signed [] = none
parse_signed (c ∷ s) =
    if c == b'-'
    then signed negate (parse_digits s false 0)
    else if c == b'+'
    then signed pos (parse_digits s false 0)
    else signed pos (parse_digits (c ∷ s) false 0)

unfoldable pub parse_int : Text → Option ℤ
unfolding parse_signed parse_digits
parse_int s = parse_signed (strip s)
