-- ===== src/Muxcon/Frame/Decimals.antt =====
-- A number that openmux/server/muxcon_protocol.py writes into a header reads back.
use openmux_server.Base.{
  ℕ, zero, suc, ◌+◌, ◌-◌, ◌*◌, ◌/◌, ◌%◌, ◌<◌, ◌≡◌, refl, ap, sym, ◌∙◌, Bool, true, false, some, [],
  ◌∷◌, ◌++◌, Text, lstrip, strip, is_space, arith, ltb, if◌then◌else◌, All, All-append, decimal,
  digits_of, reverse, reverse-append, reverse-reverse, Bool-cases, inl, inr,
}
use mathlib.Core.List.{reverse-cons}
use openmux_server.Capacity.Integer.{pos, parse_int, parse_signed, parse_digits, is_digit}

abbrev pub AllDigits : Text → Type 0
AllDigits = All (λ c. is_digit c ≡ true)

digit_of : (d : ℕ) → d < 10 → is_digit (48 + d) ≡ true
digit_of d h = ground arith

tenth_digit : (n : ℕ) → is_digit (48 + n % 10) ≡ true
tenth_digit n = digit_of (n % 10) (omega arith)

pub digits_of-AllDigits : (f n : ℕ) → AllDigits (digits_of f n)
unfolding digits_of
digits_of-AllDigits zero n = tt
digits_of-AllDigits (suc f) n = elim (Bool-cases (ltb n 10)) [
  | inl e ↦ rw e (digit_of n (ground arith), tt)
  | inr e ↦
      rw e
        (All-append _ (digits_of f (n / 10)) _ (digits_of-AllDigits f (n / 10)) (tenth_digit n, tt))
]

-- One more digit.
parse_digits-append :
    (s : Text) (b : Bool) (acc m d : ℕ)
    → d < 10
    → parse_digits s b acc ≡ some m
    → parse_digits (s ++ (48 + d) ∷ []) b acc ≡ some (m * 10 + d)
unfolding parse_digits
parse_digits-append [] true acc m d h e = ground arith
parse_digits-append [] false acc m d h e = cc
parse_digits-append (c ∷ s) b acc m d h e = ground (
  arith,
  parse_digits-append s (is_digit c) (if is_digit c then acc * 10 + (c - 48) else acc) m d,
)

parse_digits-digits_of : (f n : ℕ) → n < f → parse_digits (digits_of f n) false 0 ≡ some n
unfolding digits_of parse_digits
parse_digits-digits_of zero n h = absurd (omega arith)
parse_digits-digits_of (suc f) n h = elim (Bool-cases (ltb n 10)) [
  | inl e ↦ rw (e, digit_of n (ground arith)) (ap some (omega arith))
  | inr e ↦ rw e (
      parse_digits-append (digits_of f (n / 10)) false 0 (n / 10) (n % 10) (omega arith)
        (parse_digits-digits_of f (n / 10) (ground arith))
      ∙ ap some (omega arith))
]

lstrip_keeps : (c : ℕ) (s : Text) → is_space c ≡ false → lstrip (c ∷ s) ≡ c ∷ s
unfolding lstrip
lstrip_keeps c s h = rw h refl

digit_no_space : (c : ℕ) → is_digit c ≡ true → is_space c ≡ false
unfolding is_space
digit_no_space c h = ground arith

-- Text that neither starts nor ends with a space.
pub strip_ends :
    (c d : ℕ) (s : Text)
    → is_space c ≡ false
    → is_space d ≡ false
    → strip (c ∷ s ++ d ∷ []) ≡ c ∷ s ++ d ∷ []
unfolding strip
strip_ends c d s h k =
    ap (λ t. reverse (lstrip (reverse t))) (lstrip_keeps c (s ++ d ∷ []) h)
    ∙ (ap (λ t. reverse (lstrip t)) (reverse-append (c ∷ s) (d ∷ []))
        ∙ (ap reverse (lstrip_keeps d (reverse (c ∷ s)) k)
            ∙ (ap reverse (sym (reverse-append (c ∷ s) (d ∷ [])))
                ∙ reverse-reverse (c ∷ s ++ d ∷ []))))

lstrip_digits : (s : Text) → AllDigits s → lstrip s ≡ s
unfolding lstrip
lstrip_digits [] a = refl
lstrip_digits (c ∷ s) a = lstrip_keeps c s (digit_no_space c a.0)

AllDigits-reverse : (s : Text) → AllDigits s → AllDigits (reverse s)
AllDigits-reverse [] a = tt
AllDigits-reverse (c ∷ s) a =
    rw (reverse-cons c s) (All-append _ (reverse s) _ (AllDigits-reverse s a.1) (a.0, tt))

strip_digits : (s : Text) → AllDigits s → strip s ≡ s
unfolding strip
strip_digits s a =
    ap (λ t. reverse (lstrip (reverse t))) (lstrip_digits s a)
    ∙ (ap reverse (lstrip_digits (reverse s) (AllDigits-reverse s a)) ∙ reverse-reverse s)

signless :
    (s : Text) (n : ℕ)
    → AllDigits s
    → parse_digits s false 0 ≡ some n
    → parse_signed s ≡ some (pos n)
unfolding parse_signed parse_digits
signless [] n a e = cc
signless (c ∷ s) n a e = ground arith

parse_int_digits :
    (s : Text) (n : ℕ) → AllDigits s → parse_digits s false 0 ≡ some n → parse_int s ≡ some (pos n)
unfolding parse_int
parse_int_digits s n a e = rw (strip_digits s a) (signless s n a e)

pub parse_int-decimal : (n : ℕ) → parse_int (decimal n) ≡ some (pos n)
unfolding decimal
parse_int-decimal n =
    parse_int_digits (digits_of (suc n) n) n (digits_of-AllDigits (suc n) n)
      (parse_digits-digits_of (suc n) n (omega arith))
