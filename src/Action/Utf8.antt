-- ===== src/Action/Utf8.antt =====
-- Python's UTF-8 codec: `text.encode("utf-8")`, and `bytes.decode("utf-8", errors="replace")`, which
-- gives U+FFFD for each longest run of bytes that begins a character and does not end it.
pub mod RoundTrip
use openmux_server.Base.{
  ℕ, ◌+◌, ◌-◌, ◌*◌, ◌/◌, ◌%◌, ◌≤◌, ◌<◌, ◌≡◌, refl, ◌∙◌, ap, ◌⊎◌, inl, inr, Bool, true, false, ◌&&◌,
  List, [], ◌∷◌, ◌++◌, append_assoc, Text, ltb, leb, ◌==◌, if◌then◌else◌, arith, Bool-cases, All,
}

unfoldable pub encode_one : ℕ → Text
encode_one c =
    if ltb c 128
    then c ∷ []
    else if ltb c 2048
    then (192 + c / 64) ∷ (128 + c % 64) ∷ []
    else if ltb c 65536
    then (224 + c / 4096) ∷ (128 + c / 64 % 64) ∷ (128 + c % 64) ∷ []
    else (240 + c / 262144) ∷ (128 + c / 4096 % 64) ∷ (128 + c / 64 % 64) ∷ (128 + c % 64) ∷ []

unfoldable pub encode : Text → Text
encode [] = []
encode (c ∷ s) = encode_one c ++ encode s

-- The character that is being read: how many bytes it still needs, the range of the next of them,
-- and its bits so far.
pub record Partial : Type 0 where
  pub needed : ℕ
  pub lower : ℕ
  pub upper : ℕ
  pub bits : ℕ

abbrev pub idle : Partial
idle = record { needed = 0; lower = 128; upper = 191; bits = 0 }

abbrev pub replacement : ℕ
replacement = 65533

abbrev pub more : ℕ → ℕ → ℕ → ℕ → Partial
more n lo hi acc = record { needed = n; lower = lo; upper = hi; bits = acc }

-- The first byte of a character: what is read, and what is partial then.
unfoldable pub start : ℕ → Text × Partial
start b =
    if ltb b 128
    then (b ∷ [], idle)
    else if ltb b 194
    then (replacement ∷ [], idle)
    else if ltb b 224
    then ([], more 1 128 191 (b - 192))
    else if ltb b 240
    then ([], more 2 (if b == 224 then 160 else 128) (if b == 237 then 159 else 191) (b - 224))
    else if ltb b 245
    then ([], more 3 (if b == 240 then 144 else 128) (if b == 244 then 143 else 191) (b - 240))
    else (replacement ∷ [], idle)

-- A byte that does not fit starts anew after a replacement.
unfoldable pub next_byte : Partial → ℕ → Text × Partial
unfolding start
next_byte p b =
    if p.needed == 0
    then start b
    else if leb p.lower b && leb b p.upper
    then if p.needed == 1
      then ((p.bits * 64 + (b - 128)) ∷ [], idle)
      else ([], more (p.needed - 1) 128 191 (p.bits * 64 + (b - 128)))
    else (replacement ∷ (start b).0, (start b).1)

unfoldable pub decode_from : Partial → Text → Text
unfolding next_byte
decode_from p [] = if p.needed == 0 then [] else replacement ∷ []
decode_from p (b ∷ s) = (next_byte p b).0 ++ decode_from (next_byte p b).1 s

unfoldable pub decode : Text → Text
unfolding decode_from
decode = decode_from idle
