-- ===== src/Action/Utf8/RoundTrip.antt =====
-- UTF-8: what is encoded is decoded again.
use openmux_server.Base.{
  ℕ, ◌+◌, ◌-◌, ◌*◌, ◌/◌, ◌%◌, ◌≤◌, ◌<◌, ◌≡◌, refl, ◌∙◌, ap, sym, ◌⊎◌, inl, inr, [], ◌∷◌, ◌++◌,
  append_assoc, Text, ltb, ◌==◌, if◌then◌else◌, arith, Bool-cases, All,
}
use openmux_server.Action.Utf8.{
  encode_one, encode, Partial, idle, more, start, next_byte, decode_from, decode,
}

-- A character that is no surrogate.
abbrev pub IsScalar : ℕ → Type 0
IsScalar c = (c < 55296) ⊎ ((57344 ≤ c) × (c < 1114112))

-- A byte in the middle of a character, and the last one.
middle :
    (n lo hi acc b : ℕ)
    → 1 < n
    → lo ≤ b
    → b ≤ hi
    → next_byte (more n lo hi acc) b ≡ ([], more (n - 1) 128 191 (acc * 64 + (b - 128)))
unfolding next_byte
middle n lo hi acc b k l h = ground arith

final :
    (lo hi acc b : ℕ)
    → lo ≤ b
    → b ≤ hi
    → next_byte (more 1 lo hi acc) b ≡ ((acc * 64 + (b - 128)) ∷ [], idle)
unfolding next_byte
final lo hi acc b l h = ground arith

first1 : (b : ℕ) → b < 128 → next_byte idle b ≡ (b ∷ [], idle)
unfolding next_byte start
first1 b h = ground arith

first2 : (b : ℕ) → 194 ≤ b → b < 224 → next_byte idle b ≡ ([], more 1 128 191 (b - 192))
unfolding next_byte start
first2 b l h = ground arith

first3 :
    (b : ℕ)
    → 224 ≤ b
    → b < 240
    → next_byte idle b
      ≡ ([], more 2 (if b == 224 then 160 else 128) (if b == 237 then 159 else 191) (b - 224))
unfolding next_byte start
first3 b l h = ground arith

first4 :
    (b : ℕ)
    → 240 ≤ b
    → b < 245
    → next_byte idle b
      ≡ ([], more 3 (if b == 240 then 144 else 128) (if b == 244 then 143 else 191) (b - 240))
unfolding next_byte start
first4 b l h = ground arith

decode_from-cons :
    (p q : Partial) (b : ℕ) (out s : Text)
    → next_byte p b ≡ (out, q)
    → decode_from p (b ∷ s) ≡ out ++ decode_from q s
unfolding decode_from
decode_from-cons p q b out s e = rw e refl

two : 1 < 2
two = omega arith

three : 1 < 3
three = omega arith

decode_one2 :
    (b d c : ℕ) (s : Text)
    → 194 ≤ b
    → b < 224
    → 128 ≤ d
    → d ≤ 191
    → (b - 192) * 64 + (d - 128) ≡ c
    → decode_from idle (b ∷ d ∷ s) ≡ c ∷ decode_from idle s
decode_one2 b d c s l h l' h' e =
    decode_from-cons idle (more 1 128 191 (b - 192)) b [] (d ∷ s) (first2 b l h)
    ∙ decode_from-cons (more 1 128 191 (b - 192)) idle d (c ∷ []) s
        (final 128 191 (b - 192) d l' h' ∙ ap (λ x. (x ∷ [], idle)) e)

decode_one3 :
    (b d f c : ℕ) (s : Text)
    → 224 ≤ b
    → b < 240
    → (if b == 224 then 160 else 128) ≤ d
    → d ≤ (if b == 237 then 159 else 191)
    → 128 ≤ f
    → f ≤ 191
    → ((b - 224) * 64 + (d - 128)) * 64 + (f - 128) ≡ c
    → decode_from idle (b ∷ d ∷ f ∷ s) ≡ c ∷ decode_from idle s
decode_one3 b d f c s l h l' h' l'' h'' e =
    let lo = if b == 224 then 160 else 128 in
    let hi = if b == 237 then 159 else 191 in
    let acc = (b - 224) * 64 + (d - 128) in
    decode_from-cons idle (more 2 lo hi (b - 224)) b [] (d ∷ f ∷ s) (first3 b l h)
    ∙ decode_from-cons (more 2 lo hi (b - 224)) (more 1 128 191 acc) d [] (f ∷ s)
        (middle 2 lo hi (b - 224) d two l' h')
    ∙ decode_from-cons (more 1 128 191 acc) idle f (c ∷ []) s
        (final 128 191 acc f l'' h'' ∙ ap (λ x. (x ∷ [], idle)) e)

decode_one4 :
    (b d f g c : ℕ) (s : Text)
    → 240 ≤ b
    → b < 245
    → (if b == 240 then 144 else 128) ≤ d
    → d ≤ (if b == 244 then 143 else 191)
    → 128 ≤ f
    → f ≤ 191
    → 128 ≤ g
    → g ≤ 191
    → (((b - 240) * 64 + (d - 128)) * 64 + (f - 128)) * 64 + (g - 128) ≡ c
    → decode_from idle (b ∷ d ∷ f ∷ g ∷ s) ≡ c ∷ decode_from idle s
decode_one4 b d f g c s l h l₁ h₁ l₂ h₂ l₃ h₃ e =
    let lo = if b == 240 then 144 else 128 in
    let hi = if b == 244 then 143 else 191 in
    let acc = (b - 240) * 64 + (d - 128) in
    let acc' = acc * 64 + (f - 128) in
    decode_from-cons idle (more 3 lo hi (b - 240)) b [] (d ∷ f ∷ g ∷ s) (first4 b l h)
    ∙ decode_from-cons (more 3 lo hi (b - 240)) (more 2 128 191 acc) d [] (f ∷ g ∷ s)
        (middle 3 lo hi (b - 240) d three l₁ h₁)
    ∙ decode_from-cons (more 2 128 191 acc) (more 1 128 191 acc') f [] (g ∷ s)
        (middle 2 128 191 acc f two l₂ h₂)
    ∙ decode_from-cons (more 1 128 191 acc') idle g (c ∷ []) s
        (final 128 191 acc' g l₃ h₃ ∙ ap (λ x. (x ∷ [], idle)) e)

-- The first byte of a long character settles the range of the second.
range3 :
    (c : ℕ)
    → 2048 ≤ c
    → c < 65536
    → IsScalar c
    → ((if (224 + c / 4096) == 224 then 160 else 128) ≤ 128 + c / 64 % 64)
      × (128 + c / 64 % 64 ≤ (if (224 + c / 4096) == 237 then 159 else 191))
range3 c l h v = (ground arith, ground arith)

range4 :
    (c : ℕ)
    → 65536 ≤ c
    → c < 1114112
    → ((if (240 + c / 262144) == 240 then 144 else 128) ≤ 128 + c / 4096 % 64)
      × (128 + c / 4096 % 64 ≤ (if (240 + c / 262144) == 244 then 143 else 191))
range4 c l h = (ground arith, ground arith)

encode_one1 : (c : ℕ) → c < 128 → encode_one c ≡ c ∷ []
unfolding encode_one
encode_one1 c h = ground arith

encode_one2 : (c : ℕ) → 128 ≤ c → c < 2048 → encode_one c ≡ (192 + c / 64) ∷ (128 + c % 64) ∷ []
unfolding encode_one
encode_one2 c l h = ground arith

encode_one3 :
    (c : ℕ)
    → 2048 ≤ c
    → c < 65536
    → encode_one c ≡ (224 + c / 4096) ∷ (128 + c / 64 % 64) ∷ (128 + c % 64) ∷ []
unfolding encode_one
encode_one3 c l h = ground arith

encode_one4 :
    (c : ℕ)
    → 65536 ≤ c
    → encode_one c
      ≡ (240 + c / 262144) ∷ (128 + c / 4096 % 64) ∷ (128 + c / 64 % 64) ∷ (128 + c % 64) ∷ []
unfolding encode_one
encode_one4 c l = ground arith

scalar_below : (c : ℕ) → IsScalar c → c < 1114112
scalar_below c v = omega (arith, v)

decode_from-encode_one :
    (c : ℕ) (s : Text) → IsScalar c → decode_from idle (encode_one c ++ s) ≡ c ∷ decode_from idle s
decode_from-encode_one c s v = elim (Bool-cases (ltb c 128)) [
  | inl e ↦
      rw (encode_one1 c (ground arith))
        (decode_from-cons idle idle c (c ∷ []) s (first1 c (ground arith)))
  | inr e ↦ elim (Bool-cases (ltb c 2048)) [
    | inl f ↦ rw (encode_one2 c (ground arith) (ground arith)) (
        decode_one2 (192 + c / 64) (128 + c % 64) c s (ground arith) (ground arith) (omega arith)
          (omega arith) (omega arith))
    | inr f ↦ elim (Bool-cases (ltb c 65536)) [
      | inl g ↦
          let r = range3 c (ground arith) (ground arith) v in
          rw (encode_one3 c (ground arith) (ground arith)) (
            decode_one3 (224 + c / 4096) (128 + c / 64 % 64) (128 + c % 64) c s (omega arith)
              (ground arith) r.0 r.1 (omega arith) (omega arith) (omega arith))
      | inr g ↦
          let r = range4 c (ground arith) (scalar_below c v) in
          rw (encode_one4 c (ground arith)) (
            decode_one4 (240 + c / 262144) (128 + c / 4096 % 64) (128 + c / 64 % 64) (128 + c % 64)
              c s (omega arith) (omega (arith, scalar_below c v)) r.0 r.1 (omega arith)
              (omega arith) (omega arith) (omega arith) (omega arith))
    ]
  ]
]

-- Decoding what a text encodes gives the text, whatever bytes come after it.
pub decode-encode : (t s : Text) → All IsScalar t → decode (encode t ++ s) ≡ t ++ decode s
unfolding decode encode
decode-encode [] s v = refl
decode-encode (c ∷ t) s v =
    rw (append_assoc (encode_one c) (encode t) s)
      (decode_from-encode_one c (encode t ++ s) v.0 ∙ ap (λ x. c ∷ x) (decode-encode t s v.1))

pub encode-append : (s t : Text) → encode (s ++ t) ≡ encode s ++ encode t
unfolding encode
encode-append [] t = refl
encode-append (c ∷ s) t =
    rw (encode-append s t) (sym (append_assoc (encode_one c) (encode s) (encode t)))
