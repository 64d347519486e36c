-- ===== src/Action/Consumed.antt =====
-- openmux/server/actions/session.py: how much of the buffer `expect` drops.
use openmux_server.Base.{
  take-drop, ℕ, zero, suc, ◌≤◌, ◌≡◌, refl, sym, ◌∙◌, ap, Option, some, List, [], ◌∷◌, ◌++◌, Text,
  All, length, take, drop, append_assoc, append-nil, drop-append, arith,
}
use openmux_server.Action.{Match, reading, consume, expect}
use openmux_server.Action.Utf8.{
  encode, encode_one, decode, decode_from, replacement, next_byte, start,
}
use openmux_server.Action.Utf8.RoundTrip.{IsScalar, decode-encode, encode-append}
use openmux_server.Delivery.Queues.{Chunk}
use openmux_server.Results.{returned}

take-append_le : (n : ℕ) (s t : Text) → n ≤ length s → take n (s ++ t) ≡ take n s
take-append_le zero s t h = refl
take-append_le (suc n) [] t h = ground arith
take-append_le (suc n) (c ∷ s) t h = ap (λ z. c ∷ z) (take-append_le n s t (omega (arith, h)))

-- A match within the whole characters of the buffer leaves all bytes after it.
consume-encode :
    (t s : Text) (n : ℕ)
    → All IsScalar t
    → n ≤ length t
    → consume (decode (encode t ++ s)) n (encode t ++ s) ≡ encode (drop n t) ++ s
unfolding consume
consume-encode t s n v h =
    rw (decode-encode t s v, take-append_le n t (decode s) h)
      (ap (λ z. drop (length (encode (take n t))) (encode z ++ s)) (sym (take-drop n t))
        ∙ ap (λ z. drop (length (encode (take n t))) (z ++ s)) (encode-append (take n t) (drop n t))
        ∙ ap (drop (length (encode (take n t))))
            (append_assoc (encode (take n t)) (encode (drop n t)) s)
        ∙ drop-append (encode (take n t)) (encode (drop n t) ++ s))

-- When the buffer is a text in UTF-8 and then any bytes, such as the beginning of a character, and
-- the pattern matches up to some place in that text: `expect` returns at once with what matched, and
-- the buffer then has the rest of the text and those bytes, not one byte less.
pub expect-encode :
    (search : Text → Option Match) (t s : Text) (m : Match) (ds : List Chunk)
    → All IsScalar t
    → m.ending ≤ length t
    → search (t ++ decode s) ≡ some m
    → expect search (some ds) (encode t ++ s)
      ≡ (returned m.group, reading (encode (drop m.ending t) ++ s) ds)
unfolding expect
expect-encode search t s m ds v h e =
    let f : search (decode (encode t ++ s)) ≡ some m = rw (decode-encode t s v) e in
    rw f (rw (consume-encode t s m.ending v h) refl)

-- A stray byte that begins no character.
decode-stray : (b : ℕ) (s : Text) → 245 ≤ b → decode (b ∷ s) ≡ replacement ∷ decode s
unfolding decode decode_from next_byte start
decode-stray b s h = ground arith

encode_one-replacement : encode_one replacement ≡ 239 ∷ 191 ∷ 189 ∷ []
unfolding encode_one
encode_one-replacement = refl

drop_two_more : (p q : Text) → drop (suc (suc (length p))) (p ++ q) ≡ drop 2 q
drop_two_more [] q = refl
drop_two_more (c ∷ p) q = drop_two_more p q

decode-encode_exact : (t : Text) → All IsScalar t → decode (encode t) ≡ t
unfolding decode decode_from
decode-encode_exact t v =
    ap decode (sym (append-nil (encode t))) ∙ decode-encode t [] v ∙ append-nil t

consume-stray :
    (b n : ℕ) (t : Text)
    → 245 ≤ b
    → All IsScalar t
    → consume (decode (b ∷ encode t)) (suc n) (b ∷ encode t) ≡ drop 2 (encode (drop n t))
unfolding consume encode
consume-stray b n t h v =
    rw (decode-stray b (encode t) h, decode-encode_exact t v, encode_one-replacement)
      (ap (λ z. drop (suc (suc (length (encode (take n t))))) (encode z)) (sym (take-drop n t))
        ∙ ap (drop (suc (suc (length (encode (take n t)))))) (encode-append (take n t) (drop n t))
        ∙ drop_two_more (encode (take n t)) (encode (drop n t)))

-- When the buffer is a byte that is in no UTF-8 text, of 245 or more, and then a text in UTF-8, and
-- the pattern matches up to some place in that text: `expect` drops two bytes more than the stray
-- byte and the text up to there, which are the first two bytes of the output after the match.
pub expect_overruns :
    (search : Text → Option Match) (b : ℕ) (t : Text) (m : Match) (n : ℕ) (ds : List Chunk)
    → 245 ≤ b
    → All IsScalar t
    → m.ending ≡ suc n
    → search (replacement ∷ t) ≡ some m
    → expect search (some ds) (b ∷ encode t)
      ≡ (returned m.group, reading (drop 2 (encode (drop n t))) ds)
unfolding expect
expect_overruns search b t m n ds k v q e =
    let f : search (decode (b ∷ encode t)) ≡ some m =
      rw (decode-stray b (encode t) k, decode-encode_exact t v) e in
    rw f (rw (q, consume-stray b n t k v) refl)
