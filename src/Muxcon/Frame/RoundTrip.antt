-- ===== src/Muxcon/Frame/RoundTrip.antt =====
-- A frame of openmux/server/muxcon_protocol.py that openmux/server/adapters/muxcon.py reads.
use openmux_server.Base.{
  ℕ, suc, ◌≡◌, refl, ap, subst, ◌∙◌, true, false, some, [], ◌∷◌, ◌++◌, Text, strip, is_space, arith,
  ◌==◌, ltb, length, All, All-map, decimal, digits_of, append_assoc, take-append, drop-append,
  length-append,
}
use openmux_server.Capacity.Integer.{pos}
use openmux_server.Muxcon.Frame.{
  frame_bytes, partition, split, is_ascii, parse_frame_header, Header, seek, read_colons,
  readexactly, read_frame,
}
use openmux_server.Muxcon.Frame.Decimals.{
  AllDigits, digits_of-AllDigits, strip_ends, parse_int-decimal,
}

-- A text without the byte c.
abbrev pub Without : ℕ → Text → Type 0
Without c = All (λ d. (d == c) ≡ false)

decimal-Without : (n : ℕ) → Without b':' (decimal n)
unfolding decimal
decimal-Without n =
    All-map _ _ (digits_of (suc n) n) (λ c h. ground arith) (digits_of-AllDigits (suc n) n)

is_ascii_digits : (s t : Text) → AllDigits s → is_ascii t ≡ true → is_ascii (s ++ t) ≡ true
unfolding is_ascii
is_ascii_digits [] t a h = h
is_ascii_digits (c ∷ s) t a h = ground (arith, is_ascii_digits s t a.1 h, a.0)

is_ascii-decimal : (n : ℕ) (t : Text) → is_ascii t ≡ true → is_ascii (decimal n ++ t) ≡ true
unfolding decimal
is_ascii-decimal n t = is_ascii_digits (digits_of (suc n) n) t (digits_of-AllDigits (suc n) n)

is_ascii-append : (s t : Text) → is_ascii s ≡ true → is_ascii t ≡ true → is_ascii (s ++ t) ≡ true
unfolding is_ascii
is_ascii-append [] t h k = k
is_ascii-append (c ∷ s) t h k = ground (arith, is_ascii-append s t)

is_ascii_byte : (c : ℕ) (t : Text) → ltb c 128 ≡ true → is_ascii t ≡ true → is_ascii (c ∷ t) ≡ true
unfolding is_ascii
is_ascii_byte c t h k = rw (h, k) refl

is_ascii_nil : is_ascii [] ≡ true
unfolding is_ascii
is_ascii_nil = refl

seek_noise : (noise s : Text) → Without b'#' noise → seek (noise ++ b'#' ∷ s) ≡ some s
unfolding seek
seek_noise [] s a = refl
seek_noise (c ∷ noise) s a = rw (a.0) (seek_noise noise s a.1)

read_colons_field :
    (k : ℕ) (a s h r : Text)
    → Without b':' a
    → read_colons k s ≡ some (h, r)
    → read_colons (suc k) (a ++ b':' ∷ s) ≡ some (a ++ b':' ∷ h, r)
unfolding read_colons
read_colons_field k [] s h r w e = rw e refl
read_colons_field k (c ∷ a) s h r w e = rw (w.0, read_colons_field k a s h r w.1 e) refl

read_colons_none : (s : Text) → read_colons 0 s ≡ some ([], s)
unfolding read_colons
read_colons_none s = refl

partition_field : (a s : Text) → Without b':' a → partition b':' (a ++ b':' ∷ s) ≡ (a, some s)
unfolding partition
partition_field [] s w = refl
partition_field (c ∷ a) s w = rw (w.0, partition_field a s w.1) refl

split_field :
    (k : ℕ) (a s : Text) → Without b':' a → split b':' (suc k) (a ++ b':' ∷ s) ≡ a ∷ split b':' k s
unfolding split
split_field k a s w = rw (partition_field a s w) refl

-- The header after the mark, and what follows it.
abbrev fields : ℕ → Text → ℕ → ℕ → Text → Text
fields sid ty len n rest =
    decimal sid ++ b':' ∷ (ty ++ b':' ∷ (decimal len ++ b':' ∷ (decimal n ++ b':' ∷ rest)))

read_fields :
    (sid : ℕ) (ty : Text) (len n : ℕ) (rest : Text)
    → Without b':' ty
    → read_colons 4 (fields sid ty len n rest) ≡ some (fields sid ty len n [], rest)
read_fields sid ty len n rest w = read_colons_field 3 (decimal sid) _ _ rest (decimal-Without sid) (
    read_colons_field 2 ty _ _ rest w (
      read_colons_field 1 (decimal len) _ _ rest (decimal-Without len)
        (read_colons_field 0 (decimal n) _ _ rest (decimal-Without n) (read_colons_none rest))))

split-fields :
    (sid : ℕ) (ty : Text) (len n : ℕ)
    → Without b':' ty
    → split b':' 4 (fields sid ty len n [])
      ≡ decimal sid ∷ ty ∷ decimal len ∷ decimal n ∷ split b':' 0 []
split-fields sid ty len n w =
    split_field 3 (decimal sid) _ (decimal-Without sid)
    ∙ ap (λ t. decimal sid ∷ t)
        (split_field 2 ty _ w
          ∙ ap (λ t. ty ∷ t)
              (split_field 1 (decimal len) _ (decimal-Without len)
                ∙ ap (λ t. decimal len ∷ t) (split_field 0 (decimal n) [] (decimal-Without n))))

-- The header without its last colon.
abbrev front : ℕ → Text → ℕ → ℕ → Text
front sid ty len n = decimal sid ++ b':' ∷ (ty ++ b':' ∷ (decimal len ++ b':' ∷ decimal n))

front_colon :
    (sid : ℕ) (ty : Text) (len n : ℕ) → front sid ty len n ++ b':' ∷ [] ≡ fields sid ty len n []
front_colon sid ty len n = simp (append_assoc)

strip-fields :
    (sid : ℕ) (ty : Text) (len n : ℕ)
    → strip (b'#' ∷ fields sid ty len n []) ≡ b'#' ∷ fields sid ty len n []
unfolding is_space
strip-fields sid ty len n =
    subst (λ t. strip (b'#' ∷ t) ≡ b'#' ∷ t) (front_colon sid ty len n)
      (strip_ends b'#' b':' (front sid ty len n) refl refl)

is_ascii-fields :
    (sid : ℕ) (ty : Text) (len n : ℕ)
    → is_ascii ty ≡ true
    → is_ascii (b'#' ∷ fields sid ty len n []) ≡ true
is_ascii-fields sid ty len n h = is_ascii_byte b'#' _ refl (
    is_ascii-decimal sid _ (
      is_ascii_byte b':' _ refl (
        is_ascii-append ty _ h (
          is_ascii_byte b':' _ refl (
            is_ascii-decimal len _ (
              is_ascii_byte b':' _ refl
                (is_ascii-decimal n _ (is_ascii_byte b':' _ refl is_ascii_nil))))))))

abbrev header : ℕ → Text → ℕ → ℕ → Header
header sid ty len n = record {
  stream_id = pos sid;
  frame_type = ty;
  payload_length = pos len;
  seq = pos n;
}

parse_fields :
    (sid : ℕ) (ty : Text) (len n : ℕ)
    → is_ascii ty ≡ true
    → Without b':' ty
    → parse_frame_header (b'#' ∷ fields sid ty len n []) ≡ some (header sid ty len n)
unfolding parse_frame_header
parse_fields sid ty len n h w =
    rw
      (
        is_ascii-fields sid ty len n h,
        strip-fields sid ty len n,
        split-fields sid ty len n w,
        parse_int-decimal sid,
        parse_int-decimal len,
        parse_int-decimal n,
      )
      refl

readexactly_payload : (p rest : Text) → readexactly (length p) (p ++ rest) ≡ some (p, rest)
unfolding readexactly
readexactly_payload p rest =
    rw (take-append p rest, drop-append p rest) (ground (arith, length-append p rest))

frame_bytes-append :
    (sid : ℕ) (ty payload : Text) (n : ℕ) (rest : Text)
    → frame_bytes sid ty payload n ++ rest
      ≡ b'#' ∷ fields sid ty (length payload) n (payload ++ 10 ∷ rest)
frame_bytes-append sid ty payload n rest = simp (append_assoc)

-- From input that holds, after any bytes without a mark, a frame whose type is ASCII text without a
-- colon, the reader returns the frame's stream, type, payload and number, and the input left is what
-- follows the frame; the payload may hold any bytes, marks, colons and newlines among them.
pub read_frame-frame_bytes :
    (noise : Text) (sid : ℕ) (ty payload : Text) (n : ℕ) (rest : Text)
    → Without b'#' noise
    → is_ascii ty ≡ true
    → Without b':' ty
    → read_frame (noise ++ (frame_bytes sid ty payload n ++ rest))
      ≡ some (record { header = header sid ty (length payload) n; payload = payload }, rest)
unfolding read_frame
read_frame-frame_bytes noise sid ty payload n rest a h w =
    rw
      (
        frame_bytes-append sid ty payload n rest,
        seek_noise noise (fields sid ty (length payload) n (payload ++ 10 ∷ rest)) a,
        read_fields sid ty (length payload) n (payload ++ 10 ∷ rest) w,
        parse_fields sid ty (length payload) n h w,
        readexactly_payload payload (10 ∷ rest),
      )
      refl
