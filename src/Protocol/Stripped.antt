-- ===== src/Protocol/Stripped.antt =====
-- openmux/server/adapters/protocols/plain.py: what the stripper makes of the stream of a telnet server.
use openmux_server.Base.{
  ℕ, ◌≡◌, refl, ◌∙◌, ap, sym, subst, true, false, List, [], ◌∷◌, ◌++◌, append_assoc, Text, All,
  concat, ◌==◌, arith, Bool-cases, inl, inr,
}
use openmux_server.Protocol.{transform, transform_all, transform_all-concat}
use openmux_server.Protocol.Conserver.{iac, encode}
use openmux_server.Protocol.Telnet.{
  se, sb, is_option, data_state, subneg, strip_iac_command_byte, strip_one_byte,
}

-- What a telnet server sends (RFC 854): a byte, a byte 255, a command of one byte, a command about an
-- option, and a subnegotiation.
pub data Item : Type 0 where
  plain : ℕ → Item
  byte_255 : Item
  command : ℕ → Item
  about_option : ℕ → ℕ → Item
  subnegotiation : Text → Item

-- Its bytes. A byte 255 of data or of a subnegotiation is doubled.
abbrev pub wire : Item → Text
wire (plain b) = b ∷ []
wire byte_255 = iac ∷ iac ∷ []
wire (command c) = iac ∷ c ∷ []
wire (about_option c o) = iac ∷ c ∷ o ∷ []
wire (subnegotiation p) = iac ∷ sb ∷ (encode p ++ iac ∷ se ∷ [])

-- Its data.
abbrev pub data_of : Item → Text
data_of (plain b) = b ∷ []
data_of byte_255 = iac ∷ []
data_of (command c) = []
data_of (about_option c o) = []
data_of (subnegotiation p) = []

abbrev pub IsItem : Item → Type 0
IsItem (plain b) = (b == iac) ≡ false
IsItem byte_255 = Unit
IsItem (command c) = ((c == iac) ≡ false) × ((c == sb) ≡ false) × (is_option c ≡ false)
IsItem (about_option c o) = is_option c ≡ true
IsItem (subnegotiation p) = Unit

abbrev pub wire_all : List Item → Text
wire_all [] = []
wire_all (i ∷ is) = wire i ++ wire_all is

abbrev pub data_all : List Item → Text
data_all [] = []
data_all (i ∷ is) = data_of i ++ data_all is

encode_other : (b : ℕ) (p : Text) → (b == iac) ≡ false → encode (b ∷ p) ≡ b ∷ encode p
unfolding encode
encode_other b p e = rw e refl

subneg_other :
    (b : ℕ) (s : Text)
    → (b == iac) ≡ false
    → transform strip_one_byte subneg (b ∷ s) ≡ transform strip_one_byte subneg s
unfolding transform strip_one_byte
subneg_other b s e = rw e refl

transform_subneg :
    (p rest : Text)
    → transform strip_one_byte subneg (encode p ++ rest) ≡ transform strip_one_byte subneg rest
unfolding transform encode strip_one_byte
transform_subneg [] rest = refl
transform_subneg (b ∷ p) rest = elim (Bool-cases (b == iac)) [
  | inl e ↦
      let q : b ≡ iac = ground arith in
      subst
        (λ x.
          transform strip_one_byte subneg (encode (x ∷ p) ++ rest)
          ≡ transform strip_one_byte subneg rest)
        (sym q) (transform_subneg p rest)
  | inr e ↦
      ap (λ z. transform strip_one_byte subneg (z ++ rest)) (encode_other b p e)
      ∙ subneg_other b (encode p ++ rest) e
      ∙ transform_subneg p rest
]

-- After the bytes of an item the stripper is where it began, and its data came out.
Strips : Item → Type 0
Strips i =
    (rest : Text)
    → transform strip_one_byte data_state (wire i ++ rest) ≡ (
      data_of i ++ (transform strip_one_byte data_state rest).0,
      (transform strip_one_byte data_state rest).1,
    )

wire-Strips : (i : Item) → IsItem i → Strips i
unfolding Strips transform strip_one_byte strip_iac_command_byte is_option
wire-Strips (plain b) h rest = rw h refl
wire-Strips byte_255 h rest = refl
wire-Strips (command c) h rest = ground (arith, h.0, h.1, h.2)
wire-Strips (about_option c o) h rest = ground (arith, h)
wire-Strips (subnegotiation p) h rest =
    rw (append_assoc (encode p) (iac ∷ se ∷ []) rest, transform_subneg p (iac ∷ se ∷ rest)) refl

transform-wire_all :
    (is : List Item)
    → All IsItem is
    → transform strip_one_byte data_state (wire_all is) ≡ (data_all is, data_state)
unfolding Strips transform
transform-wire_all [] h = refl
transform-wire_all (i ∷ is) h =
    wire-Strips i h.0 (wire_all is) ∙ ap (λ r. (data_of i ++ r.0, r.1)) (transform-wire_all is h.1)

-- The stream of a telnet server, of data, doubled bytes 255, commands, options and subnegotiations,
-- cut into chunks anywhere, is stripped to the data in it, and the stripper is ready for more.
pub strip-wire_all :
    (is : List Item) (chunks : List Text)
    → All IsItem is
    → concat chunks ≡ wire_all is
    → transform_all strip_one_byte data_state chunks ≡ (data_all is, data_state)
strip-wire_all is chunks h e =
    transform_all-concat strip_one_byte data_state chunks
    ∙ ap (transform strip_one_byte data_state) e
    ∙ transform-wire_all is h
