-- ===== src/Protocol/Conserver.antt =====
-- openmux/server/adapters/protocols/conserver.py: the bytes of a console, where 255 begins an escape.
use openmux_server.Base.{
  ℕ, ◌≡◌, refl, ◌∙◌, ap, Bool, true, false, List, [], ◌∷◌, Text, concat, ◌==◌, if◌then◌else◌, arith,
}
use openmux_server.Protocol.{transform, transform_all, transform_all-concat}

abbrev pub iac : ℕ
iac = 255

-- One byte of `decode`; the state tells whether a 255 is pending.
unfoldable pub decode_byte : Bool → ℕ → Text × Bool
decode_byte true b = if b == iac then (iac ∷ [], false) else ([], false)
decode_byte false b = if b == iac then ([], true) else (b ∷ [], false)

-- `encode`: each 255 is doubled.
unfoldable pub encode : Text → Text
encode [] = []
encode (b ∷ bs) = let rest = encode bs in if b == iac then b ∷ iac ∷ rest else b ∷ rest

transform-encode : (d : Text) → transform decode_byte false (encode d) ≡ (d, false)
unfolding transform encode decode_byte
transform-encode [] = refl
transform-encode (b ∷ bs) = ground (arith, transform-encode bs)

-- Console data that is encoded and cut into chunks anywhere is decoded to itself, and nothing is
-- pending afterwards.
pub decode-encode :
    (d : Text) (chunks : List Text)
    → concat chunks ≡ encode d
    → transform_all decode_byte false chunks ≡ (d, false)
decode-encode d chunks e =
    transform_all-concat decode_byte false chunks
    ∙ ap (transform decode_byte false) e
    ∙ transform-encode d
