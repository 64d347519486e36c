-- ===== src/Protocol/Tests.antt =====
-- Runs of the protocols on short streams.
use openmux_server.Base.{◌≡◌, refl, true, false, [], ◌∷◌, codes, starts_with, strip}
use openmux_server.Action.Utf8.{decode}
use openmux_server.Protocol.{transform_all}
use openmux_server.Protocol.Conserver
use openmux_server.Protocol.Conserver.{decode_byte, decode-encode}
use openmux_server.Protocol.Handshake.{Settings, Link, master_handshake, group_handshake}
use openmux_server.Protocol.Logins.{Plain, handshakes-Plain}
use openmux_server.Protocol.Stripped.{plain, byte_255, about_option, subnegotiation, strip-wire_all}
use openmux_server.Protocol.Telnet.{strip_one_byte, data_state, is_option}

is_do : is_option 253 ≡ true
unfolding is_option
is_do = refl

strip-wire_all_example :
    transform_all strip_one_byte data_state
      ((7 ∷ 255 ∷ []) ∷ (253 ∷ 1 ∷ 255 ∷ 255 ∷ []) ∷ (255 ∷ 250 ∷ 24 ∷ 255 ∷ 240 ∷ []) ∷ [])
    ≡ (7 ∷ 255 ∷ [], data_state)
unfolding Conserver.encode
strip-wire_all_example =
    strip-wire_all (plain 7 ∷ about_option 253 1 ∷ byte_255 ∷ subnegotiation (24 ∷ []) ∷ [])
      ((7 ∷ 255 ∷ []) ∷ (253 ∷ 1 ∷ 255 ∷ 255 ∷ []) ∷ (255 ∷ 250 ∷ 24 ∷ 255 ∷ 240 ∷ []) ∷ [])
      (refl, (is_do, (tt, (tt, tt)))) refl

abbrev settings : Settings
settings = record {
  console_name = codes "blade1";
  username = codes "admin";
  password = codes "secret";
}

abbrev link : Link
link = record { incoming = codes "ok" ∷ codes "ok" ∷ codes "4001" ∷ []; sent = [] }

unasked : starts_with (strip (decode (codes "ok"))) (codes "passwd?") ≡ false
unfolding starts_with strip decode
unasked = refl

handshakes-Plain_example :
    Plain settings (master_handshake settings link).1.sent
    × Plain settings (group_handshake settings link).1.sent
handshakes-Plain_example = handshakes-Plain settings link refl unasked
