-- ===== src/Ports/Gate.antt =====
-- openmux/server/port_manager.py: `write_to_port`, by which alone the bytes of a client reach a port.
use openmux_server.Base.{
  ◌≡◌, ◌≢◌, refl, ◌∙◌, ap, inl, inr, ◌≤◌, Bool, true, false, Option, none, some, List, [], ◌∷◌,
  Text, same_iff, arith, Bool-cases, Option-cases, if◌then◌else◌,
}
use openmux_server.Decision.Codes.{read_write, read_only, Mode}
use openmux_server.Dict.{lookup}
use openmux_server.Ports.Records.{Client, is_read_write, find_client}
use openmux_server.Ports.{Port, Ports, client_mode, mode_of, writers}

-- What the adapter answers: nothing where it raises, and else the result of `write_data`, which may
-- be no Boolean.
abbrev pub outcome : Option (Option Bool) → Bool
outcome none = false
outcome (some none) = true
outcome (some (some b)) = b

-- The link of a proxy is up, or the port is local.
abbrev pub has_link : Option Bool → Bool
has_link none = true
has_link (some b) = b

abbrev pub pass_on :
    (Text → Text → Text → Option (Option Bool))
    → Text
    → Text
    → Text
    → Port
    → List (Text × Text) × Bool
pass_on device name bytes cid p =
    if has_link p.remote then ((name, bytes) ∷ [], outcome (device name cid bytes)) else ([], false)

abbrev gate :
    (Text → Text → Text → Option (Option Bool))
    → Text
    → Text
    → Text
    → Port
    → Option Mode
    → List (Text × Text) × Bool
gate device name bytes cid p none = ([], false)
gate device name bytes cid p (some m) =
    if is_read_write m then pass_on device name bytes cid p else ([], false)

abbrev gate_at :
    (Text → Text → Text → Option (Option Bool))
    → Text
    → Text
    → Text
    → Option Port
    → List (Text × Text) × Bool
gate_at device name bytes cid none = ([], false)
gate_at device name bytes cid (some p) = gate device name bytes cid p (client_mode cid p)

-- What is handed to the adapter, and the answer.
unfoldable pub write_to_port :
    (Text → Text → Text → Option (Option Bool))
    → Text
    → Text
    → Text
    → Ports
    → List (Text × Text) × Bool
write_to_port device name bytes cid ps = gate_at device name bytes cid (lookup name ps)

is_read_write-true : (m : Mode) → is_read_write m ≡ true → m ≡ read_write
is_read_write-true read_write h = refl
is_read_write-true read_only h = cc

-- Only the bytes of a client with read-write mode are handed on.
pub write_to_port_holder :
    (device : Text → Text → Text → Option (Option Bool)) (name bytes cid : Text) (ps : Ports)
    (p : Port)
    → lookup name ps ≡ some p
    → (write_to_port device name bytes cid ps).0 ≢ []
    → client_mode cid p ≡ some read_write
unfolding write_to_port
write_to_port_holder device name bytes cid ps p stands sent =
    elim (Option-cases (client_mode cid p)) [
      | inl e ↦ absurd (sent (rw (stands, e) refl))
      | inr (m, e) ↦ elim (Bool-cases (is_read_write m)) [
        | inl b ↦ e ∙ ap some (is_read_write-true m b)
        | inr b ↦ absurd (sent (rw (stands, e, b) refl))
      ]
    ]

-- With no writer no client has read-write mode.
no_writer :
    (a : Text) (cs : List Client) → writers cs ≡ 0 → mode_of (find_client a cs) ≢ some read_write
no_writer a [] h = cc
no_writer a (c ∷ cs) h = ground (arith, no_writer a cs)

-- With one writer at most, the clients with read-write mode are one.
one_writer :
    (a b : Text) (cs : List Client)
    → writers cs ≤ 1
    → mode_of (find_client a cs) ≡ some read_write
    → mode_of (find_client b cs) ≡ some read_write
    → a ≡ b
one_writer a b [] h e f = cc
one_writer a b (c ∷ cs) h e f = ground (
  arith,
  one_writer a b cs,
  no_writer a cs,
  no_writer b cs,
  same_iff c.client_id a,
  same_iff c.client_id b,
)

pub client_mode_one :
    (a b : Text) (p : Port)
    → writers p.connected_clients ≤ 1
    → client_mode a p ≡ some read_write
    → client_mode b p ≡ some read_write
    → a ≡ b
unfolding client_mode
client_mode_one a b p h e f = one_writer a b p.connected_clients h e f
