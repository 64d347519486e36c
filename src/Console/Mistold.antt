-- ===== src/Console/Mistold.antt =====
-- Refusals of openmux/server/console_manager.py that report read-only to a client which keeps the
-- write slot.
use openmux_server.Base.{◌≡◌, true, none, some, List, [], ◌∷◌, Text, same_iff, arith}
use openmux_server.Capacity.{one, wire_to_mode}
use openmux_server.Decision.Codes.{read_write, read_only, Code, no_holder}
use openmux_server.Decision.{decide, build}
use openmux_server.Dict.{lookup}
use openmux_server.Ports.{Port, get_client_mode, mode_of}
use openmux_server.Ports.Records.{Client, holds_rw, find_client}
use openmux_server.Ports.Slots.{IsSound, IsDistinct, holds_rw→is_attached}
use openmux_server.Console.World.{
  World, Outside, ◌>>=◌, gets, lift, get_port, is_on_port, seated, answer_seated,
}
use openmux_server.Console.Ask.{recheck, promote_client_to_read_write}
use openmux_server.Console.Takeover.{
  nothing, resolve_take_target, take_from, take_in_mode, take_write_slot_local, take_entitled,
  take_with, take_at, take_write_slot,
}
use openmux_server.Console.Take.{recheck_creds, other_holders_empty}
use openmux_server.Console.Quiet.{promote_denied}

mode_of_holder :
    (cid : Text) (cs : List Client)
    → IsDistinct cs
    → holds_rw cid cs ≡ true
    → mode_of (find_client cid cs) ≡ some read_write
mode_of_holder cid [] s h = cc
mode_of_holder cid (c ∷ cs) s h =
    ground (arith, same_iff c.client_id cid, holds_rw→is_attached cid cs, mode_of_holder cid cs s.1)

get_client_mode_holder :
    (name cid : Text) (w : World) (p : Port)
    → lookup name w.ports ≡ some p
    → IsSound p
    → holds_rw cid p.connected_clients ≡ true
    → get_client_mode cid name w.ports ≡ some read_write
unfolding get_client_mode
get_client_mode_holder name cid w p stands sound held =
    rw stands (mode_of_holder cid p.connected_clients sound.distinct held)

resolve_take_target_holder :
    (taker t : Text) (p : Port)
    → IsSound p
    → wire_to_mode p.max_read_write_users ≡ one
    → holds_rw taker p.connected_clients ≡ true
    → resolve_take_target taker (some t) (some p) ≡ nothing no_holder
unfolding resolve_take_target
resolve_take_target_holder taker t p sound mode held =
    rw (other_holders_empty taker p sound mode held)

-- The one writer of a local port with one write slot and distinct clients, which may drive it,
-- takes the slot and names any target: it is answered `no_holder` with the mode read-only, keeps
-- the slot, and nothing changes.
pub take_write_slot_mistold :
    (o : Outside) (name taker t : Text) (w : World) (p : Port)
    → is_on_port taker name w ≡ true
    → lookup name w.ports ≡ some p
    → p.remote ≡ none
    → IsSound p
    → wire_to_mode p.max_read_write_users ≡ one
    → holds_rw taker p.connected_clients ≡ true
    → recheck o (some p) taker ≡ some none
    → (take_write_slot o taker name (some t) w
        ≡ (some (build no_holder read_only (seated o (some p) taker name)), w))
      × (get_client_mode taker name w.ports ≡ some read_write)
unfolding take_write_slot take_at take_with take_entitled take_write_slot_local take_in_mode
    take_from ◌>>=◌ gets lift get_port answer_seated decide
take_write_slot_mistold o name taker t w p here stands local sound mode held may =
    let (c, e, a, b, r) = recheck_creds o p taker may in
    (
      ground (arith, a, b, r, resolve_take_target_holder taker t p sound mode held),
      get_client_mode_holder name taker w p stands sound held,
    )

-- A client that holds a slot of a local port, within its capacity and with distinct clients, and
-- may no longer drive it, by the code `c`, is answered `c` with the mode read-only when it asks
-- for the slot, and keeps the slot.
promote_mistold :
    (o : Outside) (name cid : Text) (c : Code) (w : World) (p : Port)
    → is_on_port cid name w ≡ true
    → lookup name w.ports ≡ some p
    → p.remote ≡ none
    → IsSound p
    → holds_rw cid p.connected_clients ≡ true
    → recheck o (some p) cid ≡ some (some c)
    → (promote_client_to_read_write o cid name w
        ≡ (decide c read_only (seated o (some p) cid name), w))
      × (get_client_mode cid name w.ports ≡ some read_write)
promote_mistold o name cid c w p here stands local sound held denied = (
  promote_denied o name cid w p stands here local c denied,
  get_client_mode_holder name cid w p stands sound held,
)
