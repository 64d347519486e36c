-- ===== src/Ports.antt =====
-- openmux/server/port_manager.py: the client records of one port, and the operations of
-- `PortManager` that add, remove, promote and demote a client. Logging, the data logger, the
-- delivery queues and the client-count hook are left out.
pub mod Records
pub mod Slots
pub mod Gate
pub mod Effects
use openmux_server.Base.{
  ℕ, Bool, true, false, ◌&&◌, not, Option, none, some, List, [], ◌∷◌, Text, same, count,
  if◌then◌else◌,
}
use openmux_server.Capacity.{Raw, write_capacity, is_full}
use openmux_server.Decision.Codes.{Mode, read_write, read_only}
use openmux_server.Dict.{Dict, lookup, insert}
use Records.{
  Client, is_rw, has_id, holds_rw, is_attached, upsert, remove_first, set_mode, find_client,
}

-- A port or a federated proxy. `remote` is the link state of a proxy, and `none` for a local port.
pub record Port : Type 0 where
  pub max_read_write_users : Raw
  pub read_write_groups : List Text
  pub read_only_groups : List Text
  pub connected_clients : List Client
  pub remote : Option Bool

abbrev pub Ports : Type 0
Ports = Dict Port

abbrev with_clients : Port → List Client → Port
with_clients p cs = record p { connected_clients = cs }

-- `_rw_counts`: the writers beside the client itself.
abbrev pub others_rw : Text → List Client → ℕ
others_rw cid = count (λ c. is_rw c && not (has_id cid c))

abbrev pub writers : List Client → ℕ
writers = count is_rw

-- The seat test of `add_client_to_port`, on one port.
unfoldable pub add_client : Client → Port → Option Port
add_client c p =
    if is_rw c
      && is_full (others_rw c.client_id p.connected_clients) (write_capacity p.max_read_write_users)
    then none
    else some (record p { connected_clients = upsert c p.connected_clients })

-- `promote_client`, on one port.
unfoldable pub promote : Text → Port → Option Port
promote cid p =
    if not (holds_rw cid p.connected_clients)
      && is_full (writers p.connected_clients) (write_capacity p.max_read_write_users)
    then none
    else if is_attached cid p.connected_clients
    then some (record p { connected_clients = set_mode cid read_write p.connected_clients })
    else none

-- `demote_client`, on one port.
unfoldable pub demote : Text → Port → Option Port
demote cid p =
    if is_attached cid p.connected_clients
    then some (record p { connected_clients = set_mode cid read_only p.connected_clients })
    else none

-- `remove_client_from_port`, on one port.
unfoldable pub remove_client : Text → Port → Option Port
remove_client cid p =
    if is_attached cid p.connected_clients
    then some (record p { connected_clients = remove_first cid p.connected_clients })
    else none

-- An operation on the port of a name: whether it was done, and the ports afterwards.
abbrev pub stored : Text → Ports → Option Port → Bool × Ports
stored name ps none = (false, ps)
stored name ps (some p) = (true, insert name p ps)

abbrev pub on_port : Text → Ports → (Port → Option Port) → Option Port → Bool × Ports
on_port name ps f none = (false, ps)
on_port name ps f (some p) = stored name ps (f p)

unfoldable pub update_port : Text → (Port → Option Port) → Ports → Bool × Ports
update_port name f ps = on_port name ps f (lookup name ps)

-- `_client_write_mode`, the gate of `write_to_port`.
abbrev pub mode_of : Option Client → Option Mode
mode_of none = none
mode_of (some c) = some c.mode

unfoldable pub client_mode : Text → Port → Option Mode
client_mode cid p = mode_of (find_client cid p.connected_clients)

-- `get_client_mode`
abbrev pub port_client_mode : Text → Option Port → Option Mode
port_client_mode cid none = none
port_client_mode cid (some p) = client_mode cid p

unfoldable pub get_client_mode : Text → Text → Ports → Option Mode
unfolding client_mode
get_client_mode cid name ps = port_client_mode cid (lookup name ps)
