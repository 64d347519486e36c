-- ===== src/Console/Ladder.antt =====
-- openmux/server/console_manager.py: the access ladder (`_taker_entitled`), the slot test and the
-- mode of an attach (`_resolve_access_mode`), and `blocked_ports_for_user`.
use openmux_server.Base.{
  Bool, true, false, ◌&&◌, not, Option, none, some, List, [], ◌∷◌, Text, codes, same, any, contains,
  ltb, if◌then◌else◌,
}
use openmux_server.Capacity.{Amount, finite, unlimited, Raw, int, write_capacity}
use openmux_server.Capacity.Integer.{pos}
use openmux_server.Decision.Codes.{
  Mode, read_write, read_only, Code, attached, capacity_full, capacity_none, read_only_standing,
  denied_by_group_acl, denied_by_access_default,
}
use openmux_server.Decision.{
  AccessDecision, Entitlement, entitled_write, entitled_read_only, entitled_denied, may_drive,
  decide,
}
use openmux_server.Ports.{Port, Ports, writers}
use openmux_server.Dict.{lookup}
use openmux_server.Console.World.{Outside, capped}

-- `getattr(port, "max_read_write_users", 1)`
abbrev pub setting : Option Port → Raw
setting none = int (pos 1)
setting (some p) = p.max_read_write_users

abbrev pub rw_groups : Option Port → List Text
rw_groups none = []
rw_groups (some p) = p.read_write_groups

abbrev pub ro_groups : Option Port → List Text
ro_groups none = []
ro_groups (some p) = p.read_only_groups

-- `bool(a & b)` of two sets.
unfoldable pub meets : List Text → List Text → Bool
meets gs hs = any (λ g. contains g hs) gs

abbrev pub is_empty : List Text → Bool
is_empty [] = true
is_empty (g ∷ gs) = false

-- A port that declares a group list.
abbrev pub has_lists : Option Port → Bool
has_lists port = not (is_empty (rw_groups port) && is_empty (ro_groups port))

unfoldable pub taker_entitled : Outside → Option Port → Text → Text → Option Entitlement
taker_entitled o port permissions username =
    if same permissions (codes "admin")
    then some entitled_write
    else if has_lists port
    then (if meets (o.groups username) (rw_groups port)
        then some entitled_write
        else if meets (o.groups username) (ro_groups port)
        then some entitled_read_only
        else entitled_denied denied_by_group_acl)
    else if same o.access_default (codes "deny")
    then entitled_denied denied_by_access_default
    else if same permissions (codes "read-write")
    then some entitled_write
    else some entitled_read_only

-- `current_rw_users < capacity`, with the two ends tested first.
abbrev pub slots_left : Option Port → Amount → Bool
slots_left none a = false
slots_left (some p) unlimited = true
slots_left (some p) (finite k) = ltb (writers p.connected_clients) k

unfoldable pub has_write_slots : Option Port → Bool
has_write_slots port = slots_left port (write_capacity (setting port))

abbrev pub no_slots : Amount → Bool
no_slots (finite k) = ltb k 1
no_slots unlimited = false

unfoldable pub rw_mode_or_demote : Option Port → Mode × Code
rw_mode_or_demote port = if has_write_slots port then (read_write, attached) else (
  read_only,
  (if no_slots (write_capacity (setting port)) then capacity_none else capacity_full),
)

abbrev watching : Option Port → Text → Option Code → Option AccessDecision
watching port name none = decide read_only_standing read_only (capped port [] name)
watching port name (some c) = decide c read_only (capped port [] name)

abbrev pub on_ladder : Option Port → Text → Option Entitlement → Option AccessDecision
on_ladder port name none = none
on_ladder port name (some e) =
    if may_drive e
    then (let (m, c) = rw_mode_or_demote port in decide c m (capped port [] name))
    else watching port name e.code

unfoldable pub resolve_access_mode :
    Outside → Option Port → Text → Text → Text → Option AccessDecision
resolve_access_mode o port name permissions username =
    on_ladder port name (taker_entitled o port permissions username)

abbrev pub may_drive_of : Option Entitlement → Bool
may_drive_of none = false
may_drive_of (some e) = may_drive e

-- A user without permissions is compared as Python compares `None`: to no permission word.
abbrev pub word : Option Text → Text
word none = []
word (some t) = t

unfoldable pub blocked_from : Outside → Ports → Text → Text → List Text → List Text
blocked_from o ps permissions username [] = []
blocked_from o ps permissions username (n ∷ ns) =
    if may_drive_of (taker_entitled o (lookup n ps) permissions username)
    then blocked_from o ps permissions username ns
    else n ∷ blocked_from o ps permissions username ns

unfoldable pub blocked_ports_for_user : Outside → Ports → List Text → Text → List Text
blocked_ports_for_user o ps names username =
    if same (word (o.permissions username)) (codes "admin")
    then []
    else blocked_from o ps (word (o.permissions username)) username names
