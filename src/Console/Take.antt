-- ===== src/Console/Take.antt =====
-- `take_write_slot` of openmux/server/console_manager.py on a local port with one write slot.
use openmux_server.Base.{
  ◌≡◌, refl, sym, subst, ◌∙◌, Bool, true, Option, none, some, List, [], ◌∷◌, Text, same, same_iff,
  arith, Option-cases, inl, inr, if◌then◌else◌, ◌+◌, ◌≤◌, length, keep, count, not, ◌&&◌,
}
use openmux_server.Capacity.{one, wire_to_mode}
use openmux_server.Decision.Codes.{read_write, read_only, granted}
use openmux_server.Decision.{AccessDecision, Entitlement}
use openmux_server.Dict.{lookup, insert}
use openmux_server.Ports.{Port, Ports, get_client_mode, mode_of, others_rw, writers}
use openmux_server.Ports.Records.{
  Client, is_rw, has_id, holds_rw, is_attached, find_client, set_mode,
}
use openmux_server.Ports.Slots.{IsSound, others_rw_le}
use openmux_server.Ports.Effects.{
  find_client-set_mode_self, find_client-set_mode_ne, find_of_attached, lookup-insert_self,
}
use openmux_server.Console.World.{World, Outside, ◌>>=◌, gets, lift, get_port, is_on_port}
use openmux_server.Console.Ask.{recheck, take_write_slot_permissions, entitlement_of, refusal_of}
use openmux_server.Console.Takeover.{
  victim, other_holders, resolve_take_target, take_slot_local, take_from, take_in_mode,
  take_write_slot_local, take_entitled, take_with, take_at, take_write_slot, holder_of,
}
use openmux_server.Console.Targets.{IsOther, resolve_take_target-IsOther}
use openmux_server.Console.Quiet.{IsQuiet}
use openmux_server.Console.Transfer.{taken_port, write_capacity_of_one, take_slot_local_lem}

-- A taker that passes the re-check has credentials, and an entitlement that refuses nothing.
pub recheck_creds :
    (o : Outside) (p : Port) (taker : Text)
    → recheck o (some p) taker ≡ some none
    → (c : Text × Text) × (e : Entitlement) × (take_write_slot_permissions o (some p) taker
        ≡ some c)
      × (entitlement_of o (some p) taker (some c) ≡ some e)
      × (refusal_of e ≡ none)
unfolding recheck
recheck_creds o p taker h = elim (Option-cases (take_write_slot_permissions o (some p) taker)) [
  | inl a ↦ ground (arith, a)
  | inr (c, a) ↦ elim (Option-cases (entitlement_of o (some p) taker (some c))) [
    | inl b ↦ ground (arith, a, b)
    | inr (e, b) ↦ (c, e, a, b, ground (arith, a, b))
  ]
]

take_write_slot_transfers :
    (o : Outside) (name taker : Text) (target : Option Text) (w : World) (p : Port) (v : Client)
    → is_on_port taker name w ≡ true
    → lookup name w.ports ≡ some p
    → p.remote ≡ none
    → wire_to_mode p.max_read_write_users ≡ one
    → resolve_take_target taker target (some p) ≡ victim v
    → (c : Text × Text) (e : Entitlement) → take_write_slot_permissions o (some p) taker ≡ some c
    → entitlement_of o (some p) taker (some c) ≡ some e
    → refusal_of e ≡ none
    → take_write_slot o taker name target w ≡ take_slot_local o name taker c.0 v w
unfolding take_write_slot take_at take_with take_entitled take_write_slot_local take_in_mode
    take_from ◌>>=◌ gets lift get_port
take_write_slot_transfers o name taker target w p v here stands local mode chosen c e a b r =
    ground (arith, a, b, r, chosen)

-- The mode of every client after the transfer.
get_client_mode-taken :
    (name taker j : Text) (p : Port) (v : Client) (w : World)
    → lookup name w.ports ≡ some p
    → IsOther taker p.connected_clients v
    → is_attached taker p.connected_clients ≡ true
    → mode_of (find_client j (taken_port p v.client_id taker).connected_clients) ≡ (
        if same taker j
        then some read_write
        else if same v.client_id j
        then some read_only
        else get_client_mode j name w.ports)
unfolding get_client_mode
get_client_mode-taken name taker j p v w stands other seat =
    let cs = p.connected_clients in
    let ds = set_mode v.client_id read_only cs in
    let (t, found) = find_of_attached taker cs seat in
    ground (
      arith,
      stands,
      found,
      other.0,
      same_iff taker j,
      same_iff v.client_id j,
      find_client-set_mode_ne taker v.client_id read_only cs other.2,
      find_client-set_mode_self taker read_write ds,
      find_client-set_mode_ne j taker read_write ds,
      find_client-set_mode_ne j v.client_id read_only cs,
      find_client-set_mode_self v.client_id read_only cs,
    )

get_client_mode-insert :
    (name j : Text) (p : Port) (ps : Ports)
    → get_client_mode j name (insert name p ps) ≡ mode_of (find_client j p.connected_clients)
unfolding get_client_mode
get_client_mode-insert name j p ps = rw (lookup-insert_self name p ps)

abbrev pub IsMoved :
    Outside → Text → Text → Client → Text → World → Option AccessDecision × World → Type 0
IsMoved o name taker v j w (r, w') =
    (d : AccessDecision) × (r ≡ some d)
    × (d.code ≡ granted)
    × (d.mode ≡ read_write)
    × (d.victim ≡ some (holder_of o v))
    × (get_client_mode j name w'.ports ≡ (
        if same taker j
        then some read_write
        else if same v.client_id j
        then some read_only
        else get_client_mode j name w.ports))
    × (w'.client_port_map ≡ w.client_port_map)

-- A takeover on a local port with one write slot, distinct clients and one writer at most, by an
-- attached client that may drive it, from a holder that is mapped to the port, with no other task
-- in between: the answer is `granted` with read-write and names the victim, the taker holds the
-- slot, the victim is read-only, and no other client's mode on the port changes.
pub take_write_slot_moves :
    (o : Outside) (name taker j : Text) (target : Option Text) (w : World) (p : Port) (v : Client)
    → IsQuiet o
    → lookup name w.ports ≡ some p
    → p.remote ≡ none
    → IsSound p
    → wire_to_mode p.max_read_write_users ≡ one
    → resolve_take_target taker target (some p) ≡ victim v
    → is_on_port taker name w ≡ true
    → is_on_port v.client_id name w ≡ true
    → is_attached taker p.connected_clients ≡ true
    → recheck o (some p) taker ≡ some none
    → IsMoved o name taker v j w (take_write_slot o taker name target w)
take_write_slot_moves o name taker j target w p v quiet stands local sound mode chosen here there
      seat may =
    let (c, e, a, b, r) = recheck_creds o p taker may in
    let other = resolve_take_target-IsOther taker target p v sound.distinct chosen in
    let cap = write_capacity_of_one p.max_read_write_users mode in
    subst (IsMoved o name taker v j w)
      (sym (
        take_write_slot_transfers o name taker target w p v here stands local mode chosen c e a b r
        ∙ take_slot_local_lem o quiet name taker w p v stands local cap sound other here there seat
            may c.0))
      (
        _,
        refl,
        refl,
        refl,
        refl,
        get_client_mode-insert name j (taken_port p v.client_id taker) _
            ∙ get_client_mode-taken name taker j p v w stands other seat,
        refl,
      )

-- The taker's own record never counts among the other holders: under one slot, a taker that holds
-- it leaves nobody to take from.
length-keep : (p : Client → Bool) (cs : List Client) → length (keep p cs) ≡ count p cs
length-keep p [] = refl
length-keep p (c ∷ cs) = ground (arith, length-keep p cs)

others_rw_lt :
    (cid : Text) (cs : List Client) → holds_rw cid cs ≡ true → others_rw cid cs + 1 ≤ writers cs
others_rw_lt cid [] h = cc
others_rw_lt cid (c ∷ cs) h = ground (arith, others_rw_lt cid cs, others_rw_le cid cs)

empty_of_length : (cs : List Client) → length cs ≡ 0 → cs ≡ []
empty_of_length [] h = refl
empty_of_length (c ∷ cs) h = absurd (omega arith)

pub other_holders_empty :
    (taker : Text) (p : Port)
    → IsSound p
    → wire_to_mode p.max_read_write_users ≡ one
    → holds_rw taker p.connected_clients ≡ true
    → other_holders taker p.connected_clients ≡ []
unfolding other_holders
other_holders_empty taker p sound mode held = empty_of_length _ (
    ground (
      arith,
      write_capacity_of_one p.max_read_write_users mode,
      sound.within,
      length-keep (λ c. is_rw c && not (has_id taker c)) p.connected_clients,
      others_rw_lt taker p.connected_clients held,
    ))
