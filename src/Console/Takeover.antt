-- ===== src/Console/Takeover.antt =====
-- openmux/server/console_manager.py: taking the write slot from another holder
-- (`take_write_slot` and its parts).
use openmux_server.Base.{
  Bool, true, ◌&&◌, not, Option, none, some, List, [], ◌∷◌, ◌++◌, Text, codes, same, keep, ltb,
  if◌then◌else◌,
}
use openmux_server.Capacity.{
  WriteMode, nobody, one, multiple, Raw, unset, wire_to_mode, holder_id_short,
}
use openmux_server.Decision.Codes.{
  Mode, read_write, read_only, Code, ok, granted, already_rw, not_attached, port_missing,
  not_entitled, no_holder, invalid_target, victim_not_current, federation_denied, promote_failed,
  demoted,
}
use openmux_server.Decision.{AccessDecision, Holder, decide, notice}
use openmux_server.Ports.{Port}
use openmux_server.Ports.Records.{Client, is_rw, has_id, holds_rw, find_client}
use openmux_server.Console.World.{
  Outside, Action, lift, gets, modify, ◌>>=◌, ◌>>◌, pause, promote_client, get_port, is_remote,
  is_on_port, or_unknown, port_capacity, plain, capped, answer_plain, answer_capped, answer_seated,
}
use openmux_server.Console.Ask.{
  promote_client_to_read_write, demote_client_to_read_only, seat_refusal,
  take_write_slot_permissions, entitlement_of, refusal_of,
}

-- The read-write holders beside the taker.
unfoldable pub other_holders : Text → List Client → List Client
other_holders taker = keep (λ c. is_rw c && not (has_id taker c))

abbrev pub only : List Client → Option Client
only [] = none
only (c ∷ []) = some c
only (c ∷ d ∷ cs) = none

abbrev pub or_printed : Option Client → Option Client → Option Client
or_printed (some c) p = some c
or_printed none p = p

-- The exact id first, then the short form if one holder alone shows it.
unfoldable pub match_take_target : List Client → Text → Option Client
match_take_target holders target =
    or_printed (find_client target holders)
      (only (keep (λ c. same (holder_id_short c.client_id) target) holders))

-- `max(holders, key=connected_at)`: the first of the latest.
unfoldable pub latest : Client → List Client → Client
latest best [] = best
latest best (c ∷ cs) = latest (if ltb best.connected_at c.connected_at then c else best) cs

-- A holder to demote, or the reason that there is none.
pub data Target : Type 0 where
  victim : Client → Target
  nothing : Code → Target

abbrev pub named : Option Client → Target
named none = nothing invalid_target
named (some c) = victim c

abbrev pub choose : List Client → Option Text → Target
choose [] target = nothing no_holder
choose (c ∷ cs) none = victim (latest c cs)
choose (c ∷ cs) (some t) = named (match_take_target (c ∷ cs) t)

abbrev pub clients_of : Option Port → List Client
clients_of none = []
clients_of (some p) = p.connected_clients

unfoldable pub resolve_take_target : Text → Option Text → Option Port → Target
resolve_take_target taker target port = choose (other_holders taker (clients_of port)) target

abbrev pub holder_of : Outside → Client → Holder
holder_of o c = record {
  client_id = c.client_id;
  username = or_unknown c.username;
  ip = or_unknown (o.ip c.client_id);
}

-- `_taker_display`
abbrev at_ip : Text → Text → Text
at_ip user [] = user
at_ip user (c ∷ s) = if same (c ∷ s) (codes "unknown") then user else user ++ (codes "@" ++ (c ∷ s))

abbrev shown : Outside → Text → Text → Text
shown o [] user = or_unknown user
shown o (c ∷ s) user = at_ip (or_unknown user) (o.ip (c ∷ s))

unfoldable pub taker_display : Outside → Text → Text → Text
taker_display o taker user = shown o taker user

-- `send_control_frame_to_client`, across a wait.
unfoldable pub send_notice : Outside → Text → Option AccessDecision → Action (Unit {0})
send_notice o cid d = do
  n ← lift d
  modify (λ w. record w { sent = w.sent ++ ((cid, n) ∷ []) })
  pause o

abbrev capped_victim :
    Option Port → Text → Text → Option Holder → Code → Mode → Option AccessDecision
capped_victim port cid name v c m = decide c m (record (capped port cid name) { victim = v })

unfoldable pub answer_victim : Outside → Option Holder → Text → Text → Action AccessDecision
answer_victim o v cid name w = (capped_victim (get_port name w) cid name v granted read_write, w)

-- `_take_slot_local`: demote the victim, promote the taker, and restore the victim if that failed.
unfoldable pub take_slot_local : Outside → Text → Text → Text → Client → Action AccessDecision
take_slot_local o name taker user v = do
  gave ← demote_client_to_read_only o true v.client_id name
  if ok gave.code
      then (do
        got ← promote_client_to_read_write o taker name
        if ok got.code
            then (do
              send_notice o v.client_id (
                  notice demoted
                    (record (plain v.client_id name) { actor = taker_display o taker user }))
              answer_victim o (some (holder_of o v)) taker name)
            else (do promote_client name v.client_id; seat_refusal o name taker))
      else answer_plain victim_not_current read_only taker name

abbrev pub is_client_rw : Text → Option Port → Bool
is_client_rw cid port = holds_rw cid (clients_of port)

abbrev wire_mode : Option Raw → WriteMode
wire_mode none = wire_to_mode unset
wire_mode (some r) = wire_to_mode r

unfoldable pub take_empty_slot : Outside → Text → Text → Action AccessDecision
take_empty_slot o name taker = do
  port ← gets (get_port name)
  if is_client_rw taker port then answer_capped already_rw read_write taker name else (do
    got ← promote_client_to_read_write o taker name
    if ok got.code then answer_capped granted read_write taker name else seat_refusal o name taker)

-- Only an unresolved target that was named stops the take.
unfoldable pub take_from :
    Outside → Text → Text → Text → Option Text → Target → Action AccessDecision
take_from o name taker user target (victim v) = take_slot_local o name taker user v
take_from o name taker user none (nothing no_holder) = take_empty_slot o name taker
take_from o name taker user target (nothing c) = answer_seated o c read_only taker name

unfoldable pub take_in_mode :
    Outside → WriteMode → Text → Text → Text → Option Text → Action AccessDecision
take_in_mode o multiple name taker user target = do
  port ← gets (get_port name)
  if is_client_rw taker port
      then answer_capped already_rw read_write taker name
      else seat_refusal o name taker
take_in_mode o nobody name taker user target = seat_refusal o name taker
take_in_mode o one name taker user target = do
  port ← gets (get_port name)
  take_from o name taker user target (resolve_take_target taker target port)

unfoldable pub take_write_slot_local :
    Outside → Text → Text → Text → Option Text → Action AccessDecision
take_write_slot_local o name taker user target = do
  port ← gets (get_port name)
  take_in_mode o (wire_mode (port_capacity port)) name taker user target

abbrev record_holder : Outside → Option Client → Option Holder
record_holder o none = none
record_holder o (some c) = some (holder_of o c)

-- `_victim_holder`
abbrev victim_holder : Outside → Option Port → Option Text → Option Holder
victim_holder o port none = none
victim_holder o port (some []) = none
victim_holder o port (some (c ∷ t)) = record_holder o (find_client (c ∷ t) (clients_of port))

-- `_take_write_slot_federated`: the origin decides, and its grant is mirrored on the local record.
unfoldable pub take_write_slot_federated :
    Outside → Text → Text → Option Text → Action AccessDecision
take_write_slot_federated o taker name target = do
  pause o
  agreed ← gets (λ w. o.origin_grants_take w name taker target)
  if agreed
      then (do
        got ← promote_client_to_read_write o taker name
        if ok got.code
            then (do
              port ← gets (get_port name)
              answer_victim o (victim_holder o port target) taker name)
            else answer_seated o promote_failed read_only taker name)
      else answer_seated o federation_denied read_only taker name

abbrev fst_or : Option (Text × Text) → Text
fst_or none = []
fst_or (some (user, permissions)) = user

unfoldable pub take_entitled :
    Outside → Option Port → Text → Text → Option Text → Text → Option Code → Action AccessDecision
take_entitled o port taker name target user none =
    if is_remote port
    then take_write_slot_federated o taker name target
    else take_write_slot_local o name taker user target
take_entitled o port taker name target user (some c) = answer_seated o c read_only taker name

unfoldable pub take_with :
    Outside → Option Port → Text → Text → Option Text → Option (Text × Text) → Action AccessDecision
take_with o port taker name target none = answer_plain not_entitled read_only taker name
take_with o port taker name target (some creds) = do
  e ← lift (entitlement_of o port taker (some creds))
  take_entitled o port taker name target creds.0 (refusal_of e)

unfoldable pub take_at : Outside → Option Port → Text → Text → Option Text → Action AccessDecision
take_at o none taker name target = answer_plain port_missing read_only taker name
take_at o (some p) taker name target =
    take_with o (some p) taker name target (take_write_slot_permissions o (some p) taker)

unfoldable pub take_write_slot : Outside → Text → Text → Option Text → Action AccessDecision
take_write_slot o taker name target = do
  here ← gets (is_on_port taker name)
  if here
      then (do port ← gets (get_port name); take_at o port taker name target)
      else answer_plain not_attached read_only taker name
