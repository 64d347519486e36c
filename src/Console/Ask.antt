-- ===== src/Console/Ask.antt =====
-- openmux/server/console_manager.py: a client that is attached asks for the write slot
-- (`promote_client_to_read_write`) or gives it up (`demote_client_to_read_only`).
use openmux_server.Base.{
  Bool, true, false, ◌&&◌, Option, none, some, [], ◌∷◌, Text, ltb, if◌then◌else◌,
}
use openmux_server.Capacity.{Amount, finite, unlimited, write_capacity}
use openmux_server.Decision.Codes.{
  read_write, read_only, Code, granted, not_attached, not_entitled, federation_denied,
  no_write_slot, take_without_slot, promote_failed, released, demote_failed,
}
use openmux_server.Decision.{AccessDecision, Entitlement, entitled_denied, may_drive}
use openmux_server.Ports.{Port}
use openmux_server.Ports.Records.{Client, find_client}
use openmux_server.Console.World.{
  Outside, Action, pure, lift, gets, ◌>>=◌, ◌>>◌, pause, pause_if, promote_client, demote_client,
  get_port, is_remote, is_on_port, answer_plain, answer_capped, answer_seated,
}
use openmux_server.Console.Ladder.{taker_entitled, setting}

abbrev username_of : Option Client → Text
username_of none = []
username_of (some c) = c.username

abbrev record_username : Text → Option Port → Text
record_username cid none = []
record_username cid (some p) = username_of (find_client cid p.connected_clients)

abbrev permissions_of : Outside → Text → Option Text
permissions_of o [] = none
permissions_of o (c ∷ s) = o.permissions (c ∷ s)

abbrev first_of_two : Option Text → Option Text → Option Text
first_of_two none b = b
first_of_two (some a) b = some a

abbrev channel_permissions : Outside → Option Text → Option Text
channel_permissions o none = none
channel_permissions o (some user) = permissions_of o user

-- `_client_permissions`
abbrev pub client_permissions : Outside → Text → Option Text
client_permissions o cid = channel_permissions o (o.channel_username cid)

abbrev with_user : Text → Option Text → Option (Text × Text)
with_user user none = none
with_user user (some p) = some (user, p)

-- `_take_write_slot_permissions`: the user name of the record, and the permission word.
unfoldable pub take_write_slot_permissions : Outside → Option Port → Text → Option (Text × Text)
take_write_slot_permissions o port cid =
    with_user (record_username cid port)
      (first_of_two (permissions_of o (record_username cid port)) (client_permissions o cid))

abbrev or_id : Text → Text → Text
or_id [] cid = cid
or_id (c ∷ s) cid = c ∷ s

abbrev pub entitlement_of : Outside → Option Port → Text → Option (Text × Text) → Option Entitlement
entitlement_of o port cid none = entitled_denied not_entitled
entitlement_of o port cid (some (user, permissions)) =
    taker_entitled o port permissions (or_id user cid)

-- The code of the refusal, or `none` where the identity may drive.
abbrev pub refusal_of : Entitlement → Option Code
refusal_of e =
    if may_drive e then none else elim e.code [ none ↦ some not_entitled | some c ↦ some c ]

abbrev refused : Option Entitlement → Option (Option Code)
refused none = none
refused (some e) = some (refusal_of e)

-- The re-check of the ladder before a promote. A missing port is not checked.
unfoldable pub recheck : Outside → Option Port → Text → Option (Option Code)
recheck o none cid = some none
recheck o (some p) cid =
    refused (entitlement_of o (some p) cid (take_write_slot_permissions o (some p) cid))

abbrev pub seat_code : Amount → Code
seat_code (finite k) =
    if ltb k 1 then no_write_slot else if ltb 1 k then take_without_slot else promote_failed
seat_code unlimited = take_without_slot

-- `_seat_refusal`
unfoldable pub seat_refusal : Outside → Text → Text → Action AccessDecision
seat_refusal o name cid = do
  port ← gets (get_port name)
  answer_seated o (seat_code (write_capacity (setting port))) read_only cid name

-- `_request_federated_promotion`
unfoldable pub request_federated_promotion : Outside → Text → Text → Action Bool
request_federated_promotion o name cid = do
  pause o
  agreed ← gets (λ w. o.origin_grants_request w name cid)
  if agreed then promote_client name cid else pure false

-- The origin of a federated port is asked first; a local port has none to ask.
abbrev ask_origin : Outside → Bool → Text → Text → Action Bool
ask_origin o remote name cid = if remote then request_federated_promotion o name cid else pure true

unfoldable pub promote_checked : Outside → Bool → Text → Text → Action AccessDecision
promote_checked o remote cid name = do
  allowed ← ask_origin o remote name cid
  if allowed
      then (do
        done ← promote_client name cid
        if done
            then (do pause o; answer_capped granted read_write cid name)
            else seat_refusal o name cid)
      else answer_seated o federation_denied read_only cid name

unfoldable pub promote_unless :
    Outside → Option Port → Text → Text → Option Code → Action AccessDecision
promote_unless o port cid name none = promote_checked o (is_remote port) cid name
promote_unless o port cid name (some c) = answer_seated o c read_only cid name

unfoldable pub promote_client_to_read_write : Outside → Text → Text → Action AccessDecision
promote_client_to_read_write o cid name = do
  here ← gets (is_on_port cid name)
  if here
      then (do
        port ← gets (get_port name)
        refusal ← lift (recheck o port cid)
        promote_unless o port cid name refusal)
      else answer_plain not_attached read_only cid name

unfoldable pub demote_client_to_read_only : Outside → Bool → Text → Text → Action AccessDecision
demote_client_to_read_only o notify_origin cid name = do
  here ← gets (is_on_port cid name)
  if here
      then (do
        done ← demote_client name cid
        port ← gets (get_port name)
        if done
            then (do
              pause_if o (notify_origin && is_remote port)
              pause o
              answer_capped released read_only cid name)
            else answer_seated o demote_failed read_write cid name)
      else answer_plain not_attached read_write cid name
