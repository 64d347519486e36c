-- ===== src/Console/Attach.antt =====
-- openmux/server/console_manager.py: attaching a client to a port and detaching it
-- (`connect_client_to_port`, `_attach_client_to_port`, `disconnect_client_from_port`).
use openmux_server.Base.{Bool, true, false, ◌&&◌, Option, none, some, Text, if◌then◌else◌}
use openmux_server.Decision.Codes.{
  Mode, read_write, read_only, Code, ok, attached, capacity_full, port_unavailable, no_permissions,
}
use openmux_server.Decision.{AccessDecision}
use openmux_server.Dict.{lookup}
use openmux_server.Ports.Records.{is_read_write}
use openmux_server.Console.World.{
  Outside, Action, pure, lift, gets, ◌>>=◌, ◌>>◌, pause, get_port, is_remote, is_on_port,
  add_client_to_port, remove_client_from_port, set_client_port, unset_client_port, answer_plain,
  answer_seated,
}
use openmux_server.Console.Ladder.{resolve_access_mode}
use openmux_server.Console.Ask.{request_federated_promotion}

unfoldable pub disconnect_client_from_port : Outside → Text → Text → Action Bool
disconnect_client_from_port o cid name = do
  here ← gets (is_on_port cid name)
  if here
      then (do remove_client_from_port o name cid; unset_client_port cid; pause o; pure true)
      else pure false

-- A read-write attach that is denied is tried once more as read-only.
unfoldable pub try_attach :
    Outside → Text → Text → Text → Mode → Code → Action (Option (Mode × Code))
try_attach o name cid user m c = do
  done ← add_client_to_port o name cid user m
  if done
      then pure (some (m, c))
      else (if is_read_write m
          then (do
            watching ← add_client_to_port o name cid user read_only
            pure (if watching then some (read_only, capacity_full) else none))
          else pure none)

-- The origin of a federated port grants the slot to a client that may drive.
unfoldable pub arbitrate :
    Outside → Bool → Text → Text → Mode × Code → Action (Option (Mode × Code))
arbitrate o asks name cid (m, c) =
    if asks
    then (do
      agreed ← request_federated_promotion o name cid
      pure (some (if agreed then (read_write, attached) else (m, capacity_full))))
    else pure (some (m, c))

-- The client is mapped to the port once it has a seat.
unfoldable pub settle_in :
    Outside → Bool → Text → Text → Option (Mode × Code) → Action (Option (Mode × Code))
settle_in o asks name cid none = pure none
settle_in o asks name cid (some s) = do set_client_port cid name; arbitrate o asks name cid s

unfoldable pub attach_client_to_port :
    Outside → Text → Text → Text → Mode → Bool → Mode → Code → Action (Option (Mode × Code))
attach_client_to_port o name cid user m is_federated entitled_mode c = do
  seat ← try_attach o name cid user m c
  settle_in o (is_federated && is_read_write entitled_mode) name cid seat

unfoldable pub leave_old_port : Outside → Text → Option Text → Action Bool
leave_old_port o cid none = pure false
leave_old_port o cid (some old) = disconnect_client_from_port o cid old

unfoldable pub report_seat : Outside → Text → Text → Option (Mode × Code) → Action AccessDecision
report_seat o cid name none = answer_seated o port_unavailable read_only cid name
report_seat o cid name (some (m, c)) = do pause o; answer_seated o c m cid name

unfoldable pub connect_entitled :
    Outside → Text → Text → Text → AccessDecision → Action AccessDecision
connect_entitled o cid name user ladder = do
  port ← gets (get_port name)
  seat ←
      attach_client_to_port o name cid user
        (if is_remote port && is_read_write ladder.mode then read_only else ladder.mode)
        (is_remote port) ladder.mode ladder.code
  report_seat o cid name seat

unfoldable pub connect_permitted : Outside → Text → Text → Text → Text → Action AccessDecision
connect_permitted o cid name user permissions = do
  port ← gets (get_port name)
  ladder ← lift (resolve_access_mode o port name permissions user)
  if ok ladder.code
      then connect_entitled o cid name user ladder
      else pure (record ladder { client_id = cid })

unfoldable pub connect_known : Outside → Text → Text → Text → Option Text → Action AccessDecision
connect_known o cid name user none = answer_plain no_permissions read_only cid name
connect_known o cid name user (some permissions) = connect_permitted o cid name user permissions

unfoldable pub connect_client_to_port : Outside → Text → Text → Text → Action AccessDecision
connect_client_to_port o cid name user = do
  old ← gets (λ w. lookup cid w.client_port_map)
  leave_old_port o cid old
  connect_known o cid name user (o.permissions user)
