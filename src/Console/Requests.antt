-- ===== src/Console/Requests.antt =====
-- Every request of openmux/server/console_manager.py keeps the write slots within their capacity,
-- in any order and with other tasks in between.
use openmux_server.Base.{refl, Bool, false, Option, none, some, Text}
use openmux_server.Capacity.{WriteMode, nobody, one, multiple}
use openmux_server.Decision.Codes.{Mode, read_only, Code}
use openmux_server.Decision.{AccessDecision, Holder}
use openmux_server.Ports.{Port}
use openmux_server.Ports.Records.{Client}
use openmux_server.Console.World.{Outside, pause, add_client_to_port, remove_client_from_port}
use openmux_server.Console.Attach.{
  disconnect_client_from_port, try_attach, arbitrate, settle_in, attach_client_to_port,
  leave_old_port, report_seat, connect_entitled, connect_permitted, connect_known,
  connect_client_to_port,
}
use openmux_server.Console.Takeover.{
  Target, victim, nothing, send_notice, answer_victim, take_slot_local, take_empty_slot, take_from,
  take_in_mode, take_write_slot_local, take_write_slot_federated, take_entitled, take_with, take_at,
  take_write_slot,
}
use openmux_server.Console.Invariant.{
  Keeps, keeping, pause_if-Keeps, answer_plain-Keeps, answer_seated-Keeps, seat_refusal-Keeps,
  request_federated_promotion-Keeps, promote_client_to_read_write-Keeps,
  demote_client_to_read_only-Keeps, bind-Keeps, then-Keeps, pure-Keeps, lift-Keeps, modify-Keeps,
}

module _ (o : Outside) (others : Keeps (pause o)) where
  add_client_to_port-Keeps :
      (name cid user : Text) (m : Mode) → Keeps (add_client_to_port o name cid user m)
  unfolding add_client_to_port
  add_client_to_port-Keeps name cid user m = search (keeping, pause_if-Keeps) depth 10

  remove_client_from_port-Keeps : (name cid : Text) → Keeps (remove_client_from_port o name cid)
  unfolding remove_client_from_port
  remove_client_from_port-Keeps name cid = search (keeping, pause_if-Keeps) depth 8

  pub disconnect_client_from_port-Keeps :
      (cid name : Text) → Keeps (disconnect_client_from_port o cid name)
  unfolding disconnect_client_from_port
  disconnect_client_from_port-Keeps cid name =
      search (keeping, remove_client_from_port-Keeps) depth 8

  try_attach-Keeps :
      (name cid user : Text) (m : Mode) (c : Code) → Keeps (try_attach o name cid user m c)
  unfolding try_attach
  try_attach-Keeps name cid user m c = search (keeping, add_client_to_port-Keeps) depth 8

  arbitrate-Keeps :
      (asks : Bool) (name cid : Text) (s : Mode × Code) → Keeps (arbitrate o asks name cid s)
  unfolding arbitrate
  arbitrate-Keeps asks name cid s = search (keeping, request_federated_promotion-Keeps) depth 8

  settle_in-Keeps :
      (asks : Bool) (name cid : Text) (s : Option (Mode × Code))
      → Keeps (settle_in o asks name cid s)
  unfolding settle_in
  settle_in-Keeps asks name cid none = pure-Keeps none
  settle_in-Keeps asks name cid (some s) = search (keeping, arbitrate-Keeps)

  report_seat-Keeps :
      (cid name : Text) (s : Option (Mode × Code)) → Keeps (report_seat o cid name s)
  unfolding report_seat
  report_seat-Keeps cid name none = search (answer_seated-Keeps)
  report_seat-Keeps cid name (some (m, c)) = search (keeping, answer_seated-Keeps)

  attach_client_to_port-Keeps :
      (name cid user : Text) (m : Mode) (federated : Bool) (entitled : Mode) (c : Code)
      → Keeps (attach_client_to_port o name cid user m federated entitled c)
  unfolding attach_client_to_port
  attach_client_to_port-Keeps name cid user m federated entitled c =
      search (keeping, try_attach-Keeps, settle_in-Keeps)

  connect_entitled-Keeps :
      (cid name user : Text) (ladder : AccessDecision)
      → Keeps (connect_entitled o cid name user ladder)
  unfolding connect_entitled
  connect_entitled-Keeps cid name user ladder =
      search (keeping, attach_client_to_port-Keeps, report_seat-Keeps) depth 8

  connect_permitted-Keeps :
      (cid name user permissions : Text) → Keeps (connect_permitted o cid name user permissions)
  unfolding connect_permitted
  connect_permitted-Keeps cid name user permissions =
      search (keeping, connect_entitled-Keeps) depth 8

  connect_known-Keeps :
      (cid name user : Text) (permissions : Option Text)
      → Keeps (connect_known o cid name user permissions)
  unfolding connect_known
  connect_known-Keeps cid name user none = search (answer_plain-Keeps)
  connect_known-Keeps cid name user (some p) = connect_permitted-Keeps cid name user p

  leave_old_port-Keeps : (cid : Text) (old : Option Text) → Keeps (leave_old_port o cid old)
  unfolding leave_old_port
  leave_old_port-Keeps cid none = pure-Keeps false
  leave_old_port-Keeps cid (some old) = disconnect_client_from_port-Keeps cid old

  pub connect_client_to_port-Keeps :
      (cid name user : Text) → Keeps (connect_client_to_port o cid name user)
  unfolding connect_client_to_port
  connect_client_to_port-Keeps cid name user =
      search (keeping, leave_old_port-Keeps, connect_known-Keeps) depth 8

  send_notice-Keeps : (cid : Text) (d : Option AccessDecision) → Keeps (send_notice o cid d)
  unfolding send_notice
  send_notice-Keeps cid d =
      bind-Keeps _ _ (lift-Keeps d) λ n. then-Keeps _ _ (modify-Keeps _ (λ w. refl)) others

  answer_victim-Keeps : (v : Option Holder) (cid name : Text) → Keeps (answer_victim o v cid name)
  unfolding answer_victim
  answer_victim-Keeps v cid name = record { apply = λ w s. s }

  take_slot_local-Keeps :
      (name taker user : Text) (v : Client) → Keeps (take_slot_local o name taker user v)
  unfolding take_slot_local
  take_slot_local-Keeps name taker user v =
      search
        (
          keeping, demote_client_to_read_only-Keeps, promote_client_to_read_write-Keeps,
          send_notice-Keeps, answer_victim-Keeps, seat_refusal-Keeps,
        )
        depth 12

  take_empty_slot-Keeps : (name taker : Text) → Keeps (take_empty_slot o name taker)
  unfolding take_empty_slot
  take_empty_slot-Keeps name taker =
      search (keeping, promote_client_to_read_write-Keeps, seat_refusal-Keeps) depth 10

  take_from-Keeps :
      (name taker user : Text) (target : Option Text) (t : Target)
      → Keeps (take_from o name taker user target t)
  unfolding take_from
  take_from-Keeps name taker user target (victim v) = take_slot_local-Keeps name taker user v
  take_from-Keeps name taker user none (nothing Code.no_holder) = take_empty_slot-Keeps name taker
  take_from-Keeps name taker user target (nothing c) =
      answer_seated-Keeps o others c read_only taker name

  take_in_mode-Keeps :
      (m : WriteMode) (name taker user : Text) (target : Option Text)
      → Keeps (take_in_mode o m name taker user target)
  unfolding take_in_mode
  take_in_mode-Keeps multiple name taker user target = search (keeping, seat_refusal-Keeps) depth 8
  take_in_mode-Keeps nobody name taker user target = search (seat_refusal-Keeps)
  take_in_mode-Keeps one name taker user target = search (keeping, take_from-Keeps) depth 8

  take_write_slot_local-Keeps :
      (name taker user : Text) (target : Option Text)
      → Keeps (take_write_slot_local o name taker user target)
  unfolding take_write_slot_local
  take_write_slot_local-Keeps name taker user target = search (keeping, take_in_mode-Keeps) depth 8

  take_write_slot_federated-Keeps :
      (taker name : Text) (target : Option Text)
      → Keeps (take_write_slot_federated o taker name target)
  unfolding take_write_slot_federated
  take_write_slot_federated-Keeps taker name target =
      search (keeping, promote_client_to_read_write-Keeps, answer_victim-Keeps, answer_seated-Keeps)
        depth 12

  take_entitled-Keeps :
      (port : Option Port) (taker name : Text) (target : Option Text) (user : Text)
      (c : Option Code)
      → Keeps (take_entitled o port taker name target user c)
  unfolding take_entitled
  take_entitled-Keeps port taker name target user none =
      search (keeping, take_write_slot_federated-Keeps, take_write_slot_local-Keeps)
  take_entitled-Keeps port taker name target user (some c) =
      answer_seated-Keeps o others c read_only taker name

  take_with-Keeps :
      (port : Option Port) (taker name : Text) (target : Option Text) (creds : Option (Text × Text))
      → Keeps (take_with o port taker name target creds)
  unfolding take_with
  take_with-Keeps port taker name target none = search (answer_plain-Keeps)
  take_with-Keeps port taker name target (some creds) = search (keeping, take_entitled-Keeps)

  take_at-Keeps :
      (port : Option Port) (taker name : Text) (target : Option Text)
      → Keeps (take_at o port taker name target)
  unfolding take_at
  take_at-Keeps none taker name target = search (answer_plain-Keeps)
  take_at-Keeps (some p) taker name target = take_with-Keeps (some p) taker name target _

  pub take_write_slot-Keeps :
      (taker name : Text) (target : Option Text) → Keeps (take_write_slot o taker name target)
  unfolding take_write_slot
  take_write_slot-Keeps taker name target = search (keeping, take_at-Keeps) depth 8
