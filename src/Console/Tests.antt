-- ===== src/Console/Tests.antt =====
-- Runs of openmux/server/console_manager.py on one server: port tty1 with one write slot, which
-- alice holds while bob watches, and carol, who is on no port.
use openmux_server.Base.{
  ◌≡◌, ◌⊎◌, ◌≢◌, refl, Bool, Option, true, false, not, ◌&&◌, none, some, List, [], ◌∷◌, Text, codes,
  same, lower, strip, contains, arith,
}
use openmux_server.Capacity.{one, text, wire_to_mode, mode_word, write_capacity, parse_write_mode}
use openmux_server.Decision.{build, decide, notice}
use openmux_server.Decision.Codes.{
  read_write, read_only, denied_by_group_acl, no_holder, no_permissions,
}
use openmux_server.Dict.{lookup, insert}
use openmux_server.Ports.{Port, client_mode, get_client_mode, promote, update_port, demote}
use openmux_server.Ports.Records.{Client, holds_rw, is_attached}
use openmux_server.Ports.Slots.{IsSound, IsSoundAll}
use openmux_server.Console.World.{
  World, Outside, pause, modify, seated, is_on_port, demote_client, pure, answer_capped, plain,
  gets, ◌>>◌, lift, pause_if, ◌>>=◌, get_port, promote_client, change_port,
}
use openmux_server.Console.Ladder.{
  taker_entitled, resolve_access_mode, may_drive_of, meets, blocked_ports_for_user, word,
}
use openmux_server.Console.Ask.{
  recheck, take_write_slot_permissions, promote_client_to_read_write, demote_client_to_read_only,
  promote_checked, promote_unless,
}
use openmux_server.Console.Attach.{connect_client_to_port}
use openmux_server.Console.Takeover.{
  resolve_take_target, other_holders, latest, take_write_slot, victim, take_with, answer_victim,
  take_in_mode, take_slot_local, take_at, take_write_slot_local, take_from, send_notice,
  take_entitled,
}
use openmux_server.Console.Invariant.{Keeps}
use openmux_server.Console.History.{Request, serve, serve_all, serve_all-IsSoundAll}
use openmux_server.Console.Take.{IsMoved, take_write_slot_moves}
use openmux_server.Console.Access.{
  IsLadder, IsClosed, taker_entitled_lists, resolve_access_mode-IsLadder,
  contains-blocked_ports_for_user,
}
use openmux_server.Console.Admission.{IsAdmitted, connect_client_to_port-IsAdmitted}
use openmux_server.Console.Exclusive.{write_to_port_exclusive}
use openmux_server.Ports.Gate.{write_to_port}
use openmux_server.Console.Mistold.{take_write_slot_mistold}

abbrev tty1 : Text
tty1 = codes "tty1"

abbrev alice : Client
alice = record {
  client_id = codes "a";
  username = codes "alice";
  mode = read_write;
  connected_at = 3;
}

abbrev bob : Client
bob = record { client_id = codes "b"; username = codes "bob"; mode = read_only; connected_at = 5 }

abbrev console : Port
console = record {
  max_read_write_users = text (codes "one");
  read_write_groups = codes "ops" ∷ [];
  read_only_groups = [];
  connected_clients = alice ∷ bob ∷ [];
  remote = none;
}

abbrev server : World
server = record {
  ports = (tty1, console) ∷ [];
  client_port_map = (codes "a", tty1) ∷ (codes "b", tty1) ∷ [];
  sent = [];
}

-- Everyone may write, and is in the group that the port lists.
abbrev calm : Outside
calm = record {
  permissions = λ u. some (codes "read-write");
  groups = λ u. codes "ops" ∷ [];
  access_default = codes "allow";
  ip = λ c. codes "10.0.0.1";
  channel_username = λ c. none;
  now = λ w. 9;
  origin_grants_request = λ w n c. false;
  origin_grants_take = λ w n c t. false;
  meanwhile = λ w. w;
}

-- The same after the group was taken from everyone.
abbrev strict : Outside
strict = record calm { groups = λ u. [] }

-- The facts that the runs start from.
console-IsSound : IsSound console
unfolding same write_capacity parse_write_mode mode_word lower strip
console-IsSound = record { distinct = (refl, (refl, tt)); within = omega arith }

calm-Keeps : Keeps (pause calm)
unfolding pause modify
calm-Keeps = record { apply = λ w s. s }

console-stands : lookup tty1 server.ports ≡ some console
unfolding lookup same
console-stands = refl

one_slot : wire_to_mode console.max_read_write_users ≡ one
unfolding wire_to_mode mode_word lower strip
one_slot = refl

alice_here : is_on_port (codes "a") tty1 server ≡ true
unfolding lookup same is_on_port
alice_here = refl

bob_here : is_on_port (codes "b") tty1 server ≡ true
unfolding lookup same is_on_port
bob_here = refl

bob_attached : is_attached (codes "b") console.connected_clients ≡ true
unfolding same
bob_attached = refl

alice_holds : holds_rw (codes "a") console.connected_clients ≡ true
unfolding same
alice_holds = refl

alice_found : resolve_take_target (codes "b") none (some console) ≡ victim alice
unfolding resolve_take_target other_holders same latest
alice_found = refl

bob_may : recheck calm (some console) (codes "b") ≡ some none
unfolding recheck take_write_slot_permissions taker_entitled same meets
bob_may = refl

alice_may : recheck calm (some console) (codes "a") ≡ some none
unfolding recheck take_write_slot_permissions taker_entitled same meets
alice_may = refl

alice_may_not : recheck strict (some console) (codes "a") ≡ some (some denied_by_group_acl)
unfolding recheck take_write_slot_permissions taker_entitled same meets
alice_may_not = refl

carol_new : lookup (codes "c") server.client_port_map ≡ none
unfolding lookup same
carol_new = refl

not_admin : same (codes "read-only") (codes "admin") ≡ false
unfolding same
not_admin = refl

not_admin_either : same (codes "read-write") (codes "admin") ≡ false
unfolding same
not_admin_either = refl

abbrev requests : List Request
requests =
    Request.connect (codes "c") tty1 (codes "carol")
    ∷ Request.take (codes "b") tty1 none
    ∷ Request.promote (codes "a") tty1
    ∷ Request.disconnect (codes "b") tty1
    ∷ []

serve_all-IsSoundAll_example : IsSoundAll (serve_all calm requests server).ports
serve_all-IsSoundAll_example =
    serve_all-IsSoundAll calm calm-Keeps requests server (console-IsSound, tt)

take_write_slot_moves_example :
    IsMoved calm tty1
      (codes "b")
      alice
      (codes "a")
      server
      (take_write_slot calm (codes "b") tty1 none server)
take_write_slot_moves_example =
    take_write_slot_moves calm tty1 (codes "b") (codes "a") none server console alice (λ w. refl)
      console-stands refl console-IsSound one_slot alice_found bob_here alice_here bob_attached
      bob_may

connect_client_to_port-IsAdmitted_example :
    IsAdmitted calm tty1
      (codes "c")
      server
      (connect_client_to_port calm (codes "c") tty1 (codes "carol") server)
    × (((p : Text) × (calm.permissions (codes "carol") ≡ some p))
        ⊎ ((connect_client_to_port calm (codes "c") tty1 (codes "carol") server).0
            ≡ some (build no_permissions read_only (plain (codes "c") tty1))))
connect_client_to_port-IsAdmitted_example =
    connect_client_to_port-IsAdmitted calm tty1 (codes "c") (codes "carol") server console
      (λ w. refl) carol_new console-stands refl

resolve_access_mode-IsLadder_example :
    IsLadder
      (some console)
      (taker_entitled calm (some console) (codes "read-write") (codes "carol"))
      (resolve_access_mode calm (some console) tty1 (codes "read-write") (codes "carol"))
resolve_access_mode-IsLadder_example =
    resolve_access_mode-IsLadder calm (some console) tty1 (codes "read-write") (codes "carol")

taker_entitled_lists_example :
    IsClosed
      (calm.groups (codes "bob"))
      (some console)
      (taker_entitled calm (some console) (codes "read-only") (codes "bob"))
taker_entitled_lists_example =
    taker_entitled_lists calm (some console) (codes "read-only") (codes "bob") refl not_admin

contains-blocked_ports_for_user_example :
    contains tty1 (blocked_ports_for_user strict server.ports (tty1 ∷ []) (codes "carol")) ≡ (
      contains tty1 (tty1 ∷ [])
      && not (
          may_drive_of (
            taker_entitled strict
              (lookup tty1 server.ports)
              (word (strict.permissions (codes "carol")))
              (codes "carol"))))
contains-blocked_ports_for_user_example =
    contains-blocked_ports_for_user strict server.ports (tty1 ∷ []) (codes "carol") tty1

take_write_slot_mistold_example :
    (take_write_slot calm (codes "a") tty1 (some (codes "b")) server
      ≡ (some (build no_holder read_only (seated calm (some console) (codes "a") tty1)), server))
    × (get_client_mode (codes "a") tty1 server.ports ≡ some read_write)
take_write_slot_mistold_example =
    take_write_slot_mistold calm tty1 (codes "a") (codes "b") server console alice_here
      console-stands refl console-IsSound one_slot alice_holds alice_may

-- After bob took the slot.
abbrev after_take : Port
after_take = record console {
  connected_clients = record alice { mode = read_only } ∷ record bob { mode = read_write } ∷ [];
}

abbrev one_take : List Request
one_take = Request.take (codes "b") tty1 none ∷ []

taken : lookup tty1 (serve_all calm one_take server).ports ≡ some after_take
unfolding lookup serve_all serve take_write_slot ◌>>=◌ gets is_on_port same take_at get_port
    take_with take_write_slot_permissions lift taker_entitled meets take_entitled
    take_write_slot_local take_in_mode wire_to_mode mode_word lower strip take_from
    resolve_take_target other_holders take_slot_local demote_client_to_read_only latest
    demote_client change_port update_port demote ◌>>◌ pause_if insert pure pause modify
    answer_capped promote_unless promote_checked promote_client promote write_capacity
    parse_write_mode send_notice notice answer_victim decide promote_client_to_read_write recheck
taken = refl

abbrev line_up : Text → Text → Text → Option (Option Bool)
line_up n c d = some none

bob_sends :
    (write_to_port line_up tty1 (codes "x") (codes "b") (serve_all calm one_take server).ports).0
    ≢ []
unfolding write_to_port client_mode same
bob_sends = rw taken (λ e. cc)

write_to_port_exclusive_example : codes "b" ≡ codes "b"
write_to_port_exclusive_example =
    write_to_port_exclusive calm one_take server line_up tty1 (codes "x") (codes "x") (codes "b")
      (codes "b") after_take calm-Keeps (console-IsSound, tt) taken one_slot bob_sends bob_sends
