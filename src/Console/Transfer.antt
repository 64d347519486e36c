-- ===== src/Console/Transfer.antt =====
-- A takeover on a local port with one write slot (openmux/server/console_manager.py,
-- `take_write_slot`) moves the slot from the victim to the taker.
use openmux_server.Base.{
  ◌≡◌, refl, ◌∙◌, true, false, none, some, [], ◌∷◌, ◌++◌, Text, same, arith, Option-cases, inl, inr,
}
use openmux_server.Capacity.{Raw, one, finite, parse_write_mode, wire_to_mode, write_capacity}
use openmux_server.Capacity.Laws.{wire_to_mode_of_parse}
use openmux_server.Decision.Codes.{read_write, read_only, granted, released, demoted}
use openmux_server.Decision.{AccessDecision, decide, notice, build}
use openmux_server.Dict.{lookup, insert}
use openmux_server.Ports.{Port, writers, promote, demote}
use openmux_server.Ports.Records.{Client, is_rw, is_attached, find_client, set_mode}
use openmux_server.Ports.Slots.{IsSound, is_attached-set_mode}
use openmux_server.Ports.Effects.{
  find_client-set_mode_ne, is_attached_of_find, writers-set_mode, lookup-insert_self,
}
use openmux_server.Console.World.{
  World, Outside, ◌>>=◌, ◌>>◌, lift, modify, pause, get_port, is_on_port, plain, capped, bind_done,
  then_done,
}
use openmux_server.Console.Ask.{
  demote_client_to_read_only, promote_client_to_read_write, recheck, take_write_slot_permissions,
}
use openmux_server.Console.Ladder.{taker_entitled}
use openmux_server.Console.Takeover.{
  take_slot_local, holder_of, send_notice, answer_victim, taker_display,
}
use openmux_server.Console.Targets.{IsOther}
use openmux_server.Console.Quiet.{IsQuiet, demote_done, promote_done}

-- A setting that the wire reads as one writer has the capacity of one.
pub write_capacity_of_one : (r : Raw) → wire_to_mode r ≡ one → write_capacity r ≡ finite 1
unfolding write_capacity
write_capacity_of_one r e = elim (Option-cases (parse_write_mode r)) [
  | inl h ↦ ground (arith, h)
  | inr (m, h) ↦ ground (arith, h, wire_to_mode_of_parse r m h)
]

-- The port after the victim's record went read-only, and after the taker's went read-write.
abbrev pub released_port : Port → Text → Port
released_port p vid = record p { connected_clients = set_mode vid read_only p.connected_clients }

abbrev pub taken_port : Port → Text → Text → Port
taken_port p vid taker = record p {
  connected_clients = set_mode taker read_write (set_mode vid read_only p.connected_clients);
}

-- The re-check of the taker does not look at the victim's mode.
recheck-released :
    (o : Outside) (p : Port) (vid taker : Text)
    → same vid taker ≡ false
    → recheck o (some (released_port p vid)) taker ≡ recheck o (some p) taker
unfolding recheck take_write_slot_permissions taker_entitled
recheck-released o p vid taker h =
    rw (find_client-set_mode_ne taker vid read_only p.connected_clients h) refl

demote-released :
    (p : Port) (v : Client)
    → find_client v.client_id p.connected_clients ≡ some v
    → demote v.client_id p ≡ some (released_port p v.client_id)
unfolding demote
demote-released p v h = rw (is_attached_of_find v.client_id p.connected_clients v h)

-- With the one writer demoted nobody holds the slot.
writers-released :
    (p : Port) (v : Client)
    → IsSound p
    → write_capacity p.max_read_write_users ≡ finite 1
    → find_client v.client_id p.connected_clients ≡ some v
    → is_rw v ≡ true
    → writers (set_mode v.client_id read_only p.connected_clients) ≡ 0
writers-released p v s cap found rw_mode =
    ground (arith, s.within, writers-set_mode v.client_id read_only p.connected_clients v found)

-- So there is room for the taker.
promote-taken :
    (p : Port) (v : Client) (taker : Text)
    → write_capacity p.max_read_write_users ≡ finite 1
    → writers (set_mode v.client_id read_only p.connected_clients) ≡ 0
    → is_attached taker p.connected_clients ≡ true
    → promote taker (released_port p v.client_id) ≡ some (taken_port p v.client_id taker)
unfolding promote
promote-taken p v taker cap free here =
    ground (arith, is_attached-set_mode taker v.client_id read_only p.connected_clients)

module _ (o : Outside) (quiet : IsQuiet o) (name taker : Text) (w : World) (p : Port) (v : Client)
    (stands : lookup name w.ports ≡ some p) (local : p.remote ≡ none)
    (cap : write_capacity p.max_read_write_users ≡ finite 1) (sound : IsSound p)
    (other : IsOther taker p.connected_clients v) (here : is_on_port taker name w ≡ true)
    (there : is_on_port v.client_id name w ≡ true)
    (seat : is_attached taker p.connected_clients ≡ true)
    (entitled : recheck o (some p) taker ≡ some none) where
  abbrev pub released_world : World
  released_world = record w { ports = insert name (released_port p v.client_id) w.ports }

  abbrev pub taken_world : World
  taken_world = record w {
    ports = insert name (taken_port p v.client_id taker) released_world.ports;
  }

  demotes : demote_client_to_read_only o true v.client_id name w ≡ (
    some (build released read_only (capped (some (released_port p v.client_id)) v.client_id name)),
    released_world,
  )
  demotes =
      demote_done o quiet name v.client_id w p (released_port p v.client_id) stands there local true
        local (demote-released p v other.0)

  promotes : promote_client_to_read_write o taker name released_world ≡ (
    some (build granted read_write (capped (some (taken_port p v.client_id taker)) taker name)),
    taken_world,
  )
  unfolding is_on_port
  promotes =
      promote_done o quiet name taker released_world (released_port p v.client_id)
        (taken_port p v.client_id taker) (lookup-insert_self name _ w.ports) here local local
        (recheck-released o p v.client_id taker other.2 ∙ entitled)
        (promote-taken p v taker cap (writers-released p v sound cap other.0 other.1) seat)

  abbrev pub told_world : Text → World
  told_world user = record taken_world {
    sent =
        w.sent
        ++ ((
          v.client_id,
          build demoted read_only
              (record (plain v.client_id name) { actor = taker_display o taker user }),
        )
            ∷ []);
  }

  abbrev pub transferred : AccessDecision
  transferred =
      record (build granted read_write
        (capped (some (taken_port p v.client_id taker)) taker name)) {
          victim = some (holder_of o v);
        }

  tells :
      (user : Text)
      → send_notice o v.client_id
          (notice demoted (record (plain v.client_id name) { actor = taker_display o taker user }))
          taken_world
        ≡ (some tt, told_world user)
  unfolding send_notice ◌>>=◌ ◌>>◌ lift modify pause notice
  tells user = rw (quiet (told_world user))

  answers :
      (user : Text)
      → answer_victim o (some (holder_of o v)) taker name (told_world user)
        ≡ (some transferred, told_world user)
  unfolding answer_victim get_port decide
  answers user =
      ground (arith, lookup-insert_self name (taken_port p v.client_id taker) released_world.ports)

  -- The answer of the transfer, and the state afterwards.
  pub take_slot_local_lem :
      (user : Text) → take_slot_local o name taker user v w ≡ (some transferred, told_world user)
  unfolding take_slot_local
  take_slot_local_lem user =
      bind_done _ _ w released_world _ demotes
      ∙ (bind_done _ _ released_world taken_world _ promotes
          ∙ (then_done _ _ taken_world (told_world user) tt (tells user) ∙ answers user))
