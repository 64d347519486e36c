-- ===== src/Console/Quiet.antt =====
-- The requests of openmux/server/console_manager.py on a local port when no other task changes the
-- state while they wait: the answer and the ports afterwards.
use openmux_server.Base.{◌≡◌, Bool, true, false, none, some, Text, arith}
use openmux_server.Capacity.{write_capacity}
use openmux_server.Decision.Codes.{read_write, read_only, Code, granted, released}
use openmux_server.Decision.{decide, build}
use openmux_server.Dict.{lookup, insert}
use openmux_server.Ports.{Port, promote, demote}
use openmux_server.Ports.Effects.{update_port_done, update_port_refused, lookup-insert_self}
use openmux_server.Console.World.{
  World, Outside, ◌>>=◌, ◌>>◌, pure, lift, gets, modify, pause, pause_if, change_port,
  promote_client, demote_client, get_port, is_on_port, answer_capped, answer_seated, capped, seated,
}
use openmux_server.Console.Ask.{
  recheck, promote_unless, promote_checked, promote_client_to_read_write,
  demote_client_to_read_only, seat_refusal, seat_code,
}

-- No other task changes the state while one waits.
abbrev pub IsQuiet : Outside → Type 0
IsQuiet o = (w : World) → o.meanwhile w ≡ w

module _ (name cid : Text) (w : World) (p q : Port) (stands : lookup name w.ports ≡ some p) where
  pub promote_client_done :
      promote cid p ≡ some q
      → promote_client name cid w ≡ (some true, record w { ports = insert name q w.ports })
  unfolding promote_client change_port
  promote_client_done e = rw (update_port_done name (promote cid) w.ports p q stands e)

  pub demote_client_done :
      demote cid p ≡ some q
      → demote_client name cid w ≡ (some true, record w { ports = insert name q w.ports })
  unfolding demote_client change_port
  demote_client_done e = rw (update_port_done name (demote cid) w.ports p q stands e)

pub promote_client_refused :
    (name cid : Text) (w : World) (p : Port)
    → lookup name w.ports ≡ some p
    → promote cid p ≡ none
    → promote_client name cid w ≡ (some false, w)
unfolding promote_client change_port
promote_client_refused name cid w p stands e =
    rw (update_port_refused name (promote cid) w.ports p stands e)

module _ (o : Outside) (quiet : IsQuiet o) (name cid : Text) (w : World) (p q : Port)
    (stands : lookup name w.ports ≡ some p) (here : is_on_port cid name w ≡ true)
    (local : p.remote ≡ none) where
  pub demote_done :
      (n : Bool)
      → q.remote ≡ none
      → demote cid p ≡ some q
      → demote_client_to_read_only o n cid name w ≡ (
        some (build released read_only (capped (some q) cid name)),
        record w { ports = insert name q w.ports },
      )
  unfolding demote_client_to_read_only ◌>>=◌ ◌>>◌ gets pause pause_if modify pure get_port
      answer_capped decide
  demote_done n r e = ground (
    arith,
    demote_client_done name cid w p q stands e,
    lookup-insert_self name q w.ports,
    quiet (record w { ports = insert name q w.ports }),
  )

  pub promote_done :
      q.remote ≡ none
      → recheck o (some p) cid ≡ some none
      → promote cid p ≡ some q
      → promote_client_to_read_write o cid name w ≡ (
        some (build granted read_write (capped (some q) cid name)),
        record w { ports = insert name q w.ports },
      )
  unfolding promote_client_to_read_write promote_unless promote_checked ◌>>=◌ ◌>>◌ gets pause modify
      pure lift get_port answer_capped decide
  promote_done r k e = ground (
    arith,
    promote_client_done name cid w p q stands e,
    lookup-insert_self name q w.ports,
    quiet (record w { ports = insert name q w.ports }),
  )

module _ (o : Outside) (name cid : Text) (w : World) (p : Port)
    (stands : lookup name w.ports ≡ some p) (here : is_on_port cid name w ≡ true)
    (local : p.remote ≡ none) where
  pub promote_refused :
      recheck o (some p) cid ≡ some none
      → promote cid p ≡ none
      → promote_client_to_read_write o cid name w ≡ (
        decide
            (seat_code (write_capacity p.max_read_write_users))
            read_only
            (seated o (some p) cid name),
        w,
      )
  unfolding promote_client_to_read_write promote_unless promote_checked seat_refusal ◌>>=◌ ◌>>◌ gets
      pure lift get_port answer_seated
  promote_refused k e = ground (arith, promote_client_refused name cid w p stands e)

  -- A client that may not drive is refused with the code of the rule, and nothing changes.
  pub promote_denied :
      (c : Code)
      → recheck o (some p) cid ≡ some (some c)
      → promote_client_to_read_write o cid name w
        ≡ (decide c read_only (seated o (some p) cid name), w)
  unfolding promote_client_to_read_write promote_unless ◌>>=◌ ◌>>◌ gets lift get_port answer_seated
  promote_denied c k = ground arith
