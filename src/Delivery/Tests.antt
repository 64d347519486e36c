-- ===== src/Delivery/Tests.antt =====
-- Runs of the delivery of one port's output: alice attaches, some chunks arrive, and so on.
use openmux_server.Base.{
  concat, ℕ, same, ◌≡◌, refl, Bool, true, none, List, [], ◌∷◌, ◌++◌, Text, codes, arith,
}
use openmux_server.Dict.{insert, lookup}
use openmux_server.Delivery.{
  Wrapper, wrapper, get_scrollback, receive_chunk, fan_out, evicted, take_own, take_chunk,
}
use openmux_server.Delivery.Bounded.{IsBounded, FitQueue, happen_all-IsBounded}
use openmux_server.Delivery.Events.{Event, arrives, forwards, reads, happen_all}
use openmux_server.Delivery.History.{get_scrollback-last}
use openmux_server.Delivery.Lossless.{Waits, forwarded, forwarded-arrivals}
use openmux_server.Delivery.Pump.{pump_local_port_to_remote}
use openmux_server.Delivery.Queues.{Chunk, Queue, put_dropping, put_nowait, overflows, get_nowait}
use openmux_server.Delivery.Repeats.{visit, read_times, pump_repeats}
use openmux_server.Delivery.Ring.{last}

abbrev alice : Text
alice = codes "a"

abbrev boot : List Chunk
boot = codes "boot " ∷ codes "ok" ∷ []

abbrev always : ℕ → Bool
always k = true

always_lem : (k : ℕ) → always k ≡ true
always_lem k = refl

-- A port with eight bytes of scrollback on which alice waits for nothing.
abbrev watched : Wrapper
watched = record {
  connected_clients = alice ∷ [];
  client_queues = (alice, []) ∷ [];
  data_queue = [];
  dropped_chunks = 0;
  federation_viewer_count = 0;
  scrollback_size = 8;
  scrollback = [];
}

abbrev session : List Event
session = arrives none (codes "boot ") ∷ forwards alice ∷ arrives none (codes "ok") ∷ reads ∷ []

happen_all-IsBounded_example : IsBounded (happen_all session watched)
unfolding FitQueue
happen_all-IsBounded_example =
    happen_all-IsBounded session watched
      record { own = (omega arith, tt); shared = omega arith; ring = omega arith }

get_scrollback-last_example :
    get_scrollback alice (insert alice (happen_all session (wrapper 4)) []) ≡ codes "t ok"
unfolding last
get_scrollback-last_example = get_scrollback-last session 4 alice []

forwarded-arrivals_example :
    (p : Queue) × Waits alice p (happen_all session watched)
    × (forwarded alice session watched ++ p ≡ boot)
unfolding receive_chunk fan_out put_dropping put_nowait overflows evicted lookup Waits take_own
    insert get_nowait take_chunk same
forwarded-arrivals_example =
    forwarded-arrivals session alice [] watched (tt, (tt, (tt, (tt, tt)))) refl (refl, refl)

abbrev relay : List Event
relay = arrives none (codes "ok") ∷ reads ∷ []

pump_repeats_example :
    concat (
      pump_local_port_to_remote always always
        (read_times 2)
        (happen_all (visit alice boot) (wrapper 8)))
    ≡ codes "boot okboot ok"
pump_repeats_example =
    pump_repeats always always alice boot 8 always_lem always_lem (omega arith) (omega arith)
