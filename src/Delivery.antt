-- ===== src/Delivery.antt =====
-- openmux/server/port_manager.py: how the bytes of a port reach its readers. One wrapper keeps the
-- scrollback ring, one delivery queue for each client, and the queue that the federation pump
-- shares. Bytes are numbers; logging and the client-count hook are left out.
pub mod Queues
pub mod Ring
pub mod Events
pub mod Bounded
pub mod Lossless
pub mod History
pub mod Pump
pub mod Relayed
pub mod Repeats
mod Tests
use openmux_server.Base.{
  ℕ, ◌+◌, ◌-◌, Bool, true, false, ◌||◌, Option, none, some, List, [], ◌∷◌, ◌++◌, Text, same, any,
  length, ltb, if◌then◌else◌,
}
use openmux_server.Dict.{Dict, lookup, has_key, insert, erase}
use Queues.{Chunk, Queue, put_dropping, overflows, get_nowait}
use Ring.{retain}

pub record Wrapper : Type 0 where
  pub connected_clients : List Text
  pub client_queues : Dict Queue
  pub data_queue : Queue
  pub dropped_chunks : ℕ
  pub federation_viewer_count : ℕ
  pub scrollback_size : ℕ
  pub scrollback : Text

abbrev pub Wrappers : Type 0
Wrappers = Dict Wrapper

-- A wrapper as `UnifiedPortWrapper.__init__` makes it.
abbrev pub wrapper : ℕ → Wrapper
wrapper size = record {
  connected_clients = [];
  client_queues = [];
  data_queue = [];
  dropped_chunks = 0;
  federation_viewer_count = 0;
  scrollback_size = size;
  scrollback = [];
}

-- The queue that `_attach_client_record` leaves a client: one that is there stays.
abbrev pub queue_or_new : Text → Dict Queue → Dict Queue
queue_or_new cid qs = if has_key cid qs then qs else insert cid [] qs

-- `_attach_client_record`, the clients by their ids: a client that is listed keeps its queue.
unfoldable pub attach_client : Text → Wrapper → Wrapper
attach_client cid w =
    if any (same cid) w.connected_clients
    then record w { client_queues = queue_or_new cid w.client_queues }
    else record w {
      connected_clients = w.connected_clients ++ cid ∷ [];
      client_queues = insert cid [] w.client_queues;
    }

abbrev pub without_first : Text → List Text → List Text
without_first cid [] = []
without_first cid (c ∷ cs) = if same cid c then cs else c ∷ without_first cid cs

-- The removal of a client: its record and its queue go, and the shared queue stays as it is.
unfoldable pub detach_client : Text → Wrapper → Wrapper
detach_client cid w =
    if any (same cid) w.connected_clients
    then record w {
      connected_clients = without_first cid w.connected_clients;
      client_queues = erase cid w.client_queues;
    }
    else w

-- `_fan_out_to_client_queues`: the queues, and the chunks that were evicted from them.
unfoldable pub fan_out : Chunk → Dict Queue → Dict Queue
fan_out d [] = []
fan_out d ((cid, q) ∷ qs) = (cid, put_dropping d q) ∷ fan_out d qs

unfoldable pub evicted : Dict Queue → ℕ
evicted [] = 0
evicted ((cid, q) ∷ qs) = (if overflows q then 1 else 0) + evicted qs

-- Whether the shared queue takes the chunk: `None` counts as `True`.
abbrev pub is_false : Option Bool → Bool
is_false none = false
is_false (some true) = false
is_false (some false) = true

abbrev pub should_enqueue : Option Bool → Wrapper → Bool
should_enqueue require_clients w =
    is_false require_clients
    || ltb 0 (length w.connected_clients)
    || ltb 0 w.federation_viewer_count

-- `handle_incoming_port_data`, on one wrapper.
unfoldable pub receive_chunk : Option Bool → Chunk → Wrapper → Wrapper
receive_chunk require_clients d w =
    let shared = should_enqueue require_clients w in
    record w {
      scrollback = retain w.scrollback_size w.scrollback d;
      client_queues = fan_out d w.client_queues;
      data_queue = (if shared then put_dropping d w.data_queue else w.data_queue);
      dropped_chunks =
          w.dropped_chunks
          + evicted w.client_queues
          + (if shared then if overflows w.data_queue then 1 else 0 else 0);
    }

-- `get_port_data`, on one wrapper: the chunk, or none from an empty queue.
unfoldable pub take_chunk : Wrapper → Option Chunk × Wrapper
take_chunk w = ((get_nowait w.data_queue).0, record w { data_queue = (get_nowait w.data_queue).1 })

-- A client's forwarding loop takes the next chunk of the client's own queue.
abbrev pub take_from : Text → Wrapper → Option Queue → Option Chunk × Wrapper
take_from cid w none = (none, w)
take_from cid w (some q) =
    ((get_nowait q).0, record w { client_queues = insert cid (get_nowait q).1 w.client_queues })

unfoldable pub take_own : Text → Wrapper → Option Chunk × Wrapper
take_own cid w = take_from cid w (lookup cid w.client_queues)

-- `add_federation_buffering_hold`, on one wrapper.
unfoldable pub add_hold : Wrapper → Wrapper
add_hold w = record w { federation_viewer_count = w.federation_viewer_count + 1 }

-- `remove_federation_buffering_hold`, on one wrapper: the last hold drains the shared queue.
unfoldable pub remove_hold : Wrapper → Wrapper
remove_hold w = record w {
  federation_viewer_count = w.federation_viewer_count - 1;
  data_queue = (if ltb 0 (w.federation_viewer_count - 1) then w.data_queue else []);
}

-- The ports by name. `find_port` is the wrapper that an adapter's port of the name gets.
module _ (find_port : Text → Option Wrapper) where
  -- `_ensure_unified_wrapper`
  unfoldable pub ensure_unified_wrapper : Text → Wrappers → Wrappers
  ensure_unified_wrapper name ps =
      if has_key name ps
      then ps
      else elim (find_port name) [ none ↦ ps | some w ↦ insert name w ps ]

  abbrev pub read_port : Text → Wrappers → Option Wrapper → Option Chunk × Wrappers
  read_port name ps none = (none, ps)
  read_port name ps (some w) = ((take_chunk w).0, insert name (take_chunk w).1 ps)

  unfoldable pub get_port_data : Text → Wrappers → Option Chunk × Wrappers
  get_port_data name ps =
      read_port name (ensure_unified_wrapper name ps) (lookup name (ensure_unified_wrapper name ps))

  unfoldable pub add_federation_buffering_hold : Text → Wrappers → Wrappers
  add_federation_buffering_hold name ps = elim (lookup name (ensure_unified_wrapper name ps)) [
    | none ↦ ensure_unified_wrapper name ps
    | some w ↦ insert name (add_hold w) (ensure_unified_wrapper name ps)
  ]

unfoldable pub remove_federation_buffering_hold : Text → Wrappers → Wrappers
remove_federation_buffering_hold name ps = elim (lookup name ps) [
  | none ↦ ps
  | some w ↦ insert name (remove_hold w) ps
]

unfoldable pub handle_incoming_port_data : Text → Chunk → Option Bool → Wrappers → Bool × Wrappers
handle_incoming_port_data name d require_clients ps = elim (lookup name ps) [
  | none ↦ (false, ps)
  | some w ↦ (true, insert name (receive_chunk require_clients d w) ps)
]

abbrev pub ring_of : Option Wrapper → Text
ring_of none = []
ring_of (some w) = w.scrollback

unfoldable pub get_scrollback : Text → Wrappers → Text
get_scrollback name ps = ring_of (lookup name ps)
