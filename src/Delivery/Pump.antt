-- ===== src/Delivery/Pump.antt =====
-- openmux/server/adapters/muxcon.py: the pump that relays a local port to a federation peer, and
-- the scrollback that it sends first.
use openmux_server.Base.{
  ℕ, zero, suc, ◌+◌, Bool, Option, none, some, List, [], ◌∷◌, ◌++◌, Text, length, take, drop,
  if◌then◌else◌,
}
use openmux_server.Delivery.{Wrapper, take_chunk, add_hold}
use openmux_server.Delivery.Events.{
  Event, arrives, attaches, detaches, forwards, reads, holds, releases, happen,
}
use openmux_server.Delivery.Queues.{Chunk}
use openmux_server.Delivery.Lossless.{chunks_of}

abbrev pub frame_size : ℕ
frame_size = 16384

-- `_seed_federation_stream`: the ring in frames of a size. `sent` tells whether the frame at an
-- offset goes out: the adapter is not stopping, and the send neither raises nor finds no path.
-- Each round sends a byte at least, so the length of the ring is fuel enough.
unfoldable pub seed_frames : (ℕ → Bool) → ℕ → ℕ → ℕ → Text → List Chunk
seed_frames sent size zero offset seed = []
seed_frames sent size (suc f) offset [] = []
seed_frames sent size (suc f) offset (c ∷ seed) =
    let rest = seed_frames sent size f (offset + size) (drop size (c ∷ seed)) in
    if sent offset then take size (c ∷ seed) ∷ rest else []

unfoldable pub seed_federation_stream : (ℕ → Bool) → Wrapper → List Chunk
seed_federation_stream sent w = seed_frames sent frame_size (length w.scrollback) 0 w.scrollback

-- `_pump_next_chunk`: an empty chunk is dropped.
abbrev pub not_empty : Option Chunk → Option Chunk
not_empty none = none
not_empty (some []) = none
not_empty (some (c ∷ d)) = some (c ∷ d)

unfoldable pub pump_next_chunk : Wrapper → Option Chunk × Wrapper
pump_next_chunk w = (not_empty (take_chunk w).0, (take_chunk w).1)

-- The chunks that the loop of `_pump_local_port_to_remote` takes, where each read of the shared
-- queue is the loop's.
abbrev pub taken_by : Event → Wrapper → List Chunk
taken_by (arrives r d) w = []
taken_by (attaches c) w = []
taken_by (detaches c) w = []
taken_by (forwards c) w = []
taken_by reads w = chunks_of (pump_next_chunk w).0
taken_by holds w = []
taken_by releases w = []

-- The loop neither looks at what `_send_data_mpath` answers nor keeps a chunk whose send fails or
-- raises. `live` tells whether the send of the chunk of a number succeeds, from `n` on.
unfoldable pub live_send : (ℕ → Bool) → ℕ → List Chunk → List Chunk
live_send live n [] = []
live_send live n (d ∷ ds) =
    let rest = live_send live (n + 1) ds in if live n then d ∷ rest else rest

unfoldable pub taken_all : List Event → Wrapper → List Chunk
taken_all [] w = []
taken_all (e ∷ es) w = taken_by e w ++ taken_all es (happen e w)

unfoldable pub relayed : (ℕ → Bool) → List Event → Wrapper → List Chunk
unfolding live_send taken_all
relayed live es w = live_send live 0 (taken_all es w)

-- The pump from its start: the hold and the seed in one tick, and then the loop.
unfoldable pub pump_local_port_to_remote :
    (ℕ → Bool) → (ℕ → Bool) → List Event → Wrapper → List Chunk
unfolding relayed
pump_local_port_to_remote sent live es w =
    seed_federation_stream sent (add_hold w) ++ relayed live es (add_hold w)

-- No hold of the port is released.
abbrev pub Held : Event → Type 0
Held (arrives r d) = Unit
Held (attaches c) = Unit
Held (detaches c) = Unit
Held (forwards c) = Unit
Held reads = Unit
Held holds = Unit
Held releases = ⊥
