-- ===== src/Delivery/Events.antt =====
-- openmux/server/port_manager.py: what happens to the wrapper of one port, one event after another.
use openmux_server.Base.{Bool, Option, List, [], ◌∷◌, Text}
use openmux_server.Delivery.{
  Wrapper, receive_chunk, take_chunk, take_own, attach_client, detach_client, add_hold, remove_hold,
}
use openmux_server.Delivery.Queues.{Chunk}

pub data Event : Type 0 where
  arrives : Option Bool → Chunk → Event
  attaches : Text → Event
  detaches : Text → Event
  forwards : Text → Event
  reads : Event
  holds : Event
  releases : Event

abbrev pub happen : Event → Wrapper → Wrapper
happen (arrives r d) w = receive_chunk r d w
happen (attaches cid) w = attach_client cid w
happen (detaches cid) w = detach_client cid w
happen (forwards cid) w = (take_own cid w).1
happen reads w = (take_chunk w).1
happen holds w = add_hold w
happen releases w = remove_hold w

abbrev pub happen_all : List Event → Wrapper → Wrapper
happen_all [] w = w
happen_all (e ∷ es) w = happen_all es (happen e w)

-- The chunks that the port sent, in order.
abbrev pub arrivals : List Event → List Chunk
arrivals [] = []
arrivals (arrives r d ∷ es) = d ∷ arrivals es
arrivals (attaches cid ∷ es) = arrivals es
arrivals (detaches cid ∷ es) = arrivals es
arrivals (forwards cid ∷ es) = arrivals es
arrivals (reads ∷ es) = arrivals es
arrivals (holds ∷ es) = arrivals es
arrivals (releases ∷ es) = arrivals es
