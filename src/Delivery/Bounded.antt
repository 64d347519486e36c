-- ===== src/Delivery/Bounded.antt =====
-- openmux/server/port_manager.py: no queue of a port and no ring grows past its bound.
use openmux_server.Base.{
  ◌≤◌, ◌≡◌, Bool, Option, some, List, [], ◌∷◌, Text, All, length, arith, same, any, Bool-cases,
  Option-cases, inl, inr,
}
use openmux_server.Dict.{Dict, lookup, insert, erase, has_key}
use openmux_server.Delivery.{
  Wrapper, receive_chunk, take_chunk, take_own, attach_client, detach_client, add_hold, remove_hold,
  fan_out, queue_or_new, should_enqueue,
}
use openmux_server.Delivery.Events.{
  Event, arrives, attaches, detaches, forwards, reads, holds, releases, happen, happen_all,
}
use openmux_server.Delivery.Queues.{Queue, Chunk, get_nowait, put_dropping-length_le}
use openmux_server.Delivery.Ring.{length-retain_le}

unfoldable pub FitQueue : Text × Queue → Type 0
FitQueue p = length p.1 ≤ 100

pub record IsBounded (w : Wrapper) : Type 0 where
  pub own : All FitQueue w.client_queues
  pub shared : length w.data_queue ≤ 100
  pub ring : length w.scrollback ≤ w.scrollback_size

fan_out-fit : (d : Chunk) (qs : Dict Queue) → All FitQueue qs → All FitQueue (fan_out d qs)
unfolding fan_out FitQueue
fan_out-fit d [] h = tt
fan_out-fit d ((cid, q) ∷ qs) h = (put_dropping-length_le d q h.0, fan_out-fit d qs h.1)

insert-fit :
    (cid : Text) (q : Queue) (qs : Dict Queue)
    → length q ≤ 100
    → All FitQueue qs
    → All FitQueue (insert cid q qs)
unfolding insert FitQueue
insert-fit cid q [] k h = (k, tt)
insert-fit cid q ((c, p) ∷ qs) k h = elim (Bool-cases (same c cid)) [
  | inl e ↦ rw e (k, h.1)
  | inr e ↦ rw e (h.0, insert-fit cid q qs k h.1)
]

erase-fit : (cid : Text) (qs : Dict Queue) → All FitQueue qs → All FitQueue (erase cid qs)
unfolding erase FitQueue
erase-fit cid [] h = tt
erase-fit cid ((c, p) ∷ qs) h = elim (Bool-cases (same c cid)) [
  | inl e ↦ rw e (erase-fit cid qs h.1)
  | inr e ↦ rw e (h.0, erase-fit cid qs h.1)
]

lookup-fit :
    (cid : Text) (q : Queue) (qs : Dict Queue)
    → All FitQueue qs
    → lookup cid qs ≡ some q
    → length q ≤ 100
unfolding lookup FitQueue
lookup-fit cid q [] h e = cc
lookup-fit cid q ((c, p) ∷ qs) h e = elim (Bool-cases (same c cid)) [
  | inl s ↦ ground (arith, s, h.0, e)
  | inr s ↦ lookup-fit cid q qs h.1 (rw s at e)
]

get_nowait-length_le : (q : Queue) → length (get_nowait q).1 ≤ length q
unfolding get_nowait
get_nowait-length_le [] = omega arith
get_nowait-length_le (d ∷ q) = omega arith

zero_fits : length {A = Chunk} [] ≤ 100
zero_fits = omega arith

queue_or_new-fit :
    (cid : Text) (qs : Dict Queue) → All FitQueue qs → All FitQueue (queue_or_new cid qs)
queue_or_new-fit cid qs h = elim (Bool-cases (has_key cid qs)) [
  | inl e ↦ rw e h
  | inr e ↦ rw e (insert-fit cid [] qs zero_fits h)
]

receive_chunk-IsBounded :
    (r : Option Bool) (d : Chunk) (w : Wrapper) → IsBounded w → IsBounded (receive_chunk r d w)
unfolding receive_chunk
receive_chunk-IsBounded r d w h = record {
  own = fan_out-fit d w.client_queues h.own;
  shared = elim (Bool-cases (should_enqueue r w)) [
    | inl e ↦ rw e (put_dropping-length_le d w.data_queue h.shared)
    | inr e ↦ rw e h.shared
  ];
  ring = length-retain_le w.scrollback_size w.scrollback d h.ring;
}

attach_client-IsBounded : (cid : Text) (w : Wrapper) → IsBounded w → IsBounded (attach_client cid w)
unfolding attach_client
attach_client-IsBounded cid w h = elim (Bool-cases (any (same cid) w.connected_clients)) [
  | inl e ↦
      rw e record {
        own = queue_or_new-fit cid w.client_queues h.own;
        shared = h.shared;
        ring = h.ring;
      }
  | inr e ↦ rw e record {
    own = insert-fit cid [] w.client_queues zero_fits h.own;
    shared = h.shared;
    ring = h.ring;
  }
]

detach_client-IsBounded : (cid : Text) (w : Wrapper) → IsBounded w → IsBounded (detach_client cid w)
unfolding detach_client
detach_client-IsBounded cid w h = elim (Bool-cases (any (same cid) w.connected_clients)) [
  | inl e ↦
      rw e record { own = erase-fit cid w.client_queues h.own; shared = h.shared; ring = h.ring }
  | inr e ↦ rw e h
]

take_own-IsBounded : (cid : Text) (w : Wrapper) → IsBounded w → IsBounded (take_own cid w).1
unfolding take_own
take_own-IsBounded cid w h = elim (Option-cases (lookup cid w.client_queues)) [
  | inl e ↦ rw e h
  | inr (q, e) ↦ rw e record {
    own =
        insert-fit cid (get_nowait q).1 w.client_queues
          (omega (arith, get_nowait-length_le q, lookup-fit cid q w.client_queues h.own e)) h.own;
    shared = h.shared;
    ring = h.ring;
  }
]

happen-IsBounded : (e : Event) (w : Wrapper) → IsBounded w → IsBounded (happen e w)
unfolding take_chunk add_hold remove_hold
happen-IsBounded (arrives r d) w h = receive_chunk-IsBounded r d w h
happen-IsBounded (attaches cid) w h = attach_client-IsBounded cid w h
happen-IsBounded (detaches cid) w h = detach_client-IsBounded cid w h
happen-IsBounded (forwards cid) w h = take_own-IsBounded cid w h
happen-IsBounded reads w h = record {
  own = h.own;
  shared = omega (arith, get_nowait-length_le w.data_queue, h.shared);
  ring = h.ring;
}
happen-IsBounded holds w h = record { own = h.own; shared = h.shared; ring = h.ring }
happen-IsBounded releases w h = record {
  own = h.own;
  shared = ground (arith, h.shared);
  ring = h.ring;
}

-- Whatever happens to a port in any order, each client's queue and the shared queue keep at most
-- 100 chunks, and the scrollback at most its size in bytes, when this held at the start.
pub happen_all-IsBounded :
    (es : List Event) (w : Wrapper) → IsBounded w → IsBounded (happen_all es w)
happen_all-IsBounded [] w h = h
happen_all-IsBounded (e ∷ es) w h = happen_all-IsBounded es (happen e w) (happen-IsBounded e w h)
