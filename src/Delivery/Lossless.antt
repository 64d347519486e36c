-- ===== src/Delivery/Lossless.antt =====
-- openmux/server/port_manager.py: what a client reads of a port while nothing is evicted.
use openmux_server.Base.{
  joined, ◌≤◌, ◌≡◌, refl, sym, subst, ap, ◌∙◌, Bool, true, false, Option, none, some, List, [], ◌∷◌,
  ◌++◌, Text, All, any, same, same_iff, same_refl, Bool-cases, Option-cases, inl, inr, append-nil,
  arith, if◌then◌else◌,
}
use openmux_server.Dict.{Dict, lookup, has_key, lookup-insert, lookup-erase}
use openmux_server.Delivery.{
  Wrapper, receive_chunk, take_chunk, take_own, attach_client, detach_client, add_hold, remove_hold,
  fan_out, evicted, queue_or_new, without_first,
}
use openmux_server.Delivery.Events.{
  Event, arrives, attaches, detaches, forwards, reads, holds, releases, happen, happen_all,
  arrivals,
}
use openmux_server.Delivery.Queues.{Chunk, Queue, get_nowait, put_dropping-room, overflows}

-- The chunks of an chunks_of.
abbrev pub chunks_of : Option Chunk → List Chunk
chunks_of none = []
chunks_of (some d) = d ∷ []

pub get_nowait-all : (q : Queue) → chunks_of (get_nowait q).0 ++ (get_nowait q).1 ≡ q
unfolding get_nowait
get_nowait-all [] = refl
get_nowait-all (d ∷ q) = refl

-- The chunks that a client's forwarding loop took.
abbrev forwarded_by : Text → Event → Wrapper → List Chunk
forwarded_by cid (arrives r d) w = []
forwarded_by cid (attaches c) w = []
forwarded_by cid (detaches c) w = []
forwarded_by cid (forwards c) w = if same c cid then chunks_of (take_own c w).0 else []
forwarded_by cid reads w = []
forwarded_by cid holds w = []
forwarded_by cid releases w = []

abbrev pub forwarded : Text → List Event → Wrapper → List Chunk
forwarded cid [] w = []
forwarded cid (e ∷ es) w = forwarded_by cid e w ++ forwarded cid es (happen e w)

-- The client stays: it is not the one that detaches.
abbrev Stays : Text → Event → Type 0
Stays cid (arrives r d) = Unit
Stays cid (attaches c) = Unit
Stays cid (detaches c) = same c cid ≡ false
Stays cid (forwards c) = Unit
Stays cid reads = Unit
Stays cid holds = Unit
Stays cid releases = Unit

-- The client is on the port, and these chunks wait in its queue.
unfoldable pub Waits : Text → Queue → Wrapper → Type 0
Waits cid q w = (any (same cid) w.connected_clients ≡ true) × (lookup cid w.client_queues ≡ some q)

lookup-fan_out :
    (cid : Text) (d : Chunk) (q : Queue) (qs : Dict Queue)
    → evicted qs ≡ 0
    → lookup cid qs ≡ some q
    → lookup cid (fan_out d qs) ≡ some (q ++ d ∷ [])
unfolding lookup fan_out evicted
lookup-fan_out cid d q [] z e = cc
lookup-fan_out cid d q ((c, p) ∷ qs) z e =
    let h : overflows p ≡ false = ground arith in
    let k : evicted qs ≡ 0 = ground arith in
    elim (Bool-cases (same c cid)) [
      | inl s ↦ ground (arith, s, e, put_dropping-room d p h)
      | inr s ↦ ground (arith, s, lookup-fan_out cid d q qs k (rw s at e))
    ]

any-append :
    (cid c : Text) (cs : List Text)
    → any (same cid) cs ≡ true
    → any (same cid) (cs ++ c ∷ []) ≡ true
any-append cid c [] h = cc
any-append cid c (b ∷ cs) h = ground (arith, any-append cid c cs)

any-without_first :
    (cid c : Text) (cs : List Text)
    → same c cid ≡ false
    → any (same cid) cs ≡ true
    → any (same cid) (without_first c cs) ≡ true
any-without_first cid c [] n h = cc
any-without_first cid c (b ∷ cs) n h =
    ground (arith, any-without_first cid c cs n, same_iff c b, same_iff cid b, same_iff c cid)

has_key-some :
    (cid : Text) (q : Queue) (qs : Dict Queue) → lookup cid qs ≡ some q → has_key cid qs ≡ true
has_key-some cid q qs e = ap (λ r. elim r as (λ x. Bool) [ none ↦ false | some _ ↦ true ]) e

lookup-queue_or_new :
    (c cid : Text) (q : Queue) (qs : Dict Queue)
    → same c cid ≡ false
    → lookup cid qs ≡ some q
    → lookup cid (queue_or_new c qs) ≡ some q
lookup-queue_or_new c cid q qs n e = elim (Bool-cases (has_key c qs)) [
  | inl h ↦ rw h e
  | inr h ↦ rw (h, lookup-insert c cid [] qs, n) e
]

module _ (cid : Text) where
  receive_chunk-Waits :
      (r : Option Bool) (d : Chunk) (q : Queue) (w : Wrapper)
      → (receive_chunk r d w).dropped_chunks ≡ w.dropped_chunks
      → Waits cid q w
      → Waits cid (q ++ d ∷ []) (receive_chunk r d w)
  unfolding receive_chunk Waits
  receive_chunk-Waits r d q w z h =
      (h.0, lookup-fan_out cid d q w.client_queues (omega (arith, z)) h.1)

  attach_client-Waits :
      (c : Text) (q : Queue) (w : Wrapper) → Waits cid q w → Waits cid q (attach_client c w)
  unfolding attach_client Waits
  attach_client-Waits c q w h = elim (Bool-cases (same c cid)) [
    | inl s ↦
        subst (λ i. Waits cid q (attach_client i w)) (sym ((same_iff c cid).0 s))
          (rw h.0 (h.0, rw (has_key-some cid q w.client_queues h.1) h.1))
    | inr n ↦ elim (Bool-cases (any (same c) w.connected_clients)) [
      | inl e ↦ rw e (h.0, lookup-queue_or_new c cid q w.client_queues n h.1)
      | inr e ↦ rw e (
        any-append cid c w.connected_clients h.0,
        rw (lookup-insert c cid [] w.client_queues, n) h.1,
      )
    ]
  ]

  detach_client-Waits :
      (c : Text) (q : Queue) (w : Wrapper)
      → same c cid ≡ false
      → Waits cid q w
      → Waits cid q (detach_client c w)
  unfolding detach_client Waits
  detach_client-Waits c q w n h = elim (Bool-cases (any (same c) w.connected_clients)) [
    | inl e ↦ rw e (
      any-without_first cid c w.connected_clients n h.0,
      rw (lookup-erase c cid w.client_queues, n) h.1,
    )
    | inr e ↦ rw e h
  ]

  take_own-Waits :
      (c : Text) (q : Queue) (w : Wrapper)
      → Waits cid q w
      → Waits cid (if same c cid then (get_nowait q).1 else q) (take_own c w).1
  unfolding take_own Waits
  take_own-Waits c q w h = elim (Bool-cases (same c cid)) [
    | inl s ↦
        subst (λ i. Waits cid (if same i cid then (get_nowait q).1 else q) (take_own i w).1)
          (sym ((same_iff c cid).0 s))
          (rw (h.1, same_refl cid)
            (h.0, rw (lookup-insert cid cid (get_nowait q).1 w.client_queues, same_refl cid) refl))
    | inr n ↦ rw n elim (Option-cases (lookup c w.client_queues)) [
      | inl e ↦ rw e h
      | inr (p, e) ↦ rw e (h.0, rw (lookup-insert c cid (get_nowait p).1 w.client_queues, n) h.1)
    ]
  ]

  take_own-chunks_of :
      (c : Text) (q : Queue) (w : Wrapper)
      → Waits cid q w
      → (if same c cid then chunks_of (take_own c w).0 else [])
          ++ (if same c cid then (get_nowait q).1 else q)
        ≡ q
  unfolding take_own Waits
  take_own-chunks_of c q w h = elim (Bool-cases (same c cid)) [
    | inl s ↦
        subst
          (λ i.
            (if same i cid then chunks_of (take_own i w).0 else [])
              ++ (if same i cid then (get_nowait q).1 else q)
            ≡ q)
          (sym ((same_iff c cid).0 s)) (rw (h.1, same_refl cid) (get_nowait-all q))
    | inr n ↦ rw n refl
  ]

  -- What the client took of an event, with what then waits, is what waited and what arrived.
  unfoldable Kept : Queue → Event → Wrapper → Type 0
  Kept q e w =
      (p : Queue) × Waits cid p (happen e w) × (forwarded_by cid e w ++ p ≡ q ++ arrivals (e ∷ []))

  happen-Kept :
      (e : Event) (q : Queue) (w : Wrapper)
      → Stays cid e
      → (happen e w).dropped_chunks ≡ w.dropped_chunks
      → Waits cid q w
      → Kept q e w
  unfolding take_chunk add_hold remove_hold Waits Kept
  happen-Kept (arrives r d) q w n z h = (q ++ d ∷ [], receive_chunk-Waits r d q w z h, refl)
  happen-Kept (attaches c) q w n z h = (q, attach_client-Waits c q w h, sym (append-nil q))
  happen-Kept (detaches c) q w n z h = (q, detach_client-Waits c q w n h, sym (append-nil q))
  happen-Kept (forwards c) q w n z h = (
    (if same c cid then (get_nowait q).1 else q),
    take_own-Waits c q w h,
    take_own-chunks_of c q w h ∙ sym (append-nil q),
  )
  happen-Kept reads q w n z h = (q, h, sym (append-nil q))
  happen-Kept holds q w n z h = (q, h, sym (append-nil q))
  happen-Kept releases q w n z h = (q, h, sym (append-nil q))

take_own-dropped : (c : Text) (w : Wrapper) → (take_own c w).1.dropped_chunks ≡ w.dropped_chunks
unfolding take_own
take_own-dropped c w = elim (Option-cases (lookup c w.client_queues)) [
  | inl e ↦ rw e refl
  | inr (q, e) ↦ rw e refl
]

pub dropped_le : (e : Event) (w : Wrapper) → w.dropped_chunks ≤ (happen e w).dropped_chunks
unfolding receive_chunk attach_client detach_client take_chunk add_hold remove_hold
dropped_le (arrives r d) w = omega arith
dropped_le (attaches c) w = elim (Bool-cases (any (same c) w.connected_clients)) [
  | inl e ↦ rw e (omega arith)
  | inr e ↦ rw e (omega arith)
]
dropped_le (detaches c) w = elim (Bool-cases (any (same c) w.connected_clients)) [
  | inl e ↦ rw e (omega arith)
  | inr e ↦ rw e (omega arith)
]
dropped_le (forwards c) w = omega (arith, take_own-dropped c w)
dropped_le reads w = omega arith
dropped_le holds w = omega arith
dropped_le releases w = omega arith

pub dropped_all_le :
    (es : List Event) (w : Wrapper) → w.dropped_chunks ≤ (happen_all es w).dropped_chunks
dropped_all_le [] w = omega arith
dropped_all_le (e ∷ es) w = omega (arith, dropped_le e w, dropped_all_le es (happen e w))

pub arrivals-cons :
    (e : Event) (es : List Event) → arrivals (e ∷ es) ≡ arrivals (e ∷ []) ++ arrivals es
arrivals-cons (arrives r d) es = refl
arrivals-cons (attaches c) es = refl
arrivals-cons (detaches c) es = refl
arrivals-cons (forwards c) es = refl
arrivals-cons reads es = refl
arrivals-cons holds es = refl
arrivals-cons releases es = refl

-- For a client that is on the port and stays, as long as no chunk is evicted from any queue of the
-- port: the chunks that its forwarding loop takes, followed by those that wait in its queue at the
-- end, are those that waited at the start and those that arrived since, in order, once each.
pub forwarded-arrivals :
    (es : List Event) (cid : Text) (q : Queue) (w : Wrapper)
    → All (Stays cid) es
    → (happen_all es w).dropped_chunks ≡ w.dropped_chunks
    → Waits cid q w
    → (p : Queue) × Waits cid p (happen_all es w) × (forwarded cid es w ++ p ≡ q ++ arrivals es)
unfolding Kept
forwarded-arrivals [] cid q w n z h = (q, h, sym (append-nil q))
forwarded-arrivals (e ∷ es) cid q w n z h =
    let z₁ : (happen e w).dropped_chunks ≡ w.dropped_chunks =
      omega (arith, z, dropped_le e w, dropped_all_le es (happen e w)) in
    let k = happen-Kept cid e q w n.0 z₁ h in
    let r = forwarded-arrivals es cid k.0 (happen e w) n.1 (omega (arith, z, z₁)) k.1 in
    (
      r.0,
      r.1,
      rw (arrivals-cons e es) (
          joined (forwarded_by cid e w) (forwarded cid es (happen e w)) k.0 r.0 q
            (arrivals (e ∷ [])) (arrivals es) k.2 r.2),
    )
