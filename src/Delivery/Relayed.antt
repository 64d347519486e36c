-- ===== src/Delivery/Relayed.antt =====
-- openmux/server/adapters/muxcon.py: the pump that relays a local port to a federation peer, and
-- what reaches the peer.
use openmux_server.Base.{
  concat, take-drop, joined, ℕ, zero, suc, ◌+◌, ◌≤◌, ◌<◌, ◌≡◌, refl, sym, ap, ◌∙◌, Bool, true,
  Option, none, some, List, [], ◌∷◌, ◌++◌, Text, All, any, same, Bool-cases, Option-cases, inl, inr,
  append_assoc, append-nil, arith, length, drop, length-drop,
}
use openmux_server.Dict.{lookup}
use openmux_server.Delivery.{
  Wrapper, receive_chunk, take_chunk, take_own, attach_client, detach_client, add_hold,
  should_enqueue,
}
use openmux_server.Delivery.Events.{
  Event, arrives, attaches, detaches, forwards, reads, holds, releases, happen, happen_all,
  arrivals,
}
use openmux_server.Delivery.Queues.{Chunk, get_nowait, put_dropping-room, overflows}
use openmux_server.Delivery.Lossless.{
  chunks_of, get_nowait-all, dropped_le, dropped_all_le, arrivals-cons,
}
use openmux_server.Delivery.Pump.{
  seed_frames, seed_federation_stream, not_empty, pump_next_chunk, taken_by, taken_all, live_send,
  relayed, pump_local_port_to_remote, Held,
}

concat-seed_frames :
    (sent : ℕ → Bool) (n f offset : ℕ) (s : Text)
    → ((k : ℕ) → sent k ≡ true)
    → length s ≤ f
    → concat (seed_frames sent (suc n) f offset s) ≡ s
unfolding seed_frames
concat-seed_frames sent n zero offset [] h k = refl
concat-seed_frames sent n zero offset (c ∷ s) h k = ground arith
concat-seed_frames sent n (suc f) offset [] h k = refl
concat-seed_frames sent n (suc f) offset (c ∷ s) h k =
    rw (h offset) rw
      (concat-seed_frames sent n f (offset + suc n) (drop n s) h
        (omega (arith, k, length-drop n s)))
      (ap (λ t. c ∷ t) (take-drop n s))

concat-append : (p q : List Chunk) → concat (p ++ q) ≡ concat p ++ concat q
concat-append [] q = refl
concat-append (d ∷ p) q = rw (concat-append p q) (sym (append_assoc d (concat p) (concat q)))

concat-not_empty : (o : Option Chunk) → concat (chunks_of (not_empty o)) ≡ concat (chunks_of o)
concat-not_empty none = refl
concat-not_empty (some []) = refl
concat-not_empty (some (c ∷ d)) = refl

-- One event while the hold lasts: the bytes relayed and left in the shared queue.
receive_chunk-shared :
    (r : Option Bool) (d : Chunk) (w : Wrapper)
    → should_enqueue r w ≡ true
    → (receive_chunk r d w).dropped_chunks ≡ w.dropped_chunks
    → (receive_chunk r d w).data_queue ≡ w.data_queue ++ d ∷ []
unfolding receive_chunk
receive_chunk-shared r d w s z = elim (Bool-cases (overflows w.data_queue)) [
  | inl e ↦ ground (arith, s, e, z)
  | inr e ↦ rw s (put_dropping-room d w.data_queue e)
]

-- The events that leave the shared queue and the holds alone.
abbrev Quiet : Wrapper → Wrapper → Type 0
Quiet v w = (v.data_queue ≡ w.data_queue) × (v.federation_viewer_count ≡ w.federation_viewer_count)

attach_client-Quiet : (c : Text) (w : Wrapper) → Quiet (attach_client c w) w
unfolding attach_client
attach_client-Quiet c w = elim (Bool-cases (any (same c) w.connected_clients)) [
  | inl e ↦ rw e (refl, refl)
  | inr e ↦ rw e (refl, refl)
]

detach_client-Quiet : (c : Text) (w : Wrapper) → Quiet (detach_client c w) w
unfolding detach_client
detach_client-Quiet c w = elim (Bool-cases (any (same c) w.connected_clients)) [
  | inl e ↦ rw e (refl, refl)
  | inr e ↦ rw e (refl, refl)
]

take_own-Quiet : (c : Text) (w : Wrapper) → Quiet (take_own c w).1 w
unfolding take_own
take_own-Quiet c w = elim (Option-cases (lookup c w.client_queues)) [
  | inl e ↦ rw e (refl, refl)
  | inr (q, e) ↦ rw e (refl, refl)
]

-- What the pump relays of an event, with what is then queued, is what was queued and what arrived.
unfoldable Relays : Event → Wrapper → Type 0
Relays e w =
    (0 < (happen e w).federation_viewer_count)
    × (concat (taken_by e w) ++ concat (happen e w).data_queue
        ≡ concat w.data_queue ++ concat (arrivals (e ∷ [])))

Quiet-Relays :
    (v w : Wrapper)
    → Quiet v w
    → 0 < w.federation_viewer_count
    → (0 < v.federation_viewer_count) × (concat v.data_queue ≡ concat w.data_queue ++ [])
Quiet-Relays v w h k =
    (omega (arith, h.1, k), ap concat h.0 ∙ sym (append-nil (concat w.data_queue)))

reads-Relays : (w : Wrapper) → 0 < w.federation_viewer_count → Relays reads w
unfolding take_chunk Relays pump_next_chunk
reads-Relays w h = (
  h,
  rw (concat-not_empty (get_nowait w.data_queue).0) rw (append-nil (concat w.data_queue)) (
      sym (concat-append (chunks_of (get_nowait w.data_queue).0) (get_nowait w.data_queue).1)
      ∙ ap concat (get_nowait-all w.data_queue)),
)

held_enqueues :
    (r : Option Bool) (w : Wrapper) → 0 < w.federation_viewer_count → should_enqueue r w ≡ true
held_enqueues r w h = ground arith

happen-Relays :
    (e : Event) (w : Wrapper)
    → Held e
    → (happen e w).dropped_chunks ≡ w.dropped_chunks
    → 0 < w.federation_viewer_count
    → Relays e w
unfolding Relays receive_chunk add_hold
happen-Relays (arrives r d) w n z h = (
  h,
  ap concat (receive_chunk-shared r d w (held_enqueues r w h) z)
      ∙ concat-append w.data_queue (d ∷ []),
)
happen-Relays (attaches c) w n z h = Quiet-Relays (attach_client c w) w (attach_client-Quiet c w) h
happen-Relays (detaches c) w n z h = Quiet-Relays (detach_client c w) w (detach_client-Quiet c w) h
happen-Relays (forwards c) w n z h = Quiet-Relays (take_own c w).1 w (take_own-Quiet c w) h
happen-Relays reads w n z h = reads-Relays w h
happen-Relays holds w n z h = (omega arith, sym (append-nil (concat w.data_queue)))
happen-Relays releases w n z h = elim n [ ]

taken_all-arrivals :
    (es : List Event) (w : Wrapper)
    → All Held es
    → (happen_all es w).dropped_chunks ≡ w.dropped_chunks
    → 0 < w.federation_viewer_count
    → concat (taken_all es w) ++ concat (happen_all es w).data_queue
      ≡ concat w.data_queue ++ concat (arrivals es)
unfolding Relays taken_all
taken_all-arrivals [] w n z h = sym (append-nil (concat w.data_queue))
taken_all-arrivals (e ∷ es) w n z h =
    let z₁ : (happen e w).dropped_chunks ≡ w.dropped_chunks =
      omega (arith, z, dropped_le e w, dropped_all_le es (happen e w)) in
    let k = happen-Relays e w n.0 z₁ h in
    let r = taken_all-arrivals es (happen e w) n.1 (omega (arith, z, z₁)) k.0 in
    rw (arrivals-cons e es, concat-append (arrivals (e ∷ [])) (arrivals es)) rw
      (concat-append (taken_by e w) (taken_all es (happen e w)))
      (joined (concat (taken_by e w)) (concat (taken_all es (happen e w)))
        (concat (happen e w).data_queue) (concat (happen_all es (happen e w)).data_queue)
        (concat w.data_queue) (concat (arrivals (e ∷ []))) (concat (arrivals es)) k.1 r)

live_send-all :
    (live : ℕ → Bool) (n : ℕ) (ds : List Chunk)
    → ((k : ℕ) → live k ≡ true)
    → live_send live n ds ≡ ds
unfolding live_send
live_send-all live n [] h = refl
live_send-all live n (d ∷ ds) h = rw (h n, live_send-all live (n + 1) ds h) refl

concat-seed_federation_stream :
    (sent : ℕ → Bool) (w : Wrapper)
    → ((k : ℕ) → sent k ≡ true)
    → concat (seed_federation_stream sent w) ≡ w.scrollback
unfolding seed_federation_stream
concat-seed_federation_stream sent w h =
    concat-seed_frames sent 16383 (length w.scrollback) 0 w.scrollback h (omega arith)

pub pump-arrivals :
    (sent live : ℕ → Bool) (es : List Event) (w : Wrapper)
    → ((k : ℕ) → sent k ≡ true)
    → ((k : ℕ) → live k ≡ true)
    → All Held es
    → (happen_all es (add_hold w)).dropped_chunks ≡ w.dropped_chunks
    → concat (pump_local_port_to_remote sent live es w)
        ++ concat (happen_all es (add_hold w)).data_queue
      ≡ w.scrollback ++ (concat w.data_queue ++ concat (arrivals es))
unfolding pump_local_port_to_remote add_hold relayed
pump-arrivals sent live es w s v n z =
    rw (live_send-all live 0 (taken_all es (add_hold w)) v) rw
      (concat-append (seed_federation_stream sent (add_hold w)) (taken_all es (add_hold w))) rw
      (concat-seed_federation_stream sent (add_hold w) s) rw
      (append_assoc w.scrollback (concat (taken_all es (add_hold w)))
        (concat (happen_all es (add_hold w)).data_queue))
      (ap (λ t. w.scrollback ++ t) (taken_all-arrivals es (add_hold w) n z (omega arith)))
