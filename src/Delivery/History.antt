-- ===== src/Delivery/History.antt =====
-- openmux/server/port_manager.py: the scrollback of a port against all the bytes it ever sent.
use openmux_server.Base.{
  concat, ℕ, ◌≡◌, refl, sym, Bool, Option, List, [], ◌∷◌, ◌++◌, Text, any, same, same_refl,
  Bool-cases, Option-cases, inl, inr, append_assoc, append-nil,
}
use openmux_server.Dict.{lookup, insert, lookup-insert}
use openmux_server.Delivery.{
  Wrapper, Wrappers, wrapper, get_scrollback, receive_chunk, take_chunk, take_own, attach_client,
  detach_client, add_hold, remove_hold,
}
use openmux_server.Delivery.Events.{
  Event, arrives, attaches, detaches, forwards, reads, holds, releases, happen_all, arrivals,
}
use openmux_server.Delivery.Queues.{Chunk}
use openmux_server.Delivery.Ring.{last, last-nil, retain-last}

-- The ring and its size, which only an arrival changes.
abbrev Same : Wrapper → Wrapper → Type 0
Same v w = (v.scrollback ≡ w.scrollback) × (v.scrollback_size ≡ w.scrollback_size)

attach_client-Same : (cid : Text) (w : Wrapper) → Same (attach_client cid w) w
unfolding attach_client
attach_client-Same cid w = elim (Bool-cases (any (same cid) w.connected_clients)) [
  | inl e ↦ rw e (refl, refl)
  | inr e ↦ rw e (refl, refl)
]

detach_client-Same : (cid : Text) (w : Wrapper) → Same (detach_client cid w) w
unfolding detach_client
detach_client-Same cid w = elim (Bool-cases (any (same cid) w.connected_clients)) [
  | inl e ↦ rw e (refl, refl)
  | inr e ↦ rw e (refl, refl)
]

take_own-Same : (cid : Text) (w : Wrapper) → Same (take_own cid w).1 w
unfolding take_own
take_own-Same cid w = elim (Option-cases (lookup cid w.client_queues)) [
  | inl e ↦ rw e (refl, refl)
  | inr (q, e) ↦ rw e (refl, refl)
]

module _ (size : ℕ) where
  -- The ring holds the last bytes of what was sent.
  Remembers : Text → Wrapper → Type 0
  Remembers s w = (w.scrollback_size ≡ size) × (w.scrollback ≡ last size s)

  Remembers-Same : (s : Text) (v w : Wrapper) → Same v w → Remembers s w → Remembers s v
  unfolding Remembers
  Remembers-Same s v w e h = (cc, cc)

  receive_chunk-Remembers :
      (r : Option Bool) (d : Chunk) (s : Text) (w : Wrapper)
      → Remembers s w
      → Remembers (s ++ d) (receive_chunk r d w)
  unfolding receive_chunk Remembers
  receive_chunk-Remembers r d s w h = (h.0, rw (h.0, h.1) (retain-last size s d))

  happen_all-Remembers :
      (es : List Event) (s : Text) (w : Wrapper)
      → Remembers s w
      → Remembers (s ++ concat (arrivals es)) (happen_all es w)
  unfolding take_chunk add_hold remove_hold Remembers
  happen_all-Remembers [] s w h = rw (append-nil s) h
  happen_all-Remembers (arrives r d ∷ es) s w h =
      rw (sym (append_assoc s d (concat (arrivals es))))
        (happen_all-Remembers es (s ++ d) (receive_chunk r d w) (receive_chunk-Remembers r d s w h))
  happen_all-Remembers (attaches cid ∷ es) s w h =
      happen_all-Remembers es s (attach_client cid w)
        (Remembers-Same s (attach_client cid w) w (attach_client-Same cid w) h)
  happen_all-Remembers (detaches cid ∷ es) s w h =
      happen_all-Remembers es s (detach_client cid w)
        (Remembers-Same s (detach_client cid w) w (detach_client-Same cid w) h)
  happen_all-Remembers (forwards cid ∷ es) s w h =
      happen_all-Remembers es s (take_own cid w).1
        (Remembers-Same s (take_own cid w).1 w (take_own-Same cid w) h)
  happen_all-Remembers (reads ∷ es) s w h = happen_all-Remembers es s (take_chunk w).1 h
  happen_all-Remembers (holds ∷ es) s w h = happen_all-Remembers es s (add_hold w) h
  happen_all-Remembers (releases ∷ es) s w h = happen_all-Remembers es s (remove_hold w) h

pub scrollback-last :
    (es : List Event) (size : ℕ)
    → (happen_all es (wrapper size)).scrollback ≡ last size (concat (arrivals es))
unfolding Remembers
scrollback-last es size =
    (happen_all-Remembers size es [] (wrapper size) (refl, sym (last-nil size))).1

-- Whatever happens to a fresh port in any order, `get_scrollback` gives the last bytes of all that
-- the port sent since it was made, as many as its scrollback size, and none with the size 0.
pub get_scrollback-last :
    (es : List Event) (size : ℕ) (name : Text) (ps : Wrappers)
    → get_scrollback name (insert name (happen_all es (wrapper size)) ps)
      ≡ last size (concat (arrivals es))
unfolding get_scrollback
get_scrollback-last es size name ps =
    rw (lookup-insert name name (happen_all es (wrapper size)) ps, same_refl name)
      (scrollback-last es size)
