-- ===== src/Delivery/Repeats.antt =====
-- openmux/server/adapters/muxcon.py: a pump that starts on a port whose clients have left.
use openmux_server.Base.{
  concat, ℕ, zero, suc, ◌+◌, ◌-◌, ◌≤◌, ◌<◌, ◌≡◌, refl, sym, ap, ◌∙◌, Bool, true, false, none, List,
  [], ◌∷◌, ◌++◌, map, Text, All, append_assoc, append-nil, arith, length, length-append, Bool-cases,
  any, same, inl, inr,
}
use openmux_server.Delivery.{
  Wrapper, wrapper, receive_chunk, take_chunk, attach_client, detach_client, add_hold,
  should_enqueue,
}
use openmux_server.Delivery.Events.{
  Event, arrives, attaches, detaches, reads, happen, happen_all, arrivals,
}
use openmux_server.Delivery.Queues.{
  Chunk, Queue, get_nowait, put_dropping-room, overflows, overflows-ltb,
}
use openmux_server.Delivery.Ring.{last}
use openmux_server.Delivery.History.{scrollback-last}
use openmux_server.Delivery.Pump.{pump_local_port_to_remote, Held}
use openmux_server.Delivery.Relayed.{pump-arrivals}

-- A client comes, chunks arrive, and the client leaves.
abbrev pub visit : Text → List Chunk → List Event
visit c ds = attaches c ∷ map (arrives none) ds ++ detaches c ∷ []

-- The pump reads so many times.
abbrev pub read_times : ℕ → List Event
read_times zero = []
read_times (suc n) = reads ∷ read_times n

happen_all-append :
    (es fs : List Event) (w : Wrapper) → happen_all (es ++ fs) w ≡ happen_all fs (happen_all es w)
happen_all-append [] fs w = refl
happen_all-append (e ∷ es) fs w = happen_all-append es fs (happen e w)

arrivals-visit :
    (ds : List Chunk) (c : Text) → arrivals (map (arrives none) ds ++ detaches c ∷ []) ≡ ds
arrivals-visit [] c = refl
arrivals-visit (d ∷ ds) c = ap (λ t. d ∷ t) (arrivals-visit ds c)

receive_chunk-watched :
    (d : Chunk) (w : Wrapper)
    → 0 < length w.connected_clients
    → length w.data_queue < 100
    → (receive_chunk none d w).data_queue ≡ w.data_queue ++ d ∷ []
unfolding receive_chunk
receive_chunk-watched d w h k =
    let s : should_enqueue none w ≡ true = ground arith in
    let e : overflows w.data_queue ≡ false = ground (arith, overflows-ltb w.data_queue) in
    rw s (put_dropping-room d w.data_queue e)

data_queue-arrivals :
    (ds : List Chunk) (w : Wrapper)
    → 0 < length w.connected_clients
    → length w.data_queue + length ds ≤ 100
    → (happen_all (map (arrives none) ds) w).data_queue ≡ w.data_queue ++ ds
unfolding receive_chunk
data_queue-arrivals [] w h k = sym (append-nil w.data_queue)
data_queue-arrivals (d ∷ ds) w h k =
    let e = receive_chunk-watched d w h (omega (arith, k)) in
    let n : length (receive_chunk none d w).data_queue ≡ length w.data_queue + 1 =
      ap length e ∙ length-append w.data_queue (d ∷ []) in
    data_queue-arrivals ds (receive_chunk none d w) h (omega (arith, n, k))
    ∙ ap (λ q. q ++ ds) e
    ∙ append_assoc w.data_queue (d ∷ []) ds

detach_client-data_queue : (c : Text) (w : Wrapper) → (detach_client c w).data_queue ≡ w.data_queue
unfolding detach_client
detach_client-data_queue c w = elim (Bool-cases (any (same c) w.connected_clients)) [
  | inl e ↦ rw e refl
  | inr e ↦ rw e refl
]

data_queue-visit :
    (c : Text) (ds : List Chunk) (size : ℕ)
    → length ds ≤ 100
    → (happen_all (visit c ds) (wrapper size)).data_queue ≡ ds
unfolding attach_client
data_queue-visit c ds size h =
    rw
      (happen_all-append (map (arrives none) ds) (detaches c ∷ []) (attach_client c (wrapper size)))
      (detach_client-data_queue c
          (happen_all (map (arrives none) ds) (attach_client c (wrapper size)))
        ∙ data_queue-arrivals ds (attach_client c (wrapper size)) (omega arith) (omega (arith, h)))

last-all : (n : ℕ) (s : Text) → length s ≤ n → last n s ≡ s
unfolding last
last-all n s h = let z : length s - n ≡ 0 = omega (arith, h) in rw z refl

read_times-Held : (n : ℕ) → All Held (read_times n)
read_times-Held zero = tt
read_times-Held (suc n) = (tt, read_times-Held n)

read_times-empties :
    (ds : Queue) (w : Wrapper)
    → w.data_queue ≡ ds
    → ((happen_all (read_times (length ds)) w).data_queue ≡ [])
      × ((happen_all (read_times (length ds)) w).dropped_chunks ≡ w.dropped_chunks)
unfolding take_chunk get_nowait
read_times-empties [] w h = (h, refl)
read_times-empties (d ∷ ds) w h =
    read_times-empties ds (take_chunk w).1 (ap (λ q. (get_nowait q).1) h)

add_hold-data_queue : (w : Wrapper) → (add_hold w).data_queue ≡ w.data_queue
unfolding add_hold
add_hold-data_queue w = refl

add_hold-dropped : (w : Wrapper) → (add_hold w).dropped_chunks ≡ w.dropped_chunks
unfolding add_hold
add_hold-dropped w = refl

arrivals-read_times : (n : ℕ) → arrivals (read_times n) ≡ []
arrivals-read_times zero = refl
arrivals-read_times (suc n) = arrivals-read_times n

assembled :
    (p s : Text) (q e a ds : Queue)
    → p ++ concat e ≡ s ++ (concat q ++ concat a)
    → e ≡ []
    → s ≡ concat ds
    → q ≡ ds
    → a ≡ []
    → p ≡ concat ds ++ concat ds
assembled p s q e a ds h he hs hq ha =
    sym (append-nil p)
    ∙ ap (λ x. p ++ concat x) (sym he)
    ∙ h
    ∙ rw (hs, hq, ha) (ap (λ x. concat ds ++ x) (append-nil (concat ds)))

scrollback-visit :
    (c : Text) (ds : List Chunk) (size : ℕ)
    → length (concat ds) ≤ size
    → (happen_all (visit c ds) (wrapper size)).scrollback ≡ concat ds
scrollback-visit c ds size k =
    scrollback-last (visit c ds) size ∙ rw (arrivals-visit ds c) (last-all size (concat ds) k)

-- A client comes to a fresh port with a scrollback, at most 100 chunks arrive that fit the
-- scrollback, and the client leaves. A pump that starts then, all of whose sends succeed, and that
-- reads as many chunks as had arrived, sends the peer all of them twice: in the seed, and again
-- from the shared queue, where they stayed.
pub pump_repeats :
    (sent live : ℕ → Bool) (c : Text) (ds : List Chunk) (size : ℕ)
    → ((k : ℕ) → sent k ≡ true)
    → ((k : ℕ) → live k ≡ true)
    → length ds ≤ 100
    → length (concat ds) ≤ size
    → concat (
        pump_local_port_to_remote sent live
          (read_times (length ds))
          (happen_all (visit c ds) (wrapper size)))
      ≡ concat ds ++ concat ds
pump_repeats sent live c ds size s v h k =
    let w = happen_all (visit c ds) (wrapper size) in
    let q = data_queue-visit c ds size h in
    let r = read_times-empties ds (add_hold w) (add_hold-data_queue w ∙ q) in
    let t =
      pump-arrivals sent live (read_times (length ds)) w s v (read_times-Held (length ds))
        (r.1 ∙ add_hold-dropped w) in
    assembled (concat (pump_local_port_to_remote sent live (read_times (length ds)) w)) w.scrollback
      w.data_queue (happen_all (read_times (length ds)) (add_hold w)).data_queue
      (arrivals (read_times (length ds))) ds t r.0 (scrollback-visit c ds size k) q
      (arrivals-read_times (length ds))
