-- ===== src/Muxcon/Channel/Heard.antt =====
-- A frame from the peer process (openmux/server/adapters/muxcon.py), known or not yet.
use openmux_server.Base.{
  ℕ, ◌≡◌, refl, ap, sym, subst, ◌∙◌, true, false, Option, none, some, List, Text,
}
use openmux_server.Muxcon.Receive.{
  Rx, Item, Conn, DataFrame, arrive, accept, to_end, maybe_resync_peer_generation,
  handle_inbound_data,
}
use openmux_server.Muxcon.Receive.Order.{item_at}
use openmux_server.Muxcon.Receive.Settled.{within, IsSettled}
use openmux_server.Muxcon.Receive.Handled.{patient, Handled, handle_inbound_data-Handled}
use openmux_server.Muxcon.Receive.Once.{IsOf, knowing, resync_same}
use openmux_server.Muxcon.Receive.Rising.{IsResting}

-- Knowing more of the peer process leaves the order alone.
knowing-IsSettled :
    (sent : List Item) (m : ℕ) (id : Option Text) (since : ℕ) (st : Rx)
    → IsSettled sent m st
    → IsSettled sent m (knowing id since st)
knowing-IsSettled sent m id since st s = record {
  ordered = record { sofar = s.ordered.sofar; bound = s.ordered.bound; beyond = s.ordered.beyond };
  next = s.next;
  missing = s.missing;
}

-- A frame by a connection that tells nothing of its process.
abbrev untold : Conn
untold = record { peer_instance = none; opened_at = 0 }

arrive-accept :
    (stuck now : ℕ) (c : Conn) (f : DataFrame) (st st' : Rx)
    → maybe_resync_peer_generation c st ≡ (false, st')
    → arrive stuck now c f st ≡ accept stuck now f st'
unfolding arrive
arrive-accept stuck now c f st st' e = rw e refl

handle-knowing :
    (stuck now : ℕ) (c : Conn) (f : DataFrame) (st st' : Rx)
    → maybe_resync_peer_generation c st ≡ (false, st')
    → maybe_resync_peer_generation untold st' ≡ (false, st')
    → handle_inbound_data stuck now c f st ≡ handle_inbound_data stuck now untold f st'
unfolding handle_inbound_data
handle-knowing stuck now c f st st' e u =
    ap (λ r. (to_end r).1)
      (arrive-accept stuck now c f st st' e ∙ sym (arrive-accept stuck now untold f st' st' u))

pub handle-Handled :
    (peer : Text) (sent : List Item) (m stuck now : ℕ) (c : Conn) (f : DataFrame) (st : Rx)
    → IsSettled sent m st
    → item_at f.seq sent ≡ some f.item
    → IsOf peer c
    → IsResting peer st
    → patient stuck now st ≡ true
    → Handled sent m st f.seq (handle_inbound_data stuck now c f st)
unfolding patient maybe_resync_peer_generation within
handle-Handled peer sent m stuck now c f st s real of resting calm =
    let q = resync_same peer c st of resting in
    let st' = knowing q.0 q.1 st in
    subst (Handled sent m st f.seq) (sym (handle-knowing stuck now c f st st' q.2 refl)) (
      handle_inbound_data-Handled sent m stuck now untold f st'
        (knowing-IsSettled sent m q.0 q.1 st s) real refl calm)
