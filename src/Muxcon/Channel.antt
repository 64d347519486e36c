-- ===== src/Muxcon/Channel.antt =====
-- The DATA frames of one peer of openmux/server/adapters/muxcon.py from end to end: a sender, a
-- network that delays, repeats, reorders and loses frames and acknowledgements, and a receiver. Both
-- processes live on, handlers run one at a time, and no gap is given up.
pub mod Growing
pub mod Heard
pub mod Faithful
pub mod Fifo
use openmux_server.Base.{
  ℕ, zero, suc, ◌+◌, ◌-◌, ◌^◌, ◌≤◌, ◌<◌, ◌≡◌, refl, ap, sym, subst, ◌∙◌, Bool, true, false, ◌||◌,
  Option, none, some, List, [], ◌∷◌, ◌++◌, Text, arith, ◌==◌, leb, length, length-append, take, All,
  All-map, All-append, get_elem?, All-get_elem?, if◌then◌else◌, Bool-cases, inl, inr,
}
use openmux_server.Muxcon.Numbered.{
  Numbered, has, put, without, find, find-put, find-without, has-find,
}
use openmux_server.Muxcon.Receive.{
  Rx, Item, Conn, DataFrame, fresh_rx, maybe_resync_peer_generation, handle_inbound_data,
}
use openmux_server.Muxcon.Receive.Order.{item_at, number, Ordered, AllBeyond}
use openmux_server.Muxcon.Receive.Settled.{within, IsSettled}
use openmux_server.Muxcon.Receive.Handled.{
  patient, Handled, handle_inbound_data-Handled, fresh_rx-IsSettled,
}
use openmux_server.Muxcon.Receive.Once.{IsOf}
use openmux_server.Muxcon.Receive.Rising.{IsResting}
use openmux_server.Muxcon.Send.{
  Tx, Unacked, fresh_tx, next_peer_seq, send_data, resend, retx_scan, retx_scan_peer, rl_handle_ack,
  rl_handle_data,
}

-- `wire` has every frame that was ever written, and `acks` every number that was acknowledged.
pub record Link : Type 0 where
  pub tx : Tx
  pub rx : Rx
  pub wire : List DataFrame
  pub acks : List ℕ
  pub sent : List Item

abbrev pub start : Link
start = record { tx = fresh_tx; rx = fresh_rx; wire = []; acks = []; sent = [] }

abbrev pub after_send : Link → Item → List DataFrame × Bool × Tx → Link
after_send l x (fs, false, s) = l
after_send l x (fs, true, s) = record l { tx = s; wire = l.wire ++ fs; sent = l.sent ++ x ∷ [] }

abbrev pub after_scan : Link → List DataFrame × Tx → Link
after_scan l (fs, s) = record l { tx = s; wire = l.wire ++ fs }

-- What becomes of the receiver's own send state is no part of the link.
abbrev pub after_data : Link → Rx × Tx × Option ℕ → Link
after_data l (st, s, none) = record l { rx = st }
after_data l (st, s, some k) = record l { rx = st; acks = k ∷ l.acks }

-- A frame or an acknowledgement that was written comes in at any time, any number of times, or never,
-- by any connection of the peer process `peer`, which names the process or no process. `back` is what
-- the receiver has sent and not had acknowledged itself.
pub data Step (peer : Text) (stuck : ℕ) : Link → Link → Type 0 where
  send :
      (l : Link) (path : Option Text) (now : ℕ) (x : Item)
      → l.tx.tx_seq + 1 < 2 ^ 63
      → Step peer stuck l (after_send l x (send_data path now x l.tx))
  retransmit :
      (l : Link) (path : Option Text) (now rto : ℕ)
      → Step peer stuck l (after_scan l (retx_scan_peer path now rto l.tx))
  receive :
      (l : Link) (now i : ℕ) (c : Conn) (f : DataFrame) (authenticated : Bool) (back : Tx)
      → get_elem? l.wire i ≡ some f
      → IsOf peer c
      → patient stuck now l.rx ≡ true
      → Step peer stuck l (after_data l (rl_handle_data authenticated stuck now c f l.rx back))
  acknowledge :
      (l : Link) (i k : ℕ)
      → get_elem? l.acks i ≡ some k
      → Step peer stuck l (record l { tx = rl_handle_ack k l.tx })

pub data Reach (peer : Text) (stuck : ℕ) (l : Link) : Link → Type 0 where
  here : Reach peer stuck l l
  next : {u v : Link} → Reach peer stuck l u → Step peer stuck u v → Reach peer stuck l v

abbrev pub IsReal : List Item → DataFrame → Type 0
IsReal sent f = item_at f.seq sent ≡ some f.item

abbrev pub IsKept : List Item → ℕ × Unacked → Type 0
IsKept sent (k, u) = item_at k sent ≡ some u.item

pub record IsFaithful (peer : Text) (l : Link) : Type 0 where
  pub got : ℕ
  pub resting : IsResting peer l.rx
  pub settled : IsSettled l.sent got l.rx
  pub counter : l.tx.tx_seq ≡ length l.sent + 1
  pub real : All (IsReal l.sent) l.wire
  pub kept : All (IsKept l.sent) l.tx.sendbuf
  pub acked : All (λ k. within got k l.rx ≡ true) l.acks
  pub nothing_lost :
      (k : ℕ) → 1 ≤ k → k ≤ length l.sent → (has k l.tx.sendbuf || within got k l.rx) ≡ true
