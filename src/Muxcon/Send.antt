-- ===== src/Muxcon/Send.antt =====
-- openmux/server/adapters/muxcon.py: the numbering of DATA frames (`_next_peer_seq`), the send buffer
-- of a peer (`_send_data_mpath`, `_retx_scan_peer`, `_rl_handle_ack`), and the answer to a DATA frame
-- (`_rl_handle_data`). `path` is the connection that is selected, if there is one that can be
-- written to. Times are in milliseconds.
use openmux_server.Base.{
  ℕ, ◌+◌, ◌-◌, ◌^◌, Bool, true, false, not, ◌&&◌, same, Option, none, some, List, [], ◌∷◌, Text,
  ltb, leb, if◌then◌else◌,
}
use openmux_server.Muxcon.Numbered.{Numbered, put, without}
use openmux_server.Muxcon.Receive.{Item, DataFrame, Conn, Rx, handle_inbound_data}

-- A frame that is not acknowledged: the connection, the item and when it was sent.
pub record Unacked : Type 0 where
  pub sent_by : Text
  pub item : Item
  pub sent_at : ℕ

pub record Tx : Type 0 where
  pub tx_seq : ℕ
  pub sendbuf : Numbered Unacked

abbrev pub fresh_tx : Tx
fresh_tx = record { tx_seq = 1; sendbuf = [] }

-- The number, and the counter afterwards, which starts again at 2 ^ 63.
unfoldable pub next_peer_seq : ℕ → ℕ × ℕ
next_peer_seq n = (n, (if leb (2 ^ 63) (n + 1) then 1 else n + 1))

-- The frames written, the answer, and the state afterwards.
unfoldable pub send_data : Option Text → ℕ → Item → Tx → List DataFrame × Bool × Tx
unfolding next_peer_seq
send_data none now x s = ([], false, s)
send_data (some cid) now x s =
    let (seq, next) = next_peer_seq s.tx_seq in
    (
      record { seq = seq; item = x } ∷ [],
      true,
      record {
        tx_seq = next;
        sendbuf = put seq (record { sent_by = cid; item = x; sent_at = now }) s.sendbuf;
      },
    )

-- One entry of the scan: it is sent again if it is old enough and there is a path.
abbrev pub resend :
    Option Text
    → ℕ
    → ℕ
    → ℕ
    → Unacked
    → List DataFrame × Numbered Unacked
    → List DataFrame × Numbered Unacked
resend none now rto k u (fs, buf) = (fs, buf)
resend (some cid) now rto k u (fs, buf) = if ltb (now - u.sent_at) rto then (fs, buf) else (
  record { seq = k; item = u.item } ∷ fs,
  put k (record u { sent_by = cid; sent_at = now }) buf,
)

-- The scan goes over a copy of the entries.
unfoldable pub retx_scan :
    Option Text → ℕ → ℕ → Numbered Unacked → Numbered Unacked → List DataFrame × Numbered Unacked
retx_scan path now rto [] buf = ([], buf)
retx_scan path now rto ((k, u) ∷ d) buf = resend path now rto k u (retx_scan path now rto d buf)

unfoldable pub retx_scan_peer : Option Text → ℕ → ℕ → Tx → List DataFrame × Tx
retx_scan_peer path now rto s =
    let (fs, buf) = retx_scan path now rto s.sendbuf s.sendbuf in (fs, record s { sendbuf = buf })

unfoldable pub rl_handle_ack : ℕ → Tx → Tx
rl_handle_ack k s = record s { sendbuf = without k s.sendbuf }

-- Whether `_maybe_resync_peer_generation` adopts a new generation in place of one that it knows.
abbrev is_newer : Text → ℕ → Option Text → ℕ → Bool
is_newer i opened none since = false
is_newer i opened (some seen) since = not (same seen i) && not (leb opened since)

abbrev is_newer_by : Option Text → ℕ → Rx → Bool
is_newer_by none opened st = false
is_newer_by (some []) opened st = false
is_newer_by (some (c ∷ i)) opened st = is_newer (c ∷ i) opened st.instance_id st.instance_since

-- Then the counter starts again, and nothing is kept for the generation before.
unfoldable pub resync_tx : Conn → Rx → Tx → Tx
resync_tx c st s = if is_newer_by c.peer_instance c.opened_at st then fresh_tx else s

-- The states afterwards, and the number that is acknowledged: that of the frame, whatever became of
-- it.
unfoldable pub rl_handle_data : Bool → ℕ → ℕ → Conn → DataFrame → Rx → Tx → Rx × Tx × Option ℕ
unfolding resync_tx
rl_handle_data authenticated stuck now c f st s =
    if authenticated
    then (handle_inbound_data stuck now c f st, resync_tx c st s, some f.seq)
    else (st, s, none)
