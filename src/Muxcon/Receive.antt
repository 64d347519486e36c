-- ===== src/Muxcon/Receive.antt =====
-- openmux/server/adapters/muxcon.py: how DATA frames of a peer are put in order
-- (`_maybe_resync_peer_generation`, `_handle_inbound_data`, `_flush_stuck_gap`). The handler waits
-- whenever a frame is routed, and handlers of other paths of the peer run meanwhile: `arrive` is the
-- handler up to its first wait, and `resume` goes on to the next. Times are in milliseconds.
pub mod Rounds
pub mod Order
pub mod Settled
pub mod Handled
pub mod Rising
pub mod Once
pub mod Twice
pub mod Run
use openmux_server.Base.{
  ℕ, zero, suc, ◌+◌, ◌-◌, ◌≤◌, ◌<◌, ◌≡◌, refl, Bool, true, false, ◌&&◌, not, Option, none, some,
  List, [], ◌∷◌, ◌++◌, Text, same, arith, ◌==◌, ltb, leb, if◌then◌else◌, length,
}
use openmux_server.Muxcon.Numbered.{Numbered, find, put, without, lowest}

-- What a DATA frame carries: a stream and its bytes.
abbrev pub Item : Type 0
Item = ℕ × Text

-- The sequence state of a peer, which is there for the first frame on. `delivered` is what was routed,
-- newest last, with its number.
pub record Rx : Type 0 where
  pub expected : ℕ
  pub buffer : Numbered Item
  pub gap_since : Option ℕ
  pub instance_id : Option Text
  pub instance_since : ℕ
  pub delivered : List (ℕ × Item)

abbrev pub fresh_rx : Rx
fresh_rx = record {
  expected = 1;
  buffer = [];
  gap_since = none;
  instance_id = none;
  instance_since = 0;
  delivered = [];
}

-- The connection that a frame comes by: the instance of the peer process, and when it was opened.
pub record Conn : Type 0 where
  pub peer_instance : Option Text
  pub opened_at : ℕ

pub record DataFrame : Type 0 where
  pub seq : ℕ
  pub item : Item

-- Where a handler that waits goes on.
pub data Wait : Type 0 where
  draining : ℕ → Wait
  flushing : ℕ → Wait

abbrev route : ℕ → Item → Rx → Rx
route k x st = record st { delivered = st.delivered ++ (k, x) ∷ [] }

abbrev pub adopt : Text → ℕ → Rx → Rx
adopt i opened st = record st { instance_id = some i; instance_since = opened }

-- A new generation of the peer; what becomes of the send side is `resync_tx` of `Muxcon.Send`.
abbrev restart : Rx → Rx
restart st = record st { expected = 1; buffer = []; gap_since = none }

-- Whether the frame is of a generation that was superseded, and the state after.
abbrev resync_seen : Text → ℕ → Option Text → Rx → Bool × Rx
resync_seen i opened none st = (false, adopt i opened st)
resync_seen i opened (some seen) st =
    if same seen i
    then (false, st)
    else if leb opened st.instance_since
    then (true, st)
    else (false, restart (adopt i opened st))

abbrev resync_with : Option Text → ℕ → Rx → Bool × Rx
resync_with none opened st = (false, st)
resync_with (some []) opened st = (false, st)
resync_with (some (c ∷ i)) opened st = resync_seen (c ∷ i) opened st.instance_id st

unfoldable pub maybe_resync_peer_generation : Conn → Rx → Bool × Rx
maybe_resync_peer_generation c st = resync_with c.peer_instance c.opened_at st

-- One round of the loops over the buffer.
abbrev pub go_on : (ℕ → Wait) → (ℕ → Rx → Rx) → ℕ → Option Item → Rx → Option Wait × Rx
go_on again stop k none st = (none, stop k st)
go_on again stop k (some x) st =
    (some (again (k + 1)), route k x (record st { buffer = without k st.buffer }))

abbrev pub stop_drain : ℕ → Rx → Rx
stop_drain k st = record st { expected = k; gap_since = none }

abbrev pub stop_flush : ℕ → Rx → Rx
stop_flush k st = record st { expected = k }

unfoldable pub resume : Wait → Rx → Option Wait × Rx
resume (draining k) st = go_on draining stop_drain k (find k st.buffer) st
resume (flushing k) st = go_on flushing stop_flush k (find k st.buffer) st

-- `_flush_stuck_gap` up to its first wait.
abbrev pub flush_from : Numbered Item → Rx → Option Wait × Rx
flush_from [] st = (none, record st { gap_since = none })
flush_from ((k, x) ∷ d) st = resume (flushing (lowest k d)) (record st { gap_since = none })

unfoldable pub flush_stuck_gap : Rx → Option Wait × Rx
unfolding resume
flush_stuck_gap st = flush_from st.buffer st

-- A frame from beyond the gap is buffered, and a gap that is too old is given up.
abbrev pub note_gap : ℕ → ℕ → Option ℕ → Rx → Option Wait × Rx
note_gap stuck now none st = (none, record st { gap_since = some now })
note_gap stuck now (some since) st =
    if leb stuck (now - since) then flush_stuck_gap st else (none, st)

unfoldable pub accept : ℕ → ℕ → DataFrame → Rx → Option Wait × Rx
unfolding flush_stuck_gap
accept stuck now f st =
    if ltb f.seq st.expected
    then (none, st)
    else if f.seq == st.expected
    then (some (draining (f.seq + 1)), route f.seq f.item st)
    else note_gap stuck now st.gap_since (record st { buffer = put f.seq f.item st.buffer })

-- `stuck` is `gap_stuck_sec`.
unfoldable pub arrive : ℕ → ℕ → Conn → DataFrame → Rx → Option Wait × Rx
arrive stuck now c f st =
    let (superseded, st') = maybe_resync_peer_generation c st in
    if superseded then (none, st') else accept stuck now f st'

-- The rounds of a handler while no other runs. Each round but the last takes an item from the buffer,
-- so its length and one are rounds enough.
unfoldable pub rounds : ℕ → Option Wait × Rx → Option Wait × Rx
rounds fuel (none, st) = (none, st)
rounds zero (some w, st) = (some w, st)
rounds (suc fuel) (some w, st) = rounds fuel (resume w st)

unfoldable pub to_end : Option Wait × Rx → Option Wait × Rx
to_end (w, st) = rounds (suc (length st.buffer)) (w, st)

unfoldable pub handle_inbound_data : ℕ → ℕ → Conn → DataFrame → Rx → Rx
handle_inbound_data stuck now c f st = (to_end (arrive stuck now c f st)).1
