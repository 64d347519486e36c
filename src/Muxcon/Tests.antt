-- ===== src/Muxcon/Tests.antt =====
-- Runs of the federation link of openmux/server/adapters/muxcon.py: a peer process with two
-- connections, and two items on stream 7.
use openmux_server.Base.{
  ℕ, List, inl, ◌≤◌, ◌≡◌, refl, true, none, some, [], ◌∷◌, ◌++◌, Text, codes, arith, length, take,
  same,
}
use openmux_server.Capacity.Integer.{pos}
use openmux_server.Muxcon.Numbered.{find, put, without}
use openmux_server.Muxcon.Frame.{frame_bytes, read_frame, is_ascii}
use openmux_server.Muxcon.Frame.RoundTrip.{read_frame-frame_bytes}
use openmux_server.Muxcon.Receive.{
  Rx, Item, Conn, DataFrame, fresh_rx, arrive, to_end, maybe_resync_peer_generation,
  handle_inbound_data, accept, rounds,
}
use openmux_server.Muxcon.Receive.Order.{number}
use openmux_server.Muxcon.Receive.Rising.{IsRising}
use openmux_server.Muxcon.Receive.Handled.{patient}
use openmux_server.Muxcon.Receive.Once.{handle_all, handle_all-IsRising}
use openmux_server.Muxcon.Receive.Run.{IsRun, arrive_drains}
use openmux_server.Muxcon.Receive.Twice.{arrive_twice}
use openmux_server.Muxcon.Send.{fresh_tx, send_data, rl_handle_ack, rl_handle_data}
use openmux_server.Muxcon.Channel.{
  Link, send, receive, Reach, here, next, start, after_send, after_data,
}
use openmux_server.Muxcon.Channel.Fifo.{Reach_prefix}

abbrev peer : Text
peer = codes "p1"

abbrev by_a : Conn
by_a = record { peer_instance = some peer; opened_at = 10 }

abbrev by_b : Conn
by_b = record { peer_instance = some peer; opened_at = 20 }

abbrev login : Item
login = (7, codes "login")

abbrev prompt : Item
prompt = (7, codes "# ")

abbrev first_frame : DataFrame
first_frame = record { seq = 1; item = login }

abbrev second_frame : DataFrame
second_frame = record { seq = 2; item = prompt }

abbrev known_rx : Rx
known_rx = record fresh_rx { instance_id = some peer; instance_since = 10 }

abbrev one_sent : Link
one_sent = after_send start login (send_data (some (codes "a")) 100 login fresh_tx)

abbrev two_sent : Link
unfolding send_data
two_sent = after_send one_sent prompt (send_data (some (codes "b")) 101 prompt one_sent.tx)

-- The frames come in the other order, and both are acknowledged.
abbrev early_got : Link
unfolding rl_handle_data
early_got =
    after_data two_sent (rl_handle_data true 5000 110 by_b second_frame two_sent.rx fresh_tx)

abbrev both_got : Link
unfolding rl_handle_data
both_got =
    after_data early_got (rl_handle_data true 5000 120 by_a first_frame early_got.rx fresh_tx)

abbrev one_acked : Link
one_acked = record both_got { tx = rl_handle_ack 1 both_got.tx }

abbrev all_acked : Link
all_acked = record one_acked { tx = rl_handle_ack 2 one_acked.tx }

sends : Reach peer 5000 start two_sent
unfolding send_data
sends =
    next (next here (send start (some (codes "a")) 100 login (omega arith)))
      (send one_sent (some (codes "b")) 101 prompt (omega arith))

receives : Reach peer 5000 start both_got
unfolding send_data rl_handle_data maybe_resync_peer_generation patient handle_inbound_data to_end
    rounds arrive accept same
receives =
    next
      (next sends
        (receive two_sent 110 1 by_b second_frame true fresh_tx refl (refl, inl refl) refl))
      (receive early_got 120 0 by_a first_frame true fresh_tx refl (refl, inl refl) refl)

Reach_prefix_example :
    (n : ℕ) × (n ≤ length both_got.sent) × (both_got.rx.delivered ≡ number 1 (take n both_got.sent))
Reach_prefix_example = Reach_prefix peer 5000 both_got receives

-- What was delivered then.
delivered_both : both_got.rx.delivered ≡ (1, login) ∷ (2, prompt) ∷ []
unfolding send_data rl_handle_data handle_inbound_data to_end rounds arrive
    maybe_resync_peer_generation accept find put without same
delivered_both = refl

-- The second frame waits too long for the first, which comes late and is dropped.
handle_all-IsRising_example :
    let st =
      handle_all 5000
        ((100, by_a, second_frame) ∷ (9000, by_b, second_frame) ∷ (9001, by_a, first_frame) ∷ [])
        fresh_rx in
    IsRising 1 st.delivered st.expected
unfolding same
handle_all-IsRising_example =
    handle_all-IsRising peer 5000
      ((100, by_a, second_frame) ∷ (9000, by_b, second_frame) ∷ (9001, by_a, first_frame) ∷ [])
      ((refl, inl refl), ((refl, inl refl), ((refl, inl refl), tt)))

arrive_twice_example :
    (arrive 5000 101 by_b first_frame (arrive 5000 100 by_a first_frame known_rx).1).1.delivered
    ≡ (1, login) ∷ (1, login) ∷ []
unfolding same
arrive_twice_example =
    arrive_twice peer 5000 100 101 by_a by_b first_frame known_rx (refl, inl refl) (refl, inl refl)
      refl refl

read_frame-frame_bytes_example :
    read_frame (codes "?" ++ (frame_bytes 7 (codes "D") (codes "a#:b") 12 ++ codes "#8"))
    ≡ some (
      record {
        header = record {
          stream_id = pos 7;
          frame_type = codes "D";
          payload_length = pos 4;
          seq = pos 12;
        };
        payload = codes "a#:b";
      },
      codes "#8",
    )
unfolding is_ascii
read_frame-frame_bytes_example =
    read_frame-frame_bytes (codes "?") 7 (codes "D") (codes "a#:b") 12 (codes "#8") (refl, tt) refl
      (refl, tt)

-- The second frame is there before the first.
abbrev waiting_rx : Rx
waiting_rx = record known_rx { buffer = (2, prompt) ∷ []; gap_since = some 90 }

arrive_drains_example :
    let r = to_end (arrive 5000 100 by_a first_frame waiting_rx) in
    (run : List (ℕ × Item)) × (end : ℕ) × IsRun 2 run waiting_rx.buffer end
    × (r.0 ≡ none)
    × (r.1.delivered ≡ ([] ++ (1, login) ∷ []) ++ run)
    × (r.1.expected ≡ end)
    × (r.1.gap_since ≡ none)
unfolding same
arrive_drains_example =
    arrive_drains peer 5000 100 by_a first_frame waiting_rx (refl, inl refl) refl refl
