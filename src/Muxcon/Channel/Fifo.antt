-- ===== src/Muxcon/Channel/Fifo.antt =====
-- The link of openmux/server/adapters/muxcon.py as a queue.
use openmux_server.Base.{Text, ℕ, ◌≤◌, ◌≡◌, length, take}
use openmux_server.Muxcon.Receive.Order.{number}
use openmux_server.Muxcon.Channel.{Link, start, Reach}
use openmux_server.Muxcon.Channel.Faithful.{Reach-IsFaithful}

-- Between two processes that live on, where handlers run one at a time, no gap is given up, fewer than
-- 2 ^ 63 frames are sent and each connection names the one peer process or none: whatever the network
-- did, and whichever of these connections the frames came by, what the receiver has delivered is a
-- first part of what was sent: each item once, in order, with its number, and nothing else.
pub Reach_prefix :
    (peer : Text) (stuck : ℕ) (l : Link)
    → Reach peer stuck start l
    → (n : ℕ) × (n ≤ length l.sent) × (l.rx.delivered ≡ number 1 (take n l.sent))
Reach_prefix peer stuck l r =
    let i = Reach-IsFaithful r in (i.got, i.settled.ordered.bound, i.settled.ordered.sofar)
