-- ===== src/Console/History.antt =====
-- Sequences of requests to openmux/server/console_manager.py, and what no sequence can break.
use openmux_server.Base.{Bool, Option, List, [], ◌∷◌, Text}
use openmux_server.Ports.Slots.{IsSoundAll}
use openmux_server.Console.World.{World, Outside, pause}
use openmux_server.Console.Attach.{connect_client_to_port, disconnect_client_from_port}
use openmux_server.Console.Ask.{promote_client_to_read_write, demote_client_to_read_only}
use openmux_server.Console.Takeover.{take_write_slot}
use openmux_server.Console.Invariant.{
  Keeps, promote_client_to_read_write-Keeps, demote_client_to_read_only-Keeps,
}
use openmux_server.Console.Requests.{
  connect_client_to_port-Keeps, disconnect_client_from_port-Keeps, take_write_slot-Keeps,
}

pub data Request : Type 0 where
  connect : Text → Text → Text → Request
  disconnect : Text → Text → Request
  promote : Text → Text → Request
  demote : Text → Text → Bool → Request
  take : Text → Text → Option Text → Request

-- The state after a request, whatever its result.
unfoldable pub serve : Outside → Request → World → World
serve o (connect cid name user) w = (connect_client_to_port o cid name user w).1
serve o (disconnect cid name) w = (disconnect_client_from_port o cid name w).1
serve o (promote cid name) w = (promote_client_to_read_write o cid name w).1
serve o (demote cid name notify_origin) w =
    (demote_client_to_read_only o notify_origin cid name w).1
serve o (take taker name target) w = (take_write_slot o taker name target w).1

unfoldable pub serve_all : Outside → List Request → World → World
serve_all o [] w = w
serve_all o (r ∷ rs) w = serve_all o rs (serve o r w)

serve-IsSoundAll :
    (o : Outside)
    → Keeps (pause o)
    → (r : Request) (w : World) → IsSoundAll w.ports
    → IsSoundAll (serve o r w).ports
unfolding serve
serve-IsSoundAll o k (connect cid name user) w s =
    (connect_client_to_port-Keeps o k cid name user).apply w s
serve-IsSoundAll o k (disconnect cid name) w s =
    (disconnect_client_from_port-Keeps o k cid name).apply w s
serve-IsSoundAll o k (promote cid name) w s =
    (promote_client_to_read_write-Keeps o k cid name).apply w s
serve-IsSoundAll o k (demote cid name n) w s =
    (demote_client_to_read_only-Keeps o k n cid name).apply w s
serve-IsSoundAll o k (take taker name target) w s =
    (take_write_slot-Keeps o k taker name target).apply w s

-- If each port has distinct clients and no more writers than its capacity, so it has after any
-- sequence of requests, provided that the other tasks keep that while a request waits.
pub serve_all-IsSoundAll :
    (o : Outside)
    → Keeps (pause o)
    → (rs : List Request) (w : World) → IsSoundAll w.ports
    → IsSoundAll (serve_all o rs w).ports
unfolding serve_all
serve_all-IsSoundAll o k [] w s = s
serve_all-IsSoundAll o k (r ∷ rs) w s =
    serve_all-IsSoundAll o k rs (serve o r w) (serve-IsSoundAll o k r w s)
