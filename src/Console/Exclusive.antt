-- ===== src/Console/Exclusive.antt =====
-- openmux/server/console_manager.py and port_manager.py together: which clients' bytes reach a port
-- after a sequence of requests.
use openmux_server.Base.{◌≡◌, ◌≢◌, ◌≤◌, Option, some, List, [], Text, subst, Bool}
use openmux_server.Capacity.{one, wire_to_mode}
use openmux_server.Dict.{lookup}
use openmux_server.Ports.{Port, Ports, writers}
use openmux_server.Ports.Slots.{Fits, IsSound, AllSound, IsSoundAll, lookup-AllSound}
use openmux_server.Ports.Gate.{write_to_port, write_to_port_holder, client_mode_one}
use openmux_server.Console.World.{World, Outside, pause}
use openmux_server.Console.Invariant.{Keeps}
use openmux_server.Console.History.{Request, serve_all, serve_all-IsSoundAll}
use openmux_server.Console.Transfer.{write_capacity_of_one}

stored_port-IsSound :
    (name : Text) (ps : Ports) (p : Port) → IsSoundAll ps → lookup name ps ≡ some p → IsSound p
stored_port-IsSound name ps p s e = subst AllSound e (lookup-AllSound name ps s)

one_at_most :
    (p : Port)
    → IsSound p
    → wire_to_mode p.max_read_write_users ≡ one
    → writers p.connected_clients ≤ 1
one_at_most p s e =
    subst (Fits (writers p.connected_clients)) (write_capacity_of_one p.max_read_write_users e)
      s.within

-- From a state in which each port has distinct clients and no more writers than its capacity:
-- after any sequence of requests, on a port with one write slot, two clients whose bytes are
-- handed to the adapter are one client, provided that the other tasks keep that property of the
-- state while a request waits.
pub write_to_port_exclusive :
    (o : Outside) (rs : List Request) (w : World)
    (device : Text → Text → Text → Option (Option Bool)) (name x y a b : Text) (p : Port)
    → Keeps (pause o)
    → IsSoundAll w.ports
    → lookup name (serve_all o rs w).ports ≡ some p
    → wire_to_mode p.max_read_write_users ≡ one
    → (write_to_port device name x a (serve_all o rs w).ports).0 ≢ []
    → (write_to_port device name y b (serve_all o rs w).ports).0 ≢ []
    → a ≡ b
write_to_port_exclusive o rs w device name x y a b p k s stands mode sent sent' =
    let ps : Ports = (serve_all o rs w).ports in
    client_mode_one a b p
      (one_at_most p (stored_port-IsSound name ps p (serve_all-IsSoundAll o k rs w s) stands) mode)
      (write_to_port_holder device name x a ps p stands sent)
      (write_to_port_holder device name y b ps p stands sent')
