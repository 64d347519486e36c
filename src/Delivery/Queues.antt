-- ===== src/Delivery/Queues.antt =====
-- openmux/server/port_manager.py: an `asyncio.Queue(maxsize=100)` that is written without waiting,
-- and the policy for a full one: the oldest chunk goes, and the new one is put after it.
use openmux_server.Base.{
  ℕ, ◌≤◌, ◌≡◌, Bool, true, false, Option, none, some, List, [], ◌∷◌, ◌++◌, Text, length, ltb,
  if◌then◌else◌, arith, length-append,
}

-- `bytes`
abbrev pub Chunk : Type 0
Chunk = Text

abbrev pub Queue : Type 0
Queue = List Chunk

abbrev pub maxsize : ℕ
maxsize = 100

-- `put_nowait`, and none for `QueueFull`.
unfoldable pub put_nowait : Chunk → Queue → Option Queue
put_nowait d q = if ltb (length q) maxsize then some (q ++ d ∷ []) else none

-- `get_nowait`: the chunk and the rest, and none for `QueueEmpty`.
unfoldable pub get_nowait : Queue → Option Chunk × Queue
get_nowait [] = (none, [])
get_nowait (d ∷ q) = (some d, q)

-- Whether `put_nowait` raises.
unfoldable pub overflows : Queue → Bool
unfolding put_nowait
overflows q = elim (put_nowait [] q) [ none ↦ true | some _ ↦ false ]

abbrev pub or_queue : Queue → Option Queue → Queue
or_queue q none = q
or_queue q (some q') = q'

-- One chunk under the drop-oldest policy. A second failure drops the chunk.
unfoldable pub put_dropping : Chunk → Queue → Queue
unfolding put_nowait get_nowait
put_dropping d q = or_queue (or_queue q (put_nowait d (get_nowait q).1)) (put_nowait d q)

pub overflows-ltb : (q : Queue) → overflows q ≡ (if ltb (length q) 100 then false else true)
unfolding overflows put_nowait
overflows-ltb q = ground arith

-- A queue that is not full takes the chunk at its end.
pub put_dropping-room :
    (d : Chunk) (q : Queue) → overflows q ≡ false → put_dropping d q ≡ q ++ d ∷ []
unfolding put_dropping put_nowait overflows
put_dropping-room d q h = ground arith

pub put_dropping-length_le :
    (d : Chunk) (q : Queue) → length q ≤ 100 → length (put_dropping d q) ≤ 100
unfolding put_dropping put_nowait get_nowait
put_dropping-length_le d [] h = omega arith
put_dropping-length_le d (c ∷ q) h =
    ground (arith, length-append q (d ∷ []), length-append (c ∷ q) (d ∷ []))
