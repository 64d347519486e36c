-- ===== src/Action.antt =====
-- openmux/server/actions/session.py: the session that a port action script talks to. A session reads
-- the delivery queue of its client, sends to the port, asks the operator and switches the outlets
-- of its port. Debug lines are left out, and callbacks are a list of notes.
pub mod Utf8
pub mod Refs
pub mod Expected
pub mod Consumed
pub mod Prompts
pub mod Power
pub mod Targets
pub mod Blocked
pub mod Switched
pub mod Closed
mod Tests
use openmux_server.Base.{
  concat, ℕ, ◌+◌, Bool, true, false, not, ◌&&◌, ◌||◌, Option, none, some, List, [], ◌∷◌, ◌++◌, Text,
  codes, same, contains, strip, lower, length, take, drop, map, ltb, if◌then◌else◌,
}
use openmux_server.Delivery.Queues.{Chunk}
use openmux_server.Results.{Result, returned, raised}
use Utf8.{encode, decode}

pub data ActionError : Type 0 where
  session_error : ActionError
  timeout_error : ActionError
  value_error : ActionError
  power_error : Option Text → ActionError

-- `regex.search`: the end of the match and the text that matched.
pub record Match : Type 0 where
  pub ending : ℕ
  pub group : Text

-- `_consume`
unfoldable pub consume : Text → ℕ → Text → Text
unfolding encode
consume decoded ending buffer = drop (length (encode (take ending decoded))) buffer

-- The buffer after a call, and the chunks that were not taken.
pub record Reading : Type 0 where
  pub buffer : Text
  pub left : List Chunk

abbrev pub reading : Text → List Chunk → Reading
reading b ds = record { buffer = b; left = ds }

abbrev pub Read : Type 0
Read = Result ActionError Text × Reading

-- A match ends the call, and drops what it and all before it take in the buffer.
abbrev pub or_matched : Text → List Chunk → Read → Option Match → Read
or_matched b ds rest none = rest
or_matched b ds rest (some m) = (returned m.group, reading (consume (decode b) m.ending b) ds)

-- `read_buffer`: the queue is emptied into the buffer, which is read, and cleared on demand.
unfoldable read_buffer : Bool → Option (List Chunk) → Text → Text × Reading
read_buffer clear none b = (decode b, reading (if clear then [] else b) [])
read_buffer clear (some ds) b =
    (decode (b ++ concat ds), reading (if clear then [] else b ++ concat ds) [])

module _ (search : Text → Option Match) where
  -- The loop of `expect`. The chunks are those that the queue gives before the deadline.
  unfoldable pub expect_more : Text → List Chunk → Read
  expect_more b [] = (raised timeout_error, reading b [])
  expect_more b (d ∷ ds) =
      or_matched (b ++ d) ds (expect_more (b ++ d) ds) (search (decode (b ++ d)))

  abbrev expect_queued : Text → Option (List Chunk) → Read
  expect_queued b none = (raised session_error, reading b [])
  expect_queued b (some ds) = expect_more b ds

  abbrev chunks_or_none : Option (List Chunk) → List Chunk
  chunks_or_none none = []
  chunks_or_none (some ds) = ds

  -- `expect`: the buffer is tried before the queue of the client is looked up.
  unfoldable pub expect : Option (List Chunk) → Text → Read
  unfolding expect_more
  expect queue b = or_matched b (chunks_or_none queue) (expect_queued b queue) (search (decode b))

-- `send` and `sendline`: the text in UTF-8 goes to `write_to_port`, which may reject it.
module _ (write_to_port : Text → Bool) where
  unfoldable pub send : Text → Result ActionError Unit
  unfolding encode
  send t = if write_to_port (encode t) then returned tt else raised session_error

  unfoldable sendline : Text → Result ActionError Unit
  unfolding send
  sendline t = send (t ++ 10 ∷ [])
