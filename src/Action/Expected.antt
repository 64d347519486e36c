-- ===== src/Action/Expected.antt =====
-- openmux/server/actions/session.py: what `expect` returns, and what it leaves in the buffer.
use openmux_server.Base.{concat, ◌≡◌, ◌⊎◌, Option, none, some, List, [], ◌∷◌, ◌++◌, Text}
use openmux_server.Action.{timeout_error, Match, Read, reading, consume}
use openmux_server.Action.Utf8.{decode}
use openmux_server.Delivery.Queues.{Chunk}
use openmux_server.Results.{returned, raised}

module _ (search : Text → Option Match) where
  -- No match before the last of the chunks.
  abbrev Silent : Text → List Chunk → Type 0
  Silent b [] = Unit
  Silent b (d ∷ ds) = (search (decode b) ≡ none) × Silent (b ++ d) ds

  -- The outcomes of `expect` on the chunks that come in time.
  unfoldable pub Matches : Text → List Chunk → Read → Type 0
  Matches b ds r =
      (used left : List Chunk) × (m : Match) × (used ++ left ≡ ds)
      × Silent b used
      × (search (decode (b ++ concat used)) ≡ some m)
      × (r ≡ (
        returned m.group,
        reading (consume (decode (b ++ concat used)) m.ending (b ++ concat used)) left,
      ))

  unfoldable pub Expires : Text → List Chunk → Read → Type 0
  Expires b ds r =
      Silent b ds
      × (search (decode (b ++ concat ds)) ≡ none)
      × (r ≡ (raised timeout_error, reading (b ++ concat ds) []))

  abbrev pub IsExpected : Text → List Chunk → Read → Type 0
  IsExpected b ds r = Matches b ds r ⊎ Expires b ds r
