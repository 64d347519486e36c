-- ===== src/Action/Refs.antt =====
-- openmux/server/adapters/pdu.py: the names of outlets, which are local (`<pdu>.<id>`) or carry the
-- server that owns them (`<origin>::<pdu>.<id>`).
use openmux_server.Base.{
  ℕ, Bool, true, false, not, ◌&&◌, ◌||◌, Option, none, some, [], ◌∷◌, Text, any, is_space, ◌==◌,
  if◌then◌else◌,
}

abbrev joined_to : ℕ → Option (Text × Text) → Option (Text × Text)
joined_to c none = none
joined_to c (some (a, b)) = some (c ∷ a, b)

-- `s.split("::", 1)`, and none where there is no separator.
unfoldable pub split_double : Text → Option (Text × Text)
split_double [] = none
split_double (c ∷ []) = none
split_double (c ∷ d ∷ s) =
    if c == b':' && d == b':' then some ([], s) else joined_to c (split_double (d ∷ s))

-- `s.split(".", 1)`
unfoldable split_dot : Text → Option (Text × Text)
split_dot [] = none
split_dot (c ∷ s) = if c == b'.' then some ([], s) else joined_to c (split_dot s)

abbrev is_none : Option (Text × Text) → Bool
is_none none = true
is_none (some p) = false

abbrev is_blank : Text → Bool
is_blank [] = true
is_blank (c ∷ s) = false

unfoldable valid_ref_token : Text → Bool
unfolding is_space split_dot
valid_ref_token s = not (is_blank s) && is_none (split_dot s) && not (any is_space s)

abbrev local_parts : Text → Text → Option (Text × Text) → Option (Text × Text)
local_parts origin local none = none
local_parts origin local (some (pdu, outlet)) =
    if valid_ref_token pdu && valid_ref_token outlet then some (origin, local) else none

-- The separator stands once, and the origin is a token without spaces.
abbrev origin_parts : Option (Text × Text) → Option (Text × Text)
origin_parts none = none
origin_parts (some (origin, local)) =
    if not (is_none (split_double local)) || is_blank origin || any is_space origin
    then none
    else local_parts origin local (split_dot local)

unfoldable pub split_remote_ref : Text → Option (Text × Text)
unfolding split_double split_dot valid_ref_token is_space
split_remote_ref ref = origin_parts (split_double ref)
