-- ===== src/Capacity.antt =====
-- openmux/server/access_control.py: the write-slot capacity of a port, from its raw setting
-- `max_read_write_users` to a mode, a number of writers and a wire value. A raised
-- `InvalidWriteMode` is `none`; the deprecation line that the parser logs is left out.
pub mod Integer
pub mod Laws
use openmux_server.Base.{
  ℕ, suc, ◌+◌, ◌-◌, Bool, true, false, ◌&&◌, ◌||◌, Option, none, some, List, [], ◌∷◌, Text, codes,
  same, starts_with, strip, lower, length, drop, ◌==◌, leb, ltb, if◌then◌else◌,
}
use Integer.{ℤ, pos, negsuc, parse_int}

-- The values that a configuration file or a peer can hold here. A float is told apart by
-- `is_integer`; `other` is any further type.
pub data Raw : Type 0 where
  unset : Raw
  boolean : Bool → Raw
  int : ℤ → Raw
  text : Text → Raw
  whole_float : ℤ → Raw
  other_float other : Raw

-- `nobody` is the mode that the source spells "none".
pub data WriteMode : Type 0 where
  nobody one multiple : WriteMode

pub data Amount : Type 0 where
  finite : ℕ → Amount
  unlimited : Amount

abbrev pub legacy_int_to_mode : ℤ → WriteMode
legacy_int_to_mode (pos n) = if n == 0 then nobody else if n == 1 then one else multiple
legacy_int_to_mode (negsuc n) = multiple

-- `text in WRITE_MODES`
unfoldable pub mode_word : Text → Option WriteMode
unfolding same
mode_word t =
    if same t (codes "none")
    then some nobody
    else if same t (codes "one")
    then some one
    else if same t (codes "multiple")
    then some multiple
    else none

-- A non-negative integer migrates to its mode.
abbrev pub migrate : Option ℤ → Option WriteMode
migrate (some (pos n)) = some (legacy_int_to_mode (pos n))
migrate (some (negsuc n)) = none
migrate none = none

parse_text : Text → Option WriteMode
parse_text t = elim (mode_word t) [ some m ↦ some m | none ↦ migrate (parse_int t) ]

unfoldable pub parse_write_mode : Raw → Option WriteMode
unfolding parse_text
parse_write_mode unset = some one
parse_write_mode (boolean b) = none
parse_write_mode (int z) = migrate (some z)
parse_write_mode (text s) = parse_text (lower (strip s))
parse_write_mode (whole_float z) = none
parse_write_mode other_float = none
parse_write_mode other = none

wire_text : Text → WriteMode
wire_text t = elim (mode_word t) [
  | some m ↦ m
  | none ↦ elim (parse_int t) [ some z ↦ legacy_int_to_mode z | none ↦ one ]
]

abbrev pub wire_int : ℤ → WriteMode
wire_int (pos n) = legacy_int_to_mode (pos n)
wire_int (negsuc n) = one

unfoldable pub wire_to_mode : Raw → WriteMode
unfolding wire_text
wire_to_mode (text s) = wire_text (lower (strip s))
wire_to_mode (boolean b) = one
wire_to_mode (int z) = wire_int z
wire_to_mode (whole_float z) = wire_int z
wire_to_mode unset = one
wire_to_mode other_float = one
wire_to_mode other = one

-- The result of `compare_write_mode`: a mode, or the raw value where it is no mode.
pub data Compared : Type 0 where
  mode : WriteMode → Compared
  unusable : Raw → Compared

pub compare_write_mode : Raw → Compared
compare_write_mode r = elim (parse_write_mode r) [ some m ↦ mode m | none ↦ unusable r ]

abbrev pub mode_capacity : WriteMode → Amount
mode_capacity nobody = finite 0
mode_capacity one = finite 1
mode_capacity multiple = unlimited

unfoldable pub write_capacity : Raw → Amount
write_capacity r = elim (parse_write_mode r) [ some m ↦ mode_capacity m | none ↦ finite 1 ]

-- `WIRE_MULTIPLE`
abbrev pub wire_multiple : ℕ
wire_multiple = 2147483647

-- `WIRE_CAPACITY`
abbrev pub wire_capacity : WriteMode → ℕ
wire_capacity nobody = 0
wire_capacity one = 1
wire_capacity multiple = wire_multiple

unfoldable pub capacity_to_wire : Raw → ℕ
capacity_to_wire r = elim (parse_write_mode r) [ some m ↦ wire_capacity m | none ↦ 1 ]

abbrev pub mode_text : WriteMode → Text
mode_text nobody = codes "none"
mode_text one = codes "one"
mode_text multiple = codes "multiple"

-- `write_capacity` parses the mode word that `wire_to_mode` returns.
unfoldable pub capacity_from_wire : Raw → Amount
capacity_from_wire r = write_capacity (text (mode_text (wire_to_mode r)))

-- `current >= capacity`
abbrev pub is_full : ℕ → Amount → Bool
is_full n (finite k) = leb k n
is_full n unlimited = false

-- The short form of a client id beside a holder's name.
unfoldable pub holder_id_short : Text → Text
holder_id_short cid =
    if starts_with cid (codes "fed:")
    then cid
    else if ltb 8 (length cid)
    then drop (length cid - 8) cid
    else cid
