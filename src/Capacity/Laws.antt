-- ===== src/Capacity/Laws.antt =====
-- Laws of the write-slot capacity (openmux/server/access_control.py).
use openmux_server.Base.{
  ℕ, ◌≡◌, refl, ◌≤◌, ◌⊎◌, inl, inr, true, false, none, some, Text, codes, lower, strip, starts_with,
  length, arith, Option-cases, length-drop, ◌-◌,
}
use openmux_server.Capacity.Integer.{pos, negsuc, parse_int}
use openmux_server.Capacity.{
  Raw, unset, boolean, int, text, whole_float, other_float, other, WriteMode, nobody, one, multiple,
  finite, unlimited, parse_write_mode, wire_to_mode, wire_text, write_capacity, capacity_to_wire,
  capacity_from_wire, mode_text, mode_capacity, mode_word, wire_capacity, holder_id_short,
}

-- A mode word parses to its mode.
parse-mode_text : (m : WriteMode) → parse_write_mode (text (mode_text m)) ≡ some m
unfolding parse_write_mode mode_word strip lower
parse-mode_text nobody = refl
parse-mode_text one = refl
parse-mode_text multiple = refl

pub capacity_from_wire-mode : (r : Raw) → capacity_from_wire r ≡ mode_capacity (wire_to_mode r)
unfolding capacity_from_wire write_capacity
capacity_from_wire-mode r = ground (arith, parse-mode_text (wire_to_mode r))

wire_to_mode-wire_capacity : (m : WriteMode) → wire_to_mode (int (pos (wire_capacity m))) ≡ m
unfolding wire_to_mode
wire_to_mode-wire_capacity nobody = refl
wire_to_mode-wire_capacity one = refl
wire_to_mode-wire_capacity multiple = refl

-- The integer that goes over the wire reads back as the capacity of the setting it was made from,
-- for every raw setting, also one that the parser refuses.
capacity_from_wire-capacity_to_wire :
    (r : Raw) → capacity_from_wire (int (pos (capacity_to_wire r))) ≡ write_capacity r
unfolding capacity_to_wire write_capacity
capacity_from_wire-capacity_to_wire r = elim (Option-cases (parse_write_mode r)) [
  | inl e ↦ ground (arith, capacity_from_wire-mode (int (pos 1)), wire_to_mode-wire_capacity one)
  | inr (m, e) ↦
      ground
        (arith, capacity_from_wire-mode (int (pos (wire_capacity m))), wire_to_mode-wire_capacity m)
]

-- What the parser accepts, the wire reading maps to the same mode.
pub wire_to_mode_of_parse :
    (r : Raw) (m : WriteMode) → parse_write_mode r ≡ some m → wire_to_mode r ≡ m
unfolding parse_write_mode wire_to_mode
wire_to_mode_of_parse unset m e = ground arith
wire_to_mode_of_parse (boolean b) m e = cc
wire_to_mode_of_parse (int (pos n)) m e = ground arith
wire_to_mode_of_parse (int (negsuc n)) m e = cc
wire_to_mode_of_parse (text s) m e = ground arith
wire_to_mode_of_parse (whole_float z) m e = cc
wire_to_mode_of_parse other_float m e = cc
wire_to_mode_of_parse other m e = cc

-- A negative integer in a text gives unlimited writers, although the same value as an integer gives
-- one.
pub capacity_from_wire-negative_text :
    (s : Text) (n : ℕ)
    → mode_word (lower (strip s)) ≡ none
    → parse_int (lower (strip s)) ≡ some (negsuc n)
    → (capacity_from_wire (text s) ≡ unlimited) × (capacity_from_wire (int (negsuc n)) ≡ finite 1)
unfolding wire_to_mode wire_text
capacity_from_wire-negative_text s n h e =
    ground (arith, capacity_from_wire-mode (text s), capacity_from_wire-mode (int (negsuc n)))

-- The short id keeps a federated id whole, and has eight characters at most of any other.
holder_id_short_bounds :
    (cid : Text)
    → ((starts_with cid (codes "fed:") ≡ true) × (holder_id_short cid ≡ cid))
      ⊎ ((starts_with cid (codes "fed:") ≡ false) × (length (holder_id_short cid) ≤ 8))
unfolding holder_id_short
holder_id_short_bounds cid = ground (arith, length-drop (length cid - 8) cid)
