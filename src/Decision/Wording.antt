-- ===== src/Decision/Wording.antt =====
-- openmux/server/access_decision.py: what a decision shows (`message`, `lines`, `text`, `frame`);
-- openmux/common/access_wire.py: the bytes of a terminal. No row of the table has a wording for a
-- capacity, so `_wording` is the row's own.
use openmux_server.Base.{
  ℕ, ◌-◌, ◌+◌, ◌||◌, Bool, Option, none, some, List, [], ◌∷◌, ◌++◌, map, Text, codes, ltb, leb,
  ◌==◌, if◌then◌else◌,
}
use openmux_server.Capacity.{WriteMode, wire_capacity}
use openmux_server.Decision.Codes.{Mode, Code, ok}
use openmux_server.Decision.Rows.{Piece, lit, victim_line, actor, Template, sentence, templates}
use openmux_server.Decision.{AccessDecision, Holder, label}

abbrev taken_from : Option Holder → Text
taken_from none = []
taken_from (some h) = codes "Taken from: " ++ label h

abbrev or_else : Text → Text → Text
or_else [] d = d
or_else (c ∷ s) d = c ∷ s

fill_piece : AccessDecision → Piece → Text
fill_piece d (lit t) = t
fill_piece d victim_line = taken_from d.victim
fill_piece d actor = or_else d.actor (codes "another user")

unfoldable pub fill : AccessDecision → Template → Text
unfolding fill_piece
fill d [] = []
fill d (p ∷ t) = fill_piece d p ++ fill d t

-- The bytes of a code point in UTF-8.
abbrev pub width : ℕ → ℕ
width c = if ltb c 0x80 then 1 else if ltb c 0x800 then 2 else if ltb c 0x10000 then 3 else 4

abbrev pub utf8_size : Text → ℕ
utf8_size [] = 0
utf8_size (c ∷ s) = width c + utf8_size s

-- `s.encode("utf-8")[:limit].decode("utf-8", "ignore")`: the characters that fit whole.
unfoldable pub truncate : ℕ → Text → Text
truncate limit [] = []
truncate limit (c ∷ s) = if leb (width c) limit then c ∷ truncate (limit - width c) s else []

-- `.replace("\r", " ").replace("\n", " ")`
abbrev flatten : ℕ → ℕ
flatten c = if c == 13 || c == 10 then 32 else c

-- `MESSAGE_LIMIT`
abbrev pub message_limit : ℕ
message_limit = 123

unfoldable pub message : AccessDecision → Text
message d = truncate message_limit (map flatten (fill d (sentence d.code)))

-- `f"[{filled}]"` for each line that is not empty.
abbrev pub bracket : Text → List Text → List Text
bracket [] rest = rest
bracket (c ∷ s) rest = (codes "[" ++ ((c ∷ s) ++ codes "]")) ∷ rest

unfoldable pub brackets : AccessDecision → List Template → List Text
brackets d [] = []
brackets d (t ∷ ts) = bracket (fill d t) (brackets d ts)

unfoldable pub lines : AccessDecision → List Text
unfolding brackets
lines d = brackets d (templates d.code)

abbrev pub crlf : Text
crlf = 13 ∷ 10 ∷ []

-- `"\r\n".join(text)`
abbrev pub join_crlf : List Text → Text
join_crlf [] = []
join_crlf (t ∷ []) = t
join_crlf (t ∷ u ∷ ts) = t ++ (crlf ++ join_crlf (u ∷ ts))

abbrev pub without_empty : List Text → List Text
without_empty [] = []
without_empty ([] ∷ ts) = without_empty ts
without_empty ((c ∷ s) ∷ ts) = (c ∷ s) ∷ without_empty ts

abbrev wrap_crlf : List Text → Text
wrap_crlf [] = []
wrap_crlf (t ∷ ts) = crlf ++ (join_crlf (t ∷ ts) ++ crlf)

-- `render_terminal_text`
unfoldable pub render_terminal_text : List Text → Text
render_terminal_text ts = wrap_crlf (without_empty ts)

unfoldable pub decision_text : AccessDecision → Text
decision_text d = render_terminal_text (lines d)

-- The `client_mode` payload. A key that is left off is an empty text, an empty list or `none`.
pub record Frame : Type 0 where
  pub ok : Bool
  pub mode : Mode
  pub code : Code
  pub lines : List Text
  pub message : Text
  pub client_id : Text
  pub rw_holders : List Text
  pub max_rw_users : Option ℕ

abbrev wire_users : Option WriteMode → Option ℕ
wire_users none = none
wire_users (some m) = some (wire_capacity m)

abbrev worded : List Text → Text → Text
worded [] m = []
worded (l ∷ ls) m = m

unfoldable pub frame : AccessDecision → Frame
frame d = record {
  ok = ok d.code;
  mode = d.mode;
  code = d.code;
  lines = lines d;
  message = worded (lines d) (message d);
  client_id = d.client_id;
  rw_holders = map label d.holders;
  max_rw_users = wire_users d.capacity;
}
