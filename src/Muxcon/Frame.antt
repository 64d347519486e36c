-- ===== src/Muxcon/Frame.antt =====
-- openmux/server/muxcon_protocol.py: the frames `#<stream>:<type>:<length>:<number>:<payload>`, and
-- the reader of them in openmux/server/adapters/muxcon.py (`_read_frame_raw`). A reader's input is the
-- bytes up to the end of the connection, at which `readexactly` raises. Payloads are bytes already.
pub mod Decimals
pub mod RoundTrip
use openmux_server.Base.{
  ℕ, zero, suc, ◌+◌, ◌-◌, ◌≤◌, ◌<◌, ◌≡◌, refl, Bool, true, false, ◌&&◌, Option, none, some, List,
  [], ◌∷◌, ◌++◌, Text, codes, strip, arith, ◌==◌, ltb, leb, if◌then◌else◌, length, take, drop,
  decimal, upper,
}
use openmux_server.Capacity.Integer.{ℤ, pos, negsuc, parse_int}

abbrev pub frame_bytes : ℕ → Text → Text → ℕ → Text
frame_bytes stream_id frame_type payload seq =
    b'#'
    ∷ (decimal stream_id
        ++ b':'
          ∷ (frame_type
              ++ b':'
                ∷ (decimal (length payload)
                    ++ b':' ∷ (decimal seq ++ b':' ∷ (payload ++ 10 ∷ [])))))

unfoldable pub create_control_frame : ℕ → ℕ → Text → Text
create_control_frame stream_id seq payload = frame_bytes stream_id (codes "C") payload seq

unfoldable pub create_command_frame : Text → ℕ → ℕ → Text → Text
create_command_frame command stream_id seq payload =
    frame_bytes stream_id (upper command) payload seq

unfoldable pub create_data_frame : ℕ → ℕ → Text → Text
create_data_frame stream_id seq bytes = frame_bytes stream_id (codes "D") bytes seq

unfoldable pub create_stream_open_frame : ℕ → ℕ → Text → Text
create_stream_open_frame stream_id seq port_name = frame_bytes stream_id (codes "O") port_name seq

unfoldable pub create_stream_close_frame : ℕ → ℕ → Text → Text
create_stream_close_frame stream_id seq reason = frame_bytes stream_id (codes "E") reason seq

unfoldable pub create_ack_frame : ℕ → ℕ → Text
create_ack_frame acked_seq seq = frame_bytes 0 (codes "A") (decimal acked_seq) seq

unfoldable pub create_heartbeat_request : ℕ → ℕ → Text
create_heartbeat_request ts seq =
    create_command_frame (codes "HB") 0 seq (codes "REQ:" ++ decimal ts)

unfoldable pub create_heartbeat_ack : ℕ → ℕ → Text
create_heartbeat_ack ts seq = create_command_frame (codes "HB") 0 seq (codes "ACK:" ++ decimal ts)

pub record Header : Type 0 where
  pub stream_id : ℤ
  pub frame_type : Text
  pub payload_length : ℤ
  pub seq : ℤ

-- `s.partition(sep)`: what stands before the first separator, and what stands after it.
unfoldable pub partition : ℕ → Text → Text × Option Text
partition sep [] = ([], none)
partition sep (c ∷ s) =
    let (a, r) = partition sep s in if c == sep then ([], some s) else (c ∷ a, r)

abbrev split_rest : (Text → List Text) → Text × Option Text → List Text
split_rest again (a, none) = a ∷ []
split_rest again (a, some s) = a ∷ again s

-- `s.split(sep, k)`
unfoldable pub split : ℕ → ℕ → Text → List Text
split sep zero s = s ∷ []
split sep (suc k) s = split_rest (split sep k) (partition sep s)

abbrev header_of : Text → Option ℤ → Option ℤ → Option ℤ → Option Header
header_of t (some sid) (some len) (some n) =
    some (record { stream_id = sid; frame_type = t; payload_length = len; seq = n })
header_of t _ _ _ = none

abbrev header_parts : List Text → Option Header
header_parts (a ∷ t ∷ l ∷ n ∷ more) = header_of t (parse_int a) (parse_int l) (parse_int n)
header_parts _ = none

unfoldable pub is_ascii : Text → Bool
is_ascii [] = true
is_ascii (c ∷ s) = ltb c 128 && is_ascii s

abbrev header_line : Text → Option Header
header_line [] = none
header_line (c ∷ s) = if c == b'#' then header_parts (split b':' 4 s) else none

unfoldable pub parse_frame_header : Text → Option Header
parse_frame_header line = if is_ascii line then header_line (strip line) else none

pub record Frame : Type 0 where
  pub header : Header
  pub payload : Text

-- Up to the mark `#`.
unfoldable pub seek : Text → Option Text
seek [] = none
seek (c ∷ s) = if c == b'#' then some s else seek s

abbrev with_first : ℕ → Option (Text × Text) → Option (Text × Text)
with_first c none = none
with_first c (some (h, s)) = some (c ∷ h, s)

-- The bytes up to the colon that is the k-th.
unfoldable pub read_colons : ℕ → Text → Option (Text × Text)
read_colons zero s = some ([], s)
read_colons (suc k) [] = none
read_colons (suc k) (c ∷ s) = with_first c (read_colons (if c == b':' then k else suc k) s)

-- `readexactly`
unfoldable pub readexactly : ℕ → Text → Option (Text × Text)
readexactly n s = if leb n (length s) then some (take n s, drop n s) else none

abbrev payload_size : ℤ → ℕ
payload_size (pos n) = n
payload_size (negsuc n) = 0

-- The payload, and the newline after it.
abbrev read_newline : Header → Option (Text × Text) → Option (Frame × Text)
read_newline h none = none
read_newline h (some (p, [])) = none
read_newline h (some (p, c ∷ s)) = some (record { header = h; payload = p }, s)

abbrev read_payload : Text → Option Header → Option (Frame × Text)
read_payload s none = none
read_payload s (some h) = read_newline h (readexactly (payload_size h.payload_length) s)

abbrev read_header : Option (Text × Text) → Option (Frame × Text)
read_header none = none
read_header (some (h, s)) = read_payload s (parse_frame_header (b'#' ∷ h))

abbrev read_from : Option Text → Option (Frame × Text)
read_from none = none
read_from (some s) = read_header (read_colons 4 s)

-- The frame and the input after it; `none` ends the connection.
unfoldable pub read_frame : Text → Option (Frame × Text)
unfolding read_colons readexactly parse_frame_header
read_frame s = read_from (seek s)
