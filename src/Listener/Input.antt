-- ===== src/Listener/Input.antt =====
-- openmux/server/listener_session.py: what a terminal session does with a chunk of input
-- (`_process_input_chunk`, `_forward_payload`, `_change_escape_sequence`, `_handle_control_command`
-- and the commands for the write slot). The console manager's answers, the answer to the question whom
-- to take the slot from, and bytes that are read beyond the chunk depend on what the session did
-- before.
pub mod Gate
pub mod Forwarded
use openmux_server.Base.{
  ℕ, zero, suc, ◌+◌, ◌-◌, ◌<◌, Bool, true, false, not, ◌&&◌, ◌||◌, Option, none, some, List, [],
  ◌∷◌, ◌++◌, Text, ◌==◌, any, length, if◌then◌else◌,
}
use openmux_server.Decision.Codes.{Mode, read_write, read_only}
use openmux_server.Ports.Records.{is_read_write}
use openmux_server.Listener.Escape.{EscapeState, Fed, feed_escape_byte}

-- What a session did: bytes written to the port, the warning that it is read-only, requests for the
-- write slot, a takeover, a release, and other texts, menus and reports.
pub data Effect : Type 0 where
  wrote : Text → Effect
  warned asked released told : Effect
  took : Option Text → Effect

-- `trace` has what the session did, newest last.
pub record Session : Type 0 where
  pub escape : EscapeState
  pub port_mode : Mode
  pub listener_read_only : Bool
  pub trace : List Effect

-- Whether there is a console manager, what a write answers (`none` if it raises), the mode after a request, the holder
-- to take the slot from (`none` if the client goes away), and bytes that follow the chunk.
pub record Outside : Type 0 where
  pub has_manager : Bool
  pub write_answer : List Effect → Text → Option Bool
  pub mode_after : List Effect → Mode
  pub read_take_target : List Effect → Option (Option Text)
  pub read_more : List Effect → ℕ → Option Text

abbrev pub did : Effect → Session → Session
did e s = record s { trace = s.trace ++ e ∷ [] }

-- Whether the session may write.
abbrev pub may_write : Session → Bool
may_write s = not s.listener_read_only && is_read_write s.port_mode

abbrev pub has_newline : Text → Bool
has_newline = any (λ c. c == 13 || c == 10)

-- What a write answers is not looked at; an exception ends the session.
abbrev pub not_raised : Option Bool → Bool
not_raised none = false
not_raised (some answer) = true

-- Whether the session goes on, and the session afterwards.
unfoldable pub forward_payload : Outside → Text → Session → Bool × Session
forward_payload o payload s =
    if may_write s
    then (if o.has_manager
        then (not_raised (o.write_answer s.trace payload), did (wrote payload) s)
        else (true, s))
    else (true, (if has_newline payload then did warned s else s))

abbrev pub forward_some : Outside → Text → Session → Bool × Session
forward_some o [] s = (true, s)
forward_some o (b ∷ payload) s = forward_payload o (b ∷ payload) s

abbrev pub set_escape : ℕ → ℕ → Session → Session
set_escape c1 c2 s =
    did told (record s { escape = record s.escape { escape_char1 = c1; escape_char2 = c2 } })

abbrev pub set_from : Session → Text → Session
set_from s (c1 ∷ c2 ∷ more) = set_escape c1 c2 s
set_from s _ = s

abbrev pub set_read : Session → Text → Option Text → Session
set_read s first none = s
set_read s first (some more) = set_from s (first ++ more)

-- The bytes of the chunk that are used up, and the session afterwards.
unfoldable pub change_escape_sequence : Outside → Text → Session → ℕ × Session
change_escape_sequence o [] s = (0, set_read s [] (o.read_more s.trace 2))
change_escape_sequence o (c1 ∷ []) s = (1, set_read s (c1 ∷ []) (o.read_more s.trace 1))
change_escape_sequence o (c1 ∷ c2 ∷ more) s = (2, set_escape c1 c2 s)

-- `_reply_access_decision`, with the request that was made.
abbrev pub reply : Outside → Effect → Session → Session
reply o e s =
    if o.has_manager
    then did told
        (record s { trace = s.trace ++ e ∷ []; port_mode = o.mode_after (s.trace ++ e ∷ []) })
    else did told s

unfoldable pub cmd_request_rw : Outside → Session → Session
cmd_request_rw o s = if s.listener_read_only then did told s else reply o asked s

abbrev pub take_slot_from : Outside → Session → Option (Option Text) → Session
take_slot_from o s none = s
take_slot_from o s (some target) = reply o (took target) s

unfoldable pub cmd_force_rw : Outside → Session → Session
cmd_force_rw o s =
    if s.listener_read_only then did told s else take_slot_from o s (o.read_take_target s.trace)

unfoldable pub cmd_release_rw : Outside → Session → Session
cmd_release_rw o s = reply o released s

-- Commands that only show something: w u ? i v p.
abbrev pub shows : ℕ → Bool
shows c = c == b'w' || c == b'u' || c == b'?' || c == b'i' || c == b'v' || c == b'p'

-- Whether the session ends, and the session afterwards.
unfoldable pub handle_control_command : Outside → ℕ → Session → Bool × Session
unfolding cmd_request_rw cmd_force_rw cmd_release_rw
handle_control_command o c s =
    if c == b'a'
    then (false, cmd_request_rw o s)
    else if c == b'f'
    then (false, cmd_force_rw o s)
    else if c == b's'
    then (false, cmd_release_rw o s)
    else if shows c
    then (false, did told s)
    else if c == b'.'
    then (true, did told s)
    else (false, s)

-- Where the scan goes on: how many bytes it passes over, the payload so far, and the session.
pub data Next : Type 0 where
  stop : Session → Next
  go : ℕ → Text → Session → Next

abbrev pub after_command : Bool × Session → Next
after_command (true, s) = stop s
after_command (false, s) = go 0 [] s

abbrev pub changed : ℕ × Session → Next
changed (n, s) = go n [] s

abbrev pub run_command : Outside → Text → ℕ → Bool × Session → Next
run_command o rest c (false, s) = stop s
run_command o rest c (true, s) =
    if c == b'e'
    then changed (change_escape_sequence o rest s)
    else after_command (handle_control_command o c s)

abbrev pub scan_fed : Outside → Text → Text → Fed → Session → Next
scan_fed o rest payload f s = elim f.command [
  | none ↦ go 0 (payload ++ f.bytes) s
  | some c ↦ run_command o rest c (forward_some o (payload ++ f.bytes) s)
]

-- One byte of the chunk, before `rest`.
unfoldable pub scan_byte : Outside → ℕ → Text → Text → Session → Next
unfolding forward_payload change_escape_sequence handle_control_command
scan_byte o b rest payload s =
    let f = feed_escape_byte s.escape b in scan_fed o rest payload f (record s { escape = f.after })

abbrev pub finish : Bool × Session → Bool × Session
finish (ok, s) = (not ok, s)

-- The chunk after `skip` bytes: whether the session is to end, and the session afterwards.
unfoldable pub scan : Outside → ℕ → Text → Text → Session → Bool × Session
unfolding scan_byte
scan o skip [] payload s = finish (forward_some o payload s)
scan o (suc k) (b ∷ bs) payload s = scan o k bs payload s
scan o zero (b ∷ bs) payload s = elim (scan_byte o b bs payload s) [
  | stop s' ↦ (true, s')
  | go n payload' s' ↦ scan o n bs payload' s'
]

unfoldable pub process_input_chunk : Outside → Text → Session → Bool × Session
unfolding scan
process_input_chunk o bytes s = scan o 0 bytes [] s
