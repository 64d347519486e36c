-- ===== src/Protocol/Handshake.antt =====
-- openmux/server/adapters/protocols/conserver.py: the two handshakes of `establish`, line by line.
use openmux_server.Base.{
  Bool, true, false, Option, none, some, List, [], ◌∷◌, ◌++◌, Text, codes, starts_with, strip,
  if◌then◌else◌,
}
use openmux_server.Action.Utf8.{decode, encode}
use openmux_server.Capacity.Integer.{ℤ, parse_int}
use openmux_server.Results.{Result, returned, raised}

-- `ConnectionError` by its reasons.
pub data HandshakeError : Type 0 where
  not_ready : HandshakeError
  password_missing : HandshakeError
  login_failed : HandshakeError
  remote_redirect : HandshakeError
  unexpected_response : HandshakeError
  attach_failed : HandshakeError

pub record Settings : Type 0 where
  pub console_name : Text
  pub username : Text
  pub password : Text

-- The lines that the server still sends, and the bytes that were sent to it, line by line.
pub record Link : Type 0 where
  pub incoming : List Text
  pub sent : List Text

-- `_read_line`: at the end of the stream the line is empty.
abbrev line_of : List Text → Text
line_of [] = []
line_of (l ∷ ls) = l

abbrev lines_after : List Text → List Text
lines_after [] = []
lines_after (l ∷ ls) = ls

abbrev pub read_line : Link → Text
read_line k = strip (decode (line_of k.incoming))

abbrev pub after_line : Link → Link
after_line k = record k { incoming = lines_after k.incoming }

-- `_send_line`
abbrev pub send_line : Text → Link → Link
send_line t k = record k { sent = k.sent ++ encode (t ++ 10 ∷ []) ∷ [] }

abbrev is_empty : Text → Bool
is_empty [] = true
is_empty (c ∷ s) = false

-- The end of `_login`: the answer to the user name or to the password.
abbrev logged_in : Text → Link → Result HandshakeError Unit × Link
logged_in response k =
    if starts_with response (codes "ok") then (returned tt, k) else (raised login_failed, k)

abbrev answer_password : Settings → Text → Link → Result HandshakeError Unit × Link
answer_password s response k =
    if starts_with response (codes "passwd?")
    then if is_empty s.password
      then (raised password_missing, k)
      else logged_in (read_line (send_line s.password k)) (after_line (send_line s.password k))
    else logged_in response k

abbrev pub login_line : Settings → Text
login_line s = codes "login " ++ s.username

abbrev pub call_line : Settings → Text
call_line s = codes "call " ++ s.console_name

-- `_login`
unfoldable pub login : Settings → Link → Result HandshakeError Unit × Link
unfolding strip decode encode starts_with
login s k =
    answer_password s (read_line (send_line (login_line s) k))
      (after_line (send_line (login_line s) k))

-- The part of a handshake after the login: `call`, and what is read from the answer.
abbrev pub call :
    {A : Type 0}
    → Settings
    → (Text → Result HandshakeError A)
    → Result HandshakeError Unit × Link
    → Result HandshakeError A × Link
call s read (raised e, k) = (raised e, k)
call s read (returned u, k) =
    (read (read_line (send_line (call_line s) k)), after_line (send_line (call_line s) k))

-- The greeting, the login and the call.
abbrev pub shake :
    {A : Type 0}
    → Settings
    → (Text → Result HandshakeError A)
    → Link
    → Result HandshakeError A × Link
shake s read k =
    if starts_with (read_line k) (codes "ok")
    then call s read (login s (after_line k))
    else (raised not_ready, after_line k)

abbrev port_of : Option ℤ → Result HandshakeError ℤ
port_of none = raised unexpected_response
port_of (some n) = returned n

unfoldable pub master_response : Text → Result HandshakeError ℤ
unfolding starts_with parse_int
master_response t =
    if starts_with t (codes "@") then raised remote_redirect else port_of (parse_int t)

unfoldable pub group_response : Text → Result HandshakeError Unit
unfolding starts_with
group_response t = if starts_with t (codes "[") then returned tt else raised attach_failed

-- `_master_handshake` and `_group_handshake`
unfoldable pub master_handshake : Settings → Link → Result HandshakeError ℤ × Link
unfolding login master_response starts_with strip decode encode
master_handshake s k = shake s master_response k

unfoldable pub group_handshake : Settings → Link → Result HandshakeError Unit × Link
unfolding login group_response starts_with strip decode encode
group_handshake s k = shake s group_response k
