-- ===== src/Listener/Tests.antt =====
-- Chunks of input of openmux/server/listener_session.py, with the escape sequence ctrl-E c.
use openmux_server.Base.{◌≡◌, refl, true, false, none, some, [], ◌∷◌, ◌++◌, codes, All}
use openmux_server.Decision.Codes.{read_write}
use openmux_server.Listener.Escape.{EscapeState, feed_escape_byte, feed_all, pending}
use openmux_server.Listener.Input.{
  wrote, warned, released, told, Session, Outside, did, process_input_chunk,
}
use openmux_server.Listener.Input.Gate.{is_passive, process_input_chunk-IsPassive}
use openmux_server.Listener.Input.Forwarded.{process_input_chunk_writes}

abbrev keys : EscapeState
keys = record { escape_char1 = 5; escape_char2 = 99; state = 0 }

abbrev writer : Session
writer = record { escape = keys; port_mode = read_write; listener_read_only = false; trace = [] }

abbrev watcher : Session
watcher = record { escape = keys; port_mode = read_write; listener_read_only = true; trace = [] }

abbrev calm : Outside
calm = record {
  has_manager = true;
  write_answer = λ e p. some false;
  mode_after = λ e. read_write;
  read_take_target = λ e. some none;
  read_more = λ e n. none;
}

-- A command and a line, on a listener that is read-only.
process_input_chunk-IsPassive_example :
    let s = (process_input_chunk calm (5 ∷ 99 ∷ codes "als" ++ 13 ∷ []) watcher).1 in
    (s.listener_read_only ≡ true) × All (λ e. is_passive e ≡ true) s.trace
process_input_chunk-IsPassive_example =
    process_input_chunk-IsPassive calm (5 ∷ 99 ∷ codes "als" ++ 13 ∷ []) watcher refl refl

watched :
    (process_input_chunk calm (5 ∷ 99 ∷ codes "als" ++ 13 ∷ []) watcher).1.trace
    ≡ told ∷ warned ∷ []
unfolding process_input_chunk feed_escape_byte
watched = refl

process_input_chunk_writes_example :
    (t : EscapeState) × (process_input_chunk calm (codes "ls" ++ 5 ∷ []) writer
      ≡ (false, did (wrote (codes "ls")) (record writer { escape = t })))
    × (codes "ls" ++ pending t ≡ codes "ls" ++ 5 ∷ [])
unfolding feed_all feed_escape_byte
process_input_chunk_writes_example =
    process_input_chunk_writes calm (codes "ls" ++ 5 ∷ []) writer 108 (115 ∷ []) refl refl
      (refl, (refl, (refl, tt))) refl

-- A release, a command to end, and what follows is not read.
ended :
    process_input_chunk calm (codes "x" ++ 5 ∷ 99 ∷ codes "s" ++ 5 ∷ 99 ∷ codes ".y") writer
    ≡ (true, record writer { trace = wrote (codes "x") ∷ released ∷ told ∷ told ∷ [] })
unfolding process_input_chunk feed_escape_byte
ended = refl
