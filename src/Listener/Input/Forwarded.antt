-- ===== src/Listener/Input/Forwarded.antt =====
-- Input without a command, in a session that may write (openmux/server/listener_session.py).
use openmux_server.Base.{
  ℕ, ◌≡◌, refl, ap, ◌∙◌, subst, Bool, true, not, none, List, [], ◌∷◌, ◌++◌, Text, All, append_assoc,
  append-nil,
}
use openmux_server.Listener.Escape.{
  EscapeState, Fed, feed_escape_byte, feed_all, typed_all, pending, typed_all-feed_all,
}
use openmux_server.Listener.Input.{
  wrote, not_raised, Session, Outside, did, may_write, forward_payload, forward_some, stop, go,
  scan_fed, scan_byte, finish, scan, process_input_chunk,
}

-- The bytes that the escape parser lets through.
abbrev pub forwarded : List Fed → Text
forwarded [] = []
forwarded (f ∷ fs) = f.bytes ++ forwarded fs

abbrev pub NoCommand : List Fed → Type 0
NoCommand = All (λ (f : Fed). f.command ≡ none)

typed_all-NoCommand : (e1 e2 : ℕ) (fs : List Fed) → NoCommand fs → typed_all e1 e2 fs ≡ forwarded fs
typed_all-NoCommand e1 e2 [] n = refl
typed_all-NoCommand e1 e2 (f ∷ fs) n = rw (n.0, typed_all-NoCommand e1 e2 fs n.1) refl

fed_plain :
    (o : Outside) (rest payload : Text) (f : Fed) (s : Session)
    → f.command ≡ none
    → scan_fed o rest payload f s ≡ go 0 (payload ++ f.bytes) s
fed_plain o rest payload f s e = rw e refl

byte_plain :
    (o : Outside) (b : ℕ) (rest payload : Text) (s : Session)
    → (feed_escape_byte s.escape b).command ≡ none
    → scan_byte o b rest payload s
      ≡ go 0
          (payload ++ (feed_escape_byte s.escape b).bytes)
          (record s { escape = (feed_escape_byte s.escape b).after })
unfolding scan_byte
byte_plain o b rest payload s e =
    let f = feed_escape_byte s.escape b in
    fed_plain o rest payload f (record s { escape = f.after }) e

scan_go :
    (o : Outside) (b n : ℕ) (bs payload q : Text) (s s' : Session)
    → scan_byte o b bs payload s ≡ go n q s'
    → scan o 0 (b ∷ bs) payload s ≡ scan o n bs q s'
unfolding scan
scan_go o b n bs payload q s s' e =
    ap (λ r. elim r as (λ x. Bool × Session) [ stop u ↦ (true, u) | go k t u ↦ scan o k bs t u ]) e

scan_plain :
    (o : Outside) (bytes payload : Text) (s : Session)
    → NoCommand (feed_all s.escape bytes).0
    → scan o 0 bytes payload s
      ≡ finish (
          forward_some o
            (payload ++ forwarded (feed_all s.escape bytes).0)
            (record s { escape = (feed_all s.escape bytes).1 }))
unfolding scan feed_all
scan_plain o [] payload s n = rw (append-nil payload) refl
scan_plain o (b ∷ bs) payload s n =
    let f = feed_escape_byte s.escape b in
    let s' : Session = record s { escape = f.after } in
    let end : Session = record s { escape = (feed_all f.after bs).1 } in
    scan_go o b 0 bs payload (payload ++ f.bytes) s s' (byte_plain o b bs payload s n.0)
    ∙ (scan_plain o bs (payload ++ f.bytes) s' n.1
        ∙ ap (λ q. finish (forward_some o q end))
            (append_assoc payload f.bytes (forwarded (feed_all f.after bs).0)))

written :
    (o : Outside) (b : ℕ) (p : Text) (s : Session)
    → may_write s ≡ true
    → o.has_manager ≡ true
    → forward_some o (b ∷ p) s
      ≡ (not_raised (o.write_answer s.trace (b ∷ p)), did (wrote (b ∷ p)) s)
unfolding forward_payload
written o b p s h k = rw (h, k) refl

-- In a session that may write, with a console manager, a chunk in which no command is completed is
-- handed to the port in one piece, unless the whole chunk is held back: what was held back before,
-- followed by the chunk, is what is handed over, followed by what is held back then. The session goes
-- on unless the write raises, also when the write answers that it failed, and changes in nothing
-- else.
pub process_input_chunk_writes :
    (o : Outside) (bytes : Text) (s : Session) (b : ℕ) (p : Text)
    → may_write s ≡ true
    → o.has_manager ≡ true
    → NoCommand (feed_all s.escape bytes).0
    → forwarded (feed_all s.escape bytes).0 ≡ b ∷ p
    → (t : EscapeState) × (process_input_chunk o bytes s ≡ (
      not (not_raised (o.write_answer s.trace (b ∷ p))),
      did (wrote (b ∷ p)) (record s { escape = t }),
    ))
      × ((b ∷ p) ++ pending t ≡ pending s.escape ++ bytes)
unfolding process_input_chunk
process_input_chunk_writes o bytes s b p h k n e =
    let t = (feed_all s.escape bytes).1 in
    let all : typed_all s.escape.escape_char1 s.escape.escape_char2 (feed_all s.escape bytes).0
        ≡ b ∷ p =
      typed_all-NoCommand _ _ (feed_all s.escape bytes).0 n ∙ e in
    (
      t,
      scan_plain o bytes [] s n
          ∙ (ap (λ q. finish (forward_some o q (record s { escape = t }))) e
              ∙ ap finish (written o b p (record s { escape = t }) h k)),
      subst (λ q. q ++ pending t ≡ pending s.escape ++ bytes) all
          (typed_all-feed_all s.escape bytes),
    )
