-- ===== src/Listener/Escape.antt =====
-- openmux/server/listener_session.py: the escape sequence of the control menu
-- (`EscapeState`, `feed_escape_byte`), one input byte at a time.
use openmux_server.Base.{
  ℕ, ◌≡◌, refl, sym, ◌∙◌, ap, Option, none, some, List, [], ◌∷◌, ◌++◌, append_assoc, append-nil,
  Text, arith, ◌==◌, if◌then◌else◌,
}

pub record EscapeState : Type 0 where
  pub escape_char1 : ℕ
  pub escape_char2 : ℕ
  pub state : ℕ

-- The bytes to forward, the command that is complete, and the state afterwards.
pub record Fed : Type 0 where
  pub bytes : Text
  pub command : Option ℕ
  pub after : EscapeState

unfoldable pub feed_escape_byte : EscapeState → ℕ → Fed
feed_escape_byte s b =
    if s.state == 0
    then (if b == s.escape_char1
        then record { bytes = []; command = none; after = record s { state = 1 } }
        else record { bytes = b ∷ []; command = none; after = s })
    else if s.state == 1
    then (if b == s.escape_char2
        then record { bytes = []; command = none; after = record s { state = 2 } }
        else record {
          bytes = s.escape_char1 ∷ b ∷ [];
          command = none;
          after = record s { state = 0 };
        })
    else record { bytes = []; command = some b; after = record s { state = 0 } }

-- What the bytes of an input give, in order, and the state at its end.
unfoldable pub feed_all : EscapeState → Text → List Fed × EscapeState
feed_all s [] = ([], s)
feed_all s (b ∷ bs) =
    let f = feed_escape_byte s b in let (fs, t) = feed_all f.after bs in (f ∷ fs, t)

-- The input that an outcome stands for: what was forwarded, or the sequence of a command.
abbrev pub typed : ℕ → ℕ → Fed → Text
typed e1 e2 f = elim f.command [ none ↦ f.bytes | some c ↦ e1 ∷ e2 ∷ c ∷ [] ]

abbrev pub typed_all : ℕ → ℕ → List Fed → Text
typed_all e1 e2 [] = []
typed_all e1 e2 (f ∷ fs) = typed e1 e2 f ++ typed_all e1 e2 fs

-- The part of a sequence that a state has taken in.
abbrev pub pending : EscapeState → Text
pending s =
    if s.state == 0
    then []
    else if s.state == 1
    then s.escape_char1 ∷ []
    else s.escape_char1 ∷ s.escape_char2 ∷ []

feed-typed :
    (s : EscapeState) (b : ℕ)
    → typed s.escape_char1 s.escape_char2 (feed_escape_byte s b)
        ++ pending (feed_escape_byte s b).after
      ≡ pending s ++ b ∷ []
unfolding feed_escape_byte
feed-typed s b = ground arith

feed_keeps_chars :
    (s : EscapeState) (b : ℕ)
    → ((feed_escape_byte s b).after.escape_char1 ≡ s.escape_char1)
      × ((feed_escape_byte s b).after.escape_char2 ≡ s.escape_char2)
unfolding feed_escape_byte
feed_keeps_chars s b = ground arith

typed_all-eq :
    (e1 e2 : ℕ) (s : EscapeState) (bs : Text)
    → s.escape_char1 ≡ e1
    → s.escape_char2 ≡ e2
    → typed_all e1 e2 (feed_all s bs).0 ++ pending (feed_all s bs).1 ≡ pending s ++ bs
unfolding feed_all
typed_all-eq e1 e2 s [] h k = sym (append-nil (pending s))
typed_all-eq e1 e2 s (b ∷ bs) h k =
    let f = feed_escape_byte s b in
    let ih =
      typed_all-eq e1 e2 f.after bs ((feed_keeps_chars s b).0 ∙ h) ((feed_keeps_chars s b).1 ∙ k) in
    let one : typed e1 e2 f ++ pending f.after ≡ pending s ++ b ∷ [] =
      rw (← h, ← k) (feed-typed s b) in
    append_assoc (typed e1 e2 f) _ _
    ∙ (ap (◌++◌ (typed e1 e2 f)) ih
        ∙ (sym (append_assoc (typed e1 e2 f) (pending f.after) bs)
            ∙ (ap (λ t. t ++ bs) one ∙ append_assoc (pending s) (b ∷ []) bs)))

-- No input byte is lost or made up: the sequence pending before, followed by the input, is what was
-- forwarded and commanded in order, followed by the sequence pending after.
pub typed_all-feed_all :
    (s : EscapeState) (bs : Text)
    → let (fs, t) = feed_all s bs in
      typed_all s.escape_char1 s.escape_char2 fs ++ pending t ≡ pending s ++ bs
typed_all-feed_all s bs = typed_all-eq s.escape_char1 s.escape_char2 s bs refl refl

-- An input that arrives in two chunks gives what it gives in one.
feed_all-append :
    (s : EscapeState) (xs ys : Text)
    → let (fs, t) = feed_all s xs in
      let (gs, u) = feed_all t ys in feed_all s (xs ++ ys) ≡ (fs ++ gs, u)
unfolding feed_all
feed_all-append s [] ys = refl
feed_all-append s (x ∷ xs) ys = ground (arith, feed_all-append (feed_escape_byte s x).after xs ys)
