-- ===== src/Protocol/Logins.antt =====
-- openmux/server/adapters/protocols/conserver.py: what a handshake sends to the server.
use openmux_server.Base.{
  ◌≡◌, refl, ◌∙◌, ap, ◌⊎◌, inl, inr, false, List, [], ◌∷◌, ◌++◌, Text, codes, starts_with,
  Bool-cases,
}
use openmux_server.Action.Utf8.{encode}
use openmux_server.Protocol.Handshake.{
  HandshakeError, Settings, Link, read_line, after_line, send_line, login, login_line, call_line,
  call, shake, master_handshake, group_handshake, master_response, group_response,
}
use openmux_server.Results.{Result, returned, raised}

abbrev sent_line : Text → Text
sent_line t = encode (t ++ 10 ∷ [])

-- The server does not ask for a password: its second line is something else.
abbrev pub Unasked : Link → Type 0
Unasked k = starts_with (read_line (after_line k)) (codes "passwd?") ≡ false

-- What a handshake may have sent then: nothing, the user name, or that and the call.
abbrev pub Plain : Settings → List Text → Type 0
Plain s sent =
    (sent ≡ [])
    ⊎ ((sent ≡ sent_line (login_line s) ∷ [])
        ⊎ (sent ≡ sent_line (login_line s) ∷ sent_line (call_line s) ∷ []))

login-sent :
    (s : Settings) (k : Link)
    → starts_with (read_line (send_line (login_line s) k)) (codes "passwd?") ≡ false
    → (login s k).1.sent ≡ k.sent ++ sent_line (login_line s) ∷ []
unfolding login
login-sent s k h =
    elim (Bool-cases (starts_with (read_line (send_line (login_line s) k)) (codes "ok"))) [
      | inl e ↦ rw (h, e) refl
      | inr e ↦ rw (h, e) refl
    ]

module _ {A : Type 0} (s : Settings) (read : Text → Result HandshakeError A) where
  call-Plain :
      (r : Result HandshakeError Unit × Link)
      → r.1.sent ≡ sent_line (login_line s) ∷ []
      → Plain s (call s read r).1.sent
  call-Plain (raised e, k) h = inr (inl h)
  call-Plain (returned u, k) h = inr (inr (ap (λ z. z ++ sent_line (call_line s) ∷ []) h))

  shake-Plain : (k : Link) → k.sent ≡ [] → Unasked k → Plain s (shake s read k).1.sent
  shake-Plain k n h = elim (Bool-cases (starts_with (read_line k) (codes "ok"))) [
    | inl e ↦ rw e (
        call-Plain (login s (after_line k))
          (login-sent s (after_line k) h ∙ ap (λ z. z ++ sent_line (login_line s) ∷ []) n))
    | inr e ↦ rw e (inl n)
  ]

-- Neither handshake that starts with nothing sent, where the server does not ask for a password,
-- sends it, whatever else the server sends and however the handshake ends: no more is sent than the
-- user name and the call.
pub handshakes-Plain :
    (s : Settings) (k : Link)
    → k.sent ≡ []
    → Unasked k
    → Plain s (master_handshake s k).1.sent × Plain s (group_handshake s k).1.sent
unfolding master_handshake group_handshake
handshakes-Plain s k n h = (shake-Plain s master_response k n h, shake-Plain s group_response k n h)
