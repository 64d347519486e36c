-- ===== src/Decision/Laws.antt =====
-- Laws of the outcome table and of the wording (openmux/server/access_decision.py).
use openmux_server.Base.{
  ℕ, ◌≡◌, refl, ◌≤◌, ◌-◌, ◌≢◌, ◌⊎◌, inl, inr, Bool, true, false, none, some, List, [], ◌∷◌, Text,
  arith,
}
use openmux_server.Decision.Codes.{Mode, Code, refusal, kind, ok, notice_mode}
use openmux_server.Decision.Rows.{templates}
use openmux_server.Decision.Wording.{
  width, utf8_size, truncate, message, message_limit, lines, brackets, fill, render_terminal_text,
  decision_text,
}
use openmux_server.Decision.{
  AccessDecision, Details, decide, notice, build, Entitlement, entitled_denied, may_drive,
}

utf8_size-truncate : (limit : ℕ) (s : Text) → utf8_size (truncate limit s) ≤ limit
unfolding truncate
utf8_size-truncate limit [] = omega arith
utf8_size-truncate limit (c ∷ s) = ground (arith, utf8_size-truncate (limit - width c) s)

-- The message of every decision has 123 bytes of UTF-8 at most.
utf8_size-message : (d : AccessDecision) → utf8_size (message d) ≤ message_limit
unfolding message
utf8_size-message d = utf8_size-truncate message_limit _

-- A code answers a request or reports a change, and never both: exactly one of the two builders
-- accepts it. A report states the mode that the row fixes.
decide_xor_notice :
    (c : Code) (m : Mode) (d : Details)
    → ((decide c m d ≡ some (build c m d)) × (notice c d ≡ none))
      ⊎ ((decide c m d ≡ none)
          × ((n : Mode) × (notice_mode c ≡ some n) × (notice c d ≡ some (build c n d))))
unfolding decide notice
decide_xor_notice Code.attached m d = ground arith
decide_xor_notice _ m d = ground arith

-- Only a refusal code makes a denial, and what is denied may not drive.
entitled_denied-refusal :
    (c : Code) (e : Entitlement)
    → entitled_denied c ≡ some e
    → (kind c ≡ refusal) × (ok c ≡ false) × (may_drive e ≡ false) × (e.code ≡ some c)
entitled_denied-refusal Code.attached e h = ground arith
entitled_denied-refusal _ e h = ground arith

-- The four grants of an attach, which the connect line already reports.
abbrev pub is_attach_grant : Code → Bool
is_attach_grant Code.attached = true
is_attach_grant Code.read_only_standing = true
is_attach_grant Code.capacity_full = true
is_attach_grant Code.capacity_none = true
is_attach_grant _ = false

abbrev IsWorded : Code → List Text → Type 0
IsWorded c ls =
    ((is_attach_grant c ≡ true) × (ls ≡ []) × (render_terminal_text ls ≡ []))
    ⊎ ((is_attach_grant c ≡ false) × (ls ≢ []) × (render_terminal_text ls ≢ []))

brackets-IsWorded : (d : AccessDecision) (c : Code) → IsWorded c (brackets d (templates c))
unfolding brackets templates fill render_terminal_text
brackets-IsWorded d Code.attached = inl (refl, refl, refl)
brackets-IsWorded d Code.read_only_standing = inl (refl, refl, refl)
brackets-IsWorded d Code.capacity_full = inl (refl, refl, refl)
brackets-IsWorded d Code.capacity_none = inl (refl, refl, refl)
brackets-IsWorded d _ = inr (refl, (λ e. cc), (λ e. cc))

-- Every decision but an attach grant shows a line, and prints bytes on a terminal; an attach grant
-- is silent on both.
lines-IsWorded :
    (d : AccessDecision)
    → ((is_attach_grant d.code ≡ true) × (lines d ≡ []) × (decision_text d ≡ []))
      ⊎ ((is_attach_grant d.code ≡ false) × (lines d ≢ []) × (decision_text d ≢ []))
unfolding lines decision_text
lines-IsWorded d = brackets-IsWorded d d.code
