-- ===== src/Listener/Input/Gate.antt =====
-- A session of a listener that is read-only (openmux/server/listener_session.py).
use openmux_server.Base.{
  ℕ, zero, suc, ◌≡◌, refl, Bool, true, false, Option, none, some, [], ◌∷◌, ◌++◌, Text, ◌==◌,
  if◌then◌else◌, Bool-cases, Option-cases, inl, inr, All, All-append,
}
use openmux_server.Listener.Escape.{Fed, feed_escape_byte}
use openmux_server.Listener.Input.{
  Effect, wrote, warned, asked, released, told, took, Session, Outside, did, forward_payload,
  forward_some, set_from, set_read, change_escape_sequence, reply, cmd_request_rw, cmd_force_rw,
  cmd_release_rw, handle_control_command, shows, Next, stop, go, after_command, run_command,
  scan_fed, scan_byte, scan, process_input_chunk, has_newline,
}

-- Neither a write nor a request for the write slot.
abbrev pub is_passive : Effect → Bool
is_passive (wrote bytes) = false
is_passive warned = true
is_passive asked = false
is_passive released = true
is_passive told = true
is_passive (took target) = false

abbrev IsPassive : Session → Type 0
IsPassive s = (s.listener_read_only ≡ true) × All (λ e. is_passive e ≡ true) s.trace

did-IsPassive : (e : Effect) (s : Session) → is_passive e ≡ true → IsPassive s → IsPassive (did e s)
did-IsPassive e s h p = (p.0, All-append _ s.trace (e ∷ []) p.1 (h, tt))

-- What a read-only listener does instead.
module _ (o : Outside) (s : Session) (h : s.listener_read_only ≡ true) where
  forward_read_only :
      (bytes : Text)
      → forward_payload o bytes s ≡ (true, (if has_newline bytes then did warned s else s))
  unfolding forward_payload
  forward_read_only bytes = rw h refl

  request_read_only : cmd_request_rw o s ≡ did told s
  unfolding cmd_request_rw
  request_read_only = rw h refl

  force_read_only : cmd_force_rw o s ≡ did told s
  unfolding cmd_force_rw
  force_read_only = rw h refl

forward-IsPassive :
    (o : Outside) (bytes : Text) (s : Session)
    → IsPassive s
    → IsPassive (forward_payload o bytes s).1
forward-IsPassive o bytes s p = elim (Bool-cases (has_newline bytes)) [
  | inl e ↦ rw (forward_read_only o s p.0 bytes, e) (did-IsPassive warned s refl p)
  | inr e ↦ rw (forward_read_only o s p.0 bytes, e) p
]

forward_some-IsPassive :
    (o : Outside) (bytes : Text) (s : Session) → IsPassive s → IsPassive (forward_some o bytes s).1
forward_some-IsPassive o [] s p = p
forward_some-IsPassive o (b ∷ bytes) s p = forward-IsPassive o (b ∷ bytes) s p

set_from-IsPassive : (s : Session) (bytes : Text) → IsPassive s → IsPassive (set_from s bytes)
set_from-IsPassive s [] p = p
set_from-IsPassive s (c ∷ []) p = p
set_from-IsPassive s (c ∷ d ∷ more) p = (p.0, All-append _ s.trace (told ∷ []) p.1 (refl, tt))

set_read-IsPassive :
    (s : Session) (first : Text) (r : Option Text) → IsPassive s → IsPassive (set_read s first r)
set_read-IsPassive s first none p = p
set_read-IsPassive s first (some more) p = set_from-IsPassive s (first ++ more) p

change_escape-IsPassive :
    (o : Outside) (rest : Text) (s : Session)
    → IsPassive s
    → IsPassive (change_escape_sequence o rest s).1
unfolding change_escape_sequence
change_escape-IsPassive o [] s p = set_read-IsPassive s [] (o.read_more s.trace 2) p
change_escape-IsPassive o (c ∷ []) s p = set_read-IsPassive s (c ∷ []) (o.read_more s.trace 1) p
change_escape-IsPassive o (c ∷ d ∷ more) s p =
    (p.0, All-append _ s.trace (told ∷ []) p.1 (refl, tt))

release-IsPassive : (o : Outside) (s : Session) → IsPassive s → IsPassive (reply o released s)
release-IsPassive o s p = elim (Bool-cases o.has_manager) [
  | inl e ↦ rw e (
    p.0,
    All-append _ (s.trace ++ released ∷ []) (told ∷ [])
        (All-append _ s.trace (released ∷ []) p.1 (refl, tt)) (refl, tt),
  )
  | inr e ↦ rw e (did-IsPassive told s refl p)
]

command-IsPassive :
    (o : Outside) (c : ℕ) (s : Session) → IsPassive s → IsPassive (handle_control_command o c s).1
unfolding handle_control_command cmd_release_rw
command-IsPassive o c s p = elim (Bool-cases (c == b'a')) [
  | inl e ↦ rw (e, request_read_only o s p.0) (did-IsPassive told s refl p)
  | inr e ↦ elim (Bool-cases (c == b'f')) [
    | inl f ↦ rw (e, f, force_read_only o s p.0) (did-IsPassive told s refl p)
    | inr f ↦ elim (Bool-cases (c == b's')) [
      | inl g ↦ rw (e, f, g) (release-IsPassive o s p)
      | inr g ↦ elim (Bool-cases (shows c)) [
        | inl h ↦ rw (e, f, g, h) (did-IsPassive told s refl p)
        | inr h ↦ elim (Bool-cases (c == b'.')) [
          | inl k ↦ rw (e, f, g, h, k) (did-IsPassive told s refl p)
          | inr k ↦ rw (e, f, g, h, k) p
        ]
      ]
    ]
  ]
]

abbrev IsPassiveNext : Next → Type 0
IsPassiveNext (stop s) = IsPassive s
IsPassiveNext (go n payload s) = IsPassive s

after-IsPassive : (r : Bool × Session) → IsPassive r.1 → IsPassiveNext (after_command r)
after-IsPassive (true, s) p = p
after-IsPassive (false, s) p = p

run-IsPassive :
    (o : Outside) (rest : Text) (c : ℕ) (r : Bool × Session)
    → IsPassive r.1
    → IsPassiveNext (run_command o rest c r)
run-IsPassive o rest c (false, s) p = p
run-IsPassive o rest c (true, s) p = elim (Bool-cases (c == b'e')) [
  | inl e ↦ rw e (change_escape-IsPassive o rest s p)
  | inr e ↦ rw e (after-IsPassive (handle_control_command o c s) (command-IsPassive o c s p))
]

fed-IsPassive :
    (o : Outside) (rest payload : Text) (f : Fed) (s : Session)
    → IsPassive s
    → IsPassiveNext (scan_fed o rest payload f s)
fed-IsPassive o rest payload f s p = elim (Option-cases f.command) [
  | inl e ↦ rw e p
  | inr (c, e) ↦ rw e (
      run-IsPassive o rest c (forward_some o (payload ++ f.bytes) s)
        (forward_some-IsPassive o (payload ++ f.bytes) s p))
]

scan-IsPassive :
    (o : Outside) (skip : ℕ) (bytes payload : Text) (s : Session)
    → IsPassive s
    → IsPassive (scan o skip bytes payload s).1
unfolding scan scan_byte
scan-IsPassive o zero [] payload s p = forward_some-IsPassive o payload s p
scan-IsPassive o (suc k) [] payload s p = forward_some-IsPassive o payload s p
scan-IsPassive o (suc k) (b ∷ bs) payload s p = scan-IsPassive o k bs payload s p
scan-IsPassive o zero (b ∷ bs) payload s p =
    onwards (λ k t s'. scan o k bs t s') (λ k t s' q. scan-IsPassive o k bs t s' q)
      (scan_byte o b bs payload s) (fed-IsPassive o bs payload (feed_escape_byte s.escape b) _ p)
  where
    onwards :
        (again : ℕ → Text → Session → Bool × Session)
        → ((k : ℕ) (t : Text) (s' : Session) → IsPassive s' → IsPassive (again k t s').1)
        → (n : Next) → IsPassiveNext n
        → IsPassive
            (elim n as (λ q. Bool × Session) [ stop s' ↦ (true, s') | go k t s' ↦ again k t s' ]).1
    onwards again keeps (stop s') q = q
    onwards again keeps (go k t s') q = keeps k t s' q

-- A session of a read-only listener stays one, and whatever is typed, with whatever answers, it
-- writes nothing to the port and does not ask for the write slot, nor take it.
pub process_input_chunk-IsPassive :
    (o : Outside) (bytes : Text) (s : Session)
    → s.listener_read_only ≡ true
    → s.trace ≡ []
    → ((process_input_chunk o bytes s).1.listener_read_only ≡ true)
      × All (λ e. is_passive e ≡ true) (process_input_chunk o bytes s).1.trace
unfolding process_input_chunk
process_input_chunk-IsPassive o bytes s h e = scan-IsPassive o 0 bytes [] s (h, rw e tt)
