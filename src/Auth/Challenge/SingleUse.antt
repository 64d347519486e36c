-- ===== src/Auth/Challenge/SingleUse.antt =====
-- When the login by an HMAC of openmux/server/auth_manager.py succeeds, and how often.
use openmux_server.Base.{
  ℕ, ◌+◌, ◌≡◌, refl, ap, inl, inr, ◌∙◌, ◌≤◌, Bool, true, false, Option, none, some, List, [], ◌∷◌,
  Text, same_refl, arith, ltb, All, Bool-cases, Option-cases,
}
use openmux_server.Auth.{Config}
use openmux_server.Auth.Lockout.{Limits, Failures, register_auth_failure, is_user_locked}
use openmux_server.Auth.Challenge.{
  Codecs, Challenge, Login, failures_of, track, get_password_hash_hex,
  start_password_hmac_challenge, matches, verify_entry, verify_password_hmac,
}

track-challenge :
    (src : Text) (r : Option Failures) (s : Login) → (track src r s).challenge ≡ s.challenge
track-challenge src none s = refl
track-challenge src (some r) s = refl

module _ (k : Codecs) (l : Limits) (now : ℕ) (src hmac : Text) (s : Login) where
  abbrev after_asking : Login
  after_asking = track src (is_user_locked l now (failures_of src s)).1 s

  locked_out :
      (is_user_locked l now (failures_of src s)).0 ≡ true
      → verify_password_hmac k l now src hmac s ≡ (false, after_asking)
  unfolding verify_password_hmac
  locked_out h = rw h refl

  let_in :
      (is_user_locked l now (failures_of src s)).0 ≡ false
      → verify_password_hmac k l now src hmac s
        ≡ verify_entry k l now src hmac after_asking s.challenge
  unfolding verify_password_hmac
  let_in h = rw h refl

-- A login that succeeds comes from an address that is not locked, has a challenge that has not
-- expired and the digest that it asks for, and uses the challenge up.
abbrev pub IsAnswered : Codecs → Limits → ℕ → Text → Text → Login → Bool × Login → Type 0
IsAnswered k l now src hmac s r =
    (r.0 ≡ true)
    → ((is_user_locked l now (failures_of src s)).0 ≡ false)
      × ((e : Challenge) × (s.challenge ≡ some e)
          × (now ≤ e.expires_at)
          × (matches k e (k.b64decode hmac) ≡ true))
      × (r.1.challenge ≡ none)

verify_password_hmac-IsAnswered :
    (k : Codecs) (l : Limits) (now : ℕ) (src hmac : Text) (s : Login)
    → IsAnswered k l now src hmac s (verify_password_hmac k l now src hmac s)
verify_password_hmac-IsAnswered k l now src hmac s =
    elim (Bool-cases (is_user_locked l now (failures_of src s)).0) [
      | inl h ↦ rw (locked_out k l now src hmac s h) (λ t. cc)
      | inr h ↦ elim (Option-cases s.challenge) [
        | inl a ↦ rw (let_in k l now src hmac s h, a) (λ t. cc)
        | inr (e, a) ↦ elim (Bool-cases (ltb e.expires_at now)) [
          | inl b ↦ rw (let_in k l now src hmac s h, a, b) (λ t. cc)
          | inr b ↦ elim (Bool-cases (matches k e (k.b64decode hmac))) [
            | inl c ↦
                rw (let_in k l now src hmac s h, h, a, b, c)
                  (λ t. (refl, (e, refl, ground arith, c), refl))
            | inr c ↦ rw (let_in k l now src hmac s h, a, b, c) (λ t. cc)
          ]
        ]
      ]
    ]

-- Without a challenge an attempt is refused, and there is none after it.
no_challenge :
    (k : Codecs) (l : Limits) (now : ℕ) (src hmac : Text) (s : Login)
    → s.challenge ≡ none
    → ((verify_password_hmac k l now src hmac s).0 ≡ false)
      × ((verify_password_hmac k l now src hmac s).1.challenge ≡ none)
no_challenge k l now src hmac s a =
    let asked = after_asking k l now src hmac s in
    let t = track-challenge src (is_user_locked l now (failures_of src s)).1 s in
    elim (Bool-cases (is_user_locked l now (failures_of src s)).0) [
      | inl h ↦ rw (locked_out k l now src hmac s h) (refl, t ∙ a)
      | inr h ↦ rw (let_in k l now src hmac s h ∙ ap (verify_entry k l now src hmac asked) a) (
        refl,
        track-challenge src (register_auth_failure l now (failures_of src asked)) asked ∙ t ∙ a,
      )
    ]

uses_up :
    (k : Codecs) (l : Limits) (now : ℕ) (src hmac : Text) (s : Login)
    → (is_user_locked l now (failures_of src s)).0 ≡ false
    → (verify_password_hmac k l now src hmac s).1.challenge ≡ none
unfolding register_auth_failure
uses_up k l now src hmac s h = elim (Option-cases s.challenge) [
  | inl a ↦ (no_challenge k l now src hmac s a).1
  | inr (e, a) ↦ elim (Bool-cases (ltb e.expires_at now)) [
    | inl b ↦ rw (let_in k l now src hmac s h, a, b) refl
    | inr b ↦ elim (Bool-cases (matches k e (k.b64decode hmac))) [
      | inl c ↦ rw (let_in k l now src hmac s h, a, b, c) refl
      | inr c ↦ rw (let_in k l now src hmac s h, a, b, c) refl
    ]
  ]
]

-- A time, an address and a digest.
abbrev pub Attempt : Type 0
Attempt = ℕ × Text × Text

-- The answers to attempts under the user name, one after the other.
unfoldable pub answers : Codecs → Limits → List Attempt → Login → List Bool
answers k l [] s = []
answers k l ((now, src, hmac) ∷ as') s =
    let (ok, s') = verify_password_hmac k l now src hmac s in ok ∷ answers k l as' s'

refused_after :
    (k : Codecs) (l : Limits) (attempts : List Attempt) (s : Login)
    → s.challenge ≡ none
    → All (λ b. b ≡ false) (answers k l attempts s)
unfolding answers
refused_after k l [] s a = tt
refused_after k l ((now, src, hmac) ∷ more) s a =
    let n = no_challenge k l now src hmac s a in
    (n.0, refused_after k l more (verify_password_hmac k l now src hmac s).1 n.1)

-- A challenge serves one attempt: after an attempt under a user name from an address that is not
-- locked, whatever came of it, all further attempts under the name, from any addresses, with any
-- digests and at any times, are refused as long as no new challenge is started for the name.
pub verify_password_hmac_once :
    (k : Codecs) (l : Limits) (now : ℕ) (src hmac : Text) (more : List Attempt) (s : Login)
    → (is_user_locked l now (failures_of src s)).0 ≡ false
    → All (λ b. b ≡ false) (answers k l more (verify_password_hmac k l now src hmac s).1)
verify_password_hmac_once k l now src hmac more s h =
    refused_after k l more (verify_password_hmac k l now src hmac s).1
      (uses_up k l now src hmac s h)

in_time : (a b : ℕ) → a ≤ b → ltb b a ≡ false
in_time a b h = ground arith

-- For a user with a hash that decodes, the digest of the nonce under that hash logs in from any
-- address that is not locked, if it comes within thirty seconds of the start.
verify_password_hmac-start :
    (k : Codecs) (c : Config) (l : Limits) (username nonce src hmac pw_hex key : Text) (x now t : ℕ)
    (s : Login)
    → get_password_hash_hex c username ≡ some (x ∷ pw_hex)
    → k.fromhex (x ∷ pw_hex) ≡ some key
    → k.b64decode hmac ≡ some (k.hmac_sha256 key nonce)
    → t ≤ now + 30
    → (is_user_locked l t (failures_of src s)).0 ≡ false
    → (verify_password_hmac k l t src hmac
        (start_password_hmac_challenge k c username nonce now s).1).0
      ≡ true
unfolding verify_password_hmac start_password_hmac_challenge
verify_password_hmac-start k c l username nonce src hmac pw_hex key x now t s hash hex decoded soon
      free =
    rw (hash, free, in_time t (now + 30) soon, decoded, hex, same_refl (k.hmac_sha256 key nonce))
      refl
