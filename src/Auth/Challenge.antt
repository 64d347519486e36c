-- ===== src/Auth/Challenge.antt =====
-- openmux/server/auth_manager.py: the login by an HMAC of the password hash, for one user name
-- (`start_password_hmac_challenge`, `verify_password_hmac`): its challenge, which all addresses
-- share, and its failures from each address. The codecs and the HMAC are
-- those of the Python library, and the nonce is drawn by the caller.
pub mod SingleUse
use openmux_server.Base.{
  ℕ, ◌+◌, ◌≡◌, refl, ◌⊎◌, inl, inr, ◌≤◌, Bool, true, false, Option, none, some, [], ◌∷◌, Text, same,
  arith, ltb, Bool-cases, if◌then◌else◌,
}
use openmux_server.Dict.{Dict, lookup, insert, erase}
use openmux_server.Auth.{Config, User, find_user}
use openmux_server.Auth.Lockout.{
  Limits, Failures, register_auth_failure, is_user_locked, failed_login,
}

pub record Codecs : Type 0 where
  pub b64encode : Text → Text
  pub b64decode : Text → Option Text
  pub fromhex : Text → Option Text
  pub hmac_sha256 : Text → Text → Text

pub record Challenge : Type 0 where
  pub nonce_raw : Text
  pub expires_at : ℕ
  pub pw_hex : Text

-- The entry of `_pw_hmac_challenges` for the user name, and those of `_fail_tracker` for the user name
-- by address.
pub record Login : Type 0 where
  pub challenge : Option Challenge
  pub failures : Dict Failures

abbrev pub failures_of : Text → Login → Option Failures
failures_of src s = lookup src s.failures

-- The failures of an address become those, or are removed.
abbrev pub track : Text → Option Failures → Login → Login
track src none s = record s { failures = erase src s.failures }
track src (some r) s = record s { failures = insert src r s.failures }

abbrev hash_of : Option User → Option Text
hash_of none = none
hash_of (some u) = some u.password_hash

abbrev pub get_password_hash_hex : Config → Text → Option Text
get_password_hash_hex c username = hash_of (find_user c username)

-- No challenge without a hash.
abbrev pub start_with : Codecs → Text → ℕ → Option Text → Login → Option Text × Login
start_with k nonce now none s = (none, s)
start_with k nonce now (some []) s = (none, s)
start_with k nonce now (some (h ∷ hs)) s = (
  some (k.b64encode nonce),
  record s {
    challenge = some record { nonce_raw = nonce; expires_at = now + 30; pw_hex = h ∷ hs };
  },
)

unfoldable pub start_password_hmac_challenge :
    Codecs → Config → Text → Text → ℕ → Login → Option Text × Login
start_password_hmac_challenge k c username nonce now s =
    start_with k nonce now (get_password_hash_hex c username) s

abbrev keyed : Codecs → Text → Text → Option Text → Bool
keyed k nonce received none = false
keyed k nonce received (some key) = same (k.hmac_sha256 key nonce) received

abbrev hashed : Codecs → Text → Text → Text → Bool
hashed k nonce received [] = false
hashed k nonce received (h ∷ hs) = keyed k nonce received (k.fromhex (h ∷ hs))

-- What was received decodes, the hash is there and decodes, and the digests agree.
abbrev pub matches : Codecs → Challenge → Option Text → Bool
matches k e none = false
matches k e (some received) = hashed k e.nonce_raw received e.pw_hex

abbrev counted_failure : Limits → ℕ → Text → Login → Login
counted_failure l now src s = track src (register_auth_failure l now (failures_of src s)) s

abbrev pub forgotten : Login → Login
forgotten s = record s { challenge = none }

abbrev answered : Limits → ℕ → Text → Login → Bool → Bool × Login
answered l now src s true = (true, track src none (forgotten s))
answered l now src s false = (false, counted_failure l now src (forgotten s))

abbrev pub verify_entry :
    Codecs → Limits → ℕ → Text → Text → Login → Option Challenge → Bool × Login
verify_entry k l now src hmac s none = (false, counted_failure l now src s)
verify_entry k l now src hmac s (some e) =
    if ltb e.expires_at now
    then (false, counted_failure l now src (forgotten s))
    else answered l now src s (matches k e (k.b64decode hmac))

-- `src` is the address, or "?".
unfoldable pub verify_password_hmac : Codecs → Limits → ℕ → Text → Text → Login → Bool × Login
verify_password_hmac k l now src hmac s =
    let (locked, r) = is_user_locked l now (failures_of src s) in
    if locked
    then (false, track src r s)
    else verify_entry k l now src hmac (track src r s) s.challenge
