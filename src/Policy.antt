-- ===== src/Policy.antt =====
-- openmux/server/security_policy.py: the policy that security.yaml states.
pub mod Yaml
pub mod Allowed
pub mod Accepted
pub mod Lockout
mod Tests
use openmux_server.Base.{
  ℕ, Bool, true, false, not, ◌&&◌, ◌||◌, Option, none, some, List, [], ◌∷◌, map, max, Text, codes,
  same, contains, keep, strip, lower, any, ◌==◌, if◌then◌else◌,
}
use openmux_server.Capacity.Integer.{ℤ, pos, negsuc}
use openmux_server.Results.{Result, returned, raised, ◌>>=◌, guard}
use Yaml.{
  Value, null, boolean, integer, float, text, list, mapping, Items, no_item, item, Fields, no_field,
  field, values, keys, get, is_truthy, str,
}

-- `SecurityPolicyError` by its reasons. A number that `int` does not convert raises another error.
pub data PolicyError : Type 0 where
  not_a_mapping : Text → PolicyError
  unknown_keys : Text → List Text → PolicyError
  not_a_list : Text → PolicyError
  unknown_values : Text → List Text → PolicyError
  not_a_number : PolicyError
  not_converted : PolicyError
  not_an_access_default : Value → PolicyError

abbrev pub Checked : Type 0 → Type 0
Checked A = Result PolicyError A

-- A set is the list of its members.
abbrev pub without_all : List Text → List Text → List Text
without_all xs ys = keep (λ x. not (contains x ys)) xs

abbrev pub is_none : List Text → Bool
is_none [] = true
is_none (x ∷ xs) = false

abbrev pub known_adapter_types : List Text
known_adapter_types =
    codes "loopback"
    ∷ codes "tcpinitiator"
    ∷ codes "serial"
    ∷ codes "command"
    ∷ codes "clientlistener"
    ∷ codes "webconsole"
    ∷ codes "muxcon"
    ∷ codes "webstatus"
    ∷ codes "openmuxclient"
    ∷ codes "telnetlistener"
    ∷ codes "sshlistener"
    ∷ codes "power"
    ∷ []

abbrev pub known_config_sections : List Text
known_config_sections =
    codes "server"
    ∷ codes "authentication"
    ∷ codes "logging"
    ∷ codes "loopback_ports"
    ∷ codes "serial_ports"
    ∷ codes "command_ports"
    ∷ codes "tcp_initiator_ports"
    ∷ codes "client_listener"
    ∷ codes "telnet_listener"
    ∷ codes "ssh_listener"
    ∷ codes "muxcon"
    ∷ codes "web_console"
    ∷ codes "web_status"
    ∷ codes "port_actions"
    ∷ codes "power"
    ∷ []

abbrev pub top_level_allowed_keys : List Text
top_level_allowed_keys =
    codes "adapters" ∷ codes "config_editor" ∷ codes "rate_limits" ∷ codes "access_default" ∷ []

abbrev pub allow_deny_keys : List Text
allow_deny_keys = codes "allowed" ∷ codes "disabled" ∷ []

abbrev pub auth_rate_limit_keys : List Text
auth_rate_limit_keys =
    codes "window_seconds" ∷ codes "failure_threshold" ∷ codes "base_lock_seconds" ∷ []

-- `text.replace(ch, "")` of each separator.
abbrev is_separator : ℕ → Bool
is_separator c = c == b'_' || c == b'-' || c == b' '

unfoldable pub canonical_adapter_type : Text → Text
unfolding strip lower
canonical_adapter_type s = keep (λ c. not (is_separator c)) (lower (strip s))

unfoldable pub canonical_section_name : Text → Text
unfolding strip lower
canonical_section_name s = lower (strip s)

-- `data.get(key) or {}`, which is a mapping.
abbrev or_no_field : Option Value → Value
or_no_field none = mapping no_field
or_no_field (some v) = if is_truthy v then v else mapping no_field

abbrev fields_of : Text → Value → Checked Fields
fields_of name null = raised (not_a_mapping name)
fields_of name (boolean b) = raised (not_a_mapping name)
fields_of name (integer n) = raised (not_a_mapping name)
fields_of name (float b n) = raised (not_a_mapping name)
fields_of name (text s) = raised (not_a_mapping name)
fields_of name (list vs) = raised (not_a_mapping name)
fields_of name (mapping d) = returned d

-- Only these keys may stand in a mapping.
unfoldable pub known_keys_only : Text → List Text → Fields → Checked Fields
known_keys_only name allowed d =
    let unknown = without_all (keys d) allowed in
    guard (is_none unknown) (unknown_keys name unknown) >>= λ _. returned d

unfoldable pub validated_block : Fields → Text → List Text → Checked Fields
unfolding get is_truthy known_keys_only
validated_block d name allowed =
    fields_of name (or_no_field (get name d)) >>= λ block. known_keys_only name allowed block

-- A list, where a missing key has its default and null is the empty list.
abbrev list_or : Text → Items → Option Value → Checked (List Value)
list_or key default none = returned (values default)
list_or key default (some null) = returned []
list_or key default (some (boolean b)) = raised (not_a_list key)
list_or key default (some (integer n)) = raised (not_a_list key)
list_or key default (some (float b n)) = raised (not_a_list key)
list_or key default (some (text s)) = raised (not_a_list key)
list_or key default (some (list vs)) = returned (values vs)
list_or key default (some (mapping d)) = raised (not_a_list key)

abbrev pub star : Text
star = codes "*"

-- The names of a list, where the star stands for all that are known.
unfoldable pub names_of : Text → List Text → List Text → Checked (List Text)
names_of key known normalized =
    if contains star normalized
    then returned known
    else (let unknown = without_all normalized known in
        guard (is_none unknown) (unknown_values key unknown) >>= λ _. returned normalized)

module _ (repr : Value → Text) where
  unfoldable pub resolve_one :
      (Text → Text) → List Text → Text → Items → Fields → Checked (List Text)
  unfolding get names_of str
  resolve_one normalize known key default d = list_or key default (get key d) >>= λ vs.
      names_of key known (map (λ v. normalize (str repr v)) vs)

  unfoldable pub resolve_allow_deny_list : (Text → Text) → List Text → Fields → Checked (List Text)
  unfolding resolve_one
  resolve_allow_deny_list normalize known d = do
    allowed ← resolve_one normalize known (codes "allowed") (item (text star) no_item) d
    disabled ← resolve_one normalize known (codes "disabled") no_item d
    returned (without_all allowed disabled)

pub record AuthRateLimits : Type 0 where
  pub window_seconds : ℕ
  pub failure_threshold : ℕ
  pub base_lock_seconds : ℕ

abbrev pub default_auth_rate_limits : AuthRateLimits
default_auth_rate_limits = record {
  window_seconds = 300;
  failure_threshold = 5;
  base_lock_seconds = 30;
}

-- `max(int(value), 1)`
abbrev pub at_least_one : ℤ → ℕ
at_least_one (pos n) = max n 1
at_least_one (negsuc n) = 1

abbrev limit_or : ℕ → Option Value → Checked ℕ
limit_or default none = returned default
limit_or default (some null) = raised not_a_number
limit_or default (some (boolean b)) = raised not_a_number
limit_or default (some (integer n)) = returned (at_least_one n)
limit_or default (some (float b none)) = raised not_converted
limit_or default (some (float b (some n))) = returned (at_least_one n)
limit_or default (some (text s)) = raised not_a_number
limit_or default (some (list vs)) = raised not_a_number
limit_or default (some (mapping d)) = raised not_a_number

unfoldable pub parse_auth_rate_limits : Fields → Checked AuthRateLimits
unfolding validated_block get
parse_auth_rate_limits d = do
  limits ← validated_block d (codes "authentication") auth_rate_limit_keys
  window ← limit_or 300 (get (codes "window_seconds") limits)
  threshold ← limit_or 5 (get (codes "failure_threshold") limits)
  base ← limit_or 30 (get (codes "base_lock_seconds") limits)
  returned
      record { window_seconds = window; failure_threshold = threshold; base_lock_seconds = base }

abbrev access_default_values : List Text
access_default_values = codes "allow" ∷ codes "deny" ∷ []

abbrev access_default_text : Text → Value → Checked Text
access_default_text s v =
    guard (contains s access_default_values) (not_an_access_default v) >>= λ _. returned s

-- Missing and null mean "allow".
unfoldable pub parse_access_default : Option Value → Checked Text
unfolding strip lower
parse_access_default none = returned (codes "allow")
parse_access_default (some null) = returned (codes "allow")
parse_access_default (some (boolean b)) = raised (not_an_access_default (boolean b))
parse_access_default (some (integer n)) = raised (not_an_access_default (integer n))
parse_access_default (some (float b n)) = raised (not_an_access_default (float b n))
parse_access_default (some (text s)) = access_default_text (lower (strip s)) (text s)
parse_access_default (some (list vs)) = raised (not_an_access_default (list vs))
parse_access_default (some (mapping d)) = raised (not_an_access_default (mapping d))

pub record SecurityPolicy : Type 0 where
  pub allowed_adapter_types : List Text
  pub config_editor_writable_sections : List Text
  pub auth_rate_limits : AuthRateLimits
  pub access_default : Text

-- `raw or {}`
abbrev or_empty : Value → Value
or_empty v = if is_truthy v then v else mapping no_field

module _ (repr : Value → Text) where
  -- `from_mapping` below the top level, whose keys are known.
  unfoldable pub policy_of : Fields → Checked SecurityPolicy
  unfolding validated_block resolve_allow_deny_list parse_auth_rate_limits parse_access_default get
  policy_of d = do
    adapters ← validated_block d (codes "adapters") allow_deny_keys
    types ← resolve_allow_deny_list repr canonical_adapter_type known_adapter_types adapters
    editor ← validated_block d (codes "config_editor") allow_deny_keys
    sections ← resolve_allow_deny_list repr canonical_section_name known_config_sections editor
    limits ← validated_block d (codes "rate_limits") (codes "authentication" ∷ [])
    auth ← parse_auth_rate_limits limits
    access ← parse_access_default (get (codes "access_default") d)
    returned record {
      allowed_adapter_types = types;
      config_editor_writable_sections = sections;
      auth_rate_limits = auth;
      access_default = access;
    }

  unfoldable pub from_mapping : Value → Checked SecurityPolicy
  unfolding policy_of known_keys_only is_truthy
  from_mapping raw = do
    d ← fields_of (codes "security.yaml") (or_empty raw)
    known ← known_keys_only (codes "security.yaml") top_level_allowed_keys d
    policy_of known

-- An adapter type that is none or empty is not allowed.
unfoldable pub is_adapter_allowed : SecurityPolicy → Text → Bool
unfolding canonical_adapter_type
is_adapter_allowed p [] = false
is_adapter_allowed p (c ∷ s) = contains (canonical_adapter_type (c ∷ s)) p.allowed_adapter_types

unfoldable is_section_writable : SecurityPolicy → Text → Bool
unfolding canonical_section_name
is_section_writable p s = contains (canonical_section_name s) p.config_editor_writable_sections
