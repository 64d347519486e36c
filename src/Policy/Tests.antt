-- ===== src/Policy/Tests.antt =====
-- Runs of the security policy on small files.
use openmux_server.Base.{
  ◌≡◌, refl, false, not, ◌&&◌, none, List, [], ◌∷◌, Text, codes, same, lower, strip, contains,
}
use openmux_server.Auth.Lockout.{Limits, failed_login, is_user_locked}
use openmux_server.Capacity.Integer.{pos}
use openmux_server.Results.{returned, ◌>>=◌}
use openmux_server.Policy.{
  SecurityPolicy, from_mapping, policy_of, validated_block, known_keys_only,
  resolve_allow_deny_list, resolve_one, names_of, parse_auth_rate_limits, parse_access_default,
  canonical_adapter_type, canonical_section_name, known_adapter_types, known_config_sections,
  default_auth_rate_limits, star, top_level_allowed_keys,
}
use openmux_server.Policy.Accepted.{IsKnown, HasKnownBlocks, from_mapping-keys}
use openmux_server.Policy.Allowed.{Lists, states_name, resolve_allow_deny_list-names}
use openmux_server.Policy.Lockout.{
  apply_security_policy, with_threshold, from_mapping_first_free, default_policy,
  from_mapping_falsy,
}
use openmux_server.Policy.Yaml.{
  Value, text, list, mapping, boolean, item, no_item, field, no_field, Fields, get, str, is_truthy,
}

abbrev repr : Value → Text
repr v = []

-- Telnet and loopback are states_name, and telnet is disabled.
abbrev block : Fields
block =
    field (codes "allowed")
      (list (item (text (codes "Telnet_Listener")) (item (text (codes "loopback")) no_item)))
      (field (codes "disabled") (list (item (text (codes "telnet-listener")) no_item)) no_field)

abbrev file : Fields
file =
    field (codes "adapters") (mapping block)
      (field (codes "access_default") (text (codes " Deny ")) no_field)

abbrev policy : SecurityPolicy
policy = record {
  allowed_adapter_types = codes "loopback" ∷ [];
  config_editor_writable_sections = known_config_sections;
  auth_rate_limits = default_auth_rate_limits;
  access_default = codes "deny";
}

allowed_of_block :
    resolve_allow_deny_list repr canonical_adapter_type known_adapter_types block
    ≡ returned (codes "loopback" ∷ [])
unfolding resolve_allow_deny_list resolve_one names_of canonical_adapter_type get str ◌>>=◌ same
    lower strip
allowed_of_block = refl

resolve_allow_deny_list-names_example :
    (allowed disabled : List Value) × Lists
      (item (text star) no_item)
      (get (codes "allowed") block)
      allowed
    × Lists no_item (get (codes "disabled") block) disabled
    × ((t : Text)
        → contains t (codes "loopback" ∷ []) ≡ (
            contains t known_adapter_types
            && states_name repr canonical_adapter_type t allowed
            && not (states_name repr canonical_adapter_type t disabled)))
resolve_allow_deny_list-names_example =
    resolve_allow_deny_list-names repr canonical_adapter_type known_adapter_types block
      (codes "loopback" ∷ []) allowed_of_block

accepted : from_mapping repr (mapping file) ≡ returned policy
unfolding from_mapping policy_of validated_block known_keys_only resolve_allow_deny_list resolve_one
    names_of parse_auth_rate_limits parse_access_default canonical_adapter_type
    canonical_section_name is_truthy get str ◌>>=◌ same lower strip
accepted = refl

from_mapping-keys_example :
    IsKnown top_level_allowed_keys (codes "adapters" ∷ codes "access_default" ∷ [])
    × HasKnownBlocks file
from_mapping-keys_example = from_mapping-keys repr file policy accepted

abbrev limits : Limits
limits = record { max_fail_window = 300; base_lock_seconds = 30; failure_threshold = 5 }

from_mapping_first_free_example :
    (p : SecurityPolicy) × (from_mapping repr (with_threshold (pos 1)) ≡ returned p)
    × ((apply_security_policy p limits).failure_threshold ≡ 1)
    × ((is_user_locked
          (apply_security_policy p limits)
          101
          (failed_login (apply_security_policy p limits) 100 none)).0
        ≡ false)
from_mapping_first_free_example = from_mapping_first_free repr (pos 1) limits 100 101 refl

from_mapping_falsy_example :
    from_mapping repr (mapping (field (codes "adapters") (boolean false) no_field))
    ≡ returned default_policy
unfolding is_truthy
from_mapping_falsy_example = from_mapping_falsy repr (boolean false) refl
