-- ===== src/Policy/Lockout.antt =====
-- openmux/server/auth_manager.py: the limits of the lockout under a policy.
use openmux_server.Base.{ℕ, ◌≡◌, refl, false, none, Text, codes, same, ltb, if◌then◌else◌, arith}
use openmux_server.Auth.Lockout.{Limits, failed_login, is_user_locked, register_auth_failure}
use openmux_server.Capacity.Integer.{ℤ}
use openmux_server.Results.{returned, ◌>>=◌}
use openmux_server.Policy.{
  at_least_one, SecurityPolicy, from_mapping, policy_of, known_adapter_types, known_config_sections,
  default_auth_rate_limits, validated_block, known_keys_only, resolve_allow_deny_list, resolve_one,
  names_of, parse_auth_rate_limits, parse_access_default, canonical_adapter_type,
  canonical_section_name,
}
use openmux_server.Policy.Yaml.{Value, integer, mapping, field, no_field, is_truthy, get, str}

abbrev positive_or : ℕ → ℕ → ℕ
positive_or old n = if ltb 0 n then n else old

-- `_apply_security_policy`
unfoldable pub apply_security_policy : SecurityPolicy → Limits → Limits
apply_security_policy p l = record {
  max_fail_window = positive_or l.max_fail_window p.auth_rate_limits.window_seconds;
  base_lock_seconds = positive_or l.base_lock_seconds p.auth_rate_limits.base_lock_seconds;
  failure_threshold = positive_or l.failure_threshold p.auth_rate_limits.failure_threshold;
}

-- security.yaml with nothing but a threshold.
abbrev pub with_threshold : ℤ → Value
with_threshold n = mapping (
    field (codes "rate_limits")
      (mapping (
        field (codes "authentication")
          (mapping (field (codes "failure_threshold") (integer n) no_field)) no_field))
      no_field)

abbrev threshold_policy : ℤ → SecurityPolicy
threshold_policy n = record {
  allowed_adapter_types = known_adapter_types;
  config_editor_writable_sections = known_config_sections;
  auth_rate_limits = record {
    window_seconds = 300;
    failure_threshold = at_least_one n;
    base_lock_seconds = 30;
  };
  access_default = codes "allow";
}

from_mapping_threshold :
    (repr : Value → Text) (n : ℤ)
    → from_mapping repr (with_threshold n) ≡ returned (threshold_policy n)
unfolding from_mapping policy_of validated_block known_keys_only resolve_allow_deny_list resolve_one
    names_of parse_auth_rate_limits parse_access_default canonical_adapter_type
    canonical_section_name is_truthy get str ◌>>=◌ same
from_mapping_threshold repr n = refl

one_applied :
    (n : ℤ) (l : Limits)
    → at_least_one n ≡ 1
    → (apply_security_policy (threshold_policy n) l).failure_threshold ≡ 1
unfolding apply_security_policy
one_applied n l e = rw e refl

first_login_free :
    (l : Limits) (start t : ℕ) → (is_user_locked l t (failed_login l start none)).0 ≡ false
unfolding failed_login is_user_locked register_auth_failure
first_login_free l start t = ground arith

-- A file that sets the failure threshold to a whole number up to 1 is accepted and gives a
-- threshold of 1, and yet the first failed login of a user locks nobody out: the user is not locked
-- at any time after it.
pub from_mapping_first_free :
    (repr : Value → Text) (n : ℤ) (l : Limits) (start t : ℕ)
    → at_least_one n ≡ 1
    → (p : SecurityPolicy) × (from_mapping repr (with_threshold n) ≡ returned p)
      × ((apply_security_policy p l).failure_threshold ≡ 1)
      × ((is_user_locked
            (apply_security_policy p l)
            t
            (failed_login (apply_security_policy p l) start none)).0
          ≡ false)
from_mapping_first_free repr n l start t e = (
  threshold_policy n,
  from_mapping_threshold repr n,
  one_applied n l e,
  first_login_free (apply_security_policy (threshold_policy n) l) start t,
)

-- The policy of an empty file.
abbrev pub default_policy : SecurityPolicy
default_policy = record {
  allowed_adapter_types = known_adapter_types;
  config_editor_writable_sections = known_config_sections;
  auth_rate_limits = default_auth_rate_limits;
  access_default = codes "allow";
}

from_mapping_empty :
    (repr : Value → Text)
    → from_mapping repr (mapping (field (codes "adapters") (mapping no_field) no_field))
      ≡ returned default_policy
unfolding from_mapping policy_of validated_block known_keys_only resolve_allow_deny_list resolve_one
    names_of parse_auth_rate_limits parse_access_default canonical_adapter_type
    canonical_section_name is_truthy get str ◌>>=◌ same
from_mapping_empty repr = refl

-- A block `adapters` that is false, zero, an empty text or an empty list, none of which is a
-- mapping, is accepted, and every known adapter type is allowed.
pub from_mapping_falsy :
    (repr : Value → Text) (v : Value)
    → is_truthy v ≡ false
    → from_mapping repr (mapping (field (codes "adapters") v no_field)) ≡ returned default_policy
unfolding from_mapping policy_of validated_block known_keys_only get ◌>>=◌ same
from_mapping_falsy repr v h = rw h (from_mapping_empty repr)
