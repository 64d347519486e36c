-- ===== src/Policy/Accepted.antt =====
-- openmux/server/security_policy.py: what a policy that is accepted is sure to be.
use openmux_server.Base.{
  ℕ, ◌≤◌, ◌≡◌, sym, ◌∙◌, subst, ◌⊎◌, inl, true, Option, none, some, List, [], ◌∷◌, Text, codes,
  lower, strip, same_iff, contains, arith,
}
use openmux_server.Capacity.Integer.{ℤ, pos, negsuc}
use openmux_server.Results.{returned, guard-returned, bind-returned, returned_same}
use openmux_server.Policy.{
  not_an_access_default, unknown_keys, SecurityPolicy, AuthRateLimits, without_all, is_none,
  at_least_one, limit_or, validated_block, known_keys_only, parse_auth_rate_limits,
  parse_access_default, policy_of, from_mapping, resolve_allow_deny_list, canonical_adapter_type,
  canonical_section_name, known_adapter_types, known_config_sections, allow_deny_keys,
  auth_rate_limit_keys, top_level_allowed_keys, access_default_text, access_default_values,
}
use openmux_server.Policy.Allowed.{known_or_not, resolve_allow_deny_list-names}
use openmux_server.Policy.Yaml.{
  Value, null, boolean, integer, float, list, text, mapping, Fields, no_field, field, keys, get,
  is_truthy,
}

-- Every member is one of the known.
abbrev pub IsKnown : List Text → List Text → Type 0
IsKnown known names = (t : Text) → contains t names ≡ true → contains t known ≡ true

pub record IsSafe (p : SecurityPolicy) : Type 0 where
  pub adapters : IsKnown known_adapter_types p.allowed_adapter_types
  pub sections : IsKnown known_config_sections p.config_editor_writable_sections
  pub window : 1 ≤ p.auth_rate_limits.window_seconds
  pub threshold : 1 ≤ p.auth_rate_limits.failure_threshold
  pub base : 1 ≤ p.auth_rate_limits.base_lock_seconds
  pub access : (p.access_default ≡ codes "allow") ⊎ (p.access_default ≡ codes "deny")

at_least_one_le : (n : ℤ) → 1 ≤ at_least_one n
at_least_one_le (pos n) = omega arith
at_least_one_le (negsuc n) = omega arith

limit_or_le :
    (default n : ℕ) (o : Option Value) → 1 ≤ default → limit_or default o ≡ returned n → 1 ≤ n
limit_or_le default n none k h = subst (λ z. 1 ≤ z) (returned_same h) k
limit_or_le default n (some (integer i)) k h =
    subst (λ z. 1 ≤ z) (returned_same h) (at_least_one_le i)
limit_or_le default n (some (float b (some i))) k h =
    subst (λ z. 1 ≤ z) (returned_same h) (at_least_one_le i)
limit_or_le default n (some (float b none)) k h = cc
limit_or_le default n (some null) k h = cc
limit_or_le default n (some (boolean b)) k h = cc
limit_or_le default n (some (text s)) k h = cc
limit_or_le default n (some (list vs)) k h = cc
limit_or_le default n (some (mapping d)) k h = cc

parse_auth_rate_limits_le :
    (d : Fields) (l : AuthRateLimits)
    → parse_auth_rate_limits d ≡ returned l
    → (1 ≤ l.window_seconds) × (1 ≤ l.failure_threshold) × (1 ≤ l.base_lock_seconds)
unfolding parse_auth_rate_limits
parse_auth_rate_limits_le d l h =
    let b = bind-returned h in
    let w = bind-returned b.2 in
    let t = bind-returned w.2 in
    let u = bind-returned t.2 in
    subst (λ l. (1 ≤ l.window_seconds) × (1 ≤ l.failure_threshold) × (1 ≤ l.base_lock_seconds))
      (returned_same u.2)
      (
        limit_or_le 300 w.0 (get (codes "window_seconds") b.0) (omega arith) w.1,
        limit_or_le 5 t.0 (get (codes "failure_threshold") b.0) (omega arith) t.1,
        limit_or_le 30 u.0 (get (codes "base_lock_seconds") b.0) (omega arith) u.1,
      )

access_default_text_is :
    (s t : Text) (v : Value)
    → access_default_text s v ≡ returned t
    → (t ≡ codes "allow") ⊎ (t ≡ codes "deny")
access_default_text_is s t v h =
    let b = bind-returned h in
    let e = guard-returned (contains s access_default_values) (not_an_access_default v) b.0 b.1 in
    subst (λ t. (t ≡ codes "allow") ⊎ (t ≡ codes "deny")) (returned_same b.2)
      (ground (arith, e, same_iff s (codes "allow"), same_iff s (codes "deny")))

parse_access_default_is :
    (o : Option Value) (t : Text)
    → parse_access_default o ≡ returned t
    → (t ≡ codes "allow") ⊎ (t ≡ codes "deny")
unfolding parse_access_default
parse_access_default_is none t h = inl (sym (returned_same h))
parse_access_default_is (some null) t h = inl (sym (returned_same h))
parse_access_default_is (some (text s)) t h = access_default_text_is (lower (strip s)) t (text s) h
parse_access_default_is (some (boolean b)) t h = cc
parse_access_default_is (some (integer n)) t h = cc
parse_access_default_is (some (float b n)) t h = cc
parse_access_default_is (some (list vs)) t h = cc
parse_access_default_is (some (mapping d)) t h = cc

module _ (repr : Value → Text) where
  resolve_allow_deny_list-IsKnown :
      (normalize : Text → Text) (known : List Text) (d : Fields) (names : List Text)
      → resolve_allow_deny_list repr normalize known d ≡ returned names
      → IsKnown known names
  resolve_allow_deny_list-IsKnown normalize known d names h t e =
      let r = resolve_allow_deny_list-names repr normalize known d names h in
      ground (arith, e, r.4 t)

  policy_of-IsSafe : (d : Fields) (p : SecurityPolicy) → policy_of repr d ≡ returned p → IsSafe p
  unfolding policy_of
  policy_of-IsSafe d p h =
      let a = bind-returned h in
      let t = bind-returned a.2 in
      let e = bind-returned t.2 in
      let s = bind-returned e.2 in
      let r = bind-returned s.2 in
      let l = bind-returned r.2 in
      let x = bind-returned l.2 in
      let k = parse_auth_rate_limits_le r.0 l.0 l.1 in
      subst IsSafe (returned_same x.2) record {
        adapters =
            resolve_allow_deny_list-IsKnown canonical_adapter_type known_adapter_types a.0 t.0 t.1;
        sections =
            resolve_allow_deny_list-IsKnown canonical_section_name known_config_sections e.0 s.0
              s.1;
        window = k.0;
        threshold = k.1;
        base = k.2;
        access = parse_access_default_is (get (codes "access_default") d) x.0 x.1;
      }

  -- Whatever security.yaml holds, a policy that is accepted has known adapter types and known
  -- sections only, limits of at least one, and an access default that is "allow" or "deny".
  pub from_mapping-IsSafe :
      (raw : Value) (p : SecurityPolicy) → from_mapping repr raw ≡ returned p → IsSafe p
  unfolding from_mapping
  from_mapping-IsSafe raw p h =
      let d = bind-returned h in let k = bind-returned d.2 in policy_of-IsSafe k.0 p k.2

known_keys_only-keys :
    (name : Text) (allowed : List Text) (d e : Fields)
    → known_keys_only name allowed d ≡ returned e
    → (d ≡ e) × IsKnown allowed (keys d)
unfolding known_keys_only
known_keys_only-keys name allowed d e h =
    let unknown = without_all (keys d) allowed in
    let b = bind-returned h in
    let n = guard-returned (is_none unknown) (unknown_keys name unknown) b.0 b.1 in
    (returned_same b.2, λ t m. ground (arith, m, known_or_not t (keys d) allowed n))

-- The block of a name has these keys only.
abbrev HasKeys : Text → List Text → Fields → Type 0
HasKeys name allowed d = (e : Fields) → get name d ≡ some (mapping e) → IsKnown allowed (keys e)

validated_block-HasKeys :
    (d e : Fields) (name : Text) (allowed : List Text)
    → validated_block d name allowed ≡ returned e
    → HasKeys name allowed d
unfolding validated_block is_truthy
validated_block-HasKeys d e name allowed h no_field g = λ t m. cc
validated_block-HasKeys d e name allowed h (field k v f) g =
    let b = bind-returned (rw g at h) in
    subst (λ z. IsKnown allowed (keys z)) (sym (returned_same b.1))
      (known_keys_only-keys name allowed b.0 e b.2).1

-- The blocks of the top level have known keys.
abbrev pub HasKnownBlocks : Fields → Type 0
HasKnownBlocks d =
    HasKeys (codes "adapters") allow_deny_keys d
    × HasKeys (codes "config_editor") allow_deny_keys d
    × HasKeys (codes "rate_limits") (codes "authentication" ∷ []) d
    × ((e : Fields)
        → get (codes "rate_limits") d ≡ some (mapping e)
        → HasKeys (codes "authentication") auth_rate_limit_keys e)

validated_block_same :
    (d e f : Fields) (name : Text) (allowed : List Text)
    → validated_block d name allowed ≡ returned f
    → get name d ≡ some (mapping e)
    → e ≡ f
unfolding validated_block known_keys_only is_truthy
validated_block_same d no_field f name allowed h g =
    let b = bind-returned (rw g at h) in
    returned_same b.1 ∙ (known_keys_only-keys name allowed b.0 f b.2).0
validated_block_same d (field k v e) f name allowed h g =
    let b = bind-returned (rw g at h) in
    returned_same b.1 ∙ (known_keys_only-keys name allowed b.0 f b.2).0

parse_auth_rate_limits-HasKeys :
    (d : Fields) (l : AuthRateLimits)
    → parse_auth_rate_limits d ≡ returned l
    → HasKeys (codes "authentication") auth_rate_limit_keys d
unfolding parse_auth_rate_limits
parse_auth_rate_limits-HasKeys d l h =
    let b = bind-returned h in
    validated_block-HasKeys d b.0 (codes "authentication") auth_rate_limit_keys b.1

module _ (repr : Value → Text) where
  policy_of-HasKnownBlocks :
      (d : Fields) (p : SecurityPolicy) → policy_of repr d ≡ returned p → HasKnownBlocks d
  unfolding policy_of
  policy_of-HasKnownBlocks d p h =
      let a = bind-returned h in
      let t = bind-returned a.2 in
      let e = bind-returned t.2 in
      let s = bind-returned e.2 in
      let r = bind-returned s.2 in
      let l = bind-returned r.2 in
      (
        validated_block-HasKeys d a.0 (codes "adapters") allow_deny_keys a.1,
        validated_block-HasKeys d e.0 (codes "config_editor") allow_deny_keys e.1,
        validated_block-HasKeys d r.0 (codes "rate_limits") (codes "authentication" ∷ []) r.1,
        λ f g.
            subst (HasKeys (codes "authentication") auth_rate_limit_keys)
              (sym (
                validated_block_same d f r.0 (codes "rate_limits") (codes "authentication" ∷ []) r.1
                  g))
              (parse_auth_rate_limits-HasKeys r.0 l.0 l.1),
      )

  -- A policy is accepted only if every key at the top level is known, every key of the blocks
  -- `adapters`, `config_editor` and `rate_limits`, and every key of `authentication` in
  -- `rate_limits`: in a mapping that is read, no misspelled key is ignored.
  pub from_mapping-keys :
      (d : Fields) (p : SecurityPolicy)
      → from_mapping repr (mapping d) ≡ returned p
      → IsKnown top_level_allowed_keys (keys d) × HasKnownBlocks d
  unfolding from_mapping is_truthy get
  from_mapping-keys no_field p h =
      ((λ t m. cc), ((λ e g. cc), (λ e g. cc), (λ e g. cc), (λ e g. cc)))
  from_mapping-keys (field k v f) p h =
      let b = bind-returned h in
      let q = returned_same b.1 in
      let c = bind-returned b.2 in
      let r = known_keys_only-keys (codes "security.yaml") top_level_allowed_keys b.0 c.0 c.1 in
      (
        subst (λ z. IsKnown top_level_allowed_keys (keys z)) (sym q) r.1,
        subst HasKnownBlocks (sym (q ∙ r.0)) (policy_of-HasKnownBlocks c.0 p c.2),
      )
