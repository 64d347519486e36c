-- ===== src/Auth.antt =====
-- openmux/server/auth_manager.py: the permission and the groups of an identity, from the users and
-- API keys of the configuration and from an external provider, whose group lookup is a parameter.
pub mod Roles
mod Tests
pub mod Lockout
pub mod Challenge
use openmux_server.Base.{
  Bool, true, false, not, Option, none, some, List, [], ◌∷◌, ◌++◌, Text, codes, same, contains,
  first, if◌then◌else◌,
}

-- A permission is missing, null or a text.
pub record User : Type 0 where
  pub username : Text
  pub password_hash : Text
  pub permissions : Option (Option Text)
  pub groups : List Text

pub record ApiKey : Type 0 where
  pub key : Text
  pub name : Option Text
  pub permissions : Option (Option Text)
  pub groups : List Text

-- `external_groups` is what `_resolve_external_groups` finds for a user; an empty group name or
-- default is one that is not configured.
pub record Config : Type 0 where
  pub users : List User
  pub api_keys : List ApiKey
  pub ext_auth_enabled : Bool
  pub external_groups : Text → List Text
  pub admin_group : Text
  pub write_group : Text
  pub read_group : Text
  pub default_permission : Option Text

-- `d.get(key, default)`: the value of a key that is there may be null.
abbrev pub or_default : Option (Option Text) → Text → Option Text
or_default none d = some d
or_default (some p) d = p

abbrev pub find_user : Config → Text → Option User
find_user c username = first (λ u. same u.username username) c.users

abbrev pub is_named : Text → Option Text → Bool
is_named username none = false
is_named username (some n) = same n username

-- The first key whose name is the user name.
abbrev pub find_key : Config → Text → Option ApiKey
find_key c username = first (λ k. is_named username k.name) c.api_keys

abbrev pub configured : Text → Bool
configured [] = false
configured (c ∷ s) = true

abbrev pub in_group : Text → List Text → Bool
in_group g groups = if configured g then contains g groups else false

-- `_ext_auth_group_permissions`
unfoldable pub ext_auth_group_permissions : Config → Text → Option Text
ext_auth_group_permissions c username =
    let groups = c.external_groups username in
    if in_group c.admin_group groups
    then some (codes "admin")
    else if in_group c.write_group groups
    then some (codes "read-write")
    else if in_group c.read_group groups
    then some (codes "read-only")
    else c.default_permission

-- A permission that is empty counts as none.
abbrev pub truthy : Option Text → Option Text
truthy none = none
truthy (some []) = none
truthy (some (c ∷ s)) = some (c ∷ s)

abbrev pub external_permissions : Config → Text → Option Text
external_permissions c username =
    if c.ext_auth_enabled then truthy (ext_auth_group_permissions c username) else none

abbrev pub key_permissions : Config → Text → Option ApiKey → Option Text
key_permissions c username none = external_permissions c username
key_permissions c username (some k) = or_default k.permissions (codes "read-only")

abbrev pub user_permissions : Config → Text → Option User → Option Text
user_permissions c username none = key_permissions c username (find_key c username)
user_permissions c username (some u) = or_default u.permissions (codes "read-write")

unfoldable pub get_user_permissions : Config → Text → Option Text
get_user_permissions c username = user_permissions c username (find_user c username)

-- The built-in group of every known identity.
abbrev pub user_group : Text
user_group = codes "user"

abbrev pub key_groups : Config → Text → Option ApiKey → List Text
key_groups c username none = if c.ext_auth_enabled then c.external_groups username else []
key_groups c username (some k) = k.groups

abbrev pub user_groups : Config → Text → Option User → List Text
user_groups c username none = key_groups c username (find_key c username)
user_groups c username (some u) = u.groups

abbrev pub groups_of : Config → Text → Option Text → List Text
groups_of c username none = []
groups_of c username (some p) = user_group ∷ user_groups c username (find_user c username)

-- The set of groups, as a list.
unfoldable pub get_user_groups : Config → Text → List Text
get_user_groups c username = groups_of c username (get_user_permissions c username)

-- The entry of a key, which `verify_api_key` and the two look-ups below search for.
abbrev pub find_entry : Config → Text → Option ApiKey
find_entry c api_key = first (λ k. same k.key api_key) c.api_keys

abbrev entry_permissions : Option ApiKey → Option Text
entry_permissions none = none
entry_permissions (some k) = or_default k.permissions (codes "read-only")

unfoldable pub get_api_key_permissions : Config → Text → Option Text
get_api_key_permissions c api_key = entry_permissions (find_entry c api_key)

abbrev name_or_key : Text → Option Text → Text
name_or_key api_key none = api_key
name_or_key api_key (some []) = api_key
name_or_key api_key (some (x ∷ n)) = x ∷ n

abbrev entry_name : Text → Option ApiKey → Option Text
entry_name api_key none = none
entry_name api_key (some k) = some (name_or_key api_key k.name)

unfoldable pub get_api_key_name : Config → Text → Option Text
get_api_key_name c api_key = entry_name api_key (find_entry c api_key)
