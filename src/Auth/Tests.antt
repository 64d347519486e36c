-- ===== src/Auth/Tests.antt =====
-- Runs of the roles of openmux/server/auth_manager.py.
use openmux_server.Base.{
  All, ◌≡◌, refl, true, false, none, some, [], ◌∷◌, ◌++◌, codes, same, contains,
}
use openmux_server.Capacity.{text}
use openmux_server.Dict.{lookup}
use openmux_server.Ports.{Port}
use openmux_server.Console.World.{Outside}
use openmux_server.Auth.{
  User, ApiKey, Config, find_user, find_key, find_entry, get_user_permissions, get_user_groups,
  user_group,
}
use openmux_server.Auth.Lockout.{Limits, is_user_locked}
use openmux_server.Auth.Challenge.{
  Codecs, Login, failures_of, get_password_hash_hex, verify_password_hmac,
}
use openmux_server.Auth.Challenge.SingleUse.{answers, verify_password_hmac_once}
use openmux_server.Auth.Roles.{IsBacked}

abbrev ada : User
ada = record {
  username = codes "ada";
  password_hash = codes "ab";
  permissions = some (some (codes "read-only"));
  groups = [];
}

abbrev robot : ApiKey
robot = record {
  key = codes "k1";
  name = none;
  permissions = some (some (codes "read-write"));
  groups = [];
}

abbrev site : Config
site = record {
  users = ada ∷ [];
  api_keys = robot ∷ [];
  ext_auth_enabled = false;
  external_groups = λ u. [];
  admin_group = [];
  write_group = [];
  read_group = [];
  default_permission = none;
}

abbrev manager : Outside
manager = record {
  permissions = λ u. get_user_permissions site u;
  groups = λ u. get_user_groups site u;
  access_default = codes "deny";
  ip = λ c. [];
  channel_username = λ c. none;
  now = λ w. 0;
  origin_grants_request = λ w n c. false;
  origin_grants_take = λ w n c t. false;
  meanwhile = λ w. w;
}

abbrev shared : Port
shared = record {
  max_read_write_users = text (codes "multiple");
  read_write_groups = codes "ops" ∷ user_group ∷ [];
  read_only_groups = [];
  connected_clients = [];
  remote = none;
}

manager-IsBacked : IsBacked manager site
manager-IsBacked = ((λ u. refl), (λ u. refl))

ada_known : get_user_permissions site (codes "ada") ≡ some (codes "read-only")
unfolding get_user_permissions same
ada_known = refl

shared_listed : contains user_group shared.read_write_groups ≡ true
unfolding same
shared_listed = refl

robot_found : find_entry site (codes "k1") ≡ some robot
unfolding same
robot_found = refl

no_user_k1 : find_user site (codes "k1") ≡ none
unfolding same
no_user_k1 = refl

no_key_k1 : find_key site (codes "k1") ≡ none
unfolding same
no_key_k1 = refl

abbrev codecs : Codecs
codecs = record {
  b64encode = λ t. t;
  b64decode = λ t. some t;
  fromhex = λ t. some t;
  hmac_sha256 = λ key m. key ++ m;
}

abbrev limits_of_site : Limits
limits_of_site = record { max_fail_window = 900; base_lock_seconds = 60; failure_threshold = 4 }

abbrev started : Login
started = record {
  challenge = some record { nonce_raw = codes "n"; expires_at = 30; pw_hex = codes "ab" };
  failures = [];
}

not_locked : (is_user_locked limits_of_site 20 (failures_of (codes "?") started)).0 ≡ false
unfolding is_user_locked lookup
not_locked = refl

ada_hash : get_password_hash_hex site (codes "ada") ≡ some (codes "ab")
unfolding same
ada_hash = refl

-- A second attempt from another address.
verify_password_hmac_once_example :
    All
      (λ b. b ≡ false)
      (answers codecs limits_of_site
        ((25, codes "::1", codes "abn") ∷ [])
        (verify_password_hmac codecs limits_of_site 20 (codes "?") (codes "abn") started).1)
verify_password_hmac_once_example =
    verify_password_hmac_once codecs limits_of_site 20 (codes "?") (codes "abn")
      ((25, codes "::1", codes "abn") ∷ []) started not_locked
