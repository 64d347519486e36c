-- ===== src/Auth/Roles.antt =====
-- The roles of openmux/server/auth_manager.py, and the access that they give on a console.
use openmux_server.Base.{
  ◌≡◌, refl, ◌⊎◌, inl, inr, true, false, none, some, List, [], ◌∷◌, Text, codes, same, same_refl,
  contains, arith, Bool-cases, Option-cases,
}
use openmux_server.Ports.{Port}
use openmux_server.Console.World.{Outside}
use openmux_server.Console.Ladder.{taker_entitled, may_drive_of, has_lists, is_empty, meets}
use openmux_server.Auth.{
  Config, ApiKey, find_entry, or_default, get_api_key_permissions, get_api_key_name, find_user,
  find_key, get_user_permissions, get_user_groups, user_group, groups_of, user_groups,
}

-- An identity either has no permission and no groups, or has a permission and belongs to the
-- built-in group.
contains-get_user_groups :
    (c : Config) (username : Text)
    → ((get_user_permissions c username ≡ none) × (get_user_groups c username ≡ []))
      ⊎ ((p : Text) × (get_user_permissions c username ≡ some p)
          × (contains user_group (get_user_groups c username) ≡ true))
unfolding get_user_groups
contains-get_user_groups c username = elim (Option-cases (get_user_permissions c username)) [
  | inl e ↦ inl (e, rw (e, groups_of) refl)
  | inr (p, e) ↦ inr (p, e, rw e (rw (same_refl user_group) refl))
]

-- The console manager over this authentication manager.
abbrev pub IsBacked : Outside → Config → Type 0
IsBacked o c =
    ((u : Text) → o.permissions u ≡ get_user_permissions c u)
    × ((u : Text) → o.groups u ≡ get_user_groups c u)

any-head : (t : Text) (gs hs : List Text) → contains t hs ≡ true → meets (t ∷ gs) hs ≡ true
unfolding meets
any-head t gs hs h = rw h

listed_not_empty : (t : Text) (gs : List Text) → contains t gs ≡ true → is_empty gs ≡ false
listed_not_empty t [] h = ground arith
listed_not_empty t (g ∷ gs) h = refl

has_lists_of :
    (p : Port) → contains user_group p.read_write_groups ≡ true → has_lists (some p) ≡ true
has_lists_of p h = rw (listed_not_empty user_group p.read_write_groups h) refl

-- A port that lists the built-in group as writing lets every known identity drive.
user_group_drives :
    (o : Outside) (c : Config) (p : Port) (username permission : Text)
    → IsBacked o c
    → get_user_permissions c username ≡ some permission
    → contains user_group p.read_write_groups ≡ true
    → may_drive_of (taker_entitled o (some p) permission username) ≡ true
unfolding taker_entitled get_user_groups
user_group_drives o c p username permission backed known listed =
    elim (Bool-cases (same permission (codes "admin"))) [
      | inl e ↦ rw e refl
      | inr e ↦
          rw
            (
              e,
              has_lists_of p listed,
              backed.1 username,
              known,
              any-head user_group (user_groups c username (find_user c username))
                  p.read_write_groups listed,
            )
            refl
    ]

-- A key without a name logs in under the key itself. If external authentication is off and no user
-- and no other key is called that, the key has its permission and the session that is named so has
-- none.
get_api_key_name_unnamed :
    (c : Config) (api_key : Text) (k : ApiKey)
    → find_entry c api_key ≡ some k
    → k.name ≡ none
    → c.ext_auth_enabled ≡ false
    → find_user c api_key ≡ none
    → find_key c api_key ≡ none
    → (get_api_key_permissions c api_key ≡ or_default k.permissions (codes "read-only"))
      × (get_api_key_name c api_key ≡ some api_key)
      × (get_user_permissions c api_key ≡ none)
unfolding get_user_permissions get_api_key_permissions get_api_key_name
get_api_key_name_unnamed c api_key k found unnamed off no_user no_key =
    (rw found refl, rw (found, unnamed) refl, rw (no_user, no_key, off) refl)
