-- ===== src/Muxcon/Filters.antt =====
-- openmux/server/adapters/muxcon.py: which ports are advertised to a peer and which of a peer's ports
-- are accepted (`_allow_advertise_port_for_conn`, `_allow_advertise_port`,
-- `_allow_accept_port_for_conn`). `fnmatchcase` is Python's, and false where that raises.
pub mod Tells
pub mod Allowed
mod Tests
use openmux_server.Base.{
  ℕ, ◌+◌, ◌≡◌, refl, ◌↔◌, ◌⊎◌, inl, inr, Bool, true, false, not, ◌&&◌, ◌||◌, Option, none, some,
  List, [], ◌∷◌, Text, any, arith, if◌then◌else◌, get_elem?, Bool-cases,
}
use openmux_server.Dict.{Dict, lookup}

-- The patterns of one direction; a list that is not there is empty.
pub record Filters : Type 0 where
  pub include : List Text
  pub exclude : List Text
  pub adapter_include : List Text
  pub adapter_exclude : List Text
  pub server_include : List Text
  pub server_exclude : List Text

pub record ConnFilters : Type 0 where
  pub advertise_filters : Filters
  pub accept_filters : Filters

abbrev pub no_filters : Filters
no_filters = record {
  include = [];
  exclude = [];
  adapter_include = [];
  adapter_exclude = [];
  server_include = [];
  server_exclude = [];
}

abbrev pub is_empty : List Text → Bool
is_empty [] = true
is_empty (p ∷ ps) = false

-- `own or default`
abbrev pub or_default : List Text → List Text → List Text
or_default [] ps = ps
or_default (p ∷ own) ps = p ∷ own

abbrev pub effective : Filters → Filters → Filters
effective own f = record {
  include = or_default own.include f.include;
  exclude = or_default own.exclude f.exclude;
  adapter_include = or_default own.adapter_include f.adapter_include;
  adapter_exclude = or_default own.adapter_exclude f.adapter_exclude;
  server_include = or_default own.server_include f.server_include;
  server_exclude = or_default own.server_exclude f.server_exclude;
}

abbrev pub own_or_none : Option ConnFilters → ConnFilters
own_or_none none = record { advertise_filters = no_filters; accept_filters = no_filters }
own_or_none (some f) = f

unfoldable pub get_filters_for_conn : Dict ConnFilters → ConnFilters → Text → ConnFilters
get_filters_for_conn conn_filters f cid =
    let own = own_or_none (lookup cid conn_filters) in
    record {
      advertise_filters = effective own.advertise_filters f.advertise_filters;
      accept_filters = effective own.accept_filters f.accept_filters;
    }

-- What a port of a peer says of itself: its server stands in a dict or alone.
pub data Origin : Type 0 where
  no_origin : Origin
  with_server_id : Text → Origin
  alone : Text → Origin

pub record PortData : Type 0 where
  pub name : Text
  pub original_name : Text
  pub adapter_type : Text
  pub origin_server : Origin

abbrev pub origin_id : Origin → Text
origin_id no_origin = []
origin_id (with_server_id s) = s
origin_id (alone s) = s

abbrev pub name_of : Text → Text → Text
name_of [] original = original
name_of (c ∷ s) original = c ∷ s

module _ (fnmatchcase : Text → Text → Bool) where
  unfoldable pub match_any : Text → List Text → Bool
  match_any v ps = any (fnmatchcase v) ps

  -- `server_id and match_any(server_id, ...)`
  abbrev pub match_server : Option Text → List Text → Bool
  match_server none ps = false
  match_server (some []) ps = false
  match_server (some (c ∷ s)) ps = match_any (c ∷ s) ps

  -- The tests that the three functions share.
  abbrev pub allow : Filters → Text → Text → Option Text → Bool
  allow f name adapter server =
      if match_any name f.exclude || match_any adapter f.adapter_exclude
      then false
      else if match_server server f.server_exclude
      then false
      else if is_empty f.include && is_empty f.adapter_include && is_empty f.server_include
      then false
      else (is_empty f.include || match_any name f.include)
        && (is_empty f.adapter_include || match_any adapter f.adapter_include)
        && (is_empty f.server_include || match_server server f.server_include)

  unfoldable pub allow_advertise_port : ConnFilters → Text → Text → Option Text → Bool
  unfolding match_any
  allow_advertise_port f name adapter server = allow f.advertise_filters name adapter server

  unfoldable pub allow_advertise_port_for_conn :
      Dict ConnFilters → ConnFilters → Text → Text → Text → Option Text → Bool
  unfolding match_any get_filters_for_conn
  allow_advertise_port_for_conn conn_filters f cid name adapter server =
      allow (get_filters_for_conn conn_filters f cid).advertise_filters name adapter server

  unfoldable pub allow_accept_port_for_conn :
      Dict ConnFilters → ConnFilters → Text → PortData → Bool
  unfolding match_any get_filters_for_conn
  allow_accept_port_for_conn conn_filters f cid pd =
      allow (get_filters_for_conn conn_filters f cid).accept_filters
        (name_of pd.name pd.original_name) pd.adapter_type (some (origin_id pd.origin_server))
