-- ===== src/Muxcon/Filters/Tests.antt =====
-- Filters of openmux/server/adapters/muxcon.py: ports that start with `lab` are advertised, but not
-- those of the server `old`.
use openmux_server.Base.{
  ◌≡◌, refl, ◌↔◌, Bool, true, false, Option, none, some, [], ◌∷◌, Text, codes, starts_with,
}
use openmux_server.Dict.{Dict}
use openmux_server.Muxcon.Filters.{
  ConnFilters, PortData, get_filters_for_conn, allow_advertise_port, allow_advertise_port_for_conn,
  allow_accept_port_for_conn, name_of, origin_id, no_filters,
}
use openmux_server.Muxcon.Filters.Allowed.{IsAllowed, allow_port_for_conn-IsAllowed}

-- Patterns that end in a star, which is left off here.
abbrev prefix_match : Text → Text → Bool
prefix_match v p = starts_with v p

abbrev lab_filters : ConnFilters
lab_filters = record {
  advertise_filters = record no_filters {
    include = codes "lab" ∷ [];
    server_exclude = codes "old" ∷ [];
  };
  accept_filters = no_filters;
}

abbrev own_filters : Dict ConnFilters
own_filters = (codes "c2", lab_filters) ∷ []

allow_port_for_conn-IsAllowed_example :
    ((name adapter : Text) (server : Option Text)
      → (allow_advertise_port_for_conn prefix_match own_filters lab_filters
            (codes "c2")
            name
            adapter
            server
          ≡ true)
        ↔ IsAllowed prefix_match
            (get_filters_for_conn own_filters lab_filters (codes "c2")).advertise_filters
            name
            adapter
            server)
    × ((pd : PortData)
        → (allow_accept_port_for_conn prefix_match own_filters lab_filters (codes "c2") pd ≡ true)
          ↔ IsAllowed prefix_match
              (get_filters_for_conn own_filters lab_filters (codes "c2")).accept_filters
              (name_of pd.name pd.original_name)
              pd.adapter_type
              (some (origin_id pd.origin_server)))
allow_port_for_conn-IsAllowed_example =
    allow_port_for_conn-IsAllowed prefix_match own_filters lab_filters (codes "c2")

-- One that is advertised, and one that is not.
lab_port : allow_advertise_port prefix_match lab_filters (codes "lab1") (codes "serial") none ≡ true
unfolding allow_advertise_port starts_with
lab_port = refl

old_port :
    allow_advertise_port prefix_match lab_filters
      (codes "lab1")
      (codes "serial")
      (some (codes "old"))
    ≡ false
unfolding allow_advertise_port starts_with
old_port = refl
