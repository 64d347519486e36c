-- ===== src/Muxcon/Filters/Allowed.antt =====
-- What the filters of openmux/server/adapters/muxcon.py let through.
use openmux_server.Base.{
  ℕ, zero, suc, ◌≡◌, refl, ◌↔◌, ◌⊎◌, inl, inr, Bool, true, ◌||◌, Option, none, some, List, [], ◌∷◌,
  Text, any, arith, get_elem?, Bool-cases,
}
use openmux_server.Dict.{Dict, lookup}
use openmux_server.Muxcon.Filters.{
  Filters, ConnFilters, PortData, is_empty, get_filters_for_conn, match_any, match_server, allow,
  allow_advertise_port, allow_advertise_port_for_conn, allow_accept_port_for_conn, name_of,
  origin_id,
}
use openmux_server.Muxcon.Filters.Tells.{
  tests, Tells, Tells_not, not_Tells, Tells_or, is_empty-Tells, Unlisted, Unlisted-Tells,
}

module _ (fnmatchcase : Text → Text → Bool) where
  -- Some pattern of the list matches.
  abbrev pub Matched : Text → List Text → Type 0
  Matched v ps = (i : ℕ) × (p : Text) × (get_elem? ps i ≡ some p) × (fnmatchcase v p ≡ true)

  any-Matched : (v : Text) (ps : List Text) → any (fnmatchcase v) ps ≡ true → Matched v ps
  any-Matched v [] h = cc
  any-Matched v (p ∷ ps) h = elim (Bool-cases (fnmatchcase v p)) [
    | inl e ↦ (0, p, refl, e)
    | inr e ↦ let (i, q, g, m) = any-Matched v ps (rw e at h) in (suc i, q, g, m)
  ]

  Matched-any :
      (v : Text) (ps : List Text) (i : ℕ) (p : Text)
      → get_elem? ps i ≡ some p
      → fnmatchcase v p ≡ true
      → any (fnmatchcase v) ps ≡ true
  Matched-any v [] i p g m = cc
  Matched-any v (q ∷ ps) zero p g m = rw (name_it g) (rw m refl)
    where
      name_it : some q ≡ some p → q ≡ p
      name_it e = cc
  Matched-any v (q ∷ ps) (suc i) p g m = ground (arith, Matched-any v ps i p g m)

  match_any-Tells : (v : Text) (ps : List Text) → Tells (match_any fnmatchcase v ps) (Matched v ps)
  unfolding match_any
  match_any-Tells v ps = (any-Matched v ps, λ (i, p, g, m). Matched-any v ps i p g m)

  -- The server has a name, and some pattern matches it.
  abbrev pub ServerMatched : Option Text → List Text → Type 0
  ServerMatched server ps = (c : ℕ) × (s : Text) × (server ≡ some (c ∷ s)) × Matched (c ∷ s) ps

  match_server-Tells :
      (server : Option Text) (ps : List Text)
      → Tells (match_server fnmatchcase server ps) (ServerMatched server ps)
  match_server-Tells none ps = ((λ e. cc), λ (c, s, e, m). cc)
  match_server-Tells (some []) ps = ((λ e. cc), λ (c, s, e, m). cc)
  match_server-Tells (some (c ∷ s)) ps = (
    (λ e. (c, s, refl, (match_any-Tells (c ∷ s) ps).0 e)),
    λ (d, t, e, m). (match_any-Tells (c ∷ s) ps).1 (rw (same_name d t e) m),
  )
    where
      same_name : (d : ℕ) (t : Text) → some (c ∷ s) ≡ some (d ∷ t) → (c ∷ s) ≡ (d ∷ t)
      same_name d t e = cc

  -- Nothing excludes the port, some list of inclusions is given, and each that is given has a pattern
  -- that matches.
  pub record IsAllowed (f : Filters) (name : Text) (adapter : Text) (server : Option Text)
      : Type 0 where
    pub name_kept : ¬ Matched name f.exclude
    pub adapter_kept : ¬ Matched adapter f.adapter_exclude
    pub server_kept : ¬ ServerMatched server f.server_exclude
    pub listed : ¬ Unlisted f
    pub name_in : (f.include ≡ []) ⊎ Matched name f.include
    pub adapter_in : (f.adapter_include ≡ []) ⊎ Matched adapter f.adapter_include
    pub server_in : (f.server_include ≡ []) ⊎ ServerMatched server f.server_include

  module _ (f : Filters) (name : Text) (adapter : Text) (server : Option Text) where
    name_tells :
        Tells
          (is_empty f.include || match_any fnmatchcase name f.include)
          ((f.include ≡ []) ⊎ Matched name f.include)
    name_tells = Tells_or _ _ _ _ (is_empty-Tells f.include) (match_any-Tells name f.include)

    adapter_tells :
        Tells
          (is_empty f.adapter_include || match_any fnmatchcase adapter f.adapter_include)
          ((f.adapter_include ≡ []) ⊎ Matched adapter f.adapter_include)
    adapter_tells =
        Tells_or _ _ _ _ (is_empty-Tells f.adapter_include)
          (match_any-Tells adapter f.adapter_include)

    server_tells :
        Tells
          (is_empty f.server_include || match_server fnmatchcase server f.server_include)
          ((f.server_include ≡ []) ⊎ ServerMatched server f.server_include)
    server_tells =
        Tells_or _ _ _ _ (is_empty-Tells f.server_include)
          (match_server-Tells server f.server_include)

    pub allow-IsAllowed :
        (allow fnmatchcase f name adapter server ≡ true) ↔ IsAllowed f name adapter server
    allow-IsAllowed =
        let t =
          tests (match_any fnmatchcase name f.exclude)
            (match_any fnmatchcase adapter f.adapter_exclude)
            (match_server fnmatchcase server f.server_exclude) (is_empty f.include)
            (is_empty f.adapter_include) (is_empty f.server_include)
            (match_any fnmatchcase name f.include) (match_any fnmatchcase adapter f.adapter_include)
            (match_server fnmatchcase server f.server_include) in
        (
          (λ h.
              let (a, b, c, d, x, y, z) = t.0 h in
              record {
                name_kept = Tells_not _ _ (match_any-Tells name f.exclude) a;
                adapter_kept = Tells_not _ _ (match_any-Tells adapter f.adapter_exclude) b;
                server_kept = Tells_not _ _ (match_server-Tells server f.server_exclude) c;
                listed = Tells_not _ _ (Unlisted-Tells f) d;
                name_in = name_tells.0 x;
                adapter_in = adapter_tells.0 y;
                server_in = server_tells.0 z;
              }),
          λ r. t.1 (
            not_Tells _ _ (match_any-Tells name f.exclude) r.name_kept,
            not_Tells _ _ (match_any-Tells adapter f.adapter_exclude) r.adapter_kept,
            not_Tells _ _ (match_server-Tells server f.server_exclude) r.server_kept,
            not_Tells _ _ (Unlisted-Tells f) r.listed,
            name_tells.1 r.name_in,
            adapter_tells.1 r.adapter_in,
            server_tells.1 r.server_in,
          ),
        )

  -- A port is advertised to a connection just when the filters that hold for the connection allow it,
  -- and a port of a peer is accepted just when they allow its name, or its original name where it has
  -- no other, with the server that it comes from: the default is to deny, and exclusion comes first.
  pub allow_port_for_conn-IsAllowed :
      (conn_filters : Dict ConnFilters) (f : ConnFilters) (cid : Text)
      → ((name adapter : Text) (server : Option Text)
          → (allow_advertise_port_for_conn fnmatchcase conn_filters f cid name adapter server
              ≡ true)
            ↔ IsAllowed
                (get_filters_for_conn conn_filters f cid).advertise_filters
                name
                adapter
                server)
        × ((pd : PortData)
            → (allow_accept_port_for_conn fnmatchcase conn_filters f cid pd ≡ true)
              ↔ IsAllowed
                  (get_filters_for_conn conn_filters f cid).accept_filters
                  (name_of pd.name pd.original_name)
                  pd.adapter_type
                  (some (origin_id pd.origin_server)))
  unfolding allow_advertise_port_for_conn allow_accept_port_for_conn
  allow_port_for_conn-IsAllowed conn_filters f cid = (
    (λ name adapter server. allow-IsAllowed _ name adapter server),
    λ pd.
        allow-IsAllowed _ (name_of pd.name pd.original_name) pd.adapter_type
          (some (origin_id pd.origin_server)),
  )

  -- To a connection without filters of its own, the ports that are advertised are those that the
  -- filters of the adapter allow.
  allow_advertise_port_same :
      (conn_filters : Dict ConnFilters) (f : ConnFilters) (cid name adapter : Text)
      (server : Option Text)
      → lookup cid conn_filters ≡ none
      → allow_advertise_port_for_conn fnmatchcase conn_filters f cid name adapter server
        ≡ allow_advertise_port fnmatchcase f name adapter server
  unfolding allow_advertise_port_for_conn allow_advertise_port get_filters_for_conn
  allow_advertise_port_same conn_filters f cid name adapter server e = rw e refl
