-- ===== src/Muxcon/Paths/Selected.antt =====
-- The path that `_select_mpath_connection` of openmux/server/adapters/muxcon.py returns.
use openmux_server.Base.{
  ℕ, ◌≡◌, refl, ap, subst, ◌⊎◌, Bool, true, false, ◌&&◌, Option, none, some, [], ◌∷◌, Text,
  Bool-cases, Option-cases, inl, inr, All-map,
}
use openmux_server.Dict.{Dict, lookup}
use openmux_server.Muxcon.Paths.{
  Meta, Group, Groups, Settings, less, truthy, live_of, mpath_clear_stale_primary, select_in,
  select_mpath_connection, mpath_conn_stale, stale_cutoff,
}
use openmux_server.Muxcon.Paths.Grouped.{IsLive}
use openmux_server.Muxcon.Paths.Best.{AllLive, AllStale, best, better, Preempting, preempting}

abbrev pub preempts : Settings → Bool
preempts o = o.preemptive_promote && o.best_pref

-- The path is a connection of the group, and it is not stale if any is not. Where the primary is
-- kept, it is the primary; where it is not, no path that is not stale is preferred to it.
pub record IsSelected (o : Settings) (stale : Text → Meta → Bool) (g : Group) (p : Text) (m : Meta)
    : Type 0 where
  pub found : lookup p g.conns ≡ some m
  pub fit : (stale p m ≡ false) ⊎ AllStale stale g.conns
  pub preferred :
      (mpath_clear_stale_primary stale g ≡ none) ⊎ (preempts o ≡ true)
      → AllLive stale (λ n. less m.pref n.pref ≡ false) g.conns
  pub kept : (c : Text) → mpath_clear_stale_primary stale g ≡ some c → preempts o ≡ false → c ≡ p

live_of_found :
    (stale : Text → Meta → Bool) (d : Dict Meta) (c p : Text)
    → live_of stale d (some p) ≡ some c
    → (n : Meta) × (p ≡ c) × (lookup p d ≡ some n) × (stale p n ≡ false)
live_of_found stale d c p e = elim (Option-cases (lookup p d)) [
  | inl a ↦ absurd (gone (rw a at e))
  | inr (n, a) ↦ elim (Bool-cases (stale p n)) [
    | inl b ↦ absurd (gone (rw (a, b) at e))
    | inr b ↦ (n, here (rw (a, b) at e), a, b)
  ]
]
  where
    gone : none ≡ some c → ⊥
    gone q = cc

    here : some p ≡ some c → p ≡ c
    here q = cc

live_of_primary :
    (stale : Text → Meta → Bool) (d : Dict Meta) (c : Text) (q : Option Text)
    → live_of stale d (truthy q) ≡ some c
    → (n : Meta) × (q ≡ some c) × (lookup c d ≡ some n) × (stale c n ≡ false)
unfolding truthy
live_of_primary stale d c none e = cc
live_of_primary stale d c (some []) e = cc
live_of_primary stale d c (some (a ∷ p)) e =
    let (n, h, f, s) = live_of_found stale d c (a ∷ p) e in
    (n, ap some h, subst (λ t. lookup t d ≡ some n) h f, subst (λ t. stale t n ≡ false) h s)

module _ (o : Settings) (stale : Text → Meta → Bool) (g : Group) (l : IsLive g) where
  -- The primary that is kept is a connection that is not stale.
  current_live :
      (c : Text)
      → mpath_clear_stale_primary stale g ≡ some c
      → (n : Meta) × (g.primary ≡ some c) × (lookup c g.conns ≡ some n) × (stale c n ≡ false)
  unfolding mpath_clear_stale_primary
  current_live c e = live_of_primary stale g.conns c g.primary e

  Chosen : Option Text × Groups → Type 0
  Chosen r = (p : Text) × (m : Meta) × (r.0 ≡ some p) × IsSelected o stale g p m

  promoted :
      mpath_clear_stale_primary stale g ≡ none
      → (key : Text) (gs : Groups) → Chosen (select_in o stale key gs (some g))
  unfolding Chosen
  promoted e key gs =
      let (p, m, r, f, fit, n) = best stale g l in
      (
        p,
        m,
        rw (e, r) refl,
        record { found = f; fit = fit; preferred = λ q. n; kept = λ c q h. cc },
      )

  kept_current :
      (c : Text)
      → mpath_clear_stale_primary stale g ≡ some c
      → preempts o ≡ false
      → (key : Text) (gs : Groups) → Chosen (select_in o stale key gs (some g))
  unfolding Chosen
  kept_current c e b key gs =
      let (n, p, f, s) = current_live c e in
      (
        c,
        n,
        rw (e, b) p,
        record {
          found = f;
          fit = inl s;
          preferred = λ q. elim q [ inl a ↦ cc | inr a ↦ cc ];
          kept = λ d q h. cc;
        },
      )

  preempted_current :
      (c : Text)
      → mpath_clear_stale_primary stale g ≡ some c
      → preempts o ≡ true
      → (key : Text) (gs : Groups) → Chosen (select_in o stale key gs (some g))
  unfolding Chosen Preempting better
  preempted_current c e b key gs = elim (preempting stale g l c) [
    | inl (r, w) ↦
        let (n, p, f, s) = current_live c e in
        (
          c,
          n,
          rw (e, b, r) p,
          record {
            found = f;
            fit = inl s;
            preferred = λ q. All-map _ _ g.conns (λ x h t. rw (t, f) at h) w;
            kept = λ d q h. cc;
          },
        )
    | inr (p, m, r, f, s, n) ↦ (
      p,
      m,
      rw (e, b, r) refl,
      record { found = f; fit = inl s; preferred = λ q. n; kept = λ d q h. cc },
    )
  ]

  select_in-Chosen : (key : Text) (gs : Groups) → Chosen (select_in o stale key gs (some g))
  select_in-Chosen key gs = elim (Option-cases (mpath_clear_stale_primary stale g)) [
    | inl e ↦ promoted e key gs
    | inr (c, e) ↦ elim (Bool-cases (preempts o)) [
      | inl b ↦ preempted_current c e b key gs
      | inr b ↦ kept_current c e b key gs
    ]
  ]

-- For a peer whose group is live, a path is selected: a connection of the group, which is not stale
-- if any of the group is not. A primary that is not stale stays, unless preferred paths take over at
-- once; else no path that is not stale has a higher preference than the one selected.
pub select_mpath_connection-IsSelected :
    (o : Settings) (frozen : Text → Bool) (now : ℕ) (key : Text) (gs : Groups) (g : Group)
    → lookup key gs ≡ some g
    → IsLive g
    → (p : Text) × (m : Meta) × ((select_mpath_connection o frozen now key gs).0 ≡ some p)
      × IsSelected o (mpath_conn_stale frozen (stale_cutoff o now)) g p m
unfolding select_mpath_connection Chosen
select_mpath_connection-IsSelected o frozen now key gs g h l =
    rw h (select_in-Chosen o (mpath_conn_stale frozen (stale_cutoff o now)) g l key gs)
