-- ===== src/Muxcon/Paths/Swept.antt =====
-- Groups that the failover loop of openmux/server/adapters/muxcon.py sweeps.
use openmux_server.Base.{
  ℕ, ◌-◌, ◌*◌, ◌≡◌, refl, Bool, true, ◌&&◌, Option, none, some, [], ◌∷◌, Text, same, ltb, leb, keep,
  Bool-cases, Option-cases, inl, inr, ◌⊎◌,
}
use openmux_server.Dict.{Dict, lookup, insert}
use openmux_server.Muxcon.Paths.{
  Meta, Group, Groups, truthy, first_key, ranked, select_mpath_connection,
}
use openmux_server.Muxcon.Paths.Grouped.{
  IsDict-lookup, IsLive, IsGrouped, insert-IsGrouped, has_key-some,
}
use openmux_server.Muxcon.Paths.Ranked.{ranked_leads, ranked_nil}
use openmux_server.Muxcon.Paths.Best.{All-keep}
use openmux_server.Muxcon.Paths.Kept.{unregister-IsGrouped, select-IsGrouped}
use openmux_server.Muxcon.Paths.Sweep.{
  Tick, is_stale, is_idle, mfl_prune_idle, mark_in, mark_change, alternatives, promote_past,
  mfl_stale_promote, preferred_paths, preempt_by, mfl_preemptive_scan, changed_at, mfl_eval_primary,
  eval_group, mfl_sweep, mfl_sweep_once,
}

touched-IsLive :
    (g : Group) (t : Option ℕ) → IsLive g → IsLive (record g { last_primary_change = t })
touched-IsLive g t l = record {
  dict = l.dict;
  first_path = l.first_path;
  chosen = l.chosen;
  member = l.member;
}

prune-IsGrouped :
    (o : Tick) (key : Text) (d : Dict Meta) (gs : Groups)
    → IsGrouped gs
    → IsGrouped (mfl_prune_idle o key d gs)
unfolding mfl_prune_idle
prune-IsGrouped o key [] gs a = a
prune-IsGrouped o key ((cid, m) ∷ d) gs a = elim (Bool-cases (is_idle o cid m)) [
  | inl e ↦ rw e (prune-IsGrouped o key d _ (unregister-IsGrouped key cid gs a))
  | inr e ↦ rw e (prune-IsGrouped o key d gs a)
]

mark_in-IsGrouped :
    (key : Text) (t : ℕ) (gs : Groups) → IsGrouped gs → IsGrouped (mark_in key t gs (lookup key gs))
mark_in-IsGrouped key t gs a = elim (Option-cases (lookup key gs)) [
  | inl e ↦ rw e a
  | inr (g, e) ↦ rw e (insert-IsGrouped key _ gs (touched-IsLive g (some t) (a key g e)) a)
]

mark-IsGrouped :
    (o : Tick) (key prev : Text) (r : Option Text × Groups)
    → IsGrouped r.1
    → IsGrouped (mark_change o key prev r)
mark-IsGrouped o key prev (none, gs) a = a
mark-IsGrouped o key prev (some p, gs) a = elim (Bool-cases (same p prev)) [
  | inl e ↦ rw e a
  | inr e ↦ rw e (mark_in-IsGrouped key o.now gs a)
]

promote-IsGrouped :
    (o : Tick) (key primary : Text) (changed : ℕ) (gs : Groups) (d : Dict Meta)
    → IsGrouped gs
    → IsGrouped (promote_past o key primary changed gs d)
promote-IsGrouped o key primary changed gs [] a = a
promote-IsGrouped o key primary changed gs (x ∷ d) a =
    elim (Bool-cases (ltb (2 * (o.now - changed)) (3 * o.failover_check))) [
      | inl e ↦ rw e a
      | inr e ↦ rw e (
          mark-IsGrouped o key primary (select_mpath_connection o.settings o.frozen o.now key gs)
            (select-IsGrouped o.settings o.frozen o.now key gs a))
    ]

-- The first of some connections of a live group is one of its connections.
first_ranked :
    (g : Group) (keeps : Text × Meta → Bool) (d : Dict Meta)
    → IsLive g
    → d ≡ keep keeps g.conns
    → (first_key (ranked d) ≡ none)
      ⊎ ((p : Text) × (m : Meta) × (first_key (ranked d) ≡ some p) × (lookup p g.conns ≡ some m))
first_ranked g keeps [] l e = inl (rw ranked_nil refl)
first_ranked g keeps (y ∷ d) l e =
    let a = rw (← e) at (
      All-keep (λ (x : Text × Meta). lookup x.0 g.conns ≡ some x.1) keeps g.conns
        (IsDict-lookup g.conns l.dict)) in
    let (z, rest, r, f, n) =
      ranked_leads (λ x. (lookup x.0 g.conns ≡ some x.1) × (keeps x ≡ true)) y d a in
    inr (z.0, z.1, rw r refl, f.0)

preempt-IsGrouped :
    (o : Tick) (key p : Text) (m : Meta) (changed : ℕ) (gs : Groups) (g : Group)
    → IsLive g
    → lookup p g.conns ≡ some m
    → IsGrouped gs
    → IsGrouped (preempt_by o key changed gs g (some p))
preempt-IsGrouped o key p m changed gs g l f a =
    elim (Bool-cases (leb o.failover_check (o.now - changed))) [
      | inl e ↦ rw e (
          insert-IsGrouped key _ gs
            (record {
              dict = l.dict;
              first_path = p;
              chosen = refl;
              member = has_key-some p m g.conns f;
            })
            a)
      | inr e ↦ rw e a
    ]

scan-IsGrouped :
    (o : Tick) (key primary : Text) (m : Meta) (changed : ℕ) (gs : Groups) (g : Group)
    → IsLive g
    → IsGrouped gs
    → IsGrouped (mfl_preemptive_scan o key primary m changed gs g)
unfolding mfl_preemptive_scan
scan-IsGrouped o key primary m changed gs g l a =
    elim (first_ranked g _ (preferred_paths o primary m g) l refl) [
      | inl e ↦ rw e a
      | inr (p, n, e, f) ↦ rw e (preempt-IsGrouped o key p n changed gs g l f a)
    ]

eval_primary-IsGrouped :
    (o : Tick) (key primary : Text) (m : Meta) (gs : Groups) (g : Group)
    → IsLive g
    → IsGrouped gs
    → IsGrouped (mfl_eval_primary o key primary m gs g)
unfolding mfl_eval_primary mfl_stale_promote
eval_primary-IsGrouped o key primary m gs g l a =
    let changed = changed_at g.last_primary_change m.opened_at o.now in
    let g' : Group = record g { last_primary_change = some changed } in
    let l' : IsLive g' = touched-IsLive g (some changed) l in
    let a' : IsGrouped (insert key g' gs) = insert-IsGrouped key g' gs l' a in
    elim (Bool-cases (is_stale o primary m)) [
      | inl e ↦ rw e (
          promote-IsGrouped o key primary changed (insert key g' gs) (alternatives o primary g') a')
      | inr e ↦ elim (Bool-cases (o.settings.preemptive_promote && o.settings.best_pref)) [
        | inl b ↦ rw (e, b) (scan-IsGrouped o key primary m changed (insert key g' gs) g' l' a')
        | inr b ↦ rw (e, b) a'
      ]
    ]

eval-IsGrouped :
    (o : Tick) (key : Text) (gs : Groups)
    → IsGrouped gs
    → IsGrouped (eval_group o key gs (lookup key gs))
eval-IsGrouped o key gs a = elim (Option-cases (lookup key gs)) [
  | inl e ↦ rw e a
  | inr (g, e) ↦ elim (Option-cases (truthy g.primary)) [
    | inl t ↦ rw (e, t) (select-IsGrouped o.settings o.frozen o.now key gs a)
    | inr (p, t) ↦ elim (Option-cases (lookup p g.conns)) [
      | inl f ↦ rw (e, t, f) (select-IsGrouped o.settings o.frozen o.now key gs a)
      | inr (m, f) ↦ rw (e, t, f) (eval_primary-IsGrouped o key p m gs g (a key g e) a)
    ]
  ]
]

sweep-IsGrouped : (o : Tick) (d gs : Groups) → IsGrouped gs → IsGrouped (mfl_sweep o d gs)
unfolding mfl_sweep
sweep-IsGrouped o [] gs a = a
sweep-IsGrouped o ((key, g) ∷ more) gs a =
    sweep-IsGrouped o more _
      (eval-IsGrouped o key (mfl_prune_idle o key g.conns gs) (prune-IsGrouped o key g.conns gs a))

pub sweep_once-IsGrouped : (o : Tick) (gs : Groups) → IsGrouped gs → IsGrouped (mfl_sweep_once o gs)
unfolding mfl_sweep_once
sweep_once-IsGrouped o gs a = sweep-IsGrouped o gs gs a
