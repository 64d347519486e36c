-- ===== src/Muxcon/Paths/Sweep.antt =====
-- openmux/server/adapters/muxcon.py: one tick of the failover loop (`_mfl_sweep_once`). Times are in
-- milliseconds, and are doubled where the code has one half.
use openmux_server.Base.{
  ℕ, ◌+◌, ◌-◌, ◌*◌, Bool, not, ◌&&◌, Option, none, some, [], ◌∷◌, Text, same, ltb, leb, ◌==◌, max,
  if◌then◌else◌, keep,
}
use openmux_server.Dict.{Dict, lookup, insert}
use openmux_server.Muxcon.Paths.{
  Meta, Group, Groups, Settings, truthy, less, first_key, ranked, unregister_mpath_connection,
  select_mpath_connection,
}

-- The intervals of the loop, of heartbeats and of idleness; when the heartbeats of a connection were
-- last acknowledged (0 for never), what is frozen, and the clock.
pub record Tick : Type 0 where
  pub settings : Settings
  pub heartbeat_interval : ℕ
  pub failover_check : ℕ
  pub idle_drop : ℕ
  pub last_ack : Text → ℕ
  pub frozen : Text → Bool
  pub now : ℕ

abbrev pub last_activity : Tick → Text → Meta → ℕ
last_activity o cid m =
    max (if m.last_rx_seen == 0 then m.last_seen else m.last_rx_seen) (o.last_ack cid)

-- Twice the window of `_mfl_stale_window`.
abbrev pub stale_window : Tick → ℕ
stale_window o =
    if ltb (2 * o.settings.primary_stale) (5 * o.heartbeat_interval)
    then 5 * o.heartbeat_interval
    else 2 * o.settings.primary_stale

unfoldable pub is_stale : Tick → Text → Meta → Bool
is_stale o cid m =
    ltb 0 (stale_window o) && ltb (2 * last_activity o cid m + stale_window o) (2 * o.now)

abbrev pub is_idle : Tick → Text → Meta → Bool
is_idle o cid m =
    ltb 0 o.idle_drop
    && ltb 0 (last_activity o cid m)
    && leb o.idle_drop (o.now - last_activity o cid m)

-- Over a copy of the connections.
unfoldable pub mfl_prune_idle : Tick → Text → Dict Meta → Groups → Groups
mfl_prune_idle o key [] gs = gs
mfl_prune_idle o key ((cid, m) ∷ d) gs =
    mfl_prune_idle o key d (if is_idle o cid m then unregister_mpath_connection key cid gs else gs)

abbrev pub mark_in : Text → ℕ → Groups → Option Group → Groups
mark_in key t gs none = gs
mark_in key t gs (some g) = insert key (record g { last_primary_change = some t }) gs

-- The time of the change, if there is one.
abbrev pub mark_change : Tick → Text → Text → Option Text × Groups → Groups
mark_change o key prev (none, gs) = gs
mark_change o key prev (some p, gs) =
    if same p prev then gs else mark_in key o.now gs (lookup key gs)

abbrev pub alternatives : Tick → Text → Group → Dict Meta
alternatives o primary g = keep (λ x. not (same x.0 primary) && not (is_stale o x.0 x.1)) g.conns

abbrev pub promote_past : Tick → Text → Text → ℕ → Groups → Dict Meta → Groups
promote_past o key primary changed gs [] = gs
promote_past o key primary changed gs (x ∷ d) =
    if ltb (2 * (o.now - changed)) (3 * o.failover_check)
    then gs
    else mark_change o key primary (select_mpath_connection o.settings o.frozen o.now key gs)

unfoldable pub mfl_stale_promote : Tick → Text → Text → ℕ → Groups → Group → Groups
unfolding is_stale
mfl_stale_promote o key primary changed gs g =
    promote_past o key primary changed gs (alternatives o primary g)

abbrev pub preferred_paths : Tick → Text → Meta → Group → Dict Meta
preferred_paths o primary m g =
    keep (λ x. not (same x.0 primary) && (not (is_stale o x.0 x.1) && less m.pref x.1.pref)) g.conns

abbrev pub preempt_by : Tick → Text → ℕ → Groups → Group → Option Text → Groups
preempt_by o key changed gs g none = gs
preempt_by o key changed gs g (some p) =
    if leb o.failover_check (o.now - changed)
    then insert key (record g { primary = some p; last_primary_change = some o.now }) gs
    else gs

unfoldable pub mfl_preemptive_scan : Tick → Text → Text → Meta → ℕ → Groups → Group → Groups
unfolding is_stale less
mfl_preemptive_scan o key primary m changed gs g =
    preempt_by o key changed gs g (first_key (ranked (preferred_paths o primary m g)))

abbrev pub changed_at : Option ℕ → ℕ → ℕ → ℕ
changed_at none opened now = if opened == 0 then now else opened
changed_at (some t) opened now = t

unfoldable pub mfl_eval_primary : Tick → Text → Text → Meta → Groups → Group → Groups
unfolding is_stale mfl_stale_promote mfl_preemptive_scan
mfl_eval_primary o key primary m gs g =
    let changed = changed_at g.last_primary_change m.opened_at o.now in
    let g' : Group = record g { last_primary_change = some changed } in
    let gs' = insert key g' gs in
    if is_stale o primary m
    then mfl_stale_promote o key primary changed gs' g'
    else if o.settings.preemptive_promote && o.settings.best_pref
    then mfl_preemptive_scan o key primary m changed gs' g'
    else gs'

abbrev pub eval_meta : Tick → Text → Text → Groups → Group → Option Meta → Groups
eval_meta o key p gs g none = (select_mpath_connection o.settings o.frozen o.now key gs).1
eval_meta o key p gs g (some m) = mfl_eval_primary o key p m gs g

abbrev pub eval_path : Tick → Text → Groups → Group → Option Text → Groups
eval_path o key gs g none = (select_mpath_connection o.settings o.frozen o.now key gs).1
eval_path o key gs g (some p) = eval_meta o key p gs g (lookup p g.conns)

-- A group that was dropped by the pruning has no path to select.
abbrev pub eval_group : Tick → Text → Groups → Option Group → Groups
eval_group o key gs none = gs
eval_group o key gs (some g) = eval_path o key gs g (truthy g.primary)

-- Over a copy of the groups.
unfoldable pub mfl_sweep : Tick → Groups → Groups → Groups
unfolding mfl_prune_idle mfl_eval_primary
mfl_sweep o [] gs = gs
mfl_sweep o ((key, g) ∷ more) gs =
    let pruned = mfl_prune_idle o key g.conns gs in
    mfl_sweep o more (eval_group o key pruned (lookup key pruned))

unfoldable pub mfl_sweep_once : Tick → Groups → Groups
unfolding mfl_sweep
mfl_sweep_once o gs = mfl_sweep o gs gs
