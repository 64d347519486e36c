-- ===== src/Muxcon/Paths.antt =====
-- openmux/server/adapters/muxcon.py: the connections to a peer as a group, one of which is its
-- primary (`_register_mpath_connection`, `_rekey_mpath_connection`, `_unregister_mpath_connection`,
-- `_select_mpath_connection`), and the counters of a peer that move when its key changes. The key of
-- a connection, its preference and what is frozen come from outside. Times are in milliseconds.
pub mod Rekey
pub mod Grouped
pub mod Ranked
pub mod Best
pub mod Selected
pub mod Kept
pub mod Sweep
pub mod Swept
pub mod Changes
mod Tests
use openmux_server.Base.{
  ℕ, ◌+◌, ◌-◌, ◌<◌, Bool, true, false, not, ◌&&◌, ◌||◌, Option, none, some, List, [], ◌∷◌, Text,
  same, ltb, leb, max, if◌then◌else◌, keep,
}
use openmux_server.Capacity.Integer.{ℤ, pos, negsuc}
use openmux_server.Dict.{Dict, lookup, has_key, insert, erase}
use openmux_server.Muxcon.Numbered.{Numbered, put}
use openmux_server.Muxcon.Receive.{Rx}
use openmux_server.Muxcon.Send.{Unacked}

pub record Meta : Type 0 where
  pub opened_at : ℕ
  pub pref : ℤ
  pub last_seen : ℕ
  pub last_rx_seen : ℕ

pub record Group : Type 0 where
  pub conns : Dict Meta
  pub primary : Option Text
  pub last_primary_change : Option ℕ

abbrev pub fresh_group : Group
fresh_group = record { conns = []; primary = none; last_primary_change = none }

-- The settings: whether a better path takes over at once, the strategy, and when a path is stale.
pub record Settings : Type 0 where
  pub preemptive_promote : Bool
  pub best_pref : Bool
  pub primary_stale : ℕ

abbrev pub Groups : Type 0
Groups = Dict Group

-- `grp.get("primary")`, where the empty text counts as none.
unfoldable pub truthy : Option Text → Option Text
truthy none = none
truthy (some []) = none
truthy (some (c ∷ s)) = some (c ∷ s)

unfoldable pub less : ℤ → ℤ → Bool
less (pos a) (pos b) = ltb a b
less (pos a) (negsuc b) = false
less (negsuc a) (pos b) = true
less (negsuc a) (negsuc b) = ltb b a

abbrev pub pref_of : Option Meta → ℤ
pref_of none = pos 0
pref_of (some m) = m.pref

-- `_mpath_apply_promotion`
abbrev pub preempt : Text → Group → Option Text → Group
preempt cid g none = g
preempt cid g (some current) =
    if same current cid
    then g
    else if less (pref_of (lookup current g.conns)) (pref_of (lookup cid g.conns))
    then record g { primary = some cid }
    else g

unfoldable pub mpath_apply_promotion : Settings → Text → Group → Group
unfolding truthy less
mpath_apply_promotion o cid g = if o.preemptive_promote then preempt cid g (truthy g.primary) else g

abbrev pub group_or_fresh : Option Group → Group
group_or_fresh none = fresh_group
group_or_fresh (some g) = g

-- The primary is the connection itself where there is none.
abbrev pub choose_primary : Settings → Text → Group → Option Text → Group
choose_primary o cid g none = record g { primary = some cid }
choose_primary o cid g (some p) = mpath_apply_promotion o cid g

unfoldable pub register_mpath_connection : Settings → Text → Text → Meta → Groups → Groups
unfolding truthy
register_mpath_connection o key cid m gs =
    let g : Group = group_or_fresh (lookup key gs) in
    let g' : Group = record g { conns = insert cid m g.conns } in
    insert key (choose_primary o cid g' (truthy g'.primary)) gs

-- `next(iter(conns.keys()), None)`
abbrev pub first_key : Dict Meta → Option Text
first_key [] = none
first_key ((k, m) ∷ d) = some k

-- `primary == cid`
abbrev pub is_primary : Text → Option Text → Bool
is_primary cid none = false
is_primary cid (some p) = same p cid

-- The group without a connection; another takes its place as the primary.
abbrev pub leave : Text → Group → Group
leave cid g =
    let d = erase cid g.conns in
    record g { conns = d; primary = (if is_primary cid g.primary then first_key d else g.primary) }

-- The group is dropped when it is empty.
abbrev pub keep_group : Text → Group → Groups → Groups
keep_group key g gs = elim g.conns [ [] ↦ erase key gs | ◌∷◌ p d ↦ insert key g gs ]

abbrev unregister_from : Text → Text → Groups → Option Group → Groups
unregister_from key cid gs none = gs
unregister_from key cid gs (some g) = keep_group key (leave cid g) gs

unfoldable pub unregister_mpath_connection : Text → Text → Groups → Groups
unregister_mpath_connection key cid gs = unregister_from key cid gs (lookup key gs)

-- `_mpath_conn_stale`
unfoldable pub mpath_conn_stale : (Text → Bool) → Option ℕ → Text → Meta → Bool
mpath_conn_stale frozen none cid m = frozen cid
mpath_conn_stale frozen (some cutoff) cid m = ltb m.last_rx_seen cutoff || frozen cid

abbrev pub stale_cutoff : Settings → ℕ → Option ℕ
stale_cutoff o now = if ltb 0 o.primary_stale then some (now - o.primary_stale) else none

abbrev pub live_in : (Text → Meta → Bool) → Text → Option Meta → Option Text
live_in stale p none = none
live_in stale p (some m) = if stale p m then none else some p

abbrev pub live_of : (Text → Meta → Bool) → Dict Meta → Option Text → Option Text
live_of stale d none = none
live_of stale d (some p) = live_in stale p (lookup p d)

-- `_mpath_clear_stale_primary`, which changes nothing: the primary if it is live.
unfoldable pub mpath_clear_stale_primary : (Text → Meta → Bool) → Group → Option Text
unfolding truthy
mpath_clear_stale_primary stale g = live_of stale g.conns (truthy g.primary)

-- The order by preference, and by the opening time where the preferences are equal.
unfoldable pub below : Meta → Meta → Bool
unfolding less
below m n = less m.pref n.pref || (not (less n.pref m.pref) && ltb m.opened_at n.opened_at)

-- `sort(..., reverse=True)`, which is stable, on a list whose tail is sorted.
unfoldable pub place : Text × Meta → Dict Meta → Dict Meta
place x [] = x ∷ []
place x (y ∷ d) = if below x.1 y.1 then y ∷ place x d else x ∷ y ∷ d

unfoldable pub ranked : Dict Meta → Dict Meta
unfolding place below
ranked [] = []
ranked (x ∷ d) = place x (ranked d)

abbrev pub or_all : Dict Meta → Dict Meta → Dict Meta
or_all [] d = d
or_all (x ∷ live) d = x ∷ live

-- `_mpath_promote_primary`
unfoldable pub mpath_promote_primary : (Text → Meta → Bool) → Group → Option Text
mpath_promote_primary stale g =
    first_key (ranked (or_all (keep (λ x. not (stale x.0 x.1)) g.conns) g.conns))

abbrev pub other_than : Text → Option Text → Option Text
other_than current none = none
other_than current (some p) = if same p current then none else some p

-- `_mpath_try_preempt`: the live paths that are preferred to the primary, the best first.
unfoldable pub mpath_try_preempt : (Text → Meta → Bool) → Group → Text → Option Text
unfolding less
mpath_try_preempt stale g current = other_than current (
    first_key (
      ranked (
        keep (λ x. not (stale x.0 x.1) && less (pref_of (lookup current g.conns)) x.1.pref)
          g.conns)))

abbrev pub settle_on : Text → Groups → Group → Option Text → Option Text × Groups
settle_on key gs g p = (p, insert key (record g { primary = p }) gs)

abbrev pub preempted : Text → Groups → Group → Option Text → Option Text × Groups
preempted key gs g none = (g.primary, gs)
preempted key gs g (some p) = settle_on key gs g (some p)

abbrev pub select_current :
    Settings → (Text → Meta → Bool) → Text → Groups → Group → Option Text → Option Text × Groups
select_current o stale key gs g none = settle_on key gs g (mpath_promote_primary stale g)
select_current o stale key gs g (some current) =
    if o.preemptive_promote && o.best_pref
    then preempted key gs g (mpath_try_preempt stale g current)
    else (g.primary, gs)

abbrev pub select_in :
    Settings → (Text → Meta → Bool) → Text → Groups → Option Group → Option Text × Groups
select_in o stale key gs none = (none, gs)
select_in o stale key gs (some g) =
    select_current o stale key gs g (mpath_clear_stale_primary stale g)

-- The path, and the groups afterwards.
unfoldable pub select_mpath_connection :
    Settings → (Text → Bool) → ℕ → Text → Groups → Option Text × Groups
unfolding mpath_promote_primary mpath_try_preempt mpath_clear_stale_primary
select_mpath_connection o frozen now key gs =
    select_in o (mpath_conn_stale frozen (stale_cutoff o now)) key gs (lookup key gs)
