-- ===== src/Muxcon/Paths/Tests.antt =====
-- Groups of openmux/server/adapters/muxcon.py: a peer with two connections, the first of which is
-- stale.
use openmux_server.Base.{◌≡◌, refl, Bool, true, false, none, some, List, [], ◌∷◌, Text, codes, same}
use openmux_server.Capacity.Integer.{pos}
use openmux_server.Dict.{lookup, insert, erase}
use openmux_server.Muxcon.Paths.{
  Meta, Group, Groups, Settings, select_mpath_connection, mpath_conn_stale, stale_cutoff,
  register_mpath_connection, unregister_mpath_connection, mpath_apply_promotion, ranked, truthy,
}
use openmux_server.Muxcon.Paths.Rekey.{Peers, rekey_mpath_connection, rekey_find_current_key}
use openmux_server.Muxcon.Paths.Grouped.{IsGrouped, IsLive}
use openmux_server.Muxcon.Paths.Selected.{IsSelected, select_mpath_connection-IsSelected}
use openmux_server.Muxcon.Paths.Sweep.{
  Tick, mfl_sweep_once, mfl_prune_idle, mfl_eval_primary, is_stale, mfl_stale_promote,
}
use openmux_server.Muxcon.Paths.Changes.{
  Change, register, rekey, unregister, select, sweep, change, change_all, change_all-IsGrouped,
}

abbrev settings : Settings
settings = record { preemptive_promote = false; best_pref = true; primary_stale = 1000 }

abbrev first_meta : Meta
first_meta = record { opened_at = 10; pref = pos 5; last_seen = 20; last_rx_seen = 20 }

abbrev second_meta : Meta
second_meta = record { opened_at = 30; pref = pos 1; last_seen = 8000; last_rx_seen = 8000 }

abbrev pair : Group
pair = record {
  conns = (codes "a", first_meta) ∷ (codes "b", second_meta) ∷ [];
  primary = some (codes "a");
  last_primary_change = none;
}

abbrev none_frozen : Text → Bool
none_frozen cid = false

pair-IsLive : IsLive pair
unfolding lookup same
pair-IsLive = record {
  dict = (refl, (refl, tt));
  first_path = codes "a";
  chosen = refl;
  member = refl;
}

abbrev groups : Groups
groups = (codes "p1", pair) ∷ []

select_mpath_connection-IsSelected_example :
    (p : Text) × (m : Meta) × ((select_mpath_connection settings none_frozen 8100
        (codes "p1")
        groups).0
      ≡ some p)
    × IsSelected settings (mpath_conn_stale none_frozen (stale_cutoff settings 8100)) pair p m
unfolding lookup same
select_mpath_connection-IsSelected_example =
    select_mpath_connection-IsSelected settings none_frozen 8100 (codes "p1") groups pair refl
      pair-IsLive

abbrev no_peers : Peers
no_peers = record {
  groups = [];
  sendbuf = [];
  rx_state = [];
  tx_seq = [];
  retx_count = [];
  next_stream_id = [];
}

abbrev tick : Tick
tick = record {
  settings = settings;
  heartbeat_interval = 0;
  failover_check = 100;
  idle_drop = 0;
  last_ack = λ cid. 0;
  frozen = none_frozen;
  now = 8100;
}

abbrev changes : List Change
changes =
    register (codes "h:1") (codes "a") first_meta
    ∷ rekey (codes "p1") (codes "a")
    ∷ register (codes "p1") (codes "b") second_meta
    ∷ sweep tick
    ∷ select none_frozen 8200 (codes "p1")
    ∷ unregister (codes "p1") (codes "b")
    ∷ []

change_all-IsGrouped_example : IsGrouped (change_all settings changes no_peers).groups
change_all-IsGrouped_example = change_all-IsGrouped settings changes no_peers refl

-- The sweep makes the second connection the primary, and the first is the primary again when the second leaves.
last_groups :
    (change_all settings changes no_peers).groups
    ≡ (
      codes "p1",
      record {
        conns = (codes "a", first_meta) ∷ [];
        primary = some (codes "a");
        last_primary_change = some 8100;
      },
    )
      ∷ []
unfolding change_all change unregister_mpath_connection lookup select_mpath_connection
    register_mpath_connection insert rekey_mpath_connection rekey_find_current_key same erase
    mpath_apply_promotion mpath_conn_stale ranked mfl_sweep_once mfl_prune_idle mfl_eval_primary
    is_stale mfl_stale_promote
last_groups = refl

-- A sweep that drops what is idle for five seconds drops the first connection.
swept :
    mfl_sweep_once (record tick { idle_drop = 5000 }) groups
    ≡ (
      codes "p1",
      record {
        conns = (codes "b", second_meta) ∷ [];
        primary = some (codes "b");
        last_primary_change = some 30;
      },
    )
      ∷ []
unfolding mfl_sweep_once lookup insert same unregister_mpath_connection erase truthy
swept = refl
