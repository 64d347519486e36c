-- ===== src/Muxcon/Paths/Changes.antt =====
-- Any changes of the groups of openmux/server/adapters/muxcon.py.
use openmux_server.Base.{ℕ, ◌≡◌, Bool, none, some, List, [], ◌∷◌, Text}
use openmux_server.Dict.{lookup}
use openmux_server.Muxcon.Paths.{
  Meta, Group, Settings, register_mpath_connection, unregister_mpath_connection,
  select_mpath_connection,
}
use openmux_server.Muxcon.Paths.Grouped.{IsGrouped, register-IsGrouped}
use openmux_server.Muxcon.Paths.Kept.{unregister-IsGrouped, rekey-IsGrouped, select-IsGrouped}
use openmux_server.Muxcon.Paths.Rekey.{Peers, rekey_mpath_connection}
use openmux_server.Muxcon.Paths.Sweep.{Tick, mfl_sweep_once}
use openmux_server.Muxcon.Paths.Swept.{sweep_once-IsGrouped}

-- What happens to the groups; the key is the one that the connection has at the time.
pub data Change : Type 0 where
  register : Text → Text → Meta → Change
  rekey : Text → Text → Change
  unregister : Text → Text → Change
  select : (Text → Bool) → ℕ → Text → Change
  sweep : Tick → Change

unfoldable pub change : Settings → Change → Peers → Peers
change o (register key cid m) s = record s {
  groups = register_mpath_connection o key cid m s.groups;
}
change o (rekey new_key cid) s = rekey_mpath_connection new_key cid s
change o (unregister key cid) s = record s { groups = unregister_mpath_connection key cid s.groups }
change o (select frozen now key) s = record s {
  groups = (select_mpath_connection o frozen now key s.groups).1;
}
change o (sweep t) s = record s { groups = mfl_sweep_once t s.groups }

unfoldable pub change_all : Settings → List Change → Peers → Peers
change_all o [] s = s
change_all o (c ∷ cs) s = change_all o cs (change o c s)

change-IsGrouped :
    (o : Settings) (c : Change) (s : Peers) → IsGrouped s.groups → IsGrouped (change o c s).groups
unfolding change
change-IsGrouped o (register key cid m) s a = register-IsGrouped o key cid m s.groups a
change-IsGrouped o (rekey new_key cid) s a = rekey-IsGrouped new_key cid s a
change-IsGrouped o (unregister key cid) s a = unregister-IsGrouped key cid s.groups a
change-IsGrouped o (select frozen now key) s a = select-IsGrouped o frozen now key s.groups a
change-IsGrouped o (sweep t) s a = sweep_once-IsGrouped t s.groups a

kept-IsGrouped :
    (o : Settings) (cs : List Change) (s : Peers)
    → IsGrouped s.groups
    → IsGrouped (change_all o cs s).groups
unfolding change_all
kept-IsGrouped o [] s a = a
kept-IsGrouped o (c ∷ cs) s a = kept-IsGrouped o cs (change o c s) (change-IsGrouped o c s a)

-- From no groups, whatever connections come, change their key, leave or are selected, and whenever the
-- failover loop sweeps: a group that is there has its connections once each, and its primary is one of
-- them.
pub change_all-IsGrouped :
    (o : Settings) (cs : List Change) (s : Peers)
    → s.groups ≡ []
    → IsGrouped (change_all o cs s).groups
unfolding lookup
change_all-IsGrouped o cs s e = kept-IsGrouped o cs s (λ k g q. absurd (no_group k g (rw e at q)))
  where
    no_group : (k : Text) (g : Group) → none ≡ some g → ⊥
    no_group k g q = cc
