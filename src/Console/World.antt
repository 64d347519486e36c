-- ===== src/Console/World.antt =====
-- The state of the console manager and the port manager, what they ask of others, and the actions
-- over that state. An action returns its result and the state; `none` is an exception.
use openmux_server.Base.{
  ◌≡◌, ap, ℕ, Bool, true, false, Option, none, some, List, [], ◌∷◌, Text, codes, same,
  if◌then◌else◌,
}
use openmux_server.Capacity.{Raw}
use openmux_server.Decision.Codes.{Code, Mode}
use openmux_server.Decision.{AccessDecision, Details, Holder, decide}
use openmux_server.Dict.{Dict, lookup, insert, erase, has_key}
use openmux_server.Ports.Records.{Client, is_rw}
use openmux_server.Ports.{Port, Ports, update_port, add_client, promote, demote, remove_client}

pub record World : Type 0 where
  pub ports : Ports
  pub client_port_map : Dict Text
  -- The control frames that went out to one client each, newest last.
  pub sent : List (Text × AccessDecision)

-- What the console manager takes from others: the authentication manager, the security policy, the
-- adapters that know a client's source, the clock, the origin server of a federated port, and the
-- other tasks, which run while this one waits.
pub record Outside : Type 0 where
  pub permissions : Text → Option Text
  pub groups : Text → List Text
  pub access_default : Text
  pub ip : Text → Text
  pub channel_username : Text → Option Text
  pub now : World → ℕ
  pub origin_grants_request : World → Text → Text → Bool
  pub origin_grants_take : World → Text → Text → Option Text → Bool
  pub meanwhile : World → World

abbrev pub Action : Type 0 → Type 0
Action A = World → Option A × World

module _ {A : Type 0} where
  unfoldable pub pure : A → Action A
  pure a w = (some a, w)

  unfoldable pub lift : Option A → Action A
  lift o w = (o, w)

  unfoldable pub gets : (World → A) → Action A
  gets f w = (some (f w), w)

-- The rest of a `do` block, which an exception skips.
abbrev pub next : {A B : Type 0} → (A → Action B) → Option A × World → Option B × World
next f (some a, w) = f a w
next f (none, w) = (none, w)

infixl 5 ◌>>=◌ ◌>>◌
unfoldable pub ◌>>=◌ : {A B : Type 0} → Action A → (A → Action B) → Action B
◌>>=◌ m f w = next f (m w)

unfoldable pub ◌>>◌ : {A B : Type 0} → Action A → Action B → Action B
unfolding ◌>>=◌
m >> k = m >>= λ _. k

pub bind_done :
    {A B : Type 0} (m : Action A) (f : A → Action B) (w w' : World) (a : A)
    → m w ≡ (some a, w')
    → (m >>= f) w ≡ f a w'
unfolding ◌>>=◌
bind_done m f w w' a e = ap (next f) e

pub then_done :
    {A B : Type 0} (m : Action A) (k : Action B) (w w' : World) (a : A)
    → m w ≡ (some a, w')
    → (m >> k) w ≡ k w'
unfolding ◌>>◌
then_done m k w w' a e = bind_done m (λ _. k) w w' a e

unfoldable pub modify : (World → World) → Action (Unit {0})
modify f w = (some tt, f w)

-- A point where the task waits and others run.
unfoldable pub pause : Outside → Action (Unit {0})
pause o = modify o.meanwhile

abbrev pub with_ports : World → Bool × Ports → Option Bool × World
with_ports w (b, ps) = (some b, record w { ports = ps })

-- An operation of the port manager on the port of a name; it is done without a wait.
unfoldable pub change_port : Text → (Port → Option Port) → Action Bool
change_port name f w = with_ports w (update_port name f w.ports)

unfoldable pub promote_client : Text → Text → Action Bool
promote_client name cid = change_port name (promote cid)

unfoldable pub demote_client : Text → Text → Action Bool
demote_client name cid = change_port name (demote cid)

-- The link state of a federated proxy; a local port and a missing one have none.
abbrev pub link : Option Port → Option Bool
link none = none
link (some p) = p.remote

abbrev pub is_remote : Option Port → Bool
is_remote o = elim (link o) [ none ↦ false | some b ↦ true ]

abbrev pub is_linked : Option Port → Bool
is_linked o = elim (link o) [ none ↦ false | some b ↦ b ]

unfoldable pub get_port : Text → World → Option Port
get_port name w = lookup name w.ports

unfoldable pub pause_if : Outside → Bool → Action (Unit {0})
pause_if o b = if b then pause o else pure tt

-- `add_client_to_port`; the stream of a proxy whose link is up is opened across a wait.
unfoldable pub add_client_to_port : Outside → Text → Text → Text → Mode → Action Bool
add_client_to_port o name cid user m = do
  at ← gets o.now
  done ←
      change_port name
        (add_client (record { client_id = cid; username = user; mode = m; connected_at = at }))
  up ← gets (λ w. is_linked (get_port name w))
  pause_if o (if done then up else false)
  pure done

-- `remove_client_from_port`; the stream of a proxy is closed across a wait.
unfoldable pub remove_client_from_port : Outside → Text → Text → Action Bool
remove_client_from_port o name cid = do
  done ← change_port name (remove_client cid)
  remote ← gets (λ w. is_remote (get_port name w))
  pause_if o (if done then remote else false)
  pure done

-- `client_port_map.get(cid) == name`
abbrev pub is_name : Text → Option Text → Bool
is_name name none = false
is_name name (some n) = same n name

unfoldable pub is_on_port : Text → Text → World → Bool
is_on_port cid name w = is_name name (lookup cid w.client_port_map)

unfoldable pub set_client_port : Text → Text → Action (Unit {0})
set_client_port cid name =
    modify (λ w. record w { client_port_map = insert cid name w.client_port_map })

-- `del client_port_map[cid]` raises on a missing key.
unfoldable pub unset_client_port : Text → Action (Unit {0})
unset_client_port cid w =
    if has_key cid w.client_port_map
    then (some tt, record w { client_port_map = erase cid w.client_port_map })
    else (none, w)

abbrev pub or_unknown : Text → Text
or_unknown [] = codes "unknown"
or_unknown (c ∷ s) = c ∷ s

-- `holders_of`
unfoldable pub holders_of : Outside → List Client → List Holder
holders_of o [] = []
holders_of o (c ∷ cs) =
    if is_rw c
    then (record {
      client_id = c.client_id;
      username = or_unknown c.username;
      ip = or_unknown (o.ip c.client_id);
    })
      ∷ holders_of o cs
    else holders_of o cs

-- `_holders_for`
abbrev pub holders_for : Outside → Option Port → List Holder
holders_for o none = []
holders_for o (some p) = holders_of o p.connected_clients

-- `_port_capacity`
abbrev pub port_capacity : Option Port → Option Raw
port_capacity none = none
port_capacity (some p) = some p.max_read_write_users

-- What a decision carries beside its code and its mode: nothing but the names; with the capacity of
-- the port; with the holders of its slot too.
abbrev pub plain : Text → Text → Details
plain cid name = record {
  client_id = cid;
  port_name = name;
  actor = [];
  victim = none;
  holders = [];
  capacity = none;
}

abbrev pub capped : Option Port → Text → Text → Details
capped port cid name = record {
  client_id = cid;
  port_name = name;
  actor = [];
  victim = none;
  holders = [];
  capacity = port_capacity port;
}

abbrev pub seated : Outside → Option Port → Text → Text → Details
seated o port cid name = record {
  client_id = cid;
  port_name = name;
  actor = [];
  victim = none;
  holders = holders_for o port;
  capacity = port_capacity port;
}

-- A decision built from the port as it is now.
unfoldable pub answer_plain : Code → Mode → Text → Text → Action AccessDecision
answer_plain c m cid name = lift (decide c m (plain cid name))

unfoldable pub answer_capped : Code → Mode → Text → Text → Action AccessDecision
answer_capped c m cid name w = (decide c m (capped (get_port name w) cid name), w)

unfoldable pub answer_seated : Outside → Code → Mode → Text → Text → Action AccessDecision
answer_seated o c m cid name w = (decide c m (seated o (get_port name w) cid name), w)
