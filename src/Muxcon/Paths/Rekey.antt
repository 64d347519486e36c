-- ===== src/Muxcon/Paths/Rekey.antt =====
-- openmux/server/adapters/muxcon.py: a connection whose key changes (`_rekey_mpath_connection`), and
-- the counters of the peer that move with the last connection (`_rekey_migrate_peer_state`).
use openmux_server.Base.{ℕ, ◌+◌, Option, none, some, [], ◌∷◌, Text, same, max, if◌then◌else◌}
use openmux_server.Dict.{Dict, lookup, has_key, insert, erase}
use openmux_server.Muxcon.Numbered.{Numbered, put}
use openmux_server.Muxcon.Receive.{Rx}
use openmux_server.Muxcon.Send.{Unacked}
use openmux_server.Muxcon.Paths.{Meta, Group, Groups, group_or_fresh, truthy, leave}

-- The groups, and what is kept for each peer: the send buffer, the state of the receiver, the next
-- number, the count of retransmissions and the last stream.
pub record Peers : Type 0 where
  pub groups : Groups
  pub sendbuf : Dict (Numbered Unacked)
  pub rx_state : Dict Rx
  pub tx_seq : Dict ℕ
  pub retx_count : Dict ℕ
  pub next_stream_id : Dict ℕ

abbrev pub or_number : ℕ → Option ℕ → ℕ
or_number n none = n
or_number n (some k) = k

-- A number that is popped from the old key goes into the number of the new key.
abbrev pub merge_number : (ℕ → ℕ → ℕ) → ℕ → Text → Text → Dict ℕ → Option ℕ → Dict ℕ
merge_number join start old_key new_key d none = d
merge_number join start old_key new_key d (some n) =
    let d' = erase old_key d in insert new_key (join n (or_number start (lookup new_key d'))) d'

abbrev pub move_number : (ℕ → ℕ → ℕ) → ℕ → Text → Text → Dict ℕ → Dict ℕ
move_number join start old_key new_key d =
    merge_number join start old_key new_key d (lookup old_key d)

-- `a.update(b)`
unfoldable pub update : Numbered Unacked → Numbered Unacked → Numbered Unacked
update a [] = a
update a ((k, u) ∷ b) = update (put k u a) b

abbrev pub or_empty : Option (Numbered Unacked) → Numbered Unacked
or_empty none = []
or_empty (some b) = b

abbrev pub move_sendbuf :
    Text → Text → Dict (Numbered Unacked) → Option (Numbered Unacked) → Dict (Numbered Unacked)
move_sendbuf old_key new_key d none = d
move_sendbuf old_key new_key d (some []) = erase old_key d
move_sendbuf old_key new_key d (some (u ∷ b)) =
    let d' = erase old_key d in insert new_key (update (or_empty (lookup new_key d')) (u ∷ b)) d'

abbrev pub move_rx : Text → Text → Dict Rx → Option Rx → Dict Rx
move_rx old_key new_key d none = d
move_rx old_key new_key d (some st) =
    let d' = erase old_key d in if has_key new_key d' then d' else insert new_key st d'

unfoldable pub rekey_migrate_peer_state : Text → Text → Peers → Peers
unfolding update
rekey_migrate_peer_state old_key new_key s = record s {
  sendbuf = move_sendbuf old_key new_key s.sendbuf (lookup old_key s.sendbuf);
  rx_state = move_rx old_key new_key s.rx_state (lookup old_key s.rx_state);
  tx_seq = move_number max 1 old_key new_key s.tx_seq;
  retx_count = move_number (λ a b. a + b) 0 old_key new_key s.retx_count;
  next_stream_id = move_number max 0 old_key new_key s.next_stream_id;
}

-- `_rekey_find_current_key`
unfoldable pub rekey_find_current_key : Text → Groups → Option Text
rekey_find_current_key cid [] = none
rekey_find_current_key cid ((k, g) ∷ gs) =
    if has_key cid g.conns then some k else rekey_find_current_key cid gs

-- `_rekey_cleanup_empty_group`, on the group that the connection has left.
abbrev pub rekey_cleanup_empty_group : Group → Text → Text → Peers → Peers
rekey_cleanup_empty_group g current_key new_key s = elim g.conns [
  | [] ↦
      rekey_migrate_peer_state current_key new_key
        (record s { groups = erase current_key s.groups })
  | ◌∷◌ p d ↦ record s { groups = insert current_key g s.groups }
]

abbrev pub primary_or : Text → Group → Option Text → Group
primary_or cid g none = record g { primary = some cid }
primary_or cid g (some p) = g

unfoldable pub join_group : Text → Text → Meta → Groups → Groups
unfolding truthy
join_group new_key cid m gs =
    let g : Group = group_or_fresh (lookup new_key gs) in
    let g' : Group = record g { conns = insert cid m g.conns } in
    insert new_key (primary_or cid g' (truthy g'.primary)) gs

abbrev pub rekey_meta : Text → Text → Text → Peers → Group → Option Meta → Peers
rekey_meta new_key cid current_key s g none = s
rekey_meta new_key cid current_key s g (some m) =
    let s' = rekey_cleanup_empty_group (leave cid g) current_key new_key s in
    record s' { groups = join_group new_key cid m s'.groups }

abbrev pub rekey_group : Text → Text → Text → Peers → Option Group → Peers
rekey_group new_key cid current_key s none = s
rekey_group new_key cid current_key s (some g) =
    rekey_meta new_key cid current_key s g (lookup cid g.conns)

abbrev pub rekey_from : Text → Text → Peers → Option Text → Peers
rekey_from new_key cid s none = s
rekey_from new_key cid s (some current_key) =
    if same current_key new_key
    then s
    else rekey_group new_key cid current_key s (lookup current_key s.groups)

-- `new_key` is the key that the connection has now.
unfoldable pub rekey_mpath_connection : Text → Text → Peers → Peers
unfolding rekey_migrate_peer_state join_group
rekey_mpath_connection new_key cid s =
    rekey_from new_key cid s (rekey_find_current_key cid s.groups)
