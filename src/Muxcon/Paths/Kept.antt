-- ===== src/Muxcon/Paths/Kept.antt =====
-- Groups of openmux/server/adapters/muxcon.py whose connections leave, change their key or are selected.
use openmux_server.Base.{
  ℕ, ◌≡◌, refl, subst, ◌⊎◌, Bool, true, ◌&&◌, Option, some, [], ◌∷◌, Text, same, if◌then◌else◌,
  Bool-cases, Option-cases, inl, inr,
}
use openmux_server.Dict.{Dict, lookup, has_key, insert, erase}
use openmux_server.Muxcon.Paths.{
  Meta, Group, Groups, Settings, truthy, leave, keep_group, fresh_group,
  unregister_mpath_connection, settle_on, select_in, select_mpath_connection, mpath_conn_stale,
  stale_cutoff, mpath_clear_stale_primary, is_primary,
}
use openmux_server.Muxcon.Paths.Grouped.{
  IsDict, IsLive, IsGrouped, erase-IsDict, has_key-some, has_key-erase, first_key-member,
  insert-IsGrouped, erase-IsGrouped, joined-IsLive, first-IsLive,
}
use openmux_server.Muxcon.Paths.Best.{best, Preempting, preempting}
use openmux_server.Muxcon.Paths.Rekey.{
  Peers, rekey_mpath_connection, rekey_cleanup_empty_group, rekey_migrate_peer_state,
  rekey_find_current_key, join_group, primary_or,
}

left-IsLive :
    (cid p : Text) (q : Option Text) (since : Option ℕ) (d : Dict Meta) (y : Text × Meta)
    (e : Dict Meta)
    → erase cid d ≡ y ∷ e
    → IsDict d
    → q ≡ some p
    → has_key p d ≡ true
    → IsLive (record {
      conns = y ∷ e;
      primary = (if is_primary cid q then some y.0 else q);
      last_primary_change = since;
    })
left-IsLive cid p q since d y e c dict h m = elim (Bool-cases (same p cid)) [
  | inl s ↦
      rw (h, s)
        (record {
          dict = subst IsDict c (erase-IsDict cid d dict);
          first_path = y.0;
          chosen = refl;
          member = first_key-member (y ∷ e) y.0 refl;
        })
  | inr s ↦
      rw (h, s)
        (record {
          dict = subst IsDict c (erase-IsDict cid d dict);
          first_path = p;
          chosen = refl;
          member = rw c at (has_key-erase cid p d s m);
        })
]

-- A group that a connection leaves stays live, if it keeps a connection.
leave-IsLive :
    (cid : Text) (g : Group) (y : Text × Meta) (e : Dict Meta)
    → IsLive g
    → erase cid g.conns ≡ y ∷ e
    → IsLive (leave cid g)
leave-IsLive cid g y e l c = rw c (
    left-IsLive cid l.first_path g.primary g.last_primary_change g.conns y e c l.dict l.chosen
      l.member)

module _ (cid : Text) (g : Group) (l : IsLive g) where
  left_cases :
      (d : Dict Meta)
      → erase cid g.conns ≡ d
      → (d ≡ []) ⊎ ((y : Text × Meta) × (e : Dict Meta) × (d ≡ y ∷ e) × IsLive (leave cid g))
  left_cases [] c = inl refl
  left_cases (y ∷ e) c = inr (y, e, refl, leave-IsLive cid g y e l c)

  keep-IsGrouped :
      (key : Text) (gs : Groups) → IsGrouped gs → IsGrouped (keep_group key (leave cid g) gs)
  keep-IsGrouped key gs a = elim (left_cases (erase cid g.conns) refl) [
    | inl c ↦ rw c (erase-IsGrouped key gs a)
    | inr (y, e, c, n) ↦ rw c (insert-IsGrouped key _ gs (rw c at n) a)
  ]

  cleanup-IsGrouped :
      (current_key new_key : Text) (s : Peers)
      → IsGrouped s.groups
      → IsGrouped (rekey_cleanup_empty_group (leave cid g) current_key new_key s).groups
  unfolding rekey_migrate_peer_state
  cleanup-IsGrouped current_key new_key s a = elim (left_cases (erase cid g.conns) refl) [
    | inl c ↦ rw c (erase-IsGrouped current_key s.groups a)
    | inr (y, e, c, n) ↦ rw c (insert-IsGrouped current_key _ s.groups (rw c at n) a)
  ]

pub unregister-IsGrouped :
    (key cid : Text) (gs : Groups)
    → IsGrouped gs
    → IsGrouped (unregister_mpath_connection key cid gs)
unfolding unregister_mpath_connection
unregister-IsGrouped key cid gs a = elim (Option-cases (lookup key gs)) [
  | inl e ↦ rw e a
  | inr (g, e) ↦ rw e (keep-IsGrouped cid g (a key g e) key gs a)
]

join-IsGrouped :
    (new_key cid : Text) (m : Meta) (gs : Groups)
    → IsGrouped gs
    → IsGrouped (join_group new_key cid m gs)
unfolding join_group
join-IsGrouped new_key cid m gs a = elim (Option-cases (lookup new_key gs)) [
  | inl e ↦ insert-IsGrouped new_key _ gs (rw e (first-IsLive cid m fresh_group tt)) a
  | inr (g, e) ↦ insert-IsGrouped new_key _ gs (rw e (stay cid m g (a new_key g e))) a
]
  where
    stay :
        (cid : Text) (m : Meta) (g : Group)
        → IsLive g
        → IsLive (primary_or cid (record g { conns = insert cid m g.conns }) (truthy g.primary))
    stay cid m g l = elim (Option-cases (truthy g.primary)) [
      | inl e ↦ rw e (first-IsLive cid m g l.dict)
      | inr (p, e) ↦ rw e (joined-IsLive cid m g l)
    ]

pub rekey-IsGrouped :
    (new_key cid : Text) (s : Peers)
    → IsGrouped s.groups
    → IsGrouped (rekey_mpath_connection new_key cid s).groups
unfolding rekey_mpath_connection
rekey-IsGrouped new_key cid s a = elim (Option-cases (rekey_find_current_key cid s.groups)) [
  | inl e ↦ rw e a
  | inr (k, e) ↦ elim (Bool-cases (same k new_key)) [
    | inl b ↦ rw (e, b) a
    | inr b ↦ elim (Option-cases (lookup k s.groups)) [
      | inl f ↦ rw (e, b, f) a
      | inr (g, f) ↦ elim (Option-cases (lookup cid g.conns)) [
        | inl h ↦ rw (e, b, f, h) a
        | inr (m, h) ↦
            rw (e, b, f, h)
              (join-IsGrouped new_key cid m _ (cleanup-IsGrouped cid g (a k g f) k new_key s a))
      ]
    ]
  ]
]

settle-IsGrouped :
    (key p : Text) (m : Meta) (gs : Groups) (g : Group)
    → IsLive g
    → lookup p g.conns ≡ some m
    → IsGrouped gs
    → IsGrouped (settle_on key gs g (some p)).1
settle-IsGrouped key p m gs g l f a =
    insert-IsGrouped key _ gs
      (record { dict = l.dict; first_path = p; chosen = refl; member = has_key-some p m g.conns f })
      a

select_in-IsGrouped :
    (o : Settings) (stale : Text → Meta → Bool) (key : Text) (gs : Groups) (g : Group)
    → IsLive g
    → IsGrouped gs
    → IsGrouped (select_in o stale key gs (some g)).1
unfolding Preempting
select_in-IsGrouped o stale key gs g l a = elim (Option-cases (mpath_clear_stale_primary stale g)) [
  | inl e ↦
      let (p, m, r, f, fit, n) = best stale g l in rw (e, r) (settle-IsGrouped key p m gs g l f a)
  | inr (c, e) ↦ elim (Bool-cases (o.preemptive_promote && o.best_pref)) [
    | inl b ↦ elim (preempting stale g l c) [
      | inl (r, w) ↦ rw (e, b, r) a
      | inr (p, m, r, f, s, n) ↦ rw (e, b, r) (settle-IsGrouped key p m gs g l f a)
    ]
    | inr b ↦ rw (e, b) a
  ]
]

pub select-IsGrouped :
    (o : Settings) (frozen : Text → Bool) (now : ℕ) (key : Text) (gs : Groups)
    → IsGrouped gs
    → IsGrouped (select_mpath_connection o frozen now key gs).1
unfolding select_mpath_connection
select-IsGrouped o frozen now key gs a = elim (Option-cases (lookup key gs)) [
  | inl e ↦ rw e a
  | inr (g, e) ↦
      rw e (
        select_in-IsGrouped o (mpath_conn_stale frozen (stale_cutoff o now)) key gs g (a key g e) a)
]
