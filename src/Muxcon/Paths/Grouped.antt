-- ===== src/Muxcon/Paths/Grouped.antt =====
-- Groups of openmux/server/adapters/muxcon.py that are kept well: each has a connection, and its
-- primary is one of its connections.
use openmux_server.Base.{
  ◌≡◌, refl, sym, subst, ◌∙◌, true, false, Option, none, some, [], ◌∷◌, Text, same, same_iff,
  same_refl, arith, Bool-cases, Option-cases, inl, inr, All, All-map,
}
use openmux_server.Dict.{Dict, lookup, has_key, insert, erase, lookup-insert, lookup-erase}
use openmux_server.Muxcon.Paths.{
  Meta, Group, Groups, Settings, fresh_group, truthy, first_key, mpath_apply_promotion, preempt,
  choose_primary, register_mpath_connection, pref_of, less,
}

-- Each key once.
module _ {V : Type 0} where
  abbrev pub IsDict : Dict V → Type 0
  IsDict [] = Unit
  IsDict ((k, v) ∷ d) = (lookup k d ≡ none) × IsDict d

  pub insert-IsDict : (k : Text) (v : V) (d : Dict V) → IsDict d → IsDict (insert k v d)
  unfolding insert lookup
  insert-IsDict k v [] a = (refl, tt)
  insert-IsDict k v ((j, w) ∷ d) a = elim (Bool-cases (same j k)) [
    | inl e ↦ rw e (ground (arith, same_iff j k, a.0), a.1)
    | inr e ↦ rw e (
      ground (arith, same_iff j k, same_iff k j, lookup-insert k j v d, a.0),
      insert-IsDict k v d a.1,
    )
  ]

  pub erase-IsDict : (k : Text) (d : Dict V) → IsDict d → IsDict (erase k d)
  unfolding erase
  erase-IsDict k [] a = tt
  erase-IsDict k ((j, w) ∷ d) a = elim (Bool-cases (same j k)) [
    | inl e ↦ rw e (erase-IsDict k d a.1)
    | inr e ↦ rw e (ground (arith, lookup-erase k j d, a.0), erase-IsDict k d a.1)
  ]

  found_later :
      (j k : Text) (w v : V) (d : Dict V)
      → lookup j d ≡ none
      → lookup k d ≡ some v
      → lookup k ((j, w) ∷ d) ≡ some v
  unfolding lookup
  found_later j k w v d h e = ground (arith, same_iff j k)

  -- Every entry is found under its key.
  pub IsDict-lookup : (d : Dict V) → IsDict d → All (λ (x : Text × V). lookup x.0 d ≡ some x.1) d
  unfolding lookup
  IsDict-lookup [] a = tt
  IsDict-lookup ((j, w) ∷ d) a = (
    ground (arith, same_refl j),
    All-map _ _ d (λ x e. found_later j x.0 w x.1 d a.0 e) (IsDict-lookup d a.1),
  )

-- The connections are a dict, and the primary is one of them.
pub record IsLive (g : Group) : Type 0 where
  pub dict : IsDict g.conns
  pub first_path : Text
  pub chosen : g.primary ≡ some first_path
  pub member : has_key first_path g.conns ≡ true

abbrev pub IsGrouped : Groups → Type 0
IsGrouped gs = (k : Text) (g : Group) → lookup k gs ≡ some g → IsLive g

pub has_key-some : (p : Text) (m : Meta) (d : Dict Meta) → lookup p d ≡ some m → has_key p d ≡ true
has_key-some p m d e = ground arith

has_key-insert :
    (k p : Text) (m : Meta) (d : Dict Meta) → has_key p d ≡ true → has_key p (insert k m d) ≡ true
has_key-insert k p m d h = ground (arith, lookup-insert k p m d)

has_key-insert_self : (k : Text) (m : Meta) (d : Dict Meta) → has_key k (insert k m d) ≡ true
has_key-insert_self k m d = ground (arith, lookup-insert k k m d, same_refl k)

pub has_key-erase :
    (k p : Text) (d : Dict Meta)
    → same p k ≡ false
    → has_key p d ≡ true
    → has_key p (erase k d) ≡ true
has_key-erase k p d e h = ground (arith, lookup-erase k p d, same_iff p k, same_iff k p)

pub insert-IsGrouped :
    (key : Text) (g : Group) (gs : Groups) → IsLive g → IsGrouped gs → IsGrouped (insert key g gs)
insert-IsGrouped key g gs l a k h e = elim (Bool-cases (same key k)) [
  | inl s ↦ subst IsLive (same_group (rw s at (sym (lookup-insert key k g gs) ∙ e))) l
  | inr s ↦ a k h (rw s at (sym (lookup-insert key k g gs) ∙ e))
]
  where
    same_group : some g ≡ some h → g ≡ h
    same_group q = cc

pub erase-IsGrouped : (key : Text) (gs : Groups) → IsGrouped gs → IsGrouped (erase key gs)
erase-IsGrouped key gs a k h e = elim (Bool-cases (same key k)) [
  | inl s ↦ absurd (absent (rw s at (sym (lookup-erase key k gs) ∙ e)))
  | inr s ↦ a k h (rw s at (sym (lookup-erase key k gs) ∙ e))
]
  where
    absent : none ≡ some h → ⊥
    absent q = cc

-- A connection that is found.
pub first_key-member : (d : Dict Meta) (p : Text) → first_key d ≡ some p → has_key p d ≡ true
unfolding lookup
first_key-member [] p e = cc
first_key-member ((k, m) ∷ d) p e = ground (arith, same_refl k)

preempt-IsLive :
    (cid : Text) (g : Group) (q : Option Text)
    → IsLive g
    → has_key cid g.conns ≡ true
    → IsLive (preempt cid g q)
preempt-IsLive cid g none l h = l
preempt-IsLive cid g (some current) l h = elim (Bool-cases (same current cid)) [
  | inl e ↦ rw e l
  | inr e ↦
      rw e
        (elim (Bool-cases
          (less (pref_of (lookup current g.conns)) (pref_of (lookup cid g.conns)))) [
            | inl b ↦ rw b (record { dict = l.dict; first_path = cid; chosen = refl; member = h })
            | inr b ↦ rw b l
          ])
]

promotion-IsLive :
    (o : Settings) (cid : Text) (g : Group)
    → IsLive g
    → has_key cid g.conns ≡ true
    → IsLive (mpath_apply_promotion o cid g)
unfolding mpath_apply_promotion
promotion-IsLive o cid g l h = elim (Bool-cases o.preemptive_promote) [
  | inl e ↦ rw e (preempt-IsLive cid g (truthy g.primary) l h)
  | inr e ↦ rw e l
]

-- A group that a connection has joined: the primary, if there is one, was there before.
pub joined-IsLive :
    (cid : Text) (m : Meta) (g : Group)
    → IsLive g
    → IsLive (record g { conns = insert cid m g.conns })
joined-IsLive cid m g l = record {
  dict = insert-IsDict cid m g.conns l.dict;
  first_path = l.first_path;
  chosen = l.chosen;
  member = has_key-insert cid l.first_path m g.conns l.member;
}

pub first-IsLive :
    (cid : Text) (m : Meta) (g : Group)
    → IsDict g.conns
    → IsLive (record g { conns = insert cid m g.conns; primary = some cid })
first-IsLive cid m g d = record {
  dict = insert-IsDict cid m g.conns d;
  first_path = cid;
  chosen = refl;
  member = has_key-insert_self cid m g.conns;
}

choose-IsLive :
    (o : Settings) (cid : Text) (m : Meta) (g : Group)
    → IsLive g
    → IsLive (choose_primary o cid (record g { conns = insert cid m g.conns }) (truthy g.primary))
choose-IsLive o cid m g l = elim (Option-cases (truthy g.primary)) [
  | inl e ↦ rw e (first-IsLive cid m g l.dict)
  | inr (p, e) ↦ rw e (
      promotion-IsLive o cid (record g { conns = insert cid m g.conns }) (joined-IsLive cid m g l)
        (has_key-insert_self cid m g.conns))
]

pub register-IsGrouped :
    (o : Settings) (key cid : Text) (m : Meta) (gs : Groups)
    → IsGrouped gs
    → IsGrouped (register_mpath_connection o key cid m gs)
unfolding register_mpath_connection
register-IsGrouped o key cid m gs a = elim (Option-cases (lookup key gs)) [
  | inl e ↦ insert-IsGrouped key _ gs (rw e (first-IsLive cid m fresh_group tt)) a
  | inr (g, e) ↦ insert-IsGrouped key _ gs (rw e (choose-IsLive o cid m g (a key g e))) a
]
