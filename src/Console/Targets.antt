-- ===== src/Console/Targets.antt =====
-- Which holder a takeover demotes (openmux/server/console_manager.py, `_resolve_take_target`).
use openmux_server.Base.{
  All, All-map, ◌≡◌, Bool, true, false, not, ◌&&◌, Option, none, some, List, [], ◌∷◌, Text, same,
  same_iff, same_refl, keep, arith, Bool-cases, inl, inr, ltb, subst,
}
use openmux_server.Ports.{Port}
use openmux_server.Ports.Records.{Client, is_rw, has_id, is_attached, find_client}
use openmux_server.Ports.Slots.{IsDistinct}
use openmux_server.Ports.Effects.{is_attached_of_find}
use openmux_server.Console.Takeover.{
  Target, victim, nothing, other_holders, match_take_target, latest, choose, resolve_take_target,
  only, or_printed, named,
}

All-keep :
    (P : Client → Type 0) (t : Client → Bool) (cs : List Client) → All P cs → All P (keep t cs)
All-keep P t [] h = tt
All-keep P t (c ∷ cs) h = ground (arith, All-keep P t cs h.1)

latest-All :
    (P : Client → Type 0) (best : Client) (cs : List Client)
    → P best
    → All P cs
    → P (latest best cs)
unfolding latest
latest-All P best [] h k = h
latest-All P best (c ∷ cs) h k = elim (Bool-cases (ltb best.connected_at c.connected_at)) [
  | inl e ↦ rw e (latest-All P c cs k.0 k.1)
  | inr e ↦ rw e (latest-All P best cs h k.1)
]

abbrev AllSome : (Client → Type 0) → Option Client → Type 0
AllSome P none = Unit
AllSome P (some c) = P c

find-All :
    (P : Client → Type 0) (j : Text) (cs : List Client) → All P cs → AllSome P (find_client j cs)
find-All P j [] h = tt
find-All P j (c ∷ cs) h = elim (Bool-cases (same c.client_id j)) [
  | inl e ↦ rw e h.0
  | inr e ↦ rw e (find-All P j cs h.1)
]

only-All : (P : Client → Type 0) (cs : List Client) → All P cs → AllSome P (only cs)
only-All P [] h = tt
only-All P (c ∷ []) h = h.0
only-All P (c ∷ d ∷ cs) h = tt

or_printed-All :
    (P : Client → Type 0) (a b : Option Client)
    → AllSome P a
    → AllSome P b
    → AllSome P (or_printed a b)
or_printed-All P none b h k = k
or_printed-All P (some c) b h k = h

match-All :
    (P : Client → Type 0) (t : Text) (cs : List Client)
    → All P cs
    → AllSome P (match_take_target cs t)
unfolding match_take_target
match-All P t cs h = or_printed-All P _ _ (find-All P t cs h) (only-All P _ (All-keep P _ cs h))

abbrev AllVictim : (Client → Type 0) → Target → Type 0
AllVictim P (victim c) = P c
AllVictim P (nothing c) = Unit

named-All : (P : Client → Type 0) (o : Option Client) → AllSome P o → AllVictim P (named o)
named-All P none h = tt
named-All P (some c) h = h

choose-All :
    (P : Client → Type 0) (cs : List Client) (target : Option Text)
    → All P cs
    → AllVictim P (choose cs target)
choose-All P [] target h = tt
choose-All P (c ∷ cs) none h = latest-All P c cs h.0 h.1
choose-All P (c ∷ cs) (some t) h = named-All P _ (match-All P t (c ∷ cs) h)

-- A record of the list that holds the slot, and is not the taker's.
abbrev pub IsOther : Text → List Client → Client → Type 0
IsOther taker cs c =
    (find_client c.client_id cs ≡ some c) × (is_rw c ≡ true) × (same c.client_id taker ≡ false)

find-cons :
    (taker : Text) (d : Client) (cs : List Client)
    → is_attached d.client_id cs ≡ false
    → (c : Client) → IsOther taker cs c
    → IsOther taker (d ∷ cs) c
find-cons taker d cs h c k =
    ground (arith, same_iff d.client_id c.client_id, is_attached_of_find c.client_id cs c k.0)

IsOther-head :
    (taker : Text) (d : Client) (cs : List Client)
    → (is_rw d && not (has_id taker d)) ≡ true
    → IsOther taker (d ∷ cs) d
IsOther-head taker d cs e = ground (arith, same_refl d.client_id)

other_holders-All :
    (taker : Text) (cs : List Client)
    → IsDistinct cs
    → All (IsOther taker cs) (other_holders taker cs)
unfolding other_holders
other_holders-All taker [] h = tt
other_holders-All taker (d ∷ cs) h =
    let rest : All (IsOther taker (d ∷ cs)) (other_holders taker cs) =
      All-map (IsOther taker cs) (IsOther taker (d ∷ cs)) (other_holders taker cs)
        (find-cons taker d cs h.0) (other_holders-All taker cs h.1) in
    elim (Bool-cases (is_rw d && not (has_id taker d))) [
      | inl e ↦ rw e (IsOther-head taker d cs e, rest)
      | inr e ↦ rw e rest
    ]

-- On a port with distinct clients, the holder that is chosen is in its list, holds the slot, and
-- is not the taker.
pub resolve_take_target-IsOther :
    (taker : Text) (target : Option Text) (p : Port) (v : Client)
    → IsDistinct p.connected_clients
    → resolve_take_target taker target (some p) ≡ victim v
    → IsOther taker p.connected_clients v
unfolding resolve_take_target
resolve_take_target-IsOther taker target p v h e =
    subst (AllVictim (IsOther taker p.connected_clients)) e (
      choose-All (IsOther taker p.connected_clients) _ target
        (other_holders-All taker p.connected_clients h))
