-- ===== src/Action/Blocked.antt =====
-- Which consoles keep a user from switching an outlet (openmux/server/adapters/pdu.py,
-- `_power_blocked_ports`, over the access ladder of openmux/server/console_manager.py).
use openmux_server.Base.{
  ◌≡◌, refl, true, false, Option, none, some, List, [], ◌∷◌, Text, codes, same, All, Bool-cases,
  inl, inr,
}
use openmux_server.Action.Power.{
  Pdu, is_any, blocked_for, power_blocked_ports, mapped_ports_for_ref,
}
use openmux_server.Console.Access.{admin_may_drive}
use openmux_server.Console.Ladder.{
  taker_entitled, may_drive_of, word, blocked_from, blocked_ports_for_user,
}
use openmux_server.Console.World.{Outside}
use openmux_server.Dict.{lookup}
use openmux_server.Ports.{Ports}

-- The user may drive the console.
abbrev pub Drives : Outside → Ports → Text → Text → Type 0
Drives o ps user n =
    may_drive_of (taker_entitled o (lookup n ps) (word (o.permissions user)) user) ≡ true

-- The user may drive all the consoles, where there is a user name and a check.
abbrev pub MayDriveAll : Text → Option (Outside × Ports) → List Text → Type 0
MayDriveAll [] cm names = Unit
MayDriveAll (c ∷ user) none names = Unit
MayDriveAll (c ∷ user) (some (o, ps)) names = All (Drives o ps (c ∷ user)) names

none_blocked :
    (o : Outside) (ps : Ports) (user : Text) (names : List Text)
    → is_any (blocked_from o ps (word (o.permissions user)) user names) ≡ false
    → All (Drives o ps user) names
unfolding blocked_from
none_blocked o ps user [] h = tt
none_blocked o ps user (n ∷ names) h =
    elim (Bool-cases
      (may_drive_of (taker_entitled o (lookup n ps) (word (o.permissions user)) user))) [
        | inl e ↦ (e, none_blocked o ps user names (rw e at h))
        | inr e ↦ let f = rw e at h in cc
      ]

admin_passes :
    (o : Outside) (ps : Ports) (user : Text) (names : List Text)
    → same (word (o.permissions user)) (codes "admin") ≡ true
    → All (Drives o ps user) names
admin_passes o ps user [] e = tt
admin_passes o ps user (n ∷ names) e = (
  rw (admin_may_drive o (lookup n ps) (word (o.permissions user)) user e) refl,
  admin_passes o ps user names e,
)

check_passes :
    (o : Outside) (ps : Ports) (user : Text) (names : List Text)
    → is_any (blocked_ports_for_user o ps names user) ≡ false
    → All (Drives o ps user) names
unfolding blocked_ports_for_user
check_passes o ps user names h =
    elim (Bool-cases (same (word (o.permissions user)) (codes "admin"))) [
      | inl e ↦ admin_passes o ps user names e
      | inr e ↦ none_blocked o ps user names (rw e at h)
    ]

blocked_for-MayDriveAll :
    (user : Text) (cm : Option (Outside × Ports)) (names : List Text)
    → is_any (blocked_for user cm names) ≡ false
    → MayDriveAll user cm names
blocked_for-MayDriveAll [] cm names h = tt
blocked_for-MayDriveAll (c ∷ user) none names h = tt
blocked_for-MayDriveAll (c ∷ user) (some (o, ps)) names h = check_passes o ps (c ∷ user) names h

pub power_blocked_ports-MayDriveAll :
    (pdu : Pdu) (r : Text)
    → is_any (power_blocked_ports pdu r) ≡ false
    → MayDriveAll pdu.username pdu.console_manager (mapped_ports_for_ref r pdu.port_refs)
unfolding power_blocked_ports
power_blocked_ports-MayDriveAll pdu r h =
    blocked_for-MayDriveAll pdu.username pdu.console_manager (mapped_ports_for_ref r pdu.port_refs)
      h
