-- ===== src/Console/Access.antt =====
-- What the access ladder of openmux/server/console_manager.py promises.
use openmux_server.Base.{
  ◌≡◌, refl, ◌↔◌, ◌⊎◌, inl, inr, true, false, ◌&&◌, not, Option, some, List, [], ◌∷◌, Text, codes,
  same, same_iff, same_refl, contains, arith, Bool-cases,
}
use openmux_server.Capacity.{write_capacity}
use openmux_server.Decision.Codes.{
  read_write, read_only, Code, grant, refusal, kind, denied_by_group_acl, denied_by_access_default,
}
use openmux_server.Decision.{
  AccessDecision, Entitlement, decide, build, denied, entitled_write, entitled_read_only,
}
use openmux_server.Dict.{lookup}
use openmux_server.Ports.{Port, Ports}
use openmux_server.Console.World.{Outside, capped}
use openmux_server.Console.Ladder.{
  taker_entitled, resolve_access_mode, rw_mode_or_demote, has_write_slots, may_drive_of, has_lists,
  meets, rw_groups, ro_groups, blocked_from, blocked_ports_for_user, word, on_ladder, no_slots,
  setting,
}

abbrev pub denial : Code → Entitlement
denial c = record { grant = denied; code = some c }

not_head :
    (g h : Text) (gs hs : List Text)
    → contains h (g ∷ gs) ≡ true
    → contains h hs ≡ true
    → contains g hs ≡ false
    → contains h gs ≡ true
not_head g h gs hs m k e = elim (Bool-cases (same h g)) [
  | inl q ↦ let r : h ≡ g = ground (arith, same_iff h g) in cc
  | inr q ↦ rw q at m
]

-- A group that is in both.
abbrev pub Shares : List Text → List Text → Type 0
Shares gs hs = (g : Text) × (contains g gs ≡ true) × (contains g hs ≡ true)

meets_cases :
    (gs hs : List Text)
    → ((meets gs hs ≡ true) × Shares gs hs) ⊎ ((meets gs hs ≡ false) × ¬ (Shares gs hs))
unfolding meets
meets_cases [] hs = inr (refl, λ s. cc s.1)
meets_cases (g ∷ gs) hs = elim (Bool-cases (contains g hs)) [
  | inl e ↦ inl (rw e refl, (g, rw (same_refl g) refl, e))
  | inr e ↦ elim (meets_cases gs hs) [
    | inl (m, s) ↦ inl (rw (e, m) refl, (s.0, ground (arith, s.1), s.2))
    | inr (m, n) ↦ inr (rw (e, m) refl, λ s. n (s.0, not_head g s.0 gs hs s.1 s.2 e, s.2))
  ]
]

-- Of an identity with such groups, on a port with such lists: what it is entitled to.
abbrev pub IsClosed : List Text → Option Port → Option Entitlement → Type 0
IsClosed groups port e =
    (Shares groups (rw_groups port) × (e ≡ some entitled_write))
    ⊎ (((¬ (Shares groups (rw_groups port)))
          × Shares groups (ro_groups port)
          × (e ≡ some entitled_read_only))
        ⊎ ((¬ (Shares groups (rw_groups port)))
            × (¬ (Shares groups (ro_groups port)))
            × (e ≡ some (denial denied_by_group_acl))))

-- Group lists are a closed boundary. On a port with lists, an identity that is no admin either has a
-- group of the writing list and may drive, or has none of these but one of the reading list and may
-- watch, or has no group of either and is denied, whatever its global permission and the server's
-- default.
pub taker_entitled_lists :
    (o : Outside) (port : Option Port) (p user : Text)
    → has_lists port ≡ true
    → same p (codes "admin") ≡ false
    → IsClosed (o.groups user) port (taker_entitled o port p user)
unfolding taker_entitled
taker_entitled_lists o port p user lists np = elim (meets_cases (o.groups user) (rw_groups port)) [
  | inl (m, s) ↦ inl (s, rw (np, lists, m) refl)
  | inr (m, n) ↦ elim (meets_cases (o.groups user) (ro_groups port)) [
    | inl (r, s) ↦ inr (inl (n, s, rw (np, lists, m, r) refl))
    | inr (r, k) ↦ inr (inr (n, k, rw (np, lists, m, r) refl))
  ]
]

taker_entitled_cases :
    (o : Outside) (port : Option Port) (p user : Text)
    → (taker_entitled o port p user ≡ some entitled_write)
      ⊎ ((taker_entitled o port p user ≡ some entitled_read_only)
          ⊎ ((taker_entitled o port p user ≡ some (denial denied_by_group_acl))
              ⊎ (taker_entitled o port p user ≡ some (denial denied_by_access_default))))
unfolding taker_entitled
taker_entitled_cases o port p user = ground arith

-- The mode of an attach and its outcome, against the entitlement and the free slots.
abbrev pub IsLadder : Option Port → Option Entitlement → Option AccessDecision → Type 0
IsLadder port e r =
    (d : AccessDecision) × (r ≡ some d)
    × ((d.mode ≡ read_write) ↔ ((may_drive_of e ≡ true) × (has_write_slots port ≡ true)))
    × ((kind d.code ≡ grant)
        ⊎ ((kind d.code ≡ refusal) × (may_drive_of e ≡ false) × (d.mode ≡ read_only)))

on_ladder_write :
    (port : Option Port) (name : Text)
    → IsLadder port (some entitled_write) (on_ladder port name (some entitled_write))
unfolding rw_mode_or_demote decide
on_ladder_write port name = elim (Bool-cases (has_write_slots port)) [
  | inl e ↦ rw (e, rw_mode_or_demote) (_, refl, ((λ _. (refl, refl)), (λ _. refl)), inl refl)
  | inr e ↦ elim (Bool-cases (no_slots (write_capacity (setting port)))) [
    | inl z ↦ rw (e, z, rw_mode_or_demote) (_, refl, ((λ h. cc), (λ h. cc)), inl refl)
    | inr z ↦ rw (e, z, rw_mode_or_demote) (_, refl, ((λ h. cc), (λ h. cc)), inl refl)
  ]
]

on_ladder_watch :
    (port : Option Port) (name : Text)
    → IsLadder port (some entitled_read_only) (on_ladder port name (some entitled_read_only))
unfolding decide
on_ladder_watch port name = (_, refl, ((λ h. cc), (λ h. cc h.0)), inl refl)

on_ladder_denied :
    (port : Option Port) (name : Text) (c : Code)
    → kind c ≡ refusal
    → IsLadder port (some (denial c)) (on_ladder port name (some (denial c)))
unfolding decide
on_ladder_denied port name c e = (
  build c read_only (capped port [] name),
  ground (arith, e),
  ((λ h. cc), (λ h. cc h.0)),
  inr (e, refl, refl),
)

-- The ladder always answers. It gives read-write exactly to an identity that may drive the port while
-- a slot is free; anything else is a grant of a read-only seat, or a refusal of one that may not
-- drive.
pub resolve_access_mode-IsLadder :
    (o : Outside) (port : Option Port) (name permissions user : Text)
    → IsLadder port
        (taker_entitled o port permissions user)
        (resolve_access_mode o port name permissions user)
unfolding resolve_access_mode
resolve_access_mode-IsLadder o port name permissions user =
    elim (taker_entitled_cases o port permissions user) [
      | inl e ↦ rw e (on_ladder_write port name)
      | inr (inl e) ↦ rw e (on_ladder_watch port name)
      | inr (inr (inl e)) ↦ rw e (on_ladder_denied port name denied_by_group_acl refl)
      | inr (inr (inr e)) ↦ rw e (on_ladder_denied port name denied_by_access_default refl)
    ]

contains-blocked_from :
    (o : Outside) (ps : Ports) (p user n : Text) (names : List Text)
    → contains n (blocked_from o ps p user names)
      ≡ (contains n names && not (may_drive_of (taker_entitled o (lookup n ps) p user)))
unfolding blocked_from
contains-blocked_from o ps p user n [] = refl
contains-blocked_from o ps p user n (m ∷ names) =
    ground (arith, same_iff n m, contains-blocked_from o ps p user n names)

pub admin_may_drive :
    (o : Outside) (port : Option Port) (p user : Text)
    → same p (codes "admin") ≡ true
    → taker_entitled o port p user ≡ some entitled_write
unfolding taker_entitled
admin_may_drive o port p user e = rw e

-- A port is blocked for a user exactly if it is asked about and the user may not drive it.
pub contains-blocked_ports_for_user :
    (o : Outside) (ps : Ports) (names : List Text) (user n : Text)
    → contains n (blocked_ports_for_user o ps names user) ≡ (
        contains n names
        && not (may_drive_of (taker_entitled o (lookup n ps) (word (o.permissions user)) user)))
unfolding blocked_ports_for_user
contains-blocked_ports_for_user o ps names user n =
    elim (Bool-cases (same (word (o.permissions user)) (codes "admin"))) [
      | inl e ↦
          rw (e, admin_may_drive o (lookup n ps) (word (o.permissions user)) user e) (ground arith)
      | inr e ↦ rw e (contains-blocked_from o ps (word (o.permissions user)) user n names)
    ]
