-- ===== src/Console/Admission.antt =====
-- Attaching to a local port (openmux/server/console_manager.py, `connect_client_to_port`) when no
-- other task runs in between: the decision reports the mode that the port has stored.
use openmux_server.Base.{
  ℕ, ◌≡◌, refl, sym, ap, subst, ◌∙◌, ◌⊎◌, inl, inr, true, false, Option, none, some, List, [], ◌∷◌,
  Text, same_refl, arith, Bool-cases, Option-cases, if◌then◌else◌,
}
use openmux_server.Capacity.{Amount, finite, unlimited, write_capacity, is_full}
use openmux_server.Decision.Codes.{
  Mode, read_write, read_only, Code, grant, refusal, kind, ok, no_permissions,
}
use openmux_server.Decision.{AccessDecision, decide, build, Details}
use openmux_server.Dict.{lookup, insert, lookup-insert}
use openmux_server.Ports.{Port, Ports, others_rw, add_client, get_client_mode}
use openmux_server.Ports.Records.{Client, is_read_write, is_rw, find_client, upsert}
use openmux_server.Ports.Slots.{others_rw_le}
use openmux_server.Ports.Effects.{update_port_done, lookup-insert_self}
use openmux_server.Console.World.{
  World, Outside, ◌>>=◌, ◌>>◌, pure, lift, gets, modify, pause, pause_if, change_port,
  add_client_to_port, set_client_port, get_port, answer_seated, answer_plain, plain, seated,
}
use openmux_server.Console.Ladder.{resolve_access_mode, has_write_slots, slots_left}
use openmux_server.Console.Access.{resolve_access_mode-IsLadder}
use openmux_server.Console.Quiet.{IsQuiet}
use openmux_server.Console.Attach.{
  try_attach, arbitrate, settle_in, attach_client_to_port, leave_old_port, report_seat,
  connect_entitled, connect_permitted, connect_known, connect_client_to_port,
}

find_client-upsert :
    (n : Client) (cs : List Client) → find_client n.client_id (upsert n cs) ≡ some n
find_client-upsert n [] = rw (same_refl n.client_id)
find_client-upsert n (c ∷ cs) = ground (arith, same_refl n.client_id, find_client-upsert n cs)

room :
    (cid : Text) (p : Port)
    → has_write_slots (some p) ≡ true
    → is_full (others_rw cid p.connected_clients) (write_capacity p.max_read_write_users) ≡ false
unfolding has_write_slots
room cid p h = go (write_capacity p.max_read_write_users) h
  where
    go :
        (a : Amount)
        → slots_left (some p) a ≡ true
        → is_full (others_rw cid p.connected_clients) a ≡ false
    go (finite k) e = ground (arith, others_rw_le cid p.connected_clients)
    go unlimited e = refl

-- A read-only seat is always there, and a read-write seat while a slot is free.
add_client_done :
    (c : Client) (p : Port)
    → (is_rw c ≡ true → has_write_slots (some p) ≡ true)
    → add_client c p ≡ some (record p { connected_clients = upsert c p.connected_clients })
unfolding add_client
add_client_done c p h = elim (Bool-cases (is_rw c)) [
  | inl e ↦ rw (e, room c.client_id p (h e))
  | inr e ↦ rw e
]

module _ (o : Outside) (quiet : IsQuiet o) (name cid user : Text) (w : World) (p : Port)
    (stands : lookup name w.ports ≡ some p) (local : p.remote ≡ none) (m : Mode) (c : Code)
    (fits : is_read_write m ≡ true → has_write_slots (some p) ≡ true) where
  abbrev seated_port : Port
  seated_port = record p {
    connected_clients =
        upsert (record { client_id = cid; username = user; mode = m; connected_at = o.now w })
          p.connected_clients;
  }

  abbrev seated_world : World
  seated_world = record w { ports = insert name seated_port w.ports }

  abbrev mapped_world : World
  mapped_world = record seated_world { client_port_map = insert cid name w.client_port_map }

  adds : add_client_to_port o name cid user m w ≡ (some true, seated_world)
  unfolding add_client_to_port ◌>>=◌ ◌>>◌ gets pure pause_if get_port change_port
  adds =
      let joined =
        update_port_done name
          (add_client
            (record { client_id = cid; username = user; mode = m; connected_at = o.now w }))
          w.ports p seated_port stands
          (add_client_done
            (record { client_id = cid; username = user; mode = m; connected_at = o.now w }) p
            fits) in
      ground (arith, joined, lookup-insert_self name seated_port w.ports)

  attaches :
      (entitled : Mode)
      → attach_client_to_port o name cid user m false entitled c w
        ≡ (some (some (m, c)), mapped_world)
  unfolding attach_client_to_port try_attach settle_in arbitrate ◌>>=◌ ◌>>◌ pure set_client_port
      modify
  attaches entitled = ground (arith, adds)

  reports :
      report_seat o cid name (some (m, c)) mapped_world
      ≡ (decide c m (seated o (some seated_port) cid name), mapped_world)
  unfolding report_seat ◌>>=◌ ◌>>◌ pause modify answer_seated get_port
  reports = ground (arith, quiet mapped_world, lookup-insert_self name seated_port w.ports)

  connects :
      (ladder : AccessDecision)
      → ladder.mode ≡ m
      → ladder.code ≡ c
      → connect_entitled o cid name user ladder w
        ≡ (decide c m (seated o (some seated_port) cid name), mapped_world)
  unfolding connect_entitled gets get_port ◌>>=◌
  connects ladder em ec = ground (arith, stands, em, ec, attaches m, reports)

-- A decision that the ladder gives is rebuilt with the same code and mode.
decide_answers :
    (c : Code) (m : Mode) (x : Details) → kind c ≡ grant → decide c m x ≡ some (build c m x)
unfolding decide
decide_answers c m x e = rw e

grant-ok : (c : Code) → kind c ≡ grant → ok c ≡ true
grant-ok Code.attached h = refl
grant-ok _ h = ground arith

refusal-ok : (c : Code) → kind c ≡ refusal → ok c ≡ false
refusal-ok Code.attached h = cc
refusal-ok _ h = ground arith

module _ (o : Outside) (name cid user permissions : Text) (w : World) where
  starts :
      lookup cid w.client_port_map ≡ none
      → o.permissions user ≡ some permissions
      → connect_client_to_port o cid name user w ≡ connect_permitted o cid name user permissions w
  unfolding connect_client_to_port leave_old_port connect_known ◌>>=◌ ◌>>◌ gets pure
  starts new known = ground arith

  permits :
      (d : AccessDecision)
      → resolve_access_mode o (lookup name w.ports) name permissions user ≡ some d
      → connect_permitted o cid name user permissions w
        ≡ (if ok d.code
              then connect_entitled o cid name user d
              else pure (record d { client_id = cid }))
            w
  unfolding connect_permitted ◌>>=◌ gets lift get_port
  permits d r = ground arith

abbrev pub IsAdmitted : Outside → Text → Text → World → Option AccessDecision × World → Type 0
IsAdmitted o name cid w (r, w') =
    (d : AccessDecision) × (r ≡ some d)
    × (((ok d.code ≡ true)
          × (get_client_mode cid name w'.ports ≡ some d.mode)
          × (lookup cid w'.client_port_map ≡ some name))
        ⊎ ((kind d.code ≡ refusal) × (d.mode ≡ read_only) × (w' ≡ w)))

mode_stored :
    (name cid user : Text) (m : Mode) (at : ℕ) (p : Port) (ps : Ports)
    → get_client_mode cid name (
        insert name
          (record p {
            connected_clients =
                upsert
                  (record { client_id = cid; username = user; mode = m; connected_at = at })
                  p.connected_clients;
          })
          ps)
      ≡ some m
unfolding get_client_mode
mode_stored name cid user m at p ps = ground (
  arith,
  lookup-insert_self name
      (record p {
        connected_clients =
            upsert (record { client_id = cid; username = user; mode = m; connected_at = at })
              p.connected_clients;
      })
      ps,
  find_client-upsert (record { client_id = cid; username = user; mode = m; connected_at = at })
      p.connected_clients,
)

admits :
    (o : Outside) (name cid user : Text) (w : World) (p : Port) (d : AccessDecision)
    → IsQuiet o
    → lookup name w.ports ≡ some p
    → p.remote ≡ none
    → kind d.code ≡ grant
    → (is_read_write d.mode ≡ true → has_write_slots (some p) ≡ true)
    → IsAdmitted o name cid w (connect_entitled o cid name user d w)
admits o name cid user w p d quiet stands local granted fits =
    subst (IsAdmitted o name cid w)
      (sym (
        connects o quiet name cid user w p stands local d.mode d.code fits d refl refl
        ∙ ap (λ r. (r, mapped_world o quiet name cid user w p stands local d.mode d.code fits))
            (decide_answers d.code d.mode _ granted)))
      (
        _,
        refl,
        inl (
          grant-ok d.code granted,
          mode_stored name cid user d.mode (o.now w) p w.ports,
          rw (lookup-insert cid cid name w.client_port_map, same_refl cid),
        ),
      )

is_read_write-eq : (m : Mode) → is_read_write m ≡ true → m ≡ read_write
is_read_write-eq read_write h = refl
is_read_write-eq read_only h = cc

on_unknown :
    (o : Outside) (name cid user : Text) (w : World)
    → lookup cid w.client_port_map ≡ none
    → o.permissions user ≡ none
    → IsAdmitted o name cid w (connect_client_to_port o cid name user w)
unfolding connect_client_to_port leave_old_port connect_known answer_plain lift ◌>>=◌ ◌>>◌ gets pure
    decide
on_unknown o name cid user w new unknown = rw (new, unknown) (_, refl, inr (refl, refl, refl))

unknown_answer :
    (o : Outside) (name cid user : Text) (w : World)
    → lookup cid w.client_port_map ≡ none
    → o.permissions user ≡ none
    → (connect_client_to_port o cid name user w).0
      ≡ some (build no_permissions read_only (plain cid name))
unfolding connect_client_to_port leave_old_port connect_known answer_plain lift ◌>>=◌ ◌>>◌ gets pure
    decide
unknown_answer o name cid user w new unknown = rw (new, unknown) refl

on_known :
    (o : Outside) (name cid user permissions : Text) (w : World) (p : Port)
    → IsQuiet o
    → lookup cid w.client_port_map ≡ none
    → o.permissions user ≡ some permissions
    → lookup name w.ports ≡ some p
    → p.remote ≡ none
    → IsAdmitted o name cid w (connect_client_to_port o cid name user w)
on_known o name cid user permissions w p quiet new known stands local =
    let (d, r, mode, outcome) = resolve_access_mode-IsLadder o (some p) name permissions user in
    let begin =
      starts o name cid user permissions w new known
      ∙ permits o name cid user permissions w d (rw stands r) in
    elim outcome [
      | inl granted ↦
          subst (IsAdmitted o name cid w) (sym (rw (grant-ok d.code granted) at begin)) (
            admits o name cid user w p d quiet stands local granted
              (λ h. (mode.0 (is_read_write-eq d.mode h)).1))
      | inr (denied, _, watch) ↦
          subst (IsAdmitted o name cid w) (sym (rw (refusal-ok d.code denied) at begin))
            (unfold pure in (record d { client_id = cid }, refl, inr (denied, watch, refl)))
    ]

-- A client that is on no port attaches to a local port, with no other task in between, under any
-- user name. Either the decision is a grant, the port has stored the mode that it reports and the
-- client is mapped to the port; or the decision is a refusal, and nothing has changed. A user
-- without permissions is refused.
pub connect_client_to_port-IsAdmitted :
    (o : Outside) (name cid user : Text) (w : World) (p : Port)
    → IsQuiet o
    → lookup cid w.client_port_map ≡ none
    → lookup name w.ports ≡ some p
    → p.remote ≡ none
    → IsAdmitted o name cid w (connect_client_to_port o cid name user w)
      × (((p : Text) × (o.permissions user ≡ some p))
          ⊎ ((connect_client_to_port o cid name user w).0
              ≡ some (build no_permissions read_only (plain cid name))))
connect_client_to_port-IsAdmitted o name cid user w p quiet new stands local = (
  elim (Option-cases (o.permissions user)) [
    | inl e ↦ on_unknown o name cid user w new e
    | inr (permissions, e) ↦ on_known o name cid user permissions w p quiet new e stands local
  ],
  elim (Option-cases (o.permissions user)) [
    | inl e ↦ inr (unknown_answer o name cid user w new e)
    | inr known ↦ inl known
  ],
)
