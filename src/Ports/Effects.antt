-- ===== src/Ports/Effects.antt =====
-- What a change of mode does to the client records of a port, and to the port of a name.
use openmux_server.Base.{
  ◌+◌, ◌≡◌, refl, true, false, Option, none, some, List, [], ◌∷◌, Text, same, same_iff, same_refl,
  arith, Bool-cases, inl, inr, if◌then◌else◌,
}
use openmux_server.Decision.Codes.{Mode}
use openmux_server.Dict.{lookup, insert, lookup-insert}
use openmux_server.Ports.Records.{Client, is_read_write, is_attached, find_client, set_mode}
use openmux_server.Ports.{Port, Ports, writers, update_port}

-- A record with another mode.
abbrev pub with_mode : Mode → Option Client → Option Client
with_mode m none = none
with_mode m (some c) = some (record c { mode = m })

pub find_client-set_mode_self :
    (cid : Text) (m : Mode) (cs : List Client)
    → find_client cid (set_mode cid m cs) ≡ with_mode m (find_client cid cs)
find_client-set_mode_self cid m [] = refl
find_client-set_mode_self cid m (c ∷ cs) = ground (arith, find_client-set_mode_self cid m cs)

pub find_client-set_mode_ne :
    (j cid : Text) (m : Mode) (cs : List Client)
    → same cid j ≡ false
    → find_client j (set_mode cid m cs) ≡ find_client j cs
find_client-set_mode_ne j cid m [] h = refl
find_client-set_mode_ne j cid m (c ∷ cs) h = ground (
  arith,
  same_iff c.client_id cid,
  same_iff c.client_id j,
  same_iff cid j,
  find_client-set_mode_ne j cid m cs h,
)

pub is_attached_of_find :
    (cid : Text) (cs : List Client) (c : Client)
    → find_client cid cs ≡ some c
    → is_attached cid cs ≡ true
is_attached_of_find cid [] c h = cc
is_attached_of_find cid (d ∷ cs) c h = ground (arith, is_attached_of_find cid cs c)

pub find_of_attached :
    (cid : Text) (cs : List Client)
    → is_attached cid cs ≡ true
    → (c : Client) × (find_client cid cs ≡ some c)
find_of_attached cid [] h = absurd (cc h)
find_of_attached cid (d ∷ cs) h = elim (Bool-cases (same d.client_id cid)) [
  | inl e ↦ (d, rw e)
  | inr e ↦ (let (c, f) = find_of_attached cid cs (rw e at h) in (c, rw e f))
]

-- A change of mode moves the number of writers by the two modes.
pub writers-set_mode :
    (cid : Text) (m : Mode) (cs : List Client) (c : Client)
    → find_client cid cs ≡ some c
    → writers (set_mode cid m cs) + (if is_read_write c.mode then 1 else 0)
      ≡ writers cs + (if is_read_write m then 1 else 0)
writers-set_mode cid m [] c h = cc
writers-set_mode cid m (d ∷ cs) c h = elim (Bool-cases (same d.client_id cid)) [
  | inl e ↦ ground (arith, e)
  | inr e ↦ ground (arith, e, writers-set_mode cid m cs c)
]

-- The port of a name after an operation on it that is done.
pub update_port_done :
    (name : Text) (f : Port → Option Port) (ps : Ports) (p q : Port)
    → lookup name ps ≡ some p
    → f p ≡ some q
    → update_port name f ps ≡ (true, insert name q ps)
unfolding update_port
update_port_done name f ps p q h e = rw (h, update_port) (rw e)

pub update_port_refused :
    (name : Text) (f : Port → Option Port) (ps : Ports) (p : Port)
    → lookup name ps ≡ some p
    → f p ≡ none
    → update_port name f ps ≡ (false, ps)
unfolding update_port
update_port_refused name f ps p h e = rw (h, update_port) (rw e)

pub lookup-insert_self :
    (name : Text) (p : Port) (ps : Ports) → lookup name (insert name p ps) ≡ some p
lookup-insert_self name p ps = rw (lookup-insert name name p ps, same_refl name)
