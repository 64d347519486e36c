-- ===== src/Ports/Records.antt =====
-- openmux/server/port_manager.py: the list `connected_clients` of one port.
use openmux_server.Base.{
  ℕ, Bool, true, false, ◌&&◌, Option, List, [], ◌∷◌, Text, same, any, first, if◌then◌else◌,
}
use openmux_server.Decision.Codes.{Mode, read_write, read_only}

pub record Client : Type 0 where
  pub client_id : Text
  pub username : Text
  pub mode : Mode
  pub connected_at : ℕ

abbrev pub is_read_write : Mode → Bool
is_read_write read_write = true
is_read_write read_only = false

abbrev pub is_rw : Client → Bool
is_rw c = is_read_write c.mode

abbrev pub has_id : Text → Client → Bool
has_id cid c = same c.client_id cid

abbrev pub is_attached : Text → List Client → Bool
is_attached cid = any (has_id cid)

-- `already_rw`, and `_is_client_rw`
abbrev pub holds_rw : Text → List Client → Bool
holds_rw cid = any (λ c. has_id cid c && is_rw c)

abbrev pub find_client : Text → List Client → Option Client
find_client cid = first (has_id cid)

-- `_attach_client_record`: the record of the id is replaced in place, or a new one goes last.
abbrev pub upsert : Client → List Client → List Client
upsert n [] = n ∷ []
upsert n (c ∷ cs) = if has_id n.client_id c then n ∷ cs else c ∷ upsert n cs

-- The first record of an id is popped.
abbrev pub remove_first : Text → List Client → List Client
remove_first cid [] = []
remove_first cid (c ∷ cs) = if has_id cid c then cs else c ∷ remove_first cid cs

-- The first record of an id gets a mode.
abbrev pub set_mode : Text → Mode → List Client → List Client
set_mode cid m [] = []
set_mode cid m (c ∷ cs) = if has_id cid c then record c { mode = m } ∷ cs else c ∷ set_mode cid m cs
