-- ===== src/Decision.antt =====
-- openmux/server/access_decision.py: the outcome codes, the table row of each, and the value that
-- answers one request. A raised `ValueError` is `none`. The wording is in Decision/Wording.antt.
pub mod Codes
pub mod Laws
pub mod Rows
pub mod Wording
use openmux_server.Base.{
  Bool, true, false, Option, none, some, List, [], ◌∷◌, Text, codes, same, ◌++◌, if◌then◌else◌,
}
use openmux_server.Capacity.{Raw, WriteMode, wire_to_mode, holder_id_short}
use Codes.{Mode, read_write, read_only, Code, Kind, refusal, notify, kind, notice_mode}

-- A client that holds a write slot.
pub record Holder : Type 0 where
  pub client_id : Text
  pub username : Text
  pub ip : Text

-- `[id] username@ip (rw)`
unfoldable pub label : Holder → Text
label h =
    codes "["
    ++ (holder_id_short h.client_id
        ++ (codes "] " ++ (h.username ++ (codes "@" ++ (h.ip ++ codes " (rw)")))))

pub data Grant : Type 0 where
  write watch denied : Grant

pub record Entitlement : Type 0 where
  pub grant : Grant
  pub code : Option Code

abbrev pub is_write : Grant → Bool
is_write write = true
is_write watch = false
is_write denied = false

abbrev pub may_drive : Entitlement → Bool
may_drive e = is_write e.grant

abbrev pub entitled_write : Entitlement
entitled_write = record { grant = write; code = none }

abbrev pub entitled_read_only : Entitlement
entitled_read_only = record { grant = watch; code = none }

abbrev pub when_refusal : Kind → Code → Option Entitlement
when_refusal refusal c = some (record { grant = denied; code = some c })
when_refusal _ c = none

-- Only a refusal code may deny.
abbrev pub entitled_denied : Code → Option Entitlement
entitled_denied c = when_refusal (kind c) c

pub record AccessDecision : Type 0 where
  pub code : Code
  pub mode : Mode
  pub client_id : Text
  pub port_name : Text
  pub actor : Text
  pub victim : Option Holder
  pub holders : List Holder
  pub capacity : Option WriteMode

-- What a caller of `decide` or `notice` passes beside the code and the mode.
pub record Details : Type 0 where
  pub client_id : Text
  pub port_name : Text
  pub actor : Text
  pub victim : Option Holder
  pub holders : List Holder
  pub capacity : Option Raw

abbrev pub settle : Option Raw → Option WriteMode
settle none = none
settle (some r) = some (wire_to_mode r)

abbrev pub build : Code → Mode → Details → AccessDecision
build c m d = record {
  code = c;
  mode = m;
  client_id = d.client_id;
  port_name = d.port_name;
  actor = d.actor;
  victim = d.victim;
  holders = d.holders;
  capacity = settle d.capacity;
}

-- `decide` refuses the code of a notice, and `notice` any other.
abbrev pub decide_kind : Kind → Code → Mode → Details → Option AccessDecision
decide_kind notify c m d = none
decide_kind _ c m d = some (build c m d)

unfoldable pub decide : Code → Mode → Details → Option AccessDecision
decide c m d = decide_kind (kind c) c m d

abbrev pub notice_row : Option Mode → Code → Details → Option AccessDecision
notice_row none c d = none
notice_row (some m) c d = some (build c m d)

abbrev pub notice_kind : Kind → Code → Details → Option AccessDecision
notice_kind notify c d = notice_row (notice_mode c) c d
notice_kind _ c d = none

unfoldable pub notice : Code → Details → Option AccessDecision
notice c d = notice_kind (kind c) c d

-- `mode_or_read_only` for a stored mode word.
unfoldable pub mode_or_read_only : Text → Mode
unfolding same
mode_or_read_only t = if same t (codes "read-write") then read_write else read_only
