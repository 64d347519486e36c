-- ===== src/Decision/Rows.antt =====
-- openmux/server/access_decision.py: the sentence and the lines of each row of `_ROWS`.
use openmux_server.Base.{List, [], ◌∷◌, Text, codes}
use openmux_server.Decision.Codes.{
  Code, attached, read_only_standing, capacity_full, capacity_none, granted, already_rw, released,
  no_permissions, denied_by_group_acl, denied_by_access_default, not_entitled, invalid_target,
  demote_failed, port_unavailable, not_attached, port_missing, no_holder, victim_not_current,
  take_without_slot, no_write_slot, promote_failed, federation_denied, internal,
  unsupported_request, demoted, action_self_demoted, action_restored, action_restore_denied,
}

-- A template: text, and the two substitutions that a row of the table makes.
pub data Piece : Type 0 where
  lit : Text → Piece
  victim_line actor : Piece

abbrev pub Template : Type 0
Template = List Piece

unfoldable pub sentence : Code → Template
sentence attached = lit (codes "Connected with read-write access") ∷ []
sentence read_only_standing = lit (codes "Connected read-only: you may not drive this port") ∷ []
sentence capacity_full = lit (codes "Connected read-only: the read-write seat is taken") ∷ []
sentence capacity_none = lit (codes "Connected read-only: this port has no write slot") ∷ []
sentence granted = lit (codes "Read-write access granted") ∷ []
sentence already_rw = lit (codes "You already hold read-write access") ∷ []
sentence released = lit (codes "Switched to read-only mode") ∷ []
sentence no_permissions = lit (codes "No permissions assigned to this account") ∷ []
sentence denied_by_group_acl = lit (codes "Access denied to this port") ∷ []
sentence denied_by_access_default = lit (codes "Access denied to this port by server policy") ∷ []
sentence not_entitled = lit (codes "You are not entitled to drive this port") ∷ []
sentence invalid_target =
    lit (
      codes
        "Take refused: that user does not hold read-write access (check the id in the holders list)")
    ∷ []
sentence demote_failed =
    lit (codes "Release failed: you do not hold the read-write slot on this port") ∷ []
sentence port_unavailable = lit (codes "No console seat is free on this port") ∷ []
sentence not_attached = lit (codes "You are not attached to this port") ∷ []
sentence port_missing = lit (codes "This port does not exist") ∷ []
sentence no_holder =
    lit (codes "Take refused: this port has no read-write holder to take from") ∷ []
sentence victim_not_current =
    lit (codes "Take refused: that holder no longer holds read-write access") ∷ []
sentence take_without_slot =
    lit (
      codes
        "This port has no single seat to take: every write-entitled client may hold write at once")
    ∷ []
sentence no_write_slot =
    lit (codes "Read-write is not available on this port: it has no write slot") ∷ []
sentence promote_failed = lit (codes "The server failed to grant read-write access") ∷ []
sentence federation_denied =
    lit (codes "Take refused: the origin server did not grant the takeover") ∷ []
sentence internal = lit (codes "The server could not complete the request") ∷ []
sentence unsupported_request = lit (codes "This server does not support that control request") ∷ []
sentence demoted = lit (codes "Your read-write access was taken by ") ∷ actor ∷ []
sentence action_self_demoted =
    lit (codes "Your read-write access was set aside to run a Port Action") ∷ []
sentence action_restored =
    lit (codes "Read-write access restored after the Port Action finished") ∷ []
sentence action_restore_denied =
    lit (codes "Read-write not restored after the Port Action: another client holds the slot") ∷ []

unfoldable pub templates : Code → List Template
unfolding sentence
templates attached = []
templates read_only_standing = []
templates capacity_full = []
templates capacity_none = []
templates granted = (lit (codes "Read-write access granted") ∷ []) ∷ (victim_line ∷ []) ∷ []
templates already_rw = sentence already_rw ∷ []
templates released = sentence released ∷ []
templates no_permissions = sentence no_permissions ∷ []
templates denied_by_group_acl = sentence denied_by_group_acl ∷ []
templates denied_by_access_default = sentence denied_by_access_default ∷ []
templates not_entitled = sentence not_entitled ∷ []
templates invalid_target = sentence invalid_target ∷ []
templates demote_failed = sentence demote_failed ∷ []
templates port_unavailable = sentence port_unavailable ∷ []
templates not_attached = sentence not_attached ∷ []
templates port_missing = sentence port_missing ∷ []
templates no_holder = sentence no_holder ∷ []
templates victim_not_current = sentence victim_not_current ∷ []
templates take_without_slot =
    (lit (codes "This port has no single write seat to take") ∷ [])
    ∷ (lit (codes "Every write-entitled client may hold write here at the same time") ∷ [])
    ∷ []
templates no_write_slot =
    (lit (codes "Read-write is not available on this port") ∷ [])
    ∷ (lit (codes "This port has no write slots (capacity: none)") ∷ [])
    ∷ []
templates promote_failed = sentence promote_failed ∷ []
templates federation_denied = sentence federation_denied ∷ []
templates internal = sentence internal ∷ []
templates unsupported_request = sentence unsupported_request ∷ []
templates demoted = sentence demoted ∷ []
templates action_self_demoted = sentence action_self_demoted ∷ []
templates action_restored = sentence action_restored ∷ []
templates action_restore_denied = sentence action_restore_denied ∷ []
