-- ===== src/Decision/Codes.antt =====
-- openmux/server/access_decision.py: the modes, the kinds and the codes, and the columns `kind`,
-- `ok` and `notice_mode` of the outcome table `_ROWS`.
use openmux_server.Base.{Bool, true, false, Option, none, some}

pub data Mode : Type 0 where
  read_write read_only : Mode

pub data Kind : Type 0 where
  grant refusal unavailable notify : Kind

pub data Code : Type 0 where
  attached read_only_standing capacity_full capacity_none : Code
  granted already_rw released : Code
  no_permissions denied_by_group_acl denied_by_access_default not_entitled : Code
  invalid_target demote_failed : Code
  port_unavailable not_attached port_missing no_holder victim_not_current : Code
  take_without_slot no_write_slot promote_failed federation_denied : Code
  internal unsupported_request : Code
  demoted action_self_demoted action_restored action_restore_denied : Code

abbrev pub kind : Code → Kind
kind attached = grant
kind read_only_standing = grant
kind capacity_full = grant
kind capacity_none = grant
kind granted = grant
kind already_rw = grant
kind released = grant
kind no_permissions = refusal
kind denied_by_group_acl = refusal
kind denied_by_access_default = refusal
kind not_entitled = refusal
kind invalid_target = refusal
kind demote_failed = refusal
kind port_unavailable = unavailable
kind not_attached = unavailable
kind port_missing = unavailable
kind no_holder = unavailable
kind victim_not_current = unavailable
kind take_without_slot = unavailable
kind no_write_slot = unavailable
kind promote_failed = unavailable
kind federation_denied = unavailable
kind internal = unavailable
kind unsupported_request = unavailable
kind demoted = notify
kind action_self_demoted = notify
kind action_restored = notify
kind action_restore_denied = notify

abbrev pub ok : Code → Bool
ok attached = true
ok read_only_standing = true
ok capacity_full = true
ok capacity_none = true
ok granted = true
ok already_rw = true
ok released = true
ok action_restored = true
ok _ = false

abbrev pub notice_mode : Code → Option Mode
notice_mode demoted = some read_only
notice_mode action_self_demoted = some read_only
notice_mode action_restored = some read_write
notice_mode action_restore_denied = some read_only
notice_mode _ = none
