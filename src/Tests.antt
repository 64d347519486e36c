-- ===== src/Tests.antt =====
-- Runs of the capacity words, the access decisions, the escape parser, the lockout and the roles.
use openmux_server.Base.{◌≡◌, refl, ◌+◌, ◌<◌, true, none, some, [], ◌∷◌, codes, lower, strip, arith}
use openmux_server.Capacity.{text, int, finite, unlimited, mode_word, capacity_from_wire}
use openmux_server.Capacity.Integer.{negsuc, parse_int}
use openmux_server.Capacity.Laws.{capacity_from_wire-negative_text}
use openmux_server.Decision.{AccessDecision, Details, Entitlement, build, entitled_denied, denied}
use openmux_server.Decision.Codes.{Code, read_only}
use openmux_server.Listener.Escape.{EscapeState}
use openmux_server.Auth.Lockout.{
  Limits, Failures, count_failure, lock_seconds, register_auth_failure, is_user_locked,
  failed_login, failed_logins, failed_logins-is_user_locked,
}

no_word : mode_word (lower (strip (codes "-3"))) ≡ none
unfolding mode_word lower strip
no_word = refl

minus_three : parse_int (lower (strip (codes "-3"))) ≡ some (negsuc 2)
unfolding parse_int lower strip
minus_three = refl

capacity_from_wire-negative_text_example :
    (capacity_from_wire (text (codes "-3")) ≡ unlimited)
    × (capacity_from_wire (int (negsuc 2)) ≡ finite 1)
capacity_from_wire-negative_text_example =
    capacity_from_wire-negative_text (codes "-3") 2 no_word minus_three

abbrev details : Details
details = record {
  port_name = codes "tty1";
  client_id = codes "a";
  actor = codes "bob";
  victim = none;
  holders = [];
  capacity = some (text (codes "one"));
}

abbrev decision : AccessDecision
decision = build Code.denied_by_group_acl read_only details

abbrev denial : Entitlement
denial = record { grant = denied; code = some Code.denied_by_group_acl }

denial_made : entitled_denied Code.denied_by_group_acl ≡ some denial
denial_made = refl

abbrev fresh : EscapeState
fresh = record { escape_char1 = 5; escape_char2 = 99; state = 0 }

abbrev limits : Limits
limits = record { max_fail_window = 900; base_lock_seconds = 60; failure_threshold = 4 }

abbrev three : Failures
three = record { failures = 3; first_failure = 100; locked_until = 0 }

failed_logins-is_user_locked_example :
    (is_user_locked limits 159 (
      failed_login limits 130
        (failed_logins limits (110 ∷ 120 ∷ []) (failed_login limits 100 none)))).0
    ≡ true
failed_logins-is_user_locked_example =
    failed_logins-is_user_locked limits 100 130 159 (110 ∷ 120 ∷ [])
      (omega arith, (omega arith, tt)) (omega arith) refl (omega arith)

soon : 150 < 130 + lock_seconds limits 4
unfolding lock_seconds
soon = omega arith

abbrev four : Failures
four = record { failures = 4; first_failure = 100; locked_until = 190 }

four_made : register_auth_failure limits 130 (some three) ≡ some four
unfolding register_auth_failure count_failure lock_seconds
four_made = refl
