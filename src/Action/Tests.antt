-- ===== src/Action/Tests.antt =====
-- Runs of an action session: a login prompt, the power of one port, and questions to the operator.
use openmux_server.Base.{
  ◌≡◌, refl, true, false, inl, Option, none, some, List, [], ◌∷◌, ◌++◌, Text, codes, same, lower,
  strip, arith, if◌then◌else◌,
}
use openmux_server.Action.{timeout_error, Match, expect, reading}
use openmux_server.Action.Closed.{
  asks, submits, do_calls, IsClosed, do_calls-IsClosed, confirm_stale,
}
use openmux_server.Action.Consumed.{expect-encode, expect_overruns}
use openmux_server.Action.Power.{Pdu, several, power_switch}
use openmux_server.Action.Prompts.{
  Dialog, Prompt, prompt, confirm, submit_operator_input, is_malformed,
}
use openmux_server.Action.Switched.{Extends, power_switch-Extends}
use openmux_server.Action.Utf8.{encode, encode_one}
use openmux_server.Console.World.{Outside}
use openmux_server.Results.{returned, raised}

-- A pattern of two characters that matches where the text has two.
abbrev search : Text → Option Match
search [] = none
search (c ∷ []) = none
search (c ∷ d ∷ s) = some (record { ending = 2; group = c ∷ d ∷ [] })

expect-encode_example :
    expect search (some []) (encode (codes "ok>") ++ 226 ∷ [])
    ≡ (returned (codes "ok"), reading (codes ">" ++ 226 ∷ []) [])
unfolding encode encode_one
expect-encode_example =
    expect-encode search (codes "ok>") (226 ∷ []) (record { ending = 2; group = codes "ok" }) []
      (inl (omega arith), (inl (omega arith), (inl (omega arith), tt))) (omega arith) refl

-- The byte 255 and "$ hi": the match ends after "$", and " h" is lost.
expect_overruns_example :
    expect search (some []) (255 ∷ encode (codes "$ hi"))
    ≡ (returned (65533 ∷ codes "$"), reading (codes "i") [])
unfolding encode encode_one
expect_overruns_example =
    expect_overruns search 255 (codes "$ hi") (record { ending = 2; group = 65533 ∷ codes "$" }) 1
      [] (omega arith)
      (inl (omega arith), (inl (omega arith), (inl (omega arith), (inl (omega arith), tt)))) refl
      refl

abbrev feeds : List Text
feeds = codes "pdu.1" ∷ codes "pdu.2" ∷ []

-- Carol has the permission read-write, and the port has no lists.
abbrev site : Outside
site = record {
  permissions = λ u. some (codes "read-write");
  groups = λ u. [];
  access_default = codes "allow";
  ip = λ c. [];
  channel_username = λ c. none;
  now = λ w. 0;
  origin_grants_request = λ w n c. false;
  origin_grants_take = λ w n c t. false;
  meanwhile = λ w. w;
}

abbrev pdu : Pdu
pdu = record {
  username = codes "carol";
  port_refs = (codes "tty1", codes "pdu.1" ∷ []) ∷ [];
  console_manager = some (site, []);
  set_outlet = λ calls r on. true;
  feed_states = λ r. if same r (codes "pdu.1") then some true else none;
}

power_switch-Extends_example :
    Extends pdu feeds true [] (power_switch (some pdu) feeds (several feeds) true []).1
power_switch-Extends_example = power_switch-Extends pdu feeds true (several feeds) []

abbrev fresh : Dialog
fresh = record { operator_input = []; current_step = none; notes = [] }

abbrev name_prompt : Prompt
name_prompt = record {
  text = some (codes "name?");
  kind = codes "text";
  choices = [];
  color = codes "none";
}

do_calls-IsClosed_example :
    IsClosed (do_calls (submits (codes "x") ∷ asks name_prompt ∷ asks name_prompt ∷ []) fresh).1
    × ((do_calls (submits (codes "x") ∷ asks name_prompt ∷ asks name_prompt ∷ []) fresh).0
          ++ (do_calls
              (submits (codes "x") ∷ asks name_prompt ∷ asks name_prompt ∷ [])
              fresh).1.operator_input
        ≡ codes "x" ∷ [])
unfolding IsClosed
do_calls-IsClosed_example =
    do_calls-IsClosed (submits (codes "x") ∷ asks name_prompt ∷ asks name_prompt ∷ []) fresh refl

confirm_stale_example :
    ((prompt name_prompt fresh).0 ≡ raised timeout_error)
    × ((confirm
          (codes "Erase?")
          (codes "none")
          (submit_operator_input (codes "yes") (prompt name_prompt fresh).1)).0
        ≡ returned true)
unfolding is_malformed same lower strip
confirm_stale_example = confirm_stale name_prompt fresh (codes "yes") (codes "Erase?") refl refl
