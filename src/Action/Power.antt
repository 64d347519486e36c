-- ===== src/Action/Power.antt =====
-- openmux/server/actions/session.py: the power calls of an action session. The outlets are switched
-- by the PDU adapter, whose `set_outlet` is a parameter; which consoles block a switch is
-- `_power_blocked_ports` of openmux/server/adapters/pdu.py.
use openmux_server.Base.{
  Bool, true, false, not, Option, none, some, List, [], ◌∷◌, ◌++◌, Text, contains, if◌then◌else◌,
}
use openmux_server.Action.{ActionError, power_error}
use openmux_server.Action.Refs.{split_remote_ref}
use openmux_server.Console.Ladder.{blocked_ports_for_user}
use openmux_server.Console.World.{Outside}
use openmux_server.Ports.{Ports}
use openmux_server.Results.{Result, returned, raised, ◌>>=◌}

-- The argument `ref`: nothing, one outlet, or a list.
pub data Ref : Type 0 where
  omitted : Ref
  single : Text → Ref
  several : List Text → Ref

abbrev or_error : ActionError → List Text → Result ActionError (List Text)
or_error e [] = raised e
or_error e (r ∷ rs) = returned (r ∷ rs)

abbrev pub wanted : List Text → Ref → Result ActionError (List Text)
wanted declared omitted = or_error (power_error none) declared
wanted declared (single r) = returned (r ∷ [])
wanted declared (several rs) = or_error (power_error none) rs

unfoldable pub is_remote : Text → Bool
unfolding split_remote_ref
is_remote r = elim (split_remote_ref r) [ none ↦ false | some p ↦ true ]

-- The loop of `_power_target_refs`, with the refs so far.
unfoldable pub target_refs : List Text → List Text → List Text → Result ActionError (List Text)
target_refs declared out [] = returned out
target_refs declared out (r ∷ rs) =
    let rest = target_refs declared (if contains r out then out else out ++ r ∷ []) rs in
    if is_remote r
    then raised (power_error (some r))
    else if contains r declared
    then rest
    else raised (power_error (some r))

unfoldable pub power_target_refs : List Text → Ref → Result ActionError (List Text)
power_target_refs declared ref = wanted declared ref >>= λ rs. target_refs declared [] rs

-- The outcome of a list of outlets.
pub record Switched : Type 0 where
  pub changed : List Text
  pub skipped : List Text
  pub failed : List Text

-- The calls of `set_outlet`, in order.
abbrev pub Calls : Type 0
Calls = List (Text × Bool)

-- What the power control works with: the user name (empty if there is none), the outlets that each
-- console declares, the console manager (none if there is none or its check raises), whether a switch
-- succeeds after the calls before it, and the states of the outlets.
pub record Pdu : Type 0 where
  pub username : Text
  pub port_refs : List (Text × List Text)
  pub console_manager : Option (Outside × Ports)
  pub set_outlet : Calls → Text → Bool → Bool
  pub feed_states : Text → Option Bool

-- The consoles that declare an outlet.
unfoldable pub mapped_ports_for_ref : Text → List (Text × List Text) → List Text
mapped_ports_for_ref ref [] = []
mapped_ports_for_ref ref ((name, refs) ∷ ports) =
    let rest = mapped_ports_for_ref ref ports in if contains ref refs then name ∷ rest else rest

abbrev pub blocked_for : Text → Option (Outside × Ports) → List Text → List Text
blocked_for [] cm names = []
blocked_for (c ∷ user) none names = []
blocked_for (c ∷ user) (some (o, ps)) names = blocked_ports_for_user o ps names (c ∷ user)

unfoldable pub power_blocked_ports : Pdu → Text → List Text
unfolding mapped_ports_for_ref blocked_ports_for_user
power_blocked_ports pdu ref =
    blocked_for pdu.username pdu.console_manager (mapped_ports_for_ref ref pdu.port_refs)

abbrev pub is_any : List Text → Bool
is_any [] = false
is_any (p ∷ ps) = true

unfoldable pub power_switch_one : Pdu → Text → Bool → Calls → Result ActionError Unit × Calls
unfolding power_blocked_ports
power_switch_one pdu ref on calls =
    if is_any (power_blocked_ports pdu ref)
    then (raised (power_error (some ref)), calls)
    else if pdu.set_outlet calls ref on
    then (returned tt, calls ++ (ref, on) ∷ [])
    else (raised (power_error (some ref)), calls ++ (ref, on) ∷ [])

abbrev same_state : Bool → Bool → Bool
same_state true b = b
same_state false b = not b

-- `current is not None and current == on`
abbrev pub is_there : Option Bool → Bool → Bool
is_there none on = false
is_there (some b) on = same_state b on

abbrev pub add_skipped : Text → Switched → Switched
add_skipped r s = record s { skipped = s.skipped ++ r ∷ [] }

abbrev pub add_outcome : Text → Result ActionError Unit → Switched → Switched
add_outcome r (returned u) s = record s { changed = s.changed ++ r ∷ [] }
add_outcome r (raised e) s = record s { failed = s.failed ++ r ∷ [] }

-- The loop of `_power_switch_many`.
unfoldable pub switch_many : Pdu → List Text → Bool → Switched → Calls → Switched × Calls
unfolding power_switch_one
switch_many pdu [] on s calls = (s, calls)
switch_many pdu (r ∷ rs) on s calls =
    let skipping = switch_many pdu rs on (add_skipped r s) calls in
    let switching =
      switch_many pdu rs on (add_outcome r (power_switch_one pdu r on calls).0 s)
        (power_switch_one pdu r on calls).1 in
    if is_there (pdu.feed_states r) on then skipping else switching

abbrev pub nothing : Switched
nothing = record { changed = []; skipped = []; failed = [] }

unfoldable pub power_switch_many : Pdu → List Text → Bool → Calls → Switched × Calls
unfolding switch_many
power_switch_many pdu refs on calls = switch_many pdu refs on nothing calls

-- What a switch gives: of one outlet nothing more than that it is done, of a list the outcome.
pub data Answer : Type 0 where
  done : Answer
  outcomes : Switched → Answer

abbrev pub answer_one : Result ActionError Unit × Calls → Result ActionError Answer × Calls
answer_one (returned u, calls) = (returned done, calls)
answer_one (raised e, calls) = (raised e, calls)

abbrev answer_many : Switched × Calls → Result ActionError Answer × Calls
answer_many (s, calls) = (returned (outcomes s), calls)

abbrev switch_first : Pdu → List Text → Bool → Calls → Result ActionError Answer × Calls
switch_first pdu [] on calls = (raised (power_error none), calls)
switch_first pdu (r ∷ rs) on calls = answer_one (power_switch_one pdu r on calls)

abbrev pub switch_refs :
    Pdu → Ref → Bool → Calls → Result ActionError (List Text) → Result ActionError Answer × Calls
switch_refs pdu ref on calls (raised e) = (raised e, calls)
switch_refs pdu (single r) on calls (returned refs) = switch_first pdu refs on calls
switch_refs pdu omitted on calls (returned refs) = answer_many (power_switch_many pdu refs on calls)
switch_refs pdu (several rs) on calls (returned refs) =
    answer_many (power_switch_many pdu refs on calls)

-- `_power_switch`, for `power_on` and `power_off`. Without a PDU adapter there is no power control.
unfoldable pub power_switch :
    Option Pdu → List Text → Ref → Bool → Calls → Result ActionError Answer × Calls
power_switch none declared ref on calls = (raised (power_error none), calls)
power_switch (some pdu) declared ref on calls =
    switch_refs pdu ref on calls (power_target_refs declared ref)
