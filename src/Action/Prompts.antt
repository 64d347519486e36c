-- ===== src/Action/Prompts.antt =====
-- openmux/server/actions/session.py and choices.py: the questions of an action script to the
-- operator, and its reports. The callbacks are notes, in the order in which they are made.
use openmux_server.Base.{
  Bool, true, false, not, ◌&&◌, ◌||◌, Option, none, some, List, [], ◌∷◌, ◌++◌, Text, codes,
  contains, strip, lower, map, leb, if◌then◌else◌,
}
use openmux_server.Action.{ActionError, value_error, timeout_error}
use openmux_server.Capacity.Integer.{ℤ, pos, negsuc}
use openmux_server.Results.{Result, returned, raised}

-- A plain value, or a dict with the texts of its value and its label.
pub data Choice : Type 0 where
  plain : Text → Choice
  labelled : Option Text → Option Text → Choice

pub record Labelled : Type 0 where
  pub label : Text
  pub value : Text

abbrev or_text : Text → Option Text → Text
or_text default none = default
or_text default (some t) = t

abbrev pub normalize_choice : Choice → Labelled
normalize_choice (plain t) = record { label = t; value = t }
normalize_choice (labelled v l) =
    let chosen = or_text (or_text [] l) v in record { label = or_text chosen l; value = chosen }

unfoldable pub normalize_choices : List Choice → List Labelled
normalize_choices = map normalize_choice

pub record Question : Type 0 where
  pub text : Option Text
  pub kind : Text
  pub choices : List Labelled
  pub step : Option Text
  pub color : Text

pub data Note : Type 0 where
  waits : Question → Note
  prompt_answered : Note
  expired : Note
  operator_answered : Text → Note
  operator_input_timeout : Text → Note
  progressed : Text → Option ℤ → Note

-- The answers that wait in the queue, the step that was reported last, and the notes.
pub record Dialog : Type 0 where
  pub operator_input : List Text
  pub current_step : Option Text
  pub notes : List Note

abbrev pub note : Dialog → List Note → Dialog
note s ns = record s { notes = s.notes ++ ns }

abbrev within : ℤ → Bool
within (pos n) = leb n 100
within (negsuc n) = false

unfoldable pub is_percent : Option ℤ → Bool
is_percent none = true
is_percent (some n) = within n

unfoldable pub progress : Text → Option ℤ → Dialog → Result ActionError Unit × Dialog
unfolding is_percent
progress step percent s =
    if is_percent percent
    then (
      returned tt,
      record s { current_step = some step; notes = s.notes ++ progressed step percent ∷ [] },
    )
    else (raised value_error, s)

abbrev valid_prompt_colors : List Text
valid_prompt_colors =
    codes "none"
    ∷ codes "red"
    ∷ codes "green"
    ∷ codes "blue"
    ∷ codes "pink"
    ∷ codes "yellow"
    ∷ codes "orange"
    ∷ codes "purple"
    ∷ []

abbrev kinds_with_choices : List Text
kinds_with_choices = codes "buttons" ∷ codes "select" ∷ codes "radio" ∷ []

abbrev is_blank : List Choice → Bool
is_blank [] = true
is_blank (c ∷ cs) = false

abbrev pub or_no_prompt : Option Text → Text
or_no_prompt none = codes "no prompt"
or_no_prompt (some []) = codes "no prompt"
or_no_prompt (some (c ∷ t)) = c ∷ t

-- The wait for the answer that comes first before the deadline: `_finish_prompt`, or the timeout.
unfoldable pub await_answer : Option Text → List Text → Dialog → Result ActionError Text × Dialog
await_answer text [] s =
    (raised timeout_error, note s (expired ∷ operator_input_timeout (or_no_prompt text) ∷ []))
await_answer text (a ∷ answers) s = (
  returned a,
  record s {
    operator_input = answers;
    notes = s.notes ++ prompt_answered ∷ operator_answered a ∷ [];
  },
)

-- What a script asks.
pub record Prompt : Type 0 where
  pub text : Option Text
  pub kind : Text
  pub choices : List Choice
  pub color : Text

abbrev pub question : Prompt → Dialog → Question
question p s = record {
  text = p.text;
  kind = p.kind;
  choices = normalize_choices p.choices;
  step = s.current_step;
  color = p.color;
}

unfoldable pub is_malformed : Prompt → Bool
is_malformed p =
    (contains p.kind kinds_with_choices && is_blank p.choices)
    || not (contains p.color valid_prompt_colors)

-- `prompt`, with a timeout. The queue of answers has those that come before the deadline.
unfoldable pub prompt : Prompt → Dialog → Result ActionError Text × Dialog
unfolding await_answer normalize_choices is_malformed
prompt p s =
    if is_malformed p
    then (raised value_error, s)
    else await_answer p.text s.operator_input (note s (waits (question p s) ∷ []))

abbrev pub yes_words : List Text
yes_words = codes "y" ∷ codes "yes" ∷ codes "1" ∷ codes "true" ∷ []

abbrev pub confirmation : Text → Text → Prompt
confirmation text color = record {
  text = some text;
  kind = codes "buttons";
  choices =
      labelled (some (codes "yes")) (some (codes "Yes"))
      ∷ labelled (some (codes "no")) (some (codes "No"))
      ∷ [];
  color = color;
}

abbrev is_yes : Result ActionError Text × Dialog → Result ActionError Bool × Dialog
is_yes (returned a, s) = (returned (contains (lower (strip a)) yes_words), s)
is_yes (raised e, s) = (raised e, s)

unfoldable pub confirm : Text → Text → Dialog → Result ActionError Bool × Dialog
unfolding prompt strip lower
confirm text color s = is_yes (prompt (confirmation text color) s)

unfoldable pub submit_operator_input : Text → Dialog → Dialog
submit_operator_input a s = record s { operator_input = s.operator_input ++ a ∷ [] }
