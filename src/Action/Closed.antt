-- ===== src/Action/Closed.antt =====
-- openmux/server/actions/session.py: the prompts of a script and the answers of the operator over a
-- whole run.
use openmux_server.Base.{
  joined, ◌+◌, ◌≡◌, refl, sym, ◌∙◌, Bool, true, false, Option, List, [], ◌∷◌, ◌++◌, Text, codes,
  count, count-append, append-nil, strip, lower, contains, same, arith, Bool-cases, inl, inr,
}
use openmux_server.Action.{ActionError, timeout_error}
use openmux_server.Action.Prompts.{
  Note, waits, prompt_answered, expired, operator_answered, operator_input_timeout, progressed,
  Dialog, Prompt, prompt, progress, confirm, confirmation, submit_operator_input, is_malformed,
  await_answer, question, note, is_percent, or_no_prompt, yes_words,
}
use openmux_server.Capacity.Integer.{ℤ}
use openmux_server.Results.{Result, returned, raised}

-- What a script and its operator do.
pub data Call : Type 0 where
  asks : Prompt → Call
  reports : Text → Option ℤ → Call
  submits : Text → Call

abbrev answer_of : Result ActionError Text → List Text
answer_of (returned a) = a ∷ []
answer_of (raised e) = []

-- The answers that the script got, and the dialog afterwards.
abbrev do_call : Call → Dialog → List Text × Dialog
do_call (asks p) s = (answer_of (prompt p s).0, (prompt p s).1)
do_call (reports t n) s = ([], (progress t n s).1)
do_call (submits a) s = ([], submit_operator_input a s)

abbrev pub do_calls : List Call → Dialog → List Text × Dialog
do_calls [] s = ([], s)
do_calls (c ∷ cs) s = let rest = do_calls cs (do_call c s).1 in ((do_call c s).0 ++ rest.0, rest.1)

abbrev submitted : List Call → List Text
submitted [] = []
submitted (asks p ∷ cs) = submitted cs
submitted (reports t n ∷ cs) = submitted cs
submitted (submits a ∷ cs) = a ∷ submitted cs

-- A prompt is shown, and a prompt is closed.
abbrev pub opens : Note → Bool
opens (waits q) = true
opens prompt_answered = false
opens expired = false
opens (operator_answered a) = false
opens (operator_input_timeout t) = false
opens (progressed t n) = false

abbrev closes : Note → Bool
closes (waits q) = false
closes prompt_answered = true
closes expired = true
closes (operator_answered a) = false
closes (operator_input_timeout t) = false
closes (progressed t n) = false

-- The prompts that are shown are as many as those that were closed.
unfoldable pub IsClosed : Dialog → Type 0
IsClosed s = count opens s.notes ≡ count closes s.notes

-- The answers a call gets, with those that are left.
abbrev gotten : Result ActionError Text × Dialog → List Text
gotten r = answer_of r.0 ++ r.1.operator_input

await_answer-IsClosed :
    (text : Option Text) (answers : List Text) (s : Dialog)
    → count opens s.notes ≡ count closes s.notes + 1
    → IsClosed (await_answer text answers s).1
unfolding await_answer IsClosed
await_answer-IsClosed text [] s h =
    let new = expired ∷ operator_input_timeout (or_no_prompt text) ∷ [] in
    omega (arith, h, count-append opens s.notes new, count-append closes s.notes new)
await_answer-IsClosed text (a ∷ answers) s h =
    let new = prompt_answered ∷ operator_answered a ∷ [] in
    omega (arith, h, count-append opens s.notes new, count-append closes s.notes new)

await_answer-gotten :
    (text : Option Text) (answers : List Text) (s : Dialog)
    → s.operator_input ≡ answers
    → gotten (await_answer text answers s) ≡ answers
unfolding await_answer
await_answer-gotten text [] s h = h
await_answer-gotten text (a ∷ answers) s h = refl

prompt-IsClosed : (p : Prompt) (s : Dialog) → IsClosed s → IsClosed (prompt p s).1
unfolding prompt IsClosed
prompt-IsClosed p s h = elim (Bool-cases (is_malformed p)) [
  | inl e ↦ rw e h
  | inr e ↦ rw e (
      await_answer-IsClosed p.text s.operator_input (note s (waits (question p s) ∷ [])) (
        omega (
          arith,
          h,
          count-append opens s.notes (waits (question p s) ∷ []),
          count-append closes s.notes (waits (question p s) ∷ []),
        )))
]

prompt-gotten : (p : Prompt) (s : Dialog) → gotten (prompt p s) ≡ s.operator_input
unfolding prompt
prompt-gotten p s = elim (Bool-cases (is_malformed p)) [
  | inl e ↦ rw e refl
  | inr e ↦
      rw e (await_answer-gotten p.text s.operator_input (note s (waits (question p s) ∷ [])) refl)
]

progress-kept :
    (t : Text) (n : Option ℤ) (s : Dialog)
    → ((progress t n s).1.operator_input ≡ s.operator_input)
      × (count opens (progress t n s).1.notes ≡ count opens s.notes)
      × (count closes (progress t n s).1.notes ≡ count closes s.notes)
unfolding progress
progress-kept t n s = elim (Bool-cases (is_percent n)) [
  | inl e ↦ rw e (
    refl,
    omega (arith, count-append opens s.notes (progressed t n ∷ [])),
    omega (arith, count-append closes s.notes (progressed t n ∷ [])),
  )
  | inr e ↦ rw e (refl, refl, refl)
]

do_call-IsClosed : (c : Call) (s : Dialog) → IsClosed s → IsClosed (do_call c s).1
unfolding IsClosed submit_operator_input
do_call-IsClosed (asks p) s h = prompt-IsClosed p s h
do_call-IsClosed (reports t n) s h = let k = progress-kept t n s in omega (arith, h, k.1, k.2)
do_call-IsClosed (submits a) s h = h

do_call-gotten :
    (c : Call) (s : Dialog)
    → (do_call c s).0 ++ (do_call c s).1.operator_input ≡ s.operator_input ++ submitted (c ∷ [])
unfolding submit_operator_input
do_call-gotten (asks p) s = prompt-gotten p s ∙ sym (append-nil s.operator_input)
do_call-gotten (reports t n) s = (progress-kept t n s).0 ∙ sym (append-nil s.operator_input)
do_call-gotten (submits a) s = refl

submitted-cons :
    (c : Call) (cs : List Call) → submitted (c ∷ cs) ≡ submitted (c ∷ []) ++ submitted cs
submitted-cons (asks p) cs = refl
submitted-cons (reports t n) cs = refl
submitted-cons (submits a) cs = refl

-- Whatever a script asks, with a timeout, and reports, and whatever the operator submits, in any
-- order: every prompt that is shown is closed again, when this was so at the start, and the answers
-- that the script got, followed by those that still wait, are those that waited at the start and
-- those that were submitted, in order.
pub do_calls-IsClosed :
    (cs : List Call) (s : Dialog)
    → IsClosed s
    → IsClosed (do_calls cs s).1
      × ((do_calls cs s).0 ++ (do_calls cs s).1.operator_input ≡ s.operator_input ++ submitted cs)
do_calls-IsClosed [] s h = (h, sym (append-nil s.operator_input))
do_calls-IsClosed (c ∷ cs) s h =
    let r = do_calls-IsClosed cs (do_call c s).1 (do_call-IsClosed c s h) in
    (
      r.0,
      rw (submitted-cons c cs) (
          joined (do_call c s).0 (do_calls cs (do_call c s).1).0 (do_call c s).1.operator_input
            (do_calls cs (do_call c s).1).1.operator_input s.operator_input (submitted (c ∷ []))
            (submitted cs) (do_call-gotten c s) r.1),
    )

confirmation_well_formed : (t : Text) → is_malformed (confirmation t (codes "none")) ≡ false
unfolding is_malformed same
confirmation_well_formed t = refl

-- A prompt expires, since no answer comes, and then the operator answers it: what the operator says
-- then is the answer to the next question of the script, which does not wait for another.
pub confirm_stale :
    (p : Prompt) (s : Dialog) (a t : Text)
    → is_malformed p ≡ false
    → s.operator_input ≡ []
    → ((prompt p s).0 ≡ raised timeout_error)
      × ((confirm t (codes "none") (submit_operator_input a (prompt p s).1)).0
          ≡ returned (contains (lower (strip a)) yes_words))
unfolding confirm prompt await_answer submit_operator_input
confirm_stale p s a t e h = rw (e, confirmation_well_formed t, h) (refl, refl)
