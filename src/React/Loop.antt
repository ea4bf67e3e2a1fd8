-- ===== src/React/Loop.antt =====
-- `_run_async` of xibi/react.py: the short cuts before the loop, the rounds of the loop, and how it ends.
-- Prompts, spans and the callback are left out; a run that an exception leaves has no result.
use xibi.Base.{
  ℕ, zero, suc, ◌+◌, Bool, true, false, Option, none, some, String, List, [], ◌∷◌, ◌++◌, ◌==◌, ltb,
  leb, if◌then◌else◌, Dict, lookup, codes,
}
use mathlib.Core.Bool.{◌||◌}
use xibi.Errors.{XibiError, user_message}
use xibi.Tools.{Value}
use xibi.TrustGradient.{TrustRecord, transient, persistent}
use xibi.React.{
  Input, fields, no_dict, Step, ExitReason, finish, ask_user, max_steps, timeout, error, partial,
  Answer, nothing, told, composed, ReactResult, has_status, Raised, own, common, foreign, Outcome,
  done, raises, World, Session, Reading,
}
use xibi.React.Rendering.{build_partial_answer}
use xibi.React.Thinking.{Format, native, prompted, Message, Thought, think, succeed, fail}
use xibi.React.Acting.{Setup, is_repeat, repeat_output, act, append_native_tool_result}

-- What the rounds pass on.
pub record Progress : Type 0 where
  pub scratchpad : List Step
  pub consecutive_errors : ℕ
  pub messages : List Message

-- One round's readings: the time since the start, that of the trust record, and those of its call.
pub record Turn : Type 0 where
  pub elapsed : ℕ
  pub now : ℕ
  pub reading : Reading

abbrev errors_in : List Step → List XibiError
errors_in [] = []
errors_in (s ∷ ss) = let rest = errors_in ss in elim s.error [ none ↦ rest | some e ↦ e ∷ rest ]

abbrev pub ended : Answer → ExitReason → List Step → ReactResult
ended answer reason steps = record {
  answer = answer;
  steps = steps;
  exit_reason = reason;
  error_summary = errors_in steps;
  degraded = false;
}

abbrev pub partial_or : Bool → ExitReason → List Step → Option (List ℕ) → ReactResult
partial_or always otherwise steps none = record (ended nothing otherwise steps) {
  degraded = always;
}
partial_or always otherwise steps (some s) = record (ended (composed s) partial steps) {
  degraded = true;
}

-- The answer of a pseudo tool: a key of its input, or an empty text.
abbrev pub key_of : String → Dict Value → Answer
key_of k input = elim (lookup k input) [ none ↦ nothing | some v ↦ told v ]

-- What one round comes to.
pub data Round : Type 0 where
  go_on : Progress → Round
  exit : ReactResult → Round
  crash : Round

abbrev pub pseudo_exit : String → ExitReason → Input → List Step → Round
pseudo_exit k reason no_dict steps = crash
pseudo_exit k reason (fields input) steps = exit (ended (key_of k input) reason steps)

abbrev pub repeated : Step → Progress → Round
repeated step p =
    let steps = p.scratchpad ++ record step { tool_output = repeat_output } ∷ [] in
    if leb 3 (p.consecutive_errors + 1)
    then exit (ended nothing error steps)
    else go_on (record p { scratchpad = steps; consecutive_errors = p.consecutive_errors + 1 })

abbrev pub has_failed : Step → Bool
has_failed step = (step.tool == "error") || has_status "error" step.tool_output

abbrev pub appended : Step → Progress → Progress
appended step p = record p { scratchpad = p.scratchpad ++ step ∷ [] }

module _ {S : Type 0} (w : World S) (setup : Setup) where
  -- An exit that salvages what the scratchpad has.
  abbrev pub salvaging : Bool → ExitReason → List Step → List ℕ → ReactResult
  salvaging always otherwise steps reason =
      partial_or always otherwise steps (build_partial_answer w.str_of steps reason)

  abbrev pub after_failure : Round → Option TrustRecord × Session S → Round × Session S
  after_failure r (none, s) = (crash, s)
  after_failure r (some t, s) = (r, s)

  abbrev pub own_exit : XibiError → List Step → ReactResult
  own_exit e steps = record (salvaging true error steps (codes (user_message e))) {
    error_summary = e ∷ [];
  }

  -- The handler of a round's exceptions.
  abbrev pub handled : ℕ → Progress → Raised → Session S → Round × Session S
  handled now p foreign s = (crash, s)
  handled now p (own e) s = after_failure (exit (own_exit e p.scratchpad)) (fail w now persistent s)
  handled now p (common reason) s =
      after_failure (exit (salvaging true error p.scratchpad reason)) (fail w now transient s)

  -- The step is in the scratchpad.
  abbrev pub counted : Step → Progress → Round
  counted step p =
      if has_failed step
      then if leb 3 (p.consecutive_errors + 1)
        then exit (salvaging true error p.scratchpad (codes "3 consecutive tool failures"))
        else go_on (record p { consecutive_errors = p.consecutive_errors + 1 })
      else go_on (record p { consecutive_errors = 0 })

  abbrev pub after_success : Step → Progress → Option TrustRecord × Session S → Round × Session S
  after_success step p (none, s) = (crash, s)
  after_success step p (some t, s) = (counted step (appended step p), s)

  -- The model is told of the answer, unless its JSON text cannot be made.
  abbrev pub told_back : ℕ → Step → Progress → Option (List Message) → Session S → Round × Session S
  told_back now step p none s = handled now p foreign s
  told_back now step p (some messages) s =
      after_success step (record p { messages = messages }) (succeed w now s)

  abbrev pub recorded_act : Format → ℕ → String → Step → Progress → Session S → Round × Session S
  recorded_act (prompted generate parse) now content step p s = (counted step (appended step p), s)
  recorded_act (native generate) now content step p s =
      told_back now step p (append_native_tool_result setup p.messages step content) s

  abbrev pub acted : Format → ℕ → String → Progress → Outcome Step × Session S → Round × Session S
  acted format now content p (raises e, s) = handled now p e s
  acted format now content p (done step, s) = recorded_act format now content step p s

  -- The pseudo tools, a repeat, and every other tool.
  abbrev pub decided : Format → Turn → Step → String → Progress → Session S → Round × Session S
  decided format t step content p s =
      if step.tool == "finish"
      then (pseudo_exit "answer" finish step.tool_input p.scratchpad, s)
      else if step.tool == "ask_user"
      then (pseudo_exit "question" ask_user step.tool_input p.scratchpad, s)
      else if is_repeat setup.words step p.scratchpad
      then (repeated step p, s)
      else acted format t.now content p (act w setup t.reading step p.scratchpad s)

  abbrev pub thought : Format → Turn → Progress → Thought S → Round × Session S
  thought format t p (raises e, s) = handled t.now p e s
  thought format t p (done (step, content), s) = decided format t step content p s

  abbrev too_late : ℕ → Progress → Session S → Round × Session S
  too_late now p s =
      after_failure (exit (ended nothing timeout p.scratchpad)) (fail w now transient s)

  unfoldable pub round : Format → ℕ → ℕ → Turn → Progress → Session S → Round × Session S
  unfolding think act is_repeat append_native_tool_result build_partial_answer
  round format max_secs n t p s =
      if ltb max_secs t.elapsed
      then too_late t.now p s
      else thought format t p (think w format t.now n p.messages p.scratchpad s)

  -- The rounds: so many may still be made, and the number of the next one.
  abbrev pub carried_on :
      (Progress → Session S → Option ReactResult × Session S)
      → Round × Session S
      → Option ReactResult × Session S
  carried_on next (go_on p, s) = next p s
  carried_on next (exit r, s) = (some r, s)
  carried_on next (crash, s) = (none, s)

  abbrev pub exhausted : Progress → ReactResult
  exhausted p = salvaging false max_steps p.scratchpad (codes "max reasoning steps reached")

  unfoldable pub rounds :
      Format → ℕ → (ℕ → Turn) → ℕ → ℕ → Progress → Session S → Option ReactResult × Session S
  unfolding round
  rounds format max_secs turn zero n p s = (some (exhausted p), s)
  rounds format max_secs turn (suc left) n p s =
      carried_on (rounds format max_secs turn left (suc n)) (round format max_secs n (turn n) p s)
