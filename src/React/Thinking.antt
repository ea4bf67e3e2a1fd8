-- ===== src/React/Thinking.antt =====
-- The first half of a round of `_run_async` in xibi/react.py: the model is asked, its answer is parsed,
-- and trust is recorded. The model, and the parser of its format, are functions; the prompt is what the
-- model makes of the scratchpad, or of the messages of a native conversation.
use xibi.Base.{
  ℕ, Bool, true, false, not, Option, none, some, String, List, [], ◌∷◌, ◌==◌, if◌then◌else◌, Dict,
  lookup, append_text,
}
use mathlib.Core.Bool.{◌||◌}
use xibi.Errors.{XibiError, parse_failure}
use xibi.Tools.{str, Value}
use xibi.TrustGradient.{Trust, TrustRecord, FailureType, persistent, record_success, record_failure}
use xibi.React.{Input, fields, no_dict, Step, foreign, Outcome, done, raises, World, Session}

-- What a parsed answer has, with the defaults for the keys that it lacks.
pub record Parsed : Type 0 where
  pub thought : String
  pub tool : String
  pub tool_input : Input

-- A message of a native conversation.
pub data Message : Type 0 where
  user_turn : String → Message
  assistant_turn : String → String → Input → Message
  tool_turn : List ℕ → Message

-- An answer of a model that calls tools: its calls, each with the name and the arguments if it has
-- them, its content, and the content without the white space around it.
pub record Reply : Type 0 where
  pub tool_calls : List (Option String × Option Input)
  pub content : String
  pub stripped : String

pub data Format : Type 0 where
  native : (ℕ → List Message → Outcome Reply) → Format
  prompted : (ℕ → Bool → List Step → Outcome String) → (String → Option Parsed) → Format

abbrev or_default {ℓ} : {A : Type ℓ} → A → Option A → A
or_default d none = d
or_default d (some a) = a

abbrev text_value : String → Value
text_value s = record { kind = str; text = s; items = none }

abbrev one_field : String → String → Input
one_field k s = fields ((k, text_value s) ∷ [])

abbrev pub act_on_content : Reply → String × Input × String
act_on_content r =
    if r.stripped == ""
    then ("error", one_field "message" "Model returned empty response", "")
    else ("finish", one_field "answer" r.stripped, r.stripped)

abbrev pub act_on_reply : Reply → List (Option String × Option Input) → String × Input × String
act_on_reply r [] = act_on_content r
act_on_reply r ((name, arguments) ∷ calls) =
    (or_default "error" name, or_default (fields []) arguments, r.content)

-- `_native_step`; `exn` is the text of an exception.
unfoldable pub native_step : String → Outcome Reply → String × Input × String
native_step exn (raises e) = ("error", one_field "message" exn, "")
native_step exn (done r) = act_on_reply r r.tool_calls

abbrev parse_error : String → XibiError
parse_error detail = record {
  category = parse_failure;
  message = "I had trouble understanding the response. Retrying.";
  component = "router";
  detail = detail;
  retryable = true;
}

abbrev pub plain_step : ℕ → Parsed → Option String → Option XibiError → Step
plain_step n p warning error = record {
  step_num = n;
  thought = p.thought;
  tool = p.tool;
  tool_input = p.tool_input;
  tool_output = [];
  parse_warning = warning;
  error = error;
  source = "user";
}

abbrev message_in : Dict Value → String
message_in d = elim (lookup "message" d) [ none ↦ "Unknown native error" | some v ↦ v.text ]

abbrev is_pseudo : String → Bool
is_pseudo tool = (tool == "finish") || (tool == "ask_user")

abbrev thought_of : String → String → String
thought_of content tool =
    if not (content == "")
    then content
    else if is_pseudo tool
    then ""
    else append_text "Calling " tool

abbrev error_thought : String → String
error_thought content = if content == "" then "Encountered an error" else content

-- An error's input is asked for its message, which a value that is no dict does not answer.
abbrev pub native_error : ℕ → String → String → Input → Outcome Step
native_error n tool content no_dict = raises foreign
native_error n tool content (fields d) = done (
    plain_step n (record { thought = error_thought content; tool = tool; tool_input = fields d })
      none (some (parse_error (message_in d))))

abbrev pub native_thought : ℕ → String × Input × String → Outcome Step
native_thought n (tool, input, content) =
    if tool == "error"
    then native_error n tool content input
    else done (
        plain_step n (record { thought = thought_of content tool; tool = tool; tool_input = input })
          none none)

abbrev pub with_content : String → Outcome Step → Outcome (Step × String)
with_content content (raises e) = raises e
with_content content (done step) = done (step, content)

-- A step, with the content that came with it, and the session; or an exception.
abbrev pub Thought : Type 0 → Type 0
Thought S = Outcome (Step × String) × Session S

module _ {S : Type 0} (w : World S) where
  abbrev trusting : Trust TrustRecord → Session S → Option TrustRecord × Session S
  trusting m s = let (r, t) = m s.trust in (r, record s { trust = t })

  -- `trust.record_success("text", "fast")` and its companion.
  abbrev pub succeed : ℕ → Session S → Option TrustRecord × Session S
  succeed now = trusting (record_success w.gradient now "text" "fast")

  abbrev pub fail : ℕ → FailureType → Session S → Option TrustRecord × Session S
  fail now type = trusting (record_failure w.gradient now type "text" "fast")

  abbrev pub failed_step : ℕ → Step
  failed_step n =
      plain_step n
        (record {
          thought = append_text "Failed to parse LLM response: " w.exception_text;
          tool = "error";
          tool_input = fields [];
        })
        (some "Failed to parse JSON") (some (parse_error w.exception_text))

  abbrev pub failed_parse : ℕ → Option TrustRecord × Session S → Thought S
  failed_parse n (none, s) = (raises foreign, s)
  failed_parse n (some r, s) = (done (failed_step n, ""), s)

  -- The step of an answer that was parsed, unless recording the success raises.
  abbrev pub recorded :
      ℕ → Parsed → Option String → Thought S → Option TrustRecord × Session S → Thought S
  recorded n p warning otherwise (none, s) = otherwise
  recorded n p warning otherwise (some r, s) = (done (plain_step n p warning none, ""), s)

  abbrev pub give_up : ℕ → ℕ → Session S → Thought S
  give_up now n s = failed_parse n (fail now persistent s)

  abbrev pub recovered : ℕ → ℕ → Option Parsed → Session S → Thought S
  recovered now n none s = give_up now n s
  recovered now n (some p) s =
      let (r, s') = succeed now s in
      recorded n p (some "Recovered from invalid JSON") (give_up now n s') (r, s')

  abbrev pub second_answer :
      (String → Option Parsed) → ℕ → ℕ → Outcome String → Session S → Thought S
  second_answer parse now n (raises e) s = give_up now n s
  second_answer parse now n (done response) s = recovered now n (parse response) s

  -- The answer, or else the one to the recovery prompt.
  abbrev pub parsed_step :
      (String → Option Parsed) → ℕ → ℕ → Option Parsed → Outcome String → Session S → Thought S
  parsed_step parse now n none again s = second_answer parse now n again s
  parsed_step parse now n (some p) again s =
      let (r, s') = succeed now s in recorded n p none (second_answer parse now n again s') (r, s')

  abbrev pub first_answer :
      (String → Option Parsed) → ℕ → ℕ → Outcome String → Outcome String → Session S → Thought S
  first_answer parse now n (raises e) again s = (raises e, s)
  first_answer parse now n (done response) again s =
      parsed_step parse now n (parse response) again s

  unfoldable pub think : Format → ℕ → ℕ → List Message → List Step → Session S → Thought S
  unfolding native_step
  think (native generate) now n messages scratchpad s =
      let answer = native_step w.exception_text (generate n messages) in
      (with_content answer.2 (native_thought n answer), s)
  think (prompted generate parse) now n messages scratchpad s =
      first_answer parse now n (generate n false scratchpad) (generate n true scratchpad) s
