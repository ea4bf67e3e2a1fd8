-- ===== src/React/Opening.antt =====
-- The beginning of `_run_async` in xibi/react.py: the control plane's intents and the matches of the
-- shadow, which end a run before its loop.
use xibi.Base.{
  ℕ, Bool, true, false, Option, none, some, String, List, [], ◌∷◌, ◌==◌, ◌&&◌, if◌then◌else◌, Dict,
  lookup, codes, append_text, is_some,
}
use xibi.Tools.{Value}
use xibi.Handles.{HandleStore}
use xibi.React.{
  Field, text, long_text, listed, value, Output, finish, Answer, composed, ReactResult, Outcome,
  done, raises, World, Session, Reading,
}
use xibi.React.Rendering.{str_of}
use xibi.React.Dispatching.{dispatch}
use xibi.React.Thinking.{Format, Message}
use xibi.React.Acting.{Setup}
use xibi.React.Loop.{Turn, Progress, ended, rounds}

-- xibi/routing/control_plane.py
pub record RoutingDecision : Type 0 where
  pub intent : Option String
  pub params : Dict String
  pub confident : Bool

-- The property `matched`.
abbrev pub matched : RoutingDecision → Bool
matched d = d.confident && is_some d.intent

abbrev named : (String → String) → Option String → Option String
named f none = none
named f (some name) = some (f name)

abbrev intent_text : String → Dict String → Option String
intent_text intent params =
    if intent == "greet"
    then some "Hello! How can I help?"
    else if intent == "status_check"
    then some "All systems up."
    else if intent == "reset"
    then some "Context cleared."
    else if intent == "capability_check"
    then some
        "I can help with various tasks using my tools. Type 'list skills' to see what I can do."
    else if intent == "update_assistant_name"
    then named (λ name. append_text "Understood. You can call me " (append_text name "."))
        (lookup "name" params)
    else if intent == "update_user_name"
    then named (λ name. append_text "Nice to meet you, " (append_text name "!"))
        (lookup "name" params)
    else some ""

-- The canned answer; `none` is the `KeyError` of an intent whose entity is missing.
unfoldable pub handle_intent : RoutingDecision → Option String
handle_intent d = elim d.intent [ none ↦ some "" | some intent ↦ intent_text intent d.params ]

-- xibi/routing/shadow.py
pub record ShadowMatch : Type 0 where
  pub tool : String
  pub tier : String
  pub tool_input : Dict Value

abbrev is_true : Field → Bool
is_true (text s) = if s == "" then false else true
is_true (long_text []) = false
is_true (listed [] s) = false
is_true (value v) = v.truth
is_true _ = true

abbrev first_true : List String → Output → List ℕ → List ℕ
first_true [] output otherwise = otherwise
first_true (k ∷ ks) output otherwise =
    let rest = first_true ks output otherwise in
    elim (lookup k output) [ none ↦ rest | some f ↦ if is_true f then str_of f else rest ]

-- `HandleStore()`
abbrev pub new_store : HandleStore
new_store = record {
  handles = [];
  payloads = [];
  evicted_ids = [];
  max_handles = 64;
  max_total_bytes = 33554432;
  total_bytes = 0;
}

module _ {S : Type 0} (w : World S) (setup : Setup) where
  abbrev direct_answer : Output → Answer
  direct_answer output =
      composed (first_true ("answer" ∷ "message" ∷ "content" ∷ []) output (w.str_of output))

  abbrev pub answered_directly :
      Option HandleStore → Outcome Output × Session S → Option ReactResult × Session S
  answered_directly store (raises e, s) = (none, record s { handles = store })
  answered_directly store (done output, s) =
      (some (ended (direct_answer output) finish []), record s { handles = store })

  -- The tool of a match is called without the store of handles.
  abbrev call_directly : Reading → ShadowMatch → Session S → Option ReactResult × Session S
  call_directly r m s =
      answered_directly s.handles
        (dispatch w r m.tool m.tool_input none (record s { handles = none }))

  abbrev pub fresh_progress : List Message → Progress
  fresh_progress messages = record { scratchpad = []; consecutive_errors = 0; messages = messages }

  abbrev pub start :
      Format → ℕ → (ℕ → Turn) → ℕ → List Message → Session S → Option ReactResult × Session S
  start format max_secs turn steps messages s =
      rounds w setup format max_secs turn steps 1 (fresh_progress messages)
        (record s { handles = some new_store })

  abbrev pub shadowed :
      Option ShadowMatch
      → Reading
      → (Session S → Option ReactResult × Session S)
      → Session S
      → Option ReactResult × Session S
  shadowed none r next s = next s
  shadowed (some m) r next s = if m.tier == "direct" then call_directly r m s else next s

  abbrev pub answered_intent : Option String → Session S → Option ReactResult × Session S
  answered_intent none s = (none, s)
  answered_intent (some a) s = (some (ended (composed (codes a)) finish []), s)

  abbrev pub controlled :
      Option RoutingDecision
      → (Session S → Option ReactResult × Session S)
      → Session S
      → Option ReactResult × Session S
  controlled none next s = next s
  controlled (some d) next s = if matched d then answered_intent (handle_intent d) s else next s

  -- `_run_async`: what the control plane and the shadow say of the query, the format, the budgets of
  -- seconds and steps, and the first message.
  unfoldable pub run_async :
      Option RoutingDecision
      → Option ShadowMatch
      → Reading
      → Format
      → ℕ
      → (ℕ → Turn)
      → ℕ
      → List Message
      → Session S
      → Option ReactResult × Session S
  unfolding handle_intent
  run_async decision shadow r format max_secs turn steps messages s =
      controlled decision (shadowed shadow r (start format max_secs turn steps messages)) s
