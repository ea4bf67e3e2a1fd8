-- ===== src/React/Dispatching.antt =====
-- `dispatch` of xibi/react.py: a tool call between the store of handles, the command layer and the
-- executor. The executor is a function on a state of its own.
use xibi.Base.{
  ◌&&◌, Bool, true, false, Option, none, some, String, List, [], ◌∷◌, ◌==◌, if◌then◌else◌, Dict,
  codes, is_some, append_text, any,
}
use xibi.Tools.{Value, Schema}
use xibi.CommandLayer.{not_blocked, CommandResult, Database, check, audit}
use xibi.React.{
  Field, text, value, Output, ToolManifest, SkillManifest, World, Session, Reading, Layer, Outcome,
  done, raises,
}
use xibi.React.Wrapping.{resolve_handles_in_input, maybe_wrap_in_handle}
use xibi.React.Refusals.{retry_hint, block_reason}

abbrev find_tool : String → List ToolManifest → Option ToolManifest
find_tool tool [] = none
find_tool tool (t ∷ ts) = if t.name == tool then some t else find_tool tool ts

abbrev or_later {ℓ} : {A : Type ℓ} → Option A → Option A → Option A
or_later none b = b
or_later (some a) b = some a

abbrev pub tool_manifest : String → List SkillManifest → Option ToolManifest
tool_manifest tool [] = none
tool_manifest tool (s ∷ ss) = or_later (find_tool tool s.tools) (tool_manifest tool ss)

abbrev pub manifest_schema : Option ToolManifest → Option Schema
manifest_schema none = none
manifest_schema (some t) = t.input_schema

abbrev answer_of : String → String → Output
answer_of status message = ("status", text status) ∷ ("message", text message) ∷ []

abbrev yes : Field
yes = value (record { truth = true; rendered = codes "True" })

-- What a call that the layer does not allow is answered with; `none` goes on to the executor.
abbrev when_not_allowed : String → String → CommandResult → Option Output
when_not_allowed exn tool c = elim c.validation_errors [
  | e ∷ es ↦ some (
      ("status", text "error")
      ∷ ("message", text (retry_hint exn tool (e ∷ es)))
      ∷ ("retry", yes)
      ∷ [])
  | [] ↦
      if c.dedup_suppressed
      then some (answer_of "suppressed" "duplicate action suppressed")
      else elim c.block_reason [
        | not_blocked ↦ none
        | _ ↦ some (answer_of "blocked" (block_reason exn tool c.block_reason))
      ]
]

abbrev pub refusal : String → String → CommandResult → Option Output
refusal exn tool c = if c.allowed then none else when_not_allowed exn tool c

abbrev stub : Output
stub = answer_of "ok" "stub"

abbrev knows_tool : String → List SkillManifest → Bool
knows_tool tool = any (λ s. s.skill_name == tool)

-- Without a command layer nothing is run.
abbrev without_layer : Bool → String → List SkillManifest → Output
without_layer false tool registry =
    if knows_tool tool registry then stub else answer_of "error" (append_text "Unknown tool: " tool)
without_layer true tool registry =
    ("status", text "blocked")
    ∷ ("message", text "dispatch requires a command_layer — call was bypassing permission gates")
    ∷ ("fail_closed", yes)
    ∷ []

module _ {S : Type 0} (w : World S) where
  abbrev pub run_tool :
      Option (String → Dict Value → S → Outcome Output × S)
      → String
      → Dict Value
      → S
      → Outcome Output × S
  run_tool none tool input s = (done stub, s)
  run_tool (some execute) tool input s = execute tool input s

  abbrev logged : Reading → CommandResult → String → Dict Value → Database → Database
  logged r c tool input log =
      if c.allowed && c.audit_required then audit r.audited_at tool input log else log

  abbrev audited : Reading → CommandResult → String → Dict Value → Session S → Session S
  audited r c tool input s = record s { log = logged r c tool input s.log }

  abbrev wrapped : Reading → String → Output → Session S → Outcome Output × Session S
  wrapped r tool output s =
      let (output', handles') = maybe_wrap_in_handle w r tool output s.handles in
      (done output', record s { handles = handles' })

  abbrev pub after_tool :
      Reading
      → CommandResult
      → String
      → Dict Value
      → Session S
      → Outcome Output × S
      → Outcome Output × Session S
  after_tool r c tool input s (raises e, x) = (raises e, record s { executor = x })
  after_tool r c tool input s (done output, x) =
      wrapped r tool output (audited r c tool input (record s { executor = x }))

  abbrev pub answered :
      Reading
      → CommandResult
      → String
      → Dict Value
      → Session S
      → Option Output
      → Outcome Output × Session S
  answered r c tool input s (some output) = (done output, s)
  answered r c tool input s none =
      after_tool r c tool input s (run_tool w.execute tool input s.executor)

  abbrev pub verdict_of :
      Layer → Reading → String → Dict Value → Option String → Database → CommandResult
  verdict_of layer r tool input source log =
      check layer.profile layer.interactive r.checked_at log tool input
        (manifest_schema (tool_manifest tool w.skill_registry)) source

  abbrev pub through_layer :
      Option Layer
      → Reading
      → String
      → Dict Value
      → Option String
      → Session S
      → Outcome Output × Session S
  through_layer none r tool input source s =
      (done (without_layer (is_some w.execute) tool w.skill_registry), s)
  through_layer (some layer) r tool input source s =
      let c = verdict_of layer r tool input source s.log in
      answered r c tool input s (refusal w.exception_text tool c)

  abbrev pub with_input :
      Reading
      → String
      → Option String
      → Session S
      → Outcome (Dict Value)
      → Outcome Output × Session S
  with_input r tool source s (raises e) = (raises e, s)
  with_input r tool source s (done input) = through_layer w.layer r tool input source s

  -- `dispatch`, for an input that is a dict.
  unfoldable pub dispatch :
      Reading → String → Dict Value → Option String → Session S → Outcome Output × Session S
  unfolding maybe_wrap_in_handle
  dispatch r tool input source s =
      with_input r tool source s (resolve_handles_in_input w.inflated s.handles input)
