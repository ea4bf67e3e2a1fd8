-- ===== src/React/Acting.antt =====
-- The second half of a round of `_run_async` in xibi/react.py: `is_repeat`, the call of the tool, and
-- what is noted of its answer.
use xibi.Base.{
  ℕ, zero, suc, ◌*◌, Bool, true, false, not, ◌&&◌, Option, none, some, String, List, [], ◌∷◌, ◌++◌,
  ◌==◌, ltb, if◌then◌else◌, Dict, lookup, codes, append_text, any, length, member, select,
}
use package.text.Mathlib.Text.{starts_with}
use xibi.Errors.{XibiError, unknown}
use xibi.TrustGate.{GateConfig, trust_gate}
use xibi.TrustGate.Sanitizer.{content}
use xibi.React.{
  Field, text, raised, Output, Input, fields, no_dict, Step, ToolManifest, SkillManifest, foreign,
  Outcome, done, raises, World, Session, Reading, has_status,
}
use xibi.React.Dispatching.{dispatch}
use xibi.React.Thinking.{Message, assistant_turn, tool_turn}

-- A skill of the executor's registry.
pub record SkillInfo : Type 0 where
  pub tools : List String
  pub external_source : Bool

-- What the executor knows of sources: its skills, and the manifests of its MCP executor.
pub record Sources : Type 0 where
  pub skills : Dict SkillInfo
  pub mcp_manifests : Option (List SkillManifest)

-- What the loop is set up with: the distinct words of the JSON text of an input, the JSON text of
-- an answer (none where `json.dumps` raises a `TypeError`, as for an error object), the gate of the messages, and the sources, unless there is no executor.
pub record Setup : Type 0 where
  pub words : Input → List String
  pub dumps : Output → Option (List ℕ)
  pub gate : GateConfig
  pub sources : Option Sources

-- `len(new & old) / len(new) > 0.6`
abbrev overlaps : List String → List String → Bool
overlaps new old = ltb (3 * length new) (5 * length (select (λ x. member x old) new))

abbrev pub is_nil : List String → Bool
is_nil [] = true
is_nil (x ∷ xs) = false

abbrev repeats : (Input → List String) → String → List String → Step → Bool
repeats words tool [] old = (old.tool == tool) && is_nil (words old.tool_input)
repeats words tool (x ∷ xs) old =
    (old.tool == tool)
    && (not (is_nil (words old.tool_input)) && overlaps (x ∷ xs) (words old.tool_input))

unfoldable pub is_repeat : (Input → List String) → Step → List Step → Bool
is_repeat words step scratchpad = any (repeats words step.tool (words step.tool_input)) scratchpad

-- `find_skill_for_tool` of xibi/skills/registry.py
find_skill_for_tool : String → Dict SkillInfo → Option (String × SkillInfo)
find_skill_for_tool tool [] = none
find_skill_for_tool tool ((name, info) ∷ d) =
    let rest = find_skill_for_tool tool d in
    if member tool info.tools then some (name, info) else rest

abbrev drop_text : ℕ → String → String
drop_text zero s = s
drop_text (suc n) String.[] = ""
drop_text (suc n) (String.◌∷◌ c s) = drop_text n s

abbrev has_tool : String → List ToolManifest → Bool
has_tool tool ts = any (λ t. t.name == tool) ts

-- `MCPExecutor.can_handle` of xibi/executor.py
can_handle : String → List SkillManifest → Bool
can_handle tool manifests =
    any (λ s. starts_with s.skill_name "mcp_" && has_tool tool s.tools) manifests

abbrev server_name : Option String → String
server_name none = "unknown"
server_name (some s) = s

-- The server of the first such tool of a skill.
abbrev server_in : String → List ToolManifest → Option String
server_in tool [] = none
server_in tool (t ∷ ts) =
    let rest = server_in tool ts in
    if t.name == tool then some (append_text "mcp:" (server_name t.server)) else rest

abbrev newer : String → Option String → String
newer source none = source
newer source (some s) = s

-- The source of the last MCP skill that has the tool.
abbrev mcp_source : String → List SkillManifest → String → String
mcp_source tool [] source = source
mcp_source tool (s ∷ ss) source =
    mcp_source tool ss
      (if starts_with s.skill_name "mcp_" then newer source (server_in tool s.tools) else source)

abbrev unless_known : String → Option (List SkillManifest) → Option (String × SkillInfo) → String
unless_known tool manifests (some (name, info)) =
    if info.external_source
    then name
    else if starts_with name "mcp_"
    then append_text "mcp:" (drop_text 4 name)
    else "user"
unless_known tool none none = "user"
unless_known tool (some manifests) none =
    if can_handle tool manifests then mcp_source tool manifests "user" else "user"

abbrev by_registry : Option Sources → String → String
by_registry none tool = "user"
by_registry (some x) tool = unless_known tool x.mcp_manifests (find_skill_for_tool tool x.skills)

-- The tag of a step; the `source` of an answer is a text.
pub source_of : Option Sources → String → Output → String
unfolding find_skill_for_tool can_handle
source_of sources tool output = elim (lookup "source" output) [
  | some (text s) ↦ if s == "" then by_registry sources tool else s
  | _ ↦ by_registry sources tool
]

abbrev text_or : String → Option Field → String
text_or d (some (text s)) = s
text_or d _ = d

abbrev tool_error : String → String → String → XibiError
tool_error message tool detail = record {
  category = unknown;
  message = message;
  component = tool;
  detail = detail;
  retryable = true;
}

abbrev reported : Option XibiError → String → Option Field → Option XibiError
reported before tool (some (text s)) = some (tool_error s tool "")
reported before tool _ = before

-- The error of a step, read off the answer of its tool; the texts in it are texts.
pub error_of : Option XibiError → String → Output → Option XibiError
error_of before tool output = elim (lookup "_xibi_error" output) [
  | some (raised e s) ↦ some e
  | _ ↦
      if has_status "error" output
      then some (
          tool_error (text_or "Tool returned error without detail" (lookup "message" output)) tool
            (text_or "" (lookup "detail" output)))
      else reported before tool (lookup "error" output)
]

abbrev pub last_source : List Step → Option String
last_source [] = none
last_source (s ∷ []) = some s.source
last_source (s ∷ t ∷ ss) = last_source (t ∷ ss)

abbrev parse_failure_output : Output
parse_failure_output = ("status", text "error") ∷ ("message", text "Parse failure") ∷ []

abbrev pub repeat_output : Output
repeat_output =
    ("status", text "error")
    ∷ ("message", text "Repeat detected. Try a different approach or tool.")
    ∷ []

module _ {S : Type 0} (w : World S) (setup : Setup) where
  abbrev pub noted : Step → Outcome Output × Session S → Outcome Step × Session S
  noted step (raises e, s) = (raises e, s)
  noted step (done output, s) = (
    done (record step {
      tool_output = output;
      source = source_of setup.sources step.tool output;
      error = error_of step.error step.tool output;
    }),
    s,
  )

  abbrev pub call_tool :
      Reading → Step → Input → Option String → Session S → Outcome Step × Session S
  call_tool r step no_dict source s = (raises foreign, s)
  call_tool r step (fields input) source s = noted step (dispatch w r step.tool input source s)

  -- The step with the answer of its tool.
  unfoldable pub act : Reading → Step → List Step → Session S → Outcome Step × Session S
  unfolding source_of error_of
  act r step scratchpad s =
      if step.tool == "error"
      then (done (record step { tool_output = parse_failure_output }), s)
      else call_tool r step step.tool_input (last_source scratchpad) s

-- `_append_native_tool_result`; `none` is an exception. The label is `react_tool:` and the tool's name.
unfoldable pub append_native_tool_result :
    Setup → List Message → Step → String → Option (List Message)
append_native_tool_result setup messages step content_text = elim (setup.dumps step.tool_output) [
  | none ↦ none
  | some written ↦ some (
      messages
      ++ assistant_turn content_text step.tool step.tool_input
        ∷ tool_turn (trust_gate setup.gate written (codes "react_tool:" ++ codes step.tool) content)
        ∷ [])
]
