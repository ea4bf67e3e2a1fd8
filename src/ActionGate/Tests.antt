-- ===== src/ActionGate/Tests.antt =====
-- Runs of the action gates' theorems on a step with three actions.
use xibi.Base.{◌≡◌, ◌&&◌, none, some, List, [], ◌∷◌, String, member, select}
use xibi.ActionGate.{toolless, call, StepOutput, enforce_trust, check_tool_scope}
use xibi.ActionGate.Parking.{tools_of, parked_tools, in_scope, parked_tools-enforce_trust}

abbrev step_output : StepOutput
step_output = record {
  actions =
      some (
        call "send_email" "{}"
        ∷ toolless "note"
        ∷ call "delete_all" "{}"
        ∷ call "search" "{}"
        ∷ []);
  parked_actions = none;
  others = "{}";
}

abbrev declared : List String
declared = "search" ∷ "send_email" ∷ []

abbrev required : List String
required = "send_email" ∷ "delete_all" ∷ []

parked_tools-enforce_trust_example :
    parked_tools
      (enforce_trust (λ n. "id") (check_tool_scope step_output declared).0 "run" "step" required).1
    ≡ select (λ t. in_scope declared t && member t required) (tools_of step_output.actions)
parked_tools-enforce_trust_example =
    parked_tools-enforce_trust (λ n. "id") step_output "run" "step" declared required
