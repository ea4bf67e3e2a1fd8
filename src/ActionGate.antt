-- ===== src/ActionGate.antt =====
-- xibi/subagent/trust.py: which of the actions that a subagent's step declares are struck out, and
-- which wait for a human's approval.
pub mod Parking
mod Tests
use xibi.Base.{
  ℕ, suc, ◌+◌, Bool, true, false, Option, none, some, List, [], ◌∷◌, String, if◌then◌else◌, member,
}

-- An action: a value that is no dict or names no tool, or a tool with its arguments.
pub data Declared : Type 0 where
  toolless : String → Declared
  call : String → String → Declared

-- A step's output: the value of `actions`, which may be missing, that of `parked_actions`, and the
-- rest of the dict.
pub record StepOutput : Type 0 where
  pub actions : Option (List Declared)
  pub parked_actions : Option (List String)
  pub others : String

pub record PendingL2Action : Type 0 where
  pub id : String
  pub run_id : String
  pub step_id : String
  pub tool : String
  pub args : String
  pub status : String

-- {"tool": ..., "reason": "not_in_declared_tools"}
pub record Violation : Type 0 where
  pub tool : String
  pub reason : String

abbrev pending : (ℕ → String) → ℕ → String → String → String → String → PendingL2Action
pending new_id n run_id step_id tool args = record {
  id = new_id n;
  run_id = run_id;
  step_id = step_id;
  tool = tool;
  args = args;
  status = "PENDING";
}

-- The loop of `enforce_trust`; `new_id n` is the text of the `n`-th random id.
unfoldable pub park :
    (ℕ → String) → ℕ → String → String → List String → List Declared → List PendingL2Action
park new_id n run_id step_id required [] = []
park new_id n run_id step_id required (toolless v ∷ rest) =
    park new_id n run_id step_id required rest
park new_id n run_id step_id required (call tool args ∷ rest) =
    let parked = park new_id (n + 1) run_id step_id required rest in
    let passed = park new_id n run_id step_id required rest in
    if member tool required then pending new_id n run_id step_id tool args ∷ parked else passed

abbrev ids : List PendingL2Action → List String
ids [] = []
ids (p ∷ ps) = p.id ∷ ids ps

abbrev noted : StepOutput → List PendingL2Action → StepOutput
noted output [] = output
noted output (p ∷ ps) = record output { parked_actions = some (ids (p ∷ ps)) }

abbrev pub parked_from :
    (ℕ → String)
    → String
    → String
    → List String
    → StepOutput
    → Option (List Declared)
    → StepOutput × List PendingL2Action
parked_from new_id run_id step_id required output none = (output, [])
parked_from new_id run_id step_id required output (some actions) =
    let parked = park new_id 0 run_id step_id required actions in (noted output parked, parked)

unfoldable pub enforce_trust :
    (ℕ → String) → StepOutput → String → String → List String → StepOutput × List PendingL2Action
unfolding park
enforce_trust new_id output run_id step_id required =
    parked_from new_id run_id step_id required output output.actions

-- The loop of `check_tool_scope`: the actions kept and the violations.
unfoldable pub split : List String → List Declared → List Declared × List Violation
split declared [] = ([], [])
split declared (toolless v ∷ rest) =
    let (kept, violations) = split declared rest in (toolless v ∷ kept, violations)
split declared (call tool args ∷ rest) =
    let (kept, violations) = split declared rest in
    if member tool declared
    then (call tool args ∷ kept, violations)
    else (kept, record { tool = tool; reason = "not_in_declared_tools" } ∷ violations)

abbrev scoped : StepOutput → List String → Option (List Declared) → StepOutput × List Violation
scoped output declared none = (output, [])
scoped output declared (some []) = (output, [])
scoped output [] (some (a ∷ rest)) = (output, [])
scoped output (d ∷ ds) (some (a ∷ rest)) =
    let (kept, violations) = split (d ∷ ds) (a ∷ rest) in
    (record output { actions = some kept }, violations)

unfoldable pub check_tool_scope : StepOutput → List String → StepOutput × List Violation
unfolding split
check_tool_scope output declared = scoped output declared output.actions
