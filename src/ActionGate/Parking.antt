-- ===== src/ActionGate/Parking.antt =====
-- What the two gates of xibi/subagent/trust.py let through, one after the other.
use xibi.Base.{
  ℕ, ◌+◌, ◌≡◌, refl, sym, ap, ◌∙◌, Bool, true, false, not, ◌&&◌, Option, none, some, List, [], ◌∷◌,
  String, arith, member, select,
}
use xibi.ActionGate.{
  Declared, toolless, call, StepOutput, PendingL2Action, Violation, park, enforce_trust, split,
  check_tool_scope, parked_from,
}

-- The tools that actions, parked actions and violations name.
abbrev tools : List Declared → List String
tools [] = []
tools (toolless v ∷ rest) = tools rest
tools (call tool args ∷ rest) = tool ∷ tools rest

abbrev pub tools_of : Option (List Declared) → List String
tools_of none = []
tools_of (some actions) = tools actions

abbrev pub parked_tools : List PendingL2Action → List String
parked_tools [] = []
parked_tools (p ∷ ps) = p.tool ∷ parked_tools ps

abbrev struck_tools : List Violation → List String
struck_tools [] = []
struck_tools (v ∷ vs) = v.tool ∷ struck_tools vs

-- An empty list of declared tools puts nothing out of scope.
abbrev pub in_scope : List String → String → Bool
in_scope [] tool = true
in_scope (d ∷ ds) tool = member tool (d ∷ ds)

parked_tools-park :
    (new_id : ℕ → String) (n : ℕ) (run_id step_id : String) (required : List String)
    (actions : List Declared)
    → parked_tools (park new_id n run_id step_id required actions)
      ≡ select (λ t. member t required) (tools actions)
unfolding park
parked_tools-park new_id n run_id step_id required [] = refl
parked_tools-park new_id n run_id step_id required (toolless v ∷ rest) =
    parked_tools-park new_id n run_id step_id required rest
parked_tools-park new_id n run_id step_id required (call tool args ∷ rest) = ground (
  arith,
  parked_tools-park new_id (n + 1) run_id step_id required rest,
  parked_tools-park new_id n run_id step_id required rest,
)

tools-split :
    (declared : List String) (actions : List Declared)
    → (tools (split declared actions).0 ≡ select (λ t. member t declared) (tools actions))
      × (struck_tools (split declared actions).1
          ≡ select (λ t. not (member t declared)) (tools actions))
unfolding split
tools-split declared [] = (refl, refl)
tools-split declared (toolless v ∷ rest) = tools-split declared rest
tools-split declared (call tool args ∷ rest) = ground (arith, tools-split declared rest)

all_selected : (names : List String) → select (λ t. true) names ≡ names
all_selected [] = refl
all_selected (n ∷ names) = ap (◌∷◌ n) (all_selected names)

none_selected : (names : List String) → select (λ t. false) names ≡ []
none_selected [] = refl
none_selected (n ∷ names) = none_selected names

-- The scope check loses nothing: the tools of the actions that it keeps are, in order, those that
-- are in scope, and the tools that it reports are, in order, the others. With no declared tools
-- every tool is in scope.
tools-check_tool_scope :
    (output : StepOutput) (declared : List String)
    → (tools_of (check_tool_scope output declared).0.actions
        ≡ select (in_scope declared) (tools_of output.actions))
      × (struck_tools (check_tool_scope output declared).1
          ≡ select (λ t. not (in_scope declared t)) (tools_of output.actions))
unfolding check_tool_scope
tools-check_tool_scope output declared =
    go declared output.actions output.parked_actions output.others
  where
    go :
        (ds : List String) (actions : Option (List Declared)) (parked : Option (List String))
        (o : String)
        → let out : StepOutput = record {
          actions = actions;
          parked_actions = parked;
          others = o;
        } in
          (tools_of (check_tool_scope out ds).0.actions ≡ select (in_scope ds) (tools_of actions))
          × (struck_tools (check_tool_scope out ds).1
              ≡ select (λ t. not (in_scope ds t)) (tools_of actions))
    go ds none parked o = (refl, refl)
    go ds (some []) parked o = (refl, refl)
    go [] (some (a ∷ rest)) parked o =
        (sym (all_selected (tools (a ∷ rest))), sym (none_selected (tools (a ∷ rest))))
    go (d ∷ ds) (some (a ∷ rest)) parked o = tools-split (d ∷ ds) (a ∷ rest)

select-select :
    (p q : String → Bool) (names : List String)
    → select p (select q names) ≡ select (λ t. q t && p t) names
select-select p q [] = refl
select-select p q (n ∷ names) = ground (arith, select-select p q names)

-- When the scope check is followed by the approval gate, the tools of the parked actions are, in
-- order, those of the step's actions that are in scope and on the approval list.
pub parked_tools-enforce_trust :
    (new_id : ℕ → String) (output : StepOutput) (run_id step_id : String)
    (declared required : List String)
    → parked_tools
        (enforce_trust new_id (check_tool_scope output declared).0 run_id step_id required).1
      ≡ select (λ t. in_scope declared t && member t required) (tools_of output.actions)
unfolding enforce_trust
parked_tools-enforce_trust new_id output run_id step_id declared required =
    of_actions (check_tool_scope output declared).0.actions
    ∙ ap (select (λ t. member t required)) (tools-check_tool_scope output declared).0
    ∙ select-select (λ t. member t required) (in_scope declared) (tools_of output.actions)
  where
    of_actions :
        (actions : Option (List Declared))
        → parked_tools
            (parked_from new_id run_id step_id required
              (check_tool_scope output declared).0
              actions).1
          ≡ select (λ t. member t required) (tools_of actions)
    of_actions none = refl
    of_actions (some actions) = parked_tools-park new_id 0 run_id step_id required actions
