-- ===== src/Subagent/Checklist.antt =====
-- xibi/subagent/checklist.py: `execute_checklist`, the loop over a run's steps. The database is
-- taken to answer, and a step's schema to be a valid one. The prompt's text, the fetched inputs, spans and notifications are left out.
use xibi.Base.{
  ℕ, ◌+◌, ◌-◌, Bool, true, false, not, Option, none, some, List, [], ◌∷◌, ◌++◌, String, leb,
  if◌then◌else◌, length,
}
use xibi.ActionGate.{StepOutput, check_tool_scope, enforce_trust}
use xibi.Subagent.{
  RunStatus, spawned, running, completing, failed, timeout, cancelled, SubagentRun, StepStatus,
  empty_output, step_running, step_done, step_failed, ChecklistStep, CostEvent, Tables, update_run,
  get_run, update_step, get_steps, create_l2_actions, create_cost_events,
}

-- A model's answer, with its text parsed.
pub record Response : Type 0 where
  pub content : StepOutput
  pub input_tokens : ℕ
  pub output_tokens : ℕ
  pub cost : ℕ

-- What the loop uses of a step's configuration.
pub record StepConfig : Type 0 where
  pub skill_name : String
  pub declared_tools : List String
  pub has_schema : Bool

-- What surrounds a run: the clock, whether a step's required tools could be fetched, what the model
-- answers at each attempt and to the corrective retry (`none` for an exception), whether an output
-- fits the step's schema, random ids, the list of tools that need approval, and the reasons with
-- which the run is cancelled just before a step is looked at, and while it runs.
pub record World : Type 0 where
  pub start : ℕ
  pub clock : ChecklistStep → ℕ
  pub fetches : ChecklistStep → Bool
  pub answers : ChecklistStep → ℕ → Option Response
  pub retry_answer : ChecklistStep → Option Response
  pub fits : ChecklistStep → StepOutput → Bool
  pub new_id : ChecklistStep → ℕ → String
  pub approval_required : List String
  pub cancels_before : ChecklistStep → Option String
  pub cancels_during : ChecklistStep → Option String

abbrev pub is_active : RunStatus → Bool
is_active spawned = true
is_active running = true
is_active _ = false

abbrev pub cancelled_row : String → SubagentRun → SubagentRun
cancelled_row reason row = record row { status = cancelled; cancelled_reason = some reason }

abbrev pub cancel_found : String → Option SubagentRun → Tables → Tables
cancel_found reason none t = t
cancel_found reason (some run) t =
    if is_active run.status then update_run (cancelled_row reason run) t else t

-- xibi/subagent/runtime.py
unfoldable pub cancel_subagent : String → String → Tables → Tables
unfolding get_run update_run
cancel_subagent run_id reason t = cancel_found reason (get_run run_id t) t

abbrev pub cancelling : Option String → String → Tables → Tables
cancelling none run_id t = t
cancelling (some reason) run_id t = cancel_subagent run_id reason t

-- The budget checks: true if one of them stops the run.
unfoldable pub over_budget : ℕ → SubagentRun → Bool
over_budget now run =
    if leb run.budget_max_calls run.actual_calls
    then true
    else if leb run.budget_max_cost run.actual_cost
    then true
    else elim run.started_at [ none ↦ false | some at ↦ leb run.budget_max_duration (now - at) ]

-- The attempts of the model call: at most three, until one answers.
abbrev pub first_answer : (ℕ → Option Response) → Option Response
first_answer answers = elim (answers 0) [
  | some r ↦ some r
  | none ↦ elim (answers 1) [ some r ↦ some r | none ↦ answers 2 ]
]

-- The output that is kept, and the answers that are paid for.
unfoldable pub validated :
    World → ChecklistStep → StepConfig → Response → StepOutput × List Response
validated w step cfg r =
    let out = (check_tool_scope r.content cfg.declared_tools).0 in
    if not cfg.has_schema
    then (out, r ∷ [])
    else if w.fits step out
    then (out, r ∷ [])
    else elim (w.retry_answer step) [
      | none ↦ (out, r ∷ [])
      | some again ↦ ((check_tool_scope again.content cfg.declared_tools).0, r ∷ again ∷ [])
    ]

abbrev pub total : (Response → ℕ) → List Response → ℕ
total f [] = 0
total f (r ∷ rs) = f r + total f rs

abbrev pub cost_events_of : String → String → List Response → List CostEvent
cost_events_of run_id step_id [] = []
cost_events_of run_id step_id (r ∷ rs) =
    record {
      run_id = run_id;
      step_id = step_id;
      input_tokens = r.input_tokens;
      output_tokens = r.output_tokens;
      cost = r.cost;
    }
    ∷ cost_events_of run_id step_id rs

abbrev pub charged : SubagentRun → List Response → SubagentRun
charged run rs = record run {
  actual_calls = run.actual_calls + length rs;
  actual_cost = run.actual_cost + total (λ r. r.cost) rs;
  actual_input_tokens = run.actual_input_tokens + total (λ r. r.input_tokens) rs;
  actual_output_tokens = run.actual_output_tokens + total (λ r. r.output_tokens) rs;
}

abbrev done_step : ChecklistStep → StepOutput → List Response → ChecklistStep
done_step step out rs = record step {
  status = step_done;
  output_data = out;
  input_tokens = total (λ r. r.input_tokens) rs;
  output_tokens = total (λ r. r.output_tokens) rs;
  cost = total (λ r. r.cost) rs;
}

-- What an executed step leaves: the run, the tables and, if it succeeded, its output.
pub record Executed : Type 0 where
  pub run : SubagentRun
  pub tables : Tables
  pub output : Option StepOutput

-- The end of a step that has an answer.
unfoldable pub succeed_step :
    World → ChecklistStep → StepConfig → SubagentRun → Response → Tables → Executed
unfolding validated
succeed_step w step cfg run r t =
    let (out, rs) = validated w step cfg r in
    let (clean, parked) = enforce_trust (w.new_id step) out run.id step.id w.approval_required in
    let run' = charged run rs in
    record {
      run = run';
      tables = update_run run' (
          create_cost_events (cost_events_of run.id step.id rs)
            (update_step (done_step step clean rs) (create_l2_actions parked t)));
      output = some clean;
    }

-- `except Exception`
abbrev pub fail_step : ChecklistStep → SubagentRun → Tables → Executed
fail_step step run t = record {
  run = record run { status = failed };
  tables = update_step (record step { status = step_failed }) t;
  output = none;
}

-- One step, from its status RUNNING on. The run may be cancelled while the model is at work.
unfoldable pub execute_step : World → ChecklistStep → StepConfig → SubagentRun → Tables → Executed
unfolding succeed_step
execute_step w step cfg run t =
    let begun = record step { status = step_running } in
    let t' = cancelling (w.cancels_during step) run.id (update_step begun t) in
    if w.fetches step
    then elim (first_answer (w.answers step)) [
      | none ↦ fail_step begun run t'
      | some r ↦ succeed_step w begun cfg run r t'
    ]
    else fail_step begun run t'

-- The row says that the run is cancelled, and why.
abbrev pub cancellation : Option SubagentRun → Option (Option String)
cancellation none = none
cancellation (some row) = elim row.status [ cancelled ↦ some row.cancelled_reason | _ ↦ none ]

-- What the loop leaves; `none` is the exception of a checklist longer than the run's steps.
abbrev pub Left : Type 0
Left = Option (SubagentRun × Tables × List StepOutput)

abbrev pub carry_on :
    (SubagentRun → Tables → List StepOutput → Left) → List StepOutput → Executed → Left
carry_on rest outputs e = elim e.output [
  | none ↦ some (e.run, e.tables, outputs)
  | some out ↦ rest e.run e.tables (outputs ++ (out ∷ []))
]

-- A step that is not done: the budgets, a cancellation, and the step itself.
abbrev pub attempt :
    World
    → ChecklistStep
    → StepConfig
    → SubagentRun
    → Tables
    → List StepOutput
    → (SubagentRun → Tables → List StepOutput → Left)
    → Left
attempt w step cfg run t outputs rest =
    if over_budget (w.clock step) run
    then some (record run { status = timeout }, t, outputs)
    else let t' = cancelling (w.cancels_before step) run.id t in
      elim (cancellation (get_run run.id t')) [
        | some reason ↦
            some (record run { status = cancelled; cancelled_reason = reason }, t', outputs)
        | none ↦ carry_on rest outputs (execute_step w step cfg run t')
      ]

abbrev pub is_done : StepStatus → Bool
is_done step_done = true
is_done _ = false

unfoldable pub run_steps :
    World → List StepConfig → List ChecklistStep → SubagentRun → Tables → List StepOutput → Left
unfolding execute_step over_budget
run_steps w [] steps run t outputs = some (run, t, outputs)
run_steps w (cfg ∷ cfgs) [] run t outputs = none
run_steps w (cfg ∷ cfgs) (step ∷ steps) run t outputs =
    let rest = run_steps w cfgs steps in
    if is_done step.status
    then rest run t (outputs ++ (step.output_data ∷ []))
    else attempt w step cfg run t outputs rest

abbrev last_output : List StepOutput → Option StepOutput
last_output [] = some empty_output
last_output (out ∷ []) = some out
last_output (out ∷ next ∷ rest) = last_output (next ∷ rest)

-- After the loop.
abbrev pub completed : ℕ → SubagentRun → List StepOutput → SubagentRun
completed now run outputs = elim run.status [
  | running ↦ record run {
    status = completing;
    output = last_output outputs;
    completed_at = some now;
  }
  | _ ↦ record run { completed_at = some now }
]

abbrev pub conclude : ℕ → Left → Option (SubagentRun × Tables)
conclude now none = none
conclude now (some (run, t, outputs)) =
    let run' = completed now run outputs in some (run', update_run run' t)

-- `execute_checklist`; `finish` is the time at its end.
unfoldable pub execute_checklist :
    World → ℕ → SubagentRun → List StepConfig → Tables → Option (SubagentRun × Tables)
unfolding run_steps get_steps
execute_checklist w finish run checklist t =
    let run' = record run { status = running; started_at = some w.start } in
    conclude finish (run_steps w checklist (get_steps run.id t) run' (update_run run' t) [])
