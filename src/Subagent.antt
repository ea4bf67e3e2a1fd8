-- ===== src/Subagent.antt =====
-- xibi/subagent/models.py and db.py: a subagent's run, its steps, and the tables that hold them.
-- Costs are whole millionths of a dollar, times whole seconds. Columns that the modelled code only
-- passes on (the trigger, contexts, summaries, created_at) are left out.
pub mod Checklist
pub mod Loop
pub mod Cancelling
pub mod Accounts
pub mod Runtime
pub mod Settling
pub mod Returning
pub mod Resuming
pub mod Cleanup
mod Tests
use xibi.Base.{
  ℕ, ◌+◌, ◌*◌, Bool, true, false, not, ◌&&◌, Option, none, some, List, [], ◌∷◌, ◌++◌, String, ◌==◌,
  Dict, lookup, insert, ltb, if◌then◌else◌, select, member, length,
}
use xibi.ActionGate.{StepOutput, PendingL2Action}

pub data RunStatus : Type 0 where
  spawned running completing done failed timeout cancelled : RunStatus

pub record SubagentRun : Type 0 where
  pub id : String
  pub status : RunStatus
  pub output : Option StepOutput
  pub started_at : Option ℕ
  pub completed_at : Option ℕ
  pub cancelled_reason : Option String
  pub budget_max_calls : ℕ
  pub budget_max_cost : ℕ
  pub budget_max_duration : ℕ
  pub actual_calls : ℕ
  pub actual_cost : ℕ
  pub actual_input_tokens : ℕ
  pub actual_output_tokens : ℕ
  pub output_ttl_hours : ℕ

pub data StepStatus : Type 0 where
  pending step_running step_done step_failed skipped : StepStatus

-- `{}`
abbrev pub empty_output : StepOutput
empty_output = record { actions = none; parked_actions = none; others = "{}" }

pub record ChecklistStep : Type 0 where
  pub id : String
  pub run_id : String
  pub step_order : ℕ
  pub skill_name : String
  pub status : StepStatus
  pub output_data : StepOutput
  pub input_tokens : ℕ
  pub output_tokens : ℕ
  pub cost : ℕ

pub record CostEvent : Type 0 where
  pub run_id : String
  pub step_id : String
  pub input_tokens : ℕ
  pub output_tokens : ℕ
  pub cost : ℕ

pub record Tables : Type 0 where
  pub runs : Dict SubagentRun
  pub steps : List ChecklistStep
  pub pending_actions : List PendingL2Action
  pub cost_events : List CostEvent

abbrev pub create_run : SubagentRun → Tables → Tables
create_run run t = record t { runs = insert run.id run t.runs }

abbrev is_empty : StepOutput → Bool
is_empty o = elim o.actions [
  | some actions ↦ false
  | none ↦ elim o.parked_actions [ some parked ↦ false | none ↦ o.others == "{}" ]
]

-- `json.dumps(run.output) if run.output else None`
abbrev stored_output : Option StepOutput → Option StepOutput
stored_output none = none
stored_output (some o) = if is_empty o then none else some o

-- The columns that `update_run` sets.
abbrev pub updated : SubagentRun → SubagentRun → SubagentRun
updated run row = record row {
  status = run.status;
  output = stored_output run.output;
  started_at = run.started_at;
  completed_at = run.completed_at;
  cancelled_reason = run.cancelled_reason;
  actual_calls = run.actual_calls;
  actual_cost = run.actual_cost;
  actual_input_tokens = run.actual_input_tokens;
  actual_output_tokens = run.actual_output_tokens;
  output_ttl_hours = run.output_ttl_hours;
}

-- UPDATE ... WHERE id = ?
abbrev pub update_row : (SubagentRun → SubagentRun) → String → Dict SubagentRun → Dict SubagentRun
update_row change key [] = []
update_row change key ((k, row) ∷ rows) =
    (k, if k == key then change row else row) ∷ update_row change key rows

unfoldable pub update_run : SubagentRun → Tables → Tables
update_run run t = record t { runs = update_row (updated run) run.id t.runs }

-- A row's column `id` is its key.
abbrev pub keyed : String → Option SubagentRun → Option SubagentRun
keyed id none = none
keyed id (some row) = some (record row { id = id })

unfoldable pub get_run : String → Tables → Option SubagentRun
get_run run_id t = keyed run_id (lookup run_id t.runs)

unfoldable pub create_step : ChecklistStep → Tables → Tables
create_step step t = record t { steps = t.steps ++ (step ∷ []) }

abbrev replace_step : ChecklistStep → List ChecklistStep → List ChecklistStep
replace_step step [] = []
replace_step step (s ∷ rest) = (if s.id == step.id then step else s) ∷ replace_step step rest

unfoldable pub update_step : ChecklistStep → Tables → Tables
update_step step t = record t { steps = replace_step step t.steps }

-- Steps are created in the order of `step_order`, by which the query sorts them.
unfoldable pub get_steps : String → Tables → List ChecklistStep
get_steps run_id t = select (λ s. s.run_id == run_id) t.steps

unfoldable pub create_l2_actions : List PendingL2Action → Tables → Tables
create_l2_actions actions t = record t { pending_actions = t.pending_actions ++ actions }

unfoldable pub create_cost_events : List CostEvent → Tables → Tables
create_cost_events events t = record t { cost_events = t.cost_events ++ events }

-- `output_ttl_hours > 0 AND datetime(completed_at, '+h hours') < datetime('now')`
abbrev has_expired : ℕ → SubagentRun → Bool
has_expired now run = elim run.completed_at [
  | none ↦ false
  | some at ↦ ltb 0 run.output_ttl_hours && ltb (at + 3600 * run.output_ttl_hours) now
]

abbrev run_ids : Dict SubagentRun → List String
run_ids [] = []
run_ids ((k, run) ∷ rows) = k ∷ run_ids rows

abbrev pub expired_ids : ℕ → Dict SubagentRun → List String
expired_ids now rows = run_ids (select (λ (k, run). has_expired now run) rows)

unfoldable pub cleanup_expired_runs : ℕ → Tables → ℕ × Tables
cleanup_expired_runs now t =
    let ids = expired_ids now t.runs in
    (
      length ids,
      record t {
        cost_events = select (λ e. not (member e.run_id ids)) t.cost_events;
        steps = select (λ s. not (member s.run_id ids)) t.steps;
        pending_actions = select (λ a. not (member a.run_id ids)) t.pending_actions;
        runs = select (λ (k, run). not (member k ids)) t.runs;
      },
    )
