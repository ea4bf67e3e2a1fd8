-- ===== src/Subagent/Runtime.antt =====
-- xibi/subagent/runtime.py: `spawn_subagent` and `resume_run`. What the registry, the input's and
-- the configuration's checks and the budget come to is a parameter, and so is whether the summary
-- and the presentation file can be made; their text is left out.
use xibi.Base.{ℕ, suc, Bool, true, false, Option, none, some, List, [], ◌∷◌, String, if◌then◌else◌}
use xibi.Subagent.{
  RunStatus, spawned, running, completing, done, failed, SubagentRun, pending, empty_output,
  ChecklistStep, Tables, create_run, update_run, get_run, create_step,
}
use xibi.Subagent.Checklist.{StepConfig, World, execute_checklist}

-- What is found before the run is created. The budget has its defaults filled in.
pub record Prepared : Type 0 where
  pub checklist : List StepConfig
  pub max_calls : ℕ
  pub max_cost : ℕ
  pub max_duration : ℕ
  pub output_ttl_hours : ℕ

-- A new run with a status, a budget and a time to live.
abbrev pub new_run : String → RunStatus → ℕ → ℕ → ℕ → ℕ → SubagentRun
new_run id status calls cost duration ttl = record {
  id = id;
  status = status;
  output = none;
  started_at = none;
  completed_at = none;
  cancelled_reason = none;
  budget_max_calls = calls;
  budget_max_cost = cost;
  budget_max_duration = duration;
  actual_calls = 0;
  actual_cost = 0;
  actual_input_tokens = 0;
  actual_output_tokens = 0;
  output_ttl_hours = ttl;
}

abbrev pub spawned_run : String → Prepared → SubagentRun
spawned_run id p = new_run id spawned p.max_calls p.max_cost p.max_duration p.output_ttl_hours

-- The run that is recorded when it cannot be prepared.
abbrev pub failed_run : String → SubagentRun
failed_run id = new_run id failed 0 0 0 0

abbrev pub new_step : String → String → ℕ → StepConfig → ChecklistStep
new_step id run_id order cfg = record {
  id = id;
  run_id = run_id;
  step_order = order;
  skill_name = cfg.skill_name;
  status = pending;
  output_data = empty_output;
  input_tokens = 0;
  output_tokens = 0;
  cost = 0;
}

-- The rows of the steps from number `i` on.
abbrev pub create_steps : (ℕ → String) → String → ℕ → List StepConfig → Tables → Tables
create_steps step_id run_id i [] t = t
create_steps step_id run_id i (cfg ∷ cfgs) t =
    create_steps step_id run_id (suc i) cfgs
      (create_step (new_step (step_id i) run_id (suc i) cfg) t)

-- The end of a run whose checklist is complete, with its summary made or not.
abbrev pub summarize_as :
    RunStatus → (SubagentRun → Bool) → SubagentRun → Tables → SubagentRun × Tables
summarize_as completing summary_made run t =
    let run' : SubagentRun = record run { status = if summary_made run then done else failed } in
    (run', update_run run' t)
summarize_as _ summary_made run t = (run, t)

abbrev pub summarize : (SubagentRun → Bool) → SubagentRun × Tables → SubagentRun × Tables
summarize summary_made (run, t) = summarize_as run.status summary_made run t

abbrev pub summarize_left :
    (SubagentRun → Bool) → Option (SubagentRun × Tables) → Option (SubagentRun × Tables)
summarize_left summary_made none = none
summarize_left summary_made (some left) = some (summarize summary_made left)

-- The run's id is new. `none` stands for an exception of `execute_checklist`.
unfoldable pub spawn_subagent :
    World
    → ℕ
    → (SubagentRun → Bool)
    → String
    → (ℕ → String)
    → Option Prepared
    → Tables
    → Option (SubagentRun × Tables)
unfolding execute_checklist create_step
spawn_subagent w finish summary_made run_id step_id none t =
    some (failed_run run_id, create_run (failed_run run_id) t)
spawn_subagent w finish summary_made run_id step_id (some p) t =
    let run = spawned_run run_id p in
    let t' = create_steps step_id run_id 0 p.checklist (create_run run t) in
    summarize_left summary_made (execute_checklist w finish run p.checklist t')

abbrev pub is_resumed : RunStatus → Bool
is_resumed done = false
is_resumed running = false
is_resumed _ = true

abbrev resume_found :
    World
    → ℕ
    → (SubagentRun → Bool)
    → List StepConfig
    → Tables
    → Option SubagentRun
    → Option (SubagentRun × Tables)
resume_found w finish summary_made checklist t none = none
resume_found w finish summary_made checklist t (some run) =
    if is_resumed run.status
    then summarize_left summary_made (execute_checklist w finish run checklist t)
    else some (run, t)

-- `none` stands for an unknown run, and for an exception of `execute_checklist`.
unfoldable pub resume_run :
    World
    → ℕ
    → (SubagentRun → Bool)
    → String
    → List StepConfig
    → Tables
    → Option (SubagentRun × Tables)
unfolding get_run execute_checklist
resume_run w finish summary_made run_id checklist t =
    resume_found w finish summary_made checklist t (get_run run_id t)
