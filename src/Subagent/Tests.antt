-- ===== src/Subagent/Tests.antt =====
-- Concrete runs.
use xibi.Base.{
  ℕ, zero, suc, ◌≤◌, ◌≡◌, refl, true, false, Option, none, some, [], ◌∷◌, ◌++◌, String, ◌==◌, arith,
  if◌then◌else◌, length,
}
use xibi.ActionGate.{StepOutput}
use xibi.Subagent.{
  spawned, running, completing, failed, SubagentRun, step_done, ChecklistStep, Tables, create_run,
  create_step, update_run, get_run, get_steps, create_cost_events, update_step, create_l2_actions,
}
use xibi.Subagent.Checklist.{
  Response, StepConfig, World, execute_checklist, run_steps, conclude, cancel_subagent,
}
use xibi.Subagent.Cancelling.{undisturbed, execute_checklist-undisturbed}
use xibi.Subagent.Accounts.{actual_calls-bounded, IsBalanced, cost_events-balance}
use xibi.Subagent.Runtime.{Prepared, new_run, create_steps, new_step, spawn_subagent}
use xibi.Subagent.Settling.{IsSettled}
use xibi.Subagent.{cleanup_expired_runs, done}
use xibi.Subagent.Returning.{Returns, spawn_subagent-IsSettled}
use xibi.Subagent.Resuming.{execute_checklist-resumes}

abbrev answer : StepOutput
answer = record { actions = none; parked_actions = none; others = "{\"verdict\": \"fit\"}" }

abbrev response : Response
response = record { content = answer; input_tokens = 10; output_tokens = 5; cost = 7 }

-- The first attempt of each step fails; the first step is cancelled while it is at work.
abbrev world : World
world = record {
  start = 100;
  clock = λ step. 110;
  fetches = λ step. true;
  answers = λ step n. elim n [ zero ↦ none | suc m ↦ some response ];
  retry_answer = λ step. none;
  fits = λ step out. false;
  new_id = λ step n. "action";
  approval_required = [];
  cancels_before = λ step. none;
  cancels_during = λ step. if step.id == "s1" then some "User cancelled" else none;
}

abbrev cfg : StepConfig
cfg = record { skill_name = "research"; declared_tools = []; has_schema = true }

abbrev run : SubagentRun
run = new_run "r" spawned 5 1000 600 0

abbrev step_ids : ℕ → String
step_ids n = elim n [ zero ↦ "s1" | suc m ↦ "s2" ]

abbrev no_tables : Tables
no_tables = record { runs = []; steps = []; pending_actions = []; cost_events = [] }

abbrev tables : Tables
tables = create_steps step_ids "r" 0 (cfg ∷ cfg ∷ []) (create_run run no_tables)

abbrev left_of : Option (SubagentRun × Tables) → SubagentRun × Tables
left_of none = (run, no_tables)
left_of (some left) = left

abbrev left : SubagentRun × Tables
left = left_of (execute_checklist world 120 run (cfg ∷ cfg ∷ []) tables)

executed : execute_checklist world 120 run (cfg ∷ cfg ∷ []) tables ≡ some (left.0, left.1)
unfolding execute_checklist create_step get_run update_run create_cost_events update_step
    create_l2_actions cancel_subagent
executed = refl

-- The run goes on, and its row says so.
goes_on : (left.0.status ≡ completing) × (left.0.actual_calls ≡ 2) × (left.0.actual_cost ≡ 14)
unfolding execute_checklist create_step get_run update_run create_cost_events update_step
    create_l2_actions cancel_subagent
goes_on = (refl, refl, refl)

execute_checklist-undisturbed_example :
    execute_checklist world 120 run (cfg ∷ cfg ∷ []) tables
    ≡ execute_checklist (undisturbed world) 120 run (cfg ∷ cfg ∷ []) tables
execute_checklist-undisturbed_example =
    execute_checklist-undisturbed world 120 run (cfg ∷ cfg ∷ []) tables

actual_calls-bounded_example : left.0.actual_calls ≤ 6
actual_calls-bounded_example =
    actual_calls-bounded world 120 run (cfg ∷ cfg ∷ []) tables left.0 left.1 6 (omega arith)
      (omega arith) executed

balanced : IsBalanced run tables
unfolding create_step
balanced = (refl, refl)

cost_events-balance_example : IsBalanced left.0 left.1
cost_events-balance_example =
    cost_events-balance world 120 run (cfg ∷ cfg ∷ []) tables left.0 left.1 balanced executed

abbrev prepared : Prepared
prepared = record {
  checklist = cfg ∷ [];
  max_calls = 5;
  max_cost = 1000;
  max_duration = 600;
  output_ttl_hours = 24;
}

spawn_subagent-IsSettled_example :
    Returns
      (IsSettled "r")
      (spawn_subagent world 120 (λ r. true) "r" step_ids (some prepared) no_tables)
spawn_subagent-IsSettled_example =
    spawn_subagent-IsSettled world 120 (λ r. true) "r" step_ids (some prepared) no_tables

abbrev failed_before : SubagentRun
failed_before = new_run "r" failed 5 1000 600 0

abbrev done_before : ChecklistStep
done_before = record (new_step "s1" "r" 1 cfg) { status = step_done; output_data = answer }

-- A run that failed at its second step.
abbrev interrupted : Tables
interrupted =
    create_step (new_step "s2" "r" 2 cfg)
      (create_step done_before (create_run failed_before no_tables))

found : get_run "r" interrupted ≡ some failed_before
unfolding get_run create_step
found = refl

found_steps : get_steps "r" interrupted ≡ (done_before ∷ []) ++ (new_step "s2" "r" 2 cfg ∷ [])
unfolding get_steps create_step
found_steps = refl

two_steps : length {A = StepConfig} (cfg ∷ cfg ∷ []) ≤ length (get_steps "r" interrupted)
unfolding get_steps create_step
two_steps = omega arith

execute_checklist-resumes_example :
    execute_checklist world 120 failed_before (cfg ∷ cfg ∷ []) interrupted
    ≡ conclude 120 (
        run_steps world
          (cfg ∷ [])
          (new_step "s2" "r" 2 cfg ∷ [])
          (record failed_before { status = running; started_at = some 100 })
          (update_run
            (record failed_before { status = running; started_at = some 100 })
            interrupted)
          (answer ∷ []))
execute_checklist-resumes_example =
    execute_checklist-resumes world 120 failed_before (cfg ∷ []) (cfg ∷ []) interrupted
      (done_before ∷ []) (new_step "s2" "r" 2 cfg ∷ []) found_steps refl refl

-- A run whose hour is over, and one that stays.
abbrev mixed : Tables
mixed = record {
  runs =
      ("r", record (new_run "r" done 5 1000 600 1) { completed_at = some 100 })
      ∷ ("q", new_run "q" running 5 1000 600 1)
      ∷ [];
  steps = new_step "s1" "r" 1 cfg ∷ new_step "s2" "q" 1 cfg ∷ [];
  pending_actions = [];
  cost_events = [];
}

deleted : (cleanup_expired_runs 4000 mixed).0 ≡ 1
unfolding cleanup_expired_runs
deleted = refl
