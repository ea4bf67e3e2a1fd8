-- ===== src/Subagent/Accounts.antt =====
-- Budgets and costs over a run of xibi/subagent/checklist.py.
use xibi.Base.{
  ℕ, suc, ◌+◌, ◌≤◌, ◌<◌, ◌≡◌, refl, ap, ◌∙◌, false, Option, none, some, List, [], ◌∷◌, ◌++◌, String,
  ◌==◌, eq_refl, arith, if◌then◌else◌, length, lookup,
}
use xibi.ActionGate.{StepOutput}
use xibi.Subagent.{
  SubagentRun, step_running, ChecklistStep, CostEvent, Tables, update_run, get_run, keyed,
  update_step, create_l2_actions, create_cost_events,
}
use xibi.Subagent.Checklist.{
  Response, StepConfig, World, cancel_subagent, cancelling, over_budget, validated, total,
  cost_events_of, succeed_step, execute_step, completed, execute_checklist, cancel_found,
}
use xibi.Subagent.Loop.{execute_step-cases, execute_checklist-Holds}

length-validated :
    (w : World) (step : ChecklistStep) (cfg : StepConfig) (r : Response)
    → length (validated w step cfg r).1 ≤ 2
unfolding validated
length-validated w step cfg r = ground arith

-- The calls of a run whose limit is `limit`, as long as each step starts below it.
abbrev CallsBounded : ℕ → ℕ → SubagentRun → Tables → Type 0
CallsBounded limit most run t = (run.budget_max_calls ≡ limit) × (run.actual_calls ≤ most)

under_limit :
    (now : ℕ) (run : SubagentRun)
    → over_budget now run ≡ false
    → run.actual_calls < run.budget_max_calls
unfolding over_budget
under_limit now run h = ground arith

execute_step-CallsBounded :
    (w : World) (limit most : ℕ) (step : ChecklistStep) (cfg : StepConfig) (run : SubagentRun)
    (t : Tables)
    → suc limit ≤ most
    → over_budget (w.clock step) run ≡ false
    → CallsBounded limit most run t
    → CallsBounded limit most
        (execute_step w step cfg run t).run
        (execute_step w step cfg run t).tables
unfolding execute_step succeed_step
execute_step-CallsBounded w limit most step cfg run t room within bounded =
    execute_step-cases w step cfg run t (λ e. CallsBounded limit most e.run e.tables) bounded
      (λ r. (
        bounded.0,
        omega (
          arith,
          under_limit (w.clock step) run within,
          length-validated w (record step { status = step_running }) cfg r,
        ),
      ))

cancelling-events :
    (o : Option String) (id : String) (t : Tables) → (cancelling o id t).cost_events ≡ t.cost_events
unfolding cancel_subagent update_run get_run
cancelling-events none id t = refl
cancelling-events (some reason) id t = found (keyed id (lookup id t.runs))
  where
    found : (row : Option SubagentRun) → (cancel_found reason row t).cost_events ≡ t.cost_events
    found none = refl
    found (some row) = ground arith

-- However the model answers and whatever is cancelled, a run makes at most one call more than its
-- budget allows, failed attempts not counted, unless it had made more before.
pub actual_calls-bounded :
    (w : World) (finish : ℕ) (run : SubagentRun) (checklist : List StepConfig) (t : Tables)
    (run' : SubagentRun) (t' : Tables) (most : ℕ)
    → run.actual_calls ≤ most
    → run.budget_max_calls < most
    → execute_checklist w finish run checklist t ≡ some (run', t')
    → run'.actual_calls ≤ most
actual_calls-bounded w finish run checklist t run' t' most before room e =
    let limit = run.budget_max_calls in
    (execute_checklist-Holds w (CallsBounded limit most) (λ run t s reason stop p. p)
      (λ run t o p. p)
      (λ step cfg run t within p.
        execute_step-CallsBounded w limit most step cfg run t room within p)
      (CallsBounded limit most) (λ now run t outputs p. completed-CallsBounded now run outputs p)
      finish run checklist t run' t' (refl, before) e).1
  where
    completed-CallsBounded :
        (now : ℕ) (r : SubagentRun) (outputs : List StepOutput)
        → CallsBounded run.budget_max_calls most r t
        → CallsBounded run.budget_max_calls most (completed now r outputs) t
    completed-CallsBounded now r outputs p = ground arith

-- The cost and the number of a run's cost events.
abbrev spent : String → List CostEvent → ℕ
spent id [] = 0
spent id (e ∷ es) = (if e.run_id == id then e.cost else 0) + spent id es

abbrev paid_calls : String → List CostEvent → ℕ
paid_calls id [] = 0
paid_calls id (e ∷ es) = (if e.run_id == id then 1 else 0) + paid_calls id es

abbrev pub IsBalanced : SubagentRun → Tables → Type 0
IsBalanced run t =
    (spent run.id t.cost_events ≡ run.actual_cost)
    × (paid_calls run.id t.cost_events ≡ run.actual_calls)

spent-append :
    (id : String) (xs ys : List CostEvent) → spent id (xs ++ ys) ≡ spent id xs + spent id ys
spent-append id [] ys = ground arith
spent-append id (x ∷ xs) ys = omega (arith, spent-append id xs ys)

paid_calls-append :
    (id : String) (xs ys : List CostEvent)
    → paid_calls id (xs ++ ys) ≡ paid_calls id xs + paid_calls id ys
paid_calls-append id [] ys = ground arith
paid_calls-append id (x ∷ xs) ys = omega (arith, paid_calls-append id xs ys)

spent-cost_events_of :
    (id step_id : String) (rs : List Response)
    → (spent id (cost_events_of id step_id rs) ≡ total (λ r. r.cost) rs)
      × (paid_calls id (cost_events_of id step_id rs) ≡ length rs)
spent-cost_events_of id step_id [] = (refl, refl)
spent-cost_events_of id step_id (r ∷ rs) =
    ground (arith, eq_refl id, spent-cost_events_of id step_id rs)

succeed_step-IsBalanced :
    (w : World) (step : ChecklistStep) (cfg : StepConfig) (run : SubagentRun) (r : Response)
    (t : Tables)
    → IsBalanced run t
    → IsBalanced (succeed_step w step cfg run r t).run (succeed_step w step cfg run r t).tables
unfolding succeed_step update_run create_cost_events update_step create_l2_actions
succeed_step-IsBalanced w step cfg run r t p =
    let (out, rs) = validated w step cfg r in
    let new = cost_events_of run.id step.id rs in
    ground (
      arith,
      spent-append run.id t.cost_events new,
      paid_calls-append run.id t.cost_events new,
      spent-cost_events_of run.id step.id rs,
    )

IsBalanced-same_events :
    (run : SubagentRun) (t t' : Tables)
    → t'.cost_events ≡ t.cost_events
    → IsBalanced run t
    → IsBalanced run t'
IsBalanced-same_events run t t' e p = (ap (spent run.id) e ∙ p.0, ap (paid_calls run.id) e ∙ p.1)

execute_step-IsBalanced :
    (w : World) (step : ChecklistStep) (cfg : StepConfig) (run : SubagentRun) (t : Tables)
    → IsBalanced run t
    → IsBalanced (execute_step w step cfg run t).run (execute_step w step cfg run t).tables
unfolding update_step
execute_step-IsBalanced w step cfg run t p =
    let begun : ChecklistStep = record step { status = step_running } in
    let o = w.cancels_during step in
    let t' : Tables = cancelling o run.id (update_step begun t) in
    let p' = IsBalanced-same_events run t t' (cancelling-events o run.id (update_step begun t)) p in
    execute_step-cases w step cfg run t (λ e. IsBalanced e.run e.tables) p'
      (λ r. succeed_step-IsBalanced w begun cfg run r t' p')

completed-IsBalanced :
    (now : ℕ) (run : SubagentRun) (t : Tables) (outputs : List StepOutput)
    → IsBalanced run t
    → IsBalanced (completed now run outputs) (update_run (completed now run outputs) t)
unfolding update_run
completed-IsBalanced now run t outputs p = ground arith

-- The books stay balanced: if a run's counters of calls and cost agree with the cost events recorded
-- for it, they still do after `execute_checklist`, however the run ends.
pub cost_events-balance :
    (w : World) (finish : ℕ) (run : SubagentRun) (checklist : List StepConfig) (t : Tables)
    (run' : SubagentRun) (t' : Tables)
    → IsBalanced run t
    → execute_checklist w finish run checklist t ≡ some (run', t')
    → IsBalanced run' t'
unfolding update_run
cost_events-balance w finish run checklist t run' t' p e =
    execute_checklist-Holds w IsBalanced (λ run t s reason stop p. p)
      (λ run t o p.
        IsBalanced-same_events run t (cancelling o run.id t) (cancelling-events o run.id t) p)
      (λ step cfg run t within p. execute_step-IsBalanced w step cfg run t p) IsBalanced
      (λ now run t outputs p. completed-IsBalanced now run t outputs p) finish run checklist t run'
      t' p e
