-- ===== src/Subagent/Cancelling.antt =====
-- When a cancellation takes hold of a run in xibi/subagent/checklist.py.
use xibi.Base.{
  ℕ, ◌≡◌, refl, ap, ◌∙◌, inl, inr, Bool, true, false, Option, none, some, List, [], ◌∷◌, ◌++◌,
  String, ◌==◌, if◌then◌else◌, lookup, Bool-cases, Option-cases, Dict,
}
use xibi.ActionGate.{StepOutput}
use xibi.Subagent.{
  running, failed, SubagentRun, step_running, ChecklistStep, Tables, update_row, update_run,
  updated, get_run, keyed, get_steps, update_step, create_l2_actions, create_cost_events,
}
use xibi.Subagent.Checklist.{
  Response, StepConfig, World, cancelled_row, cancel_subagent, cancelling, over_budget,
  first_answer, validated, charged, succeed_step, fail_step, execute_step, cancellation, Left,
  run_steps, completed, conclude, execute_checklist, carry_on, is_done, cancel_found, is_active,
}

-- A write of the run's row overwrites what an earlier write of the run left there.
update_row-overwrites :
    (run other : SubagentRun) (id : String) (rows : Dict SubagentRun)
    → update_row (updated run) id (update_row (updated other) id rows)
      ≡ update_row (updated run) id rows
update_row-overwrites run other id [] = refl
update_row-overwrites run other id ((k, row) ∷ rows) = elim (Bool-cases (k == id)) [
  | inl e ↦ rw e (ap (◌∷◌ (k, updated run row)) (update_row-overwrites run other id rows))
  | inr e ↦ rw e (ap (◌∷◌ (k, row)) (update_row-overwrites run other id rows))
]

-- So a cancellation is lost when the run's row is written next, whatever else has been written.
cancelling-runs :
    (o : Option String) (run : SubagentRun) (t : Tables)
    → update_row (updated run) run.id (cancelling o run.id t).runs
      ≡ update_row (updated run) run.id t.runs
unfolding update_run cancel_subagent get_run
cancelling-runs none run t = refl
cancelling-runs (some reason) run t = found (lookup run.id t.runs)
  where
    active :
        (b : Bool) (row : SubagentRun)
        → update_row
            (updated run)
            run.id
            (if b then update_run (cancelled_row reason (record row { id = run.id })) t else t).runs
          ≡ update_row (updated run) run.id t.runs
    active true row =
        update_row-overwrites run (cancelled_row reason (record row { id = run.id })) run.id t.runs
    active false row = refl

    found :
        (row : Option SubagentRun)
        → update_row (updated run) run.id (cancel_found reason (keyed run.id row) t).runs
          ≡ update_row (updated run) run.id t.runs
    found none = refl
    found (some row) = active (is_active row.status) row

-- A cancellation touches the table of runs only.
cancelling-only_runs :
    (o : Option String) (id : String) (t : Tables)
    → cancelling o id t ≡ record t { runs = (cancelling o id t).runs }
unfolding update_run cancel_subagent get_run
cancelling-only_runs none id t = refl
cancelling-only_runs (some reason) id t = found (lookup id t.runs)
  where
    active :
        (b : Bool) (row : SubagentRun)
        → let t' : Tables = if b then update_run (cancelled_row reason row) t else t in
          t' ≡ record t { runs = t'.runs }
    active true row = refl
    active false row = refl

    found :
        (row : Option SubagentRun)
        → let t' : Tables = cancel_found reason (keyed id row) t in t' ≡ record t { runs = t'.runs }
    found none = refl
    found (some row) = active (is_active row.status) (record row { id = id })

succeed_step-cancelling :
    (w : World) (step : ChecklistStep) (cfg : StepConfig) (run : SubagentRun) (r : Response)
    (o : Option String) (t : Tables)
    → succeed_step w step cfg run r (cancelling o run.id t) ≡ succeed_step w step cfg run r t
unfolding succeed_step update_run create_cost_events update_step create_l2_actions
succeed_step-cancelling w step cfg run r o t =
    let (out, rs) = validated w step cfg r in
    let run' = charged run rs in
    let after = (succeed_step w step cfg run r t) in
    ap (succeed_step w step cfg run r) (cancelling-only_runs o run.id t)
    ∙ ap (λ rows. record after { tables = record after.tables { runs = rows } })
        (cancelling-runs o run' t)

-- The surroundings, with nobody cancelling a run while a step of it is at work.
abbrev pub undisturbed : World → World
undisturbed w = record w { cancels_during = λ step. none }

fail_step-cancelling :
    (now : ℕ) (step : ChecklistStep) (run : SubagentRun) (o : Option String) (t : Tables)
    (outputs : List StepOutput)
    → conclude now (
        some (
          (fail_step step run (cancelling o run.id t)).run,
          (fail_step step run (cancelling o run.id t)).tables,
          outputs,
        ))
      ≡ conclude now (some ((fail_step step run t).run, (fail_step step run t).tables, outputs))
unfolding update_run update_step
fail_step-cancelling now step run o t outputs =
    let final = completed now (record run { status = failed }) outputs in
    let end : Tables = (update_run final (fail_step step run t).tables) in
    ap
      (λ x.
        conclude now (some ((fail_step step run x).run, (fail_step step run x).tables, outputs)))
      (cancelling-only_runs o run.id t)
    ∙ ap (λ rows. some (final, record end { runs = rows })) (cancelling-runs o final t)

carry_on-cancelling :
    (w : World) (now : ℕ) (step : ChecklistStep) (cfg : StepConfig) (run : SubagentRun) (t : Tables)
    (outputs : List StepOutput) (rest rest' : SubagentRun → Tables → List StepOutput → Left)
    → ((r : SubagentRun) (u : Tables) (os : List StepOutput)
        → conclude now (rest r u os) ≡ conclude now (rest' r u os))
    → conclude now (carry_on rest outputs (execute_step w step cfg run t))
      ≡ conclude now (carry_on rest' outputs (execute_step (undisturbed w) step cfg run t))
unfolding execute_step
carry_on-cancelling w now step cfg run t outputs rest rest' same =
    let begun : ChecklistStep = record step { status = step_running } in
    let t' = update_step begun t in
    let o = w.cancels_during step in
    elim (Bool-cases (w.fetches step)) [
      | inr e ↦ rw e (fail_step-cancelling now begun run o t' outputs)
      | inl e ↦ elim (Option-cases (first_answer (w.answers step))) [
        | inl f ↦ rw (e, f) (fail_step-cancelling now begun run o t' outputs)
        | inr (r, f) ↦
            rw (e, f)
              (ap (λ x. conclude now (carry_on rest outputs x))
                  (succeed_step-cancelling w begun cfg run r o t')
                ∙ same _ _ _)
      ]
    ]

run_steps-cancelling :
    (w : World) (now : ℕ) (cfgs : List StepConfig) (steps : List ChecklistStep) (run : SubagentRun)
    (t : Tables) (outputs : List StepOutput)
    → conclude now (run_steps w cfgs steps run t outputs)
      ≡ conclude now (run_steps (undisturbed w) cfgs steps run t outputs)
unfolding run_steps
run_steps-cancelling w now [] steps run t outputs = refl
run_steps-cancelling w now (cfg ∷ cfgs) [] run t outputs = refl
run_steps-cancelling w now (cfg ∷ cfgs) (step ∷ steps) run t outputs =
    let next = run_steps-cancelling w now cfgs steps in
    elim (Bool-cases (is_done step.status)) [
      | inl e ↦ rw e (next run t (outputs ++ (step.output_data ∷ [])))
      | inr e ↦ elim (Bool-cases (over_budget (w.clock step) run)) [
        | inl over ↦ rw (e, over) refl
        | inr within ↦
            let t' = cancelling (w.cancels_before step) run.id t in
            elim (Option-cases (cancellation (get_run run.id t'))) [
              | inr (reason, f) ↦ rw (e, within, f) refl
              | inl f ↦
                  rw (e, within, f)
                    (carry_on-cancelling w now step cfg run t' outputs (run_steps w cfgs steps)
                      (run_steps (undisturbed w) cfgs steps) next)
            ]
      ]
    ]

-- A cancellation of the run that is made while a step of it is at work has no effect: in whichever
-- steps this happens, `execute_checklist` leaves the same run and the same tables as without it.
pub execute_checklist-undisturbed :
    (w : World) (finish : ℕ) (run : SubagentRun) (checklist : List StepConfig) (t : Tables)
    → execute_checklist w finish run checklist t
      ≡ execute_checklist (undisturbed w) finish run checklist t
unfolding execute_checklist
execute_checklist-undisturbed w finish run checklist t =
    let run' : SubagentRun = record run { status = running; started_at = some w.start } in
    run_steps-cancelling w finish checklist (get_steps run.id t) run' (update_run run' t) []
