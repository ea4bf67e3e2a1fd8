-- ===== src/Subagent/Returning.antt =====
-- That `spawn_subagent` and `resume_run` of xibi/subagent/runtime.py return, and with what.
use xibi.Base.{
  ℕ, suc, ◌+◌, ◌≤◌, ◌≡◌, refl, sym, ap, ◌∙◌, inl, inr, Bool, true, Option, none, some, List, [],
  ◌∷◌, ◌++◌, String, ◌==◌, eq_refl, arith, length, select, lookup, insert, lookup-insert,
  Bool-cases, Option-cases,
}
use mathlib.Core.Path.{subst}
use xibi.ActionGate.{StepOutput}
use xibi.Subagent.{
  running, SubagentRun, ChecklistStep, Tables, update_run, create_run, create_step, get_run, keyed,
  get_steps,
}
use xibi.Subagent.Checklist.{
  StepConfig, World, cancelling, over_budget, Executed, execute_step, cancellation, Left, run_steps,
  completed, conclude, execute_checklist, carry_on, is_done,
}
use xibi.Subagent.Runtime.{
  Prepared, spawned_run, failed_run, new_step, create_steps, summarize_left, spawn_subagent,
  is_resumed, resume_run,
}
use xibi.Subagent.Settling.{
  has_row, has_row-insert, status_of, IsSettled, execute_checklist-HasEnded, summarize-IsSettled,
  lookup-has_row,
}

-- A computation has a result with a property.
abbrev pub Returns {ℓ} : {A : Type ℓ} → (A → Type 0) → Option A → Type ℓ
Returns {A = A} P o = (a : A) × (o ≡ some a) × P a

carry_on-Returns :
    (rest : SubagentRun → Tables → List StepOutput → Left) (outputs : List StepOutput)
    (e : Executed)
    → ((run : SubagentRun) (t : Tables) (os : List StepOutput)
        → Returns (λ l. Unit) (rest run t os))
    → Returns (λ l. Unit) (carry_on rest outputs e)
carry_on-Returns rest outputs e next = elim (Option-cases e.output) [
  | inl h ↦ rw h (_, refl, tt)
  | inr (out, h) ↦ rw h (next e.run e.tables (outputs ++ (out ∷ [])))
]

-- With a step for each entry of the checklist, the loop leaves something.
run_steps-Returns :
    (w : World) (cfgs : List StepConfig) (steps : List ChecklistStep) (run : SubagentRun)
    (t : Tables) (outputs : List StepOutput)
    → length cfgs ≤ length steps
    → Returns (λ l. Unit) (run_steps w cfgs steps run t outputs)
unfolding run_steps
run_steps-Returns w [] steps run t outputs enough = (_, refl, tt)
run_steps-Returns w (cfg ∷ cfgs) [] run t outputs enough = absurd (omega (arith, enough))
run_steps-Returns w (cfg ∷ cfgs) (step ∷ steps) run t outputs enough =
    let next : (r : SubagentRun) (u : Tables) (os : List StepOutput)
        → Returns (λ l. Unit) (run_steps w cfgs steps r u os) =
      λ r u os. run_steps-Returns w cfgs steps r u os (omega (arith, enough)) in
    elim (Bool-cases (is_done step.status)) [
      | inl h ↦ rw h (next run t (outputs ++ (step.output_data ∷ [])))
      | inr h ↦ elim (Bool-cases (over_budget (w.clock step) run)) [
        | inl over ↦ rw (h, over) (_, refl, tt)
        | inr within ↦
            let t' = cancelling (w.cancels_before step) run.id t in
            elim (Option-cases (cancellation (get_run run.id t'))) [
              | inr (reason, f) ↦ rw (h, within, f) (_, refl, tt)
              | inl f ↦
                  rw (h, within, f)
                    (carry_on-Returns (run_steps w cfgs steps) outputs
                      (execute_step w step cfg run t') next)
            ]
      ]
    ]

summarize_left-Returns :
    (summary_made : SubagentRun → Bool) (w : World) (finish : ℕ) (run : SubagentRun)
    (checklist : List StepConfig) (t : Tables)
    → has_row run.id t.runs ≡ true
    → length checklist ≤ length (get_steps run.id t)
    → Returns
        (IsSettled run.id)
        (summarize_left summary_made (execute_checklist w finish run checklist t))
unfolding execute_checklist
summarize_left-Returns summary_made w finish run checklist t row enough =
    let begun : SubagentRun = record run { status = running; started_at = some w.start } in
    let (left, e, _) =
      run_steps-Returns w checklist (get_steps run.id t) begun (update_run begun t) [] enough in
    let final = completed finish left.0 left.2 in
    let e' = ap (conclude finish) e in
    let ended = execute_checklist-HasEnded w finish run checklist t _ _ row e' in
    (_, ap (summarize_left summary_made) e', summarize-IsSettled summary_made run.id _ _ ended)

create_steps-runs :
    (step_id : ℕ → String) (run_id : String) (i : ℕ) (cfgs : List StepConfig) (t : Tables)
    → (create_steps step_id run_id i cfgs t).runs ≡ t.runs
unfolding create_step
create_steps-runs step_id run_id i [] t = refl
create_steps-runs step_id run_id i (cfg ∷ cfgs) t =
    create_steps-runs step_id run_id (suc i) cfgs
      (create_step (new_step (step_id i) run_id (suc i) cfg) t)

length-select-append :
    (p : ChecklistStep → Bool) (xs : List ChecklistStep) (y : ChecklistStep)
    → p y ≡ true
    → length (select p (xs ++ (y ∷ []))) ≡ suc (length (select p xs))
length-select-append p [] y h = ground (arith, h)
length-select-append p (x ∷ xs) y h = ground (arith, h, length-select-append p xs y h)

-- Each entry of the checklist has a step of the run.
create_steps-enough :
    (step_id : ℕ → String) (run_id : String) (i : ℕ) (cfgs : List StepConfig) (t : Tables)
    → length cfgs ≤ length (get_steps run_id (create_steps step_id run_id i cfgs t))
unfolding create_step get_steps
create_steps-enough step_id run_id i cfgs t = omega (arith, counted i cfgs t)
  where
    counted :
        (i : ℕ) (cfgs : List StepConfig) (t : Tables)
        → length (get_steps run_id (create_steps step_id run_id i cfgs t))
          ≡ length cfgs + length (get_steps run_id t)
    counted i [] t = omega arith
    counted i (cfg ∷ cfgs) t =
        let step = new_step (step_id i) run_id (suc i) cfg in
        omega (
          arith,
          counted (suc i) cfgs (create_step step t),
          length-select-append (λ s. s.run_id == run_id) t.steps step (eq_refl run_id),
        )

-- `spawn_subagent` always returns, with a run that is DONE, FAILED, TIMEOUT or CANCELLED and whose
-- row has the same status, whatever the preparation, the model, the cancellations and the summary do.
pub spawn_subagent-IsSettled :
    (w : World) (finish : ℕ) (summary_made : SubagentRun → Bool) (run_id : String)
    (step_id : ℕ → String) (prepared : Option Prepared) (t : Tables)
    → Returns (IsSettled run_id) (spawn_subagent w finish summary_made run_id step_id prepared t)
unfolding spawn_subagent get_run
spawn_subagent-IsSettled w finish summary_made run_id step_id none t =
    let row : lookup run_id (insert run_id (failed_run run_id) t.runs) ≡ some (failed_run run_id) =
      rw (lookup-insert run_id run_id (failed_run run_id) t.runs, eq_refl run_id) refl in
    (_, refl, (refl, refl, ap (λ o. status_of (keyed run_id o)) row))
spawn_subagent-IsSettled w finish summary_made run_id step_id (some p) t =
    let run = spawned_run run_id p in
    let t' = create_run run t in
    let runs = create_steps-runs step_id run_id 0 p.checklist t' in
    summarize_left-Returns summary_made w finish run p.checklist
      (create_steps step_id run_id 0 p.checklist t')
      (ap (has_row run_id) runs ∙ has_row-insert run_id run t.runs)
      (create_steps-enough step_id run_id 0 p.checklist t')

keyed-found :
    (id : String) (o : Option SubagentRun) (run : SubagentRun)
    → keyed id o ≡ some run
    → (row : SubagentRun) × (o ≡ some row) × (run.id ≡ id)
keyed-found id none run h = ground arith
keyed-found id (some row) run h = (row, refl, sym (ap (λ o. id_of o) h))
  where
    id_of : Option SubagentRun → String
    id_of none = id
    id_of (some r) = r.id

-- A run that is neither DONE nor RUNNING, with a step for each entry of the checklist, is settled by
-- `resume_run`: it returns with a final status, which the run's row has too.
resume_run-IsSettled :
    (w : World) (finish : ℕ) (summary_made : SubagentRun → Bool) (run_id : String)
    (checklist : List StepConfig) (t : Tables) (run : SubagentRun)
    → get_run run_id t ≡ some run
    → is_resumed run.status ≡ true
    → length checklist ≤ length (get_steps run_id t)
    → Returns (IsSettled run_id) (resume_run w finish summary_made run_id checklist t)
unfolding resume_run get_run
resume_run-IsSettled w finish summary_made run_id checklist t run found resumed enough =
    let (row, e, same) = keyed-found run_id (lookup run_id t.runs) run found in
    let has = ap (λ i. has_row i t.runs) same ∙ lookup-has_row run_id t.runs row e in
    let (left, returned, settled) =
      summarize_left-Returns summary_made w finish run checklist t has
        (subst (λ i. length checklist ≤ length (get_steps i t)) (sym same) enough) in
    rw (found, resumed) (left, returned, subst (λ i. IsSettled i left) same settled)
