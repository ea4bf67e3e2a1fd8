-- ===== src/Subagent/Loop.antt =====
-- What the loop of `execute_checklist` in xibi/subagent/checklist.py keeps.
use xibi.Base.{
  ℕ, ◌≡◌, refl, inl, inr, Bool, true, false, Option, none, some, List, [], ◌∷◌, ◌++◌, String,
  Bool-cases, Option-cases,
}
use mathlib.Core.Path.{subst}
use mathlib.Core.Option.{some-injective, none-ne-some}
use xibi.ActionGate.{StepOutput}
use xibi.Subagent.{
  RunStatus, running, timeout, cancelled, SubagentRun, step_running, ChecklistStep, Tables,
  update_run, get_run, get_steps, update_step,
}
use xibi.Subagent.Checklist.{
  Response, StepConfig, World, cancelling, over_budget, first_answer, Executed, succeed_step,
  fail_step, execute_step, cancellation, Left, run_steps, completed, conclude, execute_checklist,
  attempt, carry_on, is_done,
}

-- An executed step fails or has an answer.
pub execute_step-cases :
    (w : World) (step : ChecklistStep) (cfg : StepConfig) (run : SubagentRun) (t : Tables)
    (Q : Executed → Type 0)
    → let begun : ChecklistStep = record step { status = step_running } in
      let t' : Tables = cancelling (w.cancels_during step) run.id (update_step begun t) in
      Q (fail_step begun run t')
      → ((r : Response) → Q (succeed_step w begun cfg run r t'))
      → Q (execute_step w step cfg run t)
unfolding execute_step
execute_step-cases w step cfg run t Q fails succeeds = elim (Bool-cases (w.fetches step)) [
  | inl fetched ↦ elim (Option-cases (first_answer (w.answers step))) [
    | inl e ↦ rw (fetched, e) fails
    | inr (r, e) ↦ rw (fetched, e) (succeeds r)
  ]
  | inr not_fetched ↦ rw not_fetched fails
]

-- The statuses with which the loop stops a run before a step.
abbrev pub is_stop : RunStatus → Bool
is_stop timeout = true
is_stop cancelled = true
is_stop _ = false

-- A property of what the loop leaves.
abbrev Holds : (SubagentRun → Tables → Type 0) → Left → Type 0
Holds P none = Unit
Holds P (some (run, t, outputs)) = P run t

module _ (w : World) (P : SubagentRun → Tables → Type 0)
    (stops : (run : SubagentRun) (t : Tables) (s : RunStatus) (reason : Option String)
      → is_stop s ≡ true
      → P run t
      → P (record run { status = s; cancelled_reason = reason }) t)
    (cancels : (run : SubagentRun) (t : Tables) (o : Option String)
      → P run t
      → P run (cancelling o run.id t))
    (executes : (step : ChecklistStep) (cfg : StepConfig) (run : SubagentRun) (t : Tables)
      → over_budget (w.clock step) run ≡ false
      → P run t
      → P (execute_step w step cfg run t).run (execute_step w step cfg run t).tables) where
  carry_on-Holds :
      (rest : SubagentRun → Tables → List StepOutput → Left) (outputs : List StepOutput)
      (e : Executed)
      → P e.run e.tables
      → ((run : SubagentRun) (t : Tables) (os : List StepOutput)
          → P run t
          → Holds P (rest run t os))
      → Holds P (carry_on rest outputs e)
  carry_on-Holds rest outputs e p next = elim (Option-cases e.output) [
    | inl h ↦ rw h p
    | inr (out, h) ↦ rw h (next e.run e.tables (outputs ++ (out ∷ [])) p)
  ]

  attempt-Holds :
      (step : ChecklistStep) (cfg : StepConfig) (run : SubagentRun) (t : Tables)
      (outputs : List StepOutput) (rest : SubagentRun → Tables → List StepOutput → Left)
      → P run t
      → ((r : SubagentRun) (t' : Tables) (os : List StepOutput) → P r t' → Holds P (rest r t' os))
      → Holds P (attempt w step cfg run t outputs rest)
  attempt-Holds step cfg run t outputs rest p next =
      elim (Bool-cases (over_budget (w.clock step) run)) [
        | inl over ↦ rw over (stops run t timeout run.cancelled_reason refl p)
        | inr within ↦
            let t' = cancelling (w.cancels_before step) run.id t in
            let p' = cancels run t (w.cancels_before step) p in
            elim (Option-cases (cancellation (get_run run.id t'))) [
              | inl none_yet ↦
                  rw (within, none_yet)
                    (carry_on-Holds rest outputs (execute_step w step cfg run t')
                      (executes step cfg run t' within p') next)
              | inr (reason, e) ↦ rw (within, e) (stops run t' cancelled reason refl p')
            ]
      ]

  run_steps-Holds :
      (cfgs : List StepConfig) (steps : List ChecklistStep) (run : SubagentRun) (t : Tables)
      (outputs : List StepOutput)
      → P run t
      → Holds P (run_steps w cfgs steps run t outputs)
  unfolding run_steps
  run_steps-Holds [] steps run t outputs p = p
  run_steps-Holds (cfg ∷ cfgs) [] run t outputs p = tt
  run_steps-Holds (cfg ∷ cfgs) (step ∷ steps) run t outputs p =
      elim (Bool-cases (is_done step.status)) [
        | inl h ↦ rw h (run_steps-Holds cfgs steps run t (outputs ++ (step.output_data ∷ [])) p)
        | inr h ↦ rw h (
            attempt-Holds step cfg run t outputs (run_steps w cfgs steps) p
              (λ r t' os q. run_steps-Holds cfgs steps r t' os q))
      ]

  -- And what is left after the loop.
  pub execute_checklist-Holds :
      (Q : SubagentRun → Tables → Type 0)
      (concludes : (now : ℕ) (run : SubagentRun) (t : Tables) (outputs : List StepOutput)
        → P run t
        → Q (completed now run outputs) (update_run (completed now run outputs) t))
      (finish : ℕ) (run : SubagentRun) (checklist : List StepConfig) (t : Tables)
      (run' : SubagentRun) (t' : Tables)
      → P
          (record run { status = running; started_at = some w.start })
          (update_run (record run { status = running; started_at = some w.start }) t)
      → execute_checklist w finish run checklist t ≡ some (run', t')
      → Q run' t'
  unfolding execute_checklist
  execute_checklist-Holds Q concludes finish run checklist t run' t' p e =
      let begun : SubagentRun = record run { status = running; started_at = some w.start } in
      concluded (run_steps w checklist (get_steps run.id t) begun (update_run begun t) [])
        (run_steps-Holds checklist (get_steps run.id t) begun (update_run begun t) [] p) e
    where
      concluded : (l : Left) → Holds P l → conclude finish l ≡ some (run', t') → Q run' t'
      concluded none p e = absurd (none-ne-some _ e)
      concluded (some (r, u, outputs)) p e =
          subst (λ o. Q o.0 o.1) (some-injective _ _ e) (concludes finish r u outputs p)
