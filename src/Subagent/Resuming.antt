-- ===== src/Subagent/Resuming.antt =====
-- What a run of xibi/subagent/checklist.py does with the steps that an earlier run has done.
use xibi.Base.{◌≡◌, sym, ap, ◌∙◌, true, List, [], ◌∷◌, ◌++◌, map, length, all, arith, some, ℕ}
use mathlib.Core.List.{append-nil, append_assoc}
use xibi.ActionGate.{StepOutput}
use xibi.Subagent.{SubagentRun, ChecklistStep, Tables, get_steps, update_run, running}
use xibi.Subagent.Checklist.{StepConfig, World, run_steps, is_done, conclude, execute_checklist}

skip_done :
    (w : World) (cfgs rest_cfgs : List StepConfig) (steps rest_steps : List ChecklistStep)
    (run : SubagentRun) (t : Tables) (outputs : List StepOutput)
    → length cfgs ≡ length steps
    → all (λ s. is_done s.status) steps ≡ true
    → run_steps w (cfgs ++ rest_cfgs) (steps ++ rest_steps) run t outputs
      ≡ run_steps w rest_cfgs rest_steps run t (outputs ++ map (λ s. s.output_data) steps)
unfolding run_steps
skip_done w [] rest_cfgs [] rest_steps run t outputs same done_all =
    ap (run_steps w rest_cfgs rest_steps run t) (sym (append-nil outputs))
skip_done w [] rest_cfgs (step ∷ steps) rest_steps run t outputs same done_all =
    absurd (omega (arith, same))
skip_done w (cfg ∷ cfgs) rest_cfgs [] rest_steps run t outputs same done_all =
    absurd (omega (arith, same))
skip_done w (cfg ∷ cfgs) rest_cfgs (step ∷ steps) rest_steps run t outputs same done_all =
    let h : (is_done step.status ≡ true) × (all (λ s. is_done s.status) steps ≡ true) =
      ground (arith, done_all) in
    let next =
      skip_done w cfgs rest_cfgs steps rest_steps run t (outputs ++ (step.output_data ∷ []))
        (omega (arith, same)) h.1 in
    rw h.0 (
      next
      ∙ ap (run_steps w rest_cfgs rest_steps run t)
          (append_assoc outputs (step.output_data ∷ []) (map (λ s. s.output_data) steps)))

-- A run is resumed where it stopped: `execute_checklist` on a run whose first steps are DONE does what
-- its loop does on the other steps alone, with the stored outputs of those steps before theirs.
pub execute_checklist-resumes :
    (w : World) (finish : ℕ) (run : SubagentRun) (cfgs rest_cfgs : List StepConfig) (t : Tables)
    (steps rest_steps : List ChecklistStep)
    → get_steps run.id t ≡ steps ++ rest_steps
    → length cfgs ≡ length steps
    → all (λ s. is_done s.status) steps ≡ true
    → let begun : SubagentRun = record run { status = running; started_at = some w.start } in
      execute_checklist w finish run (cfgs ++ rest_cfgs) t
      ≡ conclude finish (
          run_steps w rest_cfgs rest_steps begun
            (update_run begun t)
            (map (λ s. s.output_data) steps))
unfolding execute_checklist
execute_checklist-resumes w finish run cfgs rest_cfgs t steps rest_steps found same done_all =
    let begun : SubagentRun = record run { status = running; started_at = some w.start } in
    let t' = update_run begun t in
    ap (λ ss. conclude finish (run_steps w (cfgs ++ rest_cfgs) ss begun t' [])) found
    ∙ ap (conclude finish) (skip_done w cfgs rest_cfgs steps rest_steps begun t' [] same done_all)
