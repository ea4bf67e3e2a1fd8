-- ===== src/Subagent/Settling.antt =====
-- How the runs of xibi/subagent/runtime.py end.
use xibi.Base.{
  ℕ, ◌≡◌, refl, sym, ap, ◌∙◌, inl, inr, Bool, true, false, ◌||◌, Option, none, some, List, [], ◌∷◌,
  String, ◌==◌, eq_refl, arith, if◌then◌else◌, lookup, insert, Bool-cases, Dict,
}
use xibi.ActionGate.{StepOutput}
use xibi.Subagent.{
  RunStatus, spawned, running, completing, done, failed, timeout, cancelled, SubagentRun,
  step_running, ChecklistStep, Tables, update_row, update_run, updated, get_run, keyed, update_step,
  create_l2_actions, create_cost_events,
}
use xibi.Subagent.Checklist.{
  StepConfig, World, cancelled_row, cancel_subagent, cancelling, is_active, succeed_step,
  execute_step, completed, execute_checklist, cancel_found,
}
use xibi.Subagent.Loop.{is_stop, execute_step-cases, execute_checklist-Holds}
use xibi.Subagent.Runtime.{summarize_as, summarize}

-- A table has a row for a key.
abbrev pub has_row : String → Dict SubagentRun → Bool
has_row k [] = false
has_row k ((i, row) ∷ rows) = (i == k) || has_row k rows

has_row-update_row :
    (change : SubagentRun → SubagentRun) (j k : String) (rows : Dict SubagentRun)
    → has_row k (update_row change j rows) ≡ has_row k rows
has_row-update_row change j k [] = refl
has_row-update_row change j k ((i, row) ∷ rows) =
    ap (λ b. (i == k) || b) (has_row-update_row change j k rows)

has_row-cancelling :
    (o : Option String) (id k : String) (t : Tables)
    → has_row k (cancelling o id t).runs ≡ has_row k t.runs
unfolding update_run cancel_subagent get_run
has_row-cancelling none id k t = refl
has_row-cancelling (some reason) id k t = found (keyed id (lookup id t.runs))
  where
    found :
        (row : Option SubagentRun) → has_row k (cancel_found reason row t).runs ≡ has_row k t.runs
    found none = refl
    found (some row) = elim (Bool-cases (is_active row.status)) [
      | inl e ↦ rw e (has_row-update_row (updated (cancelled_row reason row)) row.id k t.runs)
      | inr e ↦ rw e refl
    ]

lookup-update_row :
    (change : SubagentRun → SubagentRun) (k : String) (rows : Dict SubagentRun)
    → has_row k rows ≡ true
    → (row : SubagentRun) × (lookup k (update_row change k rows) ≡ some (change row))
lookup-update_row change k [] h = ground arith
lookup-update_row change k ((i, row) ∷ rows) h = elim (Bool-cases (i == k)) [
  | inl e ↦ (row, rw e refl)
  | inr e ↦
      let (found, f) =
        lookup-update_row change k rows (sym (ap (λ b. b || has_row k rows) e) ∙ h) in
      (found, rw e f)
]

-- The status that the table has for a run.
abbrev pub status_of : Option SubagentRun → Option RunStatus
status_of none = none
status_of (some row) = some row.status

abbrev stored_status : String → Tables → Option RunStatus
stored_status id t = status_of (get_run id t)

stored_status-update_run :
    (run : SubagentRun) (t : Tables)
    → has_row run.id t.runs ≡ true
    → stored_status run.id (update_run run t) ≡ some run.status
unfolding get_run update_run
stored_status-update_run run t h =
    let (row, e) = lookup-update_row (updated run) run.id t.runs h in
    ap (λ o. status_of (keyed run.id o)) e

-- The statuses that a run has in the loop of `execute_checklist`, after it, and for good.
abbrev in_loop : RunStatus → Bool
in_loop running = true
in_loop failed = true
in_loop s = is_stop s

abbrev is_ended : RunStatus → Bool
is_ended completing = true
is_ended failed = true
is_ended s = is_stop s

abbrev is_terminal : RunStatus → Bool
is_terminal done = true
is_terminal failed = true
is_terminal s = is_stop s

abbrev InLoop : String → SubagentRun → Tables → Type 0
InLoop id run t = (run.id ≡ id) × (in_loop run.status ≡ true) × (has_row id t.runs ≡ true)

abbrev HasEnded : String → SubagentRun → Tables → Type 0
HasEnded id run t =
    (run.id ≡ id)
    × (is_ended run.status ≡ true)
    × (has_row id t.runs ≡ true)
    × (stored_status id t ≡ some run.status)

-- A run is settled: it has a status that lasts, which its row has too.
abbrev pub IsSettled : String → SubagentRun × Tables → Type 0
IsSettled id (run, t) =
    (run.id ≡ id) × (is_terminal run.status ≡ true) × (stored_status id t ≡ some run.status)

in_loop-stop : (s : RunStatus) → is_stop s ≡ true → in_loop s ≡ true
in_loop-stop timeout h = refl
in_loop-stop cancelled h = refl
in_loop-stop s h = ground arith

execute_step-InLoop :
    (w : World) (id : String) (step : ChecklistStep) (cfg : StepConfig) (run : SubagentRun)
    (t : Tables)
    → InLoop id run t
    → InLoop id (execute_step w step cfg run t).run (execute_step w step cfg run t).tables
unfolding update_step succeed_step update_run create_cost_events create_l2_actions
execute_step-InLoop w id step cfg run t (same, live, row) =
    let o = w.cancels_during step in
    let row' =
      has_row-cancelling o run.id id (update_step (record step { status = step_running }) t)
      ∙ row in
    execute_step-cases w step cfg run t (λ e. InLoop id e.run e.tables) (same, refl, row')
      (λ r. (same, live, has_row-update_row _ run.id id _ ∙ row'))

completed-status :
    (now : ℕ) (run : SubagentRun) (outputs : List StepOutput)
    → in_loop run.status ≡ true
    → ((completed now run outputs).id ≡ run.id)
      × (is_ended (completed now run outputs).status ≡ true)
completed-status now run outputs h = ground arith

completed-HasEnded :
    (id : String) (now : ℕ) (run : SubagentRun) (t : Tables) (outputs : List StepOutput)
    → InLoop id run t
    → HasEnded id (completed now run outputs) (update_run (completed now run outputs) t)
unfolding update_run
completed-HasEnded id now run t outputs (same, live, row) =
    let final = completed now run outputs in
    let ended = completed-status now run outputs live in
    let same' = ended.0 ∙ same in
    (
      same',
      ended.1,
      has_row-update_row (updated final) final.id id t.runs ∙ row,
      ap (λ i. stored_status i (update_run final t)) (sym same')
          ∙ stored_status-update_run final t (ap (λ i. has_row i t.runs) same' ∙ row),
    )

pub execute_checklist-HasEnded :
    (w : World) (finish : ℕ) (run : SubagentRun) (checklist : List StepConfig) (t : Tables)
    (run' : SubagentRun) (t' : Tables)
    → has_row run.id t.runs ≡ true
    → execute_checklist w finish run checklist t ≡ some (run', t')
    → HasEnded run.id run' t'
unfolding update_run
execute_checklist-HasEnded w finish run checklist t run' t' row e =
    execute_checklist-Holds w (InLoop run.id)
      (λ r u s reason stop (same, live, row). (same, in_loop-stop s stop, row))
      (λ r u o (same, live, row). (same, live, has_row-cancelling o r.id run.id u ∙ row))
      (λ step cfg r u within p. execute_step-InLoop w run.id step cfg r u p) (HasEnded run.id)
      (λ now r u outputs p. completed-HasEnded run.id now r u outputs p) finish run checklist t run'
      t' (refl, refl, has_row-update_row _ run.id run.id t.runs ∙ row) e

pub summarize-IsSettled :
    (summary_made : SubagentRun → Bool) (id : String) (run : SubagentRun) (t : Tables)
    → HasEnded id run t
    → IsSettled id (summarize summary_made (run, t))
summarize-IsSettled summary_made id run t (same, ended, row, stored) = by_status run.status refl
  where
    settle :
        (s : RunStatus)
        → is_terminal s ≡ true
        → IsSettled id (record run { status = s }, update_run (record run { status = s }) t)
    settle s h = (
      same,
      h,
      ap (λ i. stored_status i (update_run (record run { status = s }) t)) (sym same)
          ∙ stored_status-update_run (record run { status = s }) t
              (ap (λ i. has_row i t.runs) same ∙ row),
    )

    made :
        (b : Bool)
        → IsSettled id (
          record run { status = if b then done else failed },
          update_run (record run { status = if b then done else failed }) t,
        )
    made true = settle done refl
    made false = settle failed refl

    by_status : (s : RunStatus) → run.status ≡ s → IsSettled id (summarize_as s summary_made run t)
    by_status completing e = made (summary_made run)
    by_status failed e = (same, ap is_terminal e, stored)
    by_status timeout e = (same, ap is_terminal e, stored)
    by_status cancelled e = (same, ap is_terminal e, stored)
    by_status spawned e = ground arith
    by_status running e = ground arith
    by_status done e = ground arith

pub has_row-insert :
    (id : String) (run : SubagentRun) (rows : Dict SubagentRun)
    → has_row id (insert id run rows) ≡ true
has_row-insert id run [] = rw (eq_refl id) refl
has_row-insert id run ((k, row) ∷ rows) = elim (Bool-cases (k == id)) [
  | inl e ↦ rw (e, eq_refl id) refl
  | inr e ↦ rw (e, e) (has_row-insert id run rows)
]

pub lookup-has_row :
    (id : String) (rows : Dict SubagentRun) (run : SubagentRun)
    → lookup id rows ≡ some run
    → has_row id rows ≡ true
lookup-has_row id [] run h = ground arith
lookup-has_row id ((k, row) ∷ rows) run h = elim (Bool-cases (k == id)) [
  | inl e ↦ rw e refl
  | inr e ↦
      rw e
        (lookup-has_row id rows run (sym (ap (λ b. if b then some row else lookup id rows) e) ∙ h))
]
