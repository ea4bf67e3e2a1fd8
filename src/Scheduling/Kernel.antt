-- ===== src/Scheduling/Kernel.antt =====
-- xibi/scheduling/kernel.py: `ScheduledActionKernel.tick` and `_process_action`, and `fire_now` of
-- xibi/scheduling/api.py. The texts of errors and previews, the durations and the tracing spans are
-- left out.
use xibi.Base.{
  ℕ, ◌+◌, ◌^◌, Bool, true, false, not, ◌&&◌, Option, none, some, String, List, [], ◌∷◌, ◌++◌, ltb,
  leb, eqb, if◌then◌else◌, Store, open_db, select, take,
}
use Prim.Native.Nat.{min}
use xibi.Tools.{Profile}
use xibi.CommandLayer.{Database, check}
use xibi.Scheduling.{
  TriggerType, oneshot, compute_next_run, tool_call, RunStatus, running, success, error, timeout,
  skipped, ScheduledAction, RunRow, Tables, update_action, find_action, Callees, HandlerStatus,
  handler_success, handler_error, run_handler,
}

pub record TickResult : Type 0 where
  pub processed : ℕ
  pub success : ℕ
  pub error : ℕ
  pub skipped : ℕ
  pub timeout : ℕ

abbrev pub no_results : TickResult
no_results = record { processed = 0; success = 0; error = 0; skipped = 0; timeout = 0 }

-- When the timer strikes after the callee has returned, where no handler catches it: never, before
-- the run is counted, or after that and before the block ends.
pub data Strike : Type 0 where
  never before_count after_count : Strike

-- What surrounds the kernel: the profile and log that gate a tool call, the code behind the
-- handlers, what a handler itself writes to the tables, the clock at the start and the end of a run,
-- and when the timer strikes.
pub record World : Type 0 where
  pub profile : Profile
  pub log : Database
  pub callees : Callees
  pub writes : ScheduledAction → Tables → Tables
  pub started : ScheduledAction → ℕ
  pub finished : ScheduledAction → ℕ
  pub late_interrupt : ScheduledAction → Strike

-- `cl.check(tool_name, tool_args)` with nobody present. A call that names no tool passes every gate.
unfoldable pub is_permitted : World → ScheduledAction → Bool
is_permitted w a = elim a.action_type [
  | tool_call tool args ↦ elim tool [
    | none ↦ true
    | some name ↦ (check w.profile false (w.started a) w.log name args none none).allowed
  ]
  | _ ↦ true
]

abbrev pub status_of : Strike → Option HandlerStatus → RunStatus
status_of struck none = error
status_of never (some handler_success) = success
status_of never (some handler_error) = error
status_of struck (some s) = timeout

unfoldable pub run_status : World → ScheduledAction → RunStatus
unfolding is_permitted
run_status w a =
    if is_permitted w a
    then status_of (w.late_interrupt a) (run_handler w.callees a.action_type)
    else skipped

abbrev pub tally : RunStatus → TickResult → TickResult
tally running r = r
tally success r = record r { success = r.success + 1 }
tally error r = record r { error = r.error + 1 }
tally timeout r = record r { timeout = r.timeout + 1 }
tally skipped r = record r { skipped = r.skipped + 1 }

-- A run that the timer ends after it was counted is counted again as timed out.
abbrev pub counted_before : Bool → Strike → Option HandlerStatus → TickResult → TickResult
counted_before true after_count (some handler_success) r = tally success r
counted_before true after_count (some handler_error) r = tally error r
counted_before permitted struck s r = r

abbrev pub count : World → ScheduledAction → TickResult → TickResult
count w a r =
    tally (run_status w a) (
      counted_before (is_permitted w a) (w.late_interrupt a) (run_handler w.callees a.action_type)
        r)

abbrev pub is_failure : RunStatus → Bool
is_failure error = true
is_failure timeout = true
is_failure _ = false

abbrev is_oneshot : TriggerType → Bool
is_oneshot oneshot = true
is_oneshot _ = false

abbrev pub backoff_seconds : ℕ → ℕ
backoff_seconds failures = min (2 ^ failures) 86400

-- What a run leaves in the action's row `b`: the failures are counted on from the row `a` as it was
-- selected, and `next` is the time that the trigger gave.
unfoldable pub settle : RunStatus → ℕ → ℕ → ScheduledAction → ScheduledAction → ScheduledAction
settle status started next a b =
    let failures = if is_failure status then a.consecutive_failures + 1 else 0 in
    record b {
      last_run_at = some started;
      last_status = some status;
      run_count = b.run_count + 1;
      consecutive_failures = failures;
      next_run_at =
          if is_failure status && ltb failures 10 && leb 3 failures
          then started + backoff_seconds failures
          else next;
      enabled = if is_failure status then ltb failures 10 else not (is_oneshot a.trigger_type);
    }

abbrev finish_run : ℕ → RunStatus → ℕ → List RunRow → List RunRow
finish_run id status at [] = []
finish_run id status at (r ∷ rs) =
    (if eqb r.id id then record r { status = status; finished_at = some at } else r)
    ∷ finish_run id status at rs

abbrev pub insert_run : String → ℕ → Tables → ℕ × Tables
insert_run action_id started t = (
  t.last_run_id + 1,
  record t {
    runs =
        t.runs
        ++ (record {
          id = t.last_run_id + 1;
          action_id = action_id;
          started_at = started;
          status = running;
          finished_at = none;
        }
            ∷ []);
    last_run_id = t.last_run_id + 1;
  },
)

abbrev pub acts : World → ScheduledAction → Tables → Tables
acts w a t = if is_permitted w a then w.writes a t else t

-- The last block, from the time that the trigger gave; `none` is the exception that the trigger
-- raises, which nothing here catches. The failure of the update is logged and passed over.
abbrev pub finish :
    World
    → ScheduledAction
    → ℕ
    → RunStatus
    → Option ℕ
    → TickResult
    → Store Tables
    → Option TickResult × Store Tables
finish w a run_id status none r s = (none, s)
finish w a run_id status (some next) r s =
    let (_, s') =
      open_db
        (λ t. (
          tt,
          record t {
            runs = finish_run run_id status (w.finished a) t.runs;
            actions = update_action a.id (settle status (w.started a) next a) t.actions;
          },
        ))
        s.faults s.table in
    (some r, s')

abbrev pub go_on :
    World
    → ScheduledAction
    → Option ℕ
    → TickResult
    → Store Tables
    → Option TickResult × Store Tables
go_on w a none r s = (some (record r { error = r.error + 1 }), s)
go_on w a (some run_id) r s =
    finish w a run_id (run_status w a)
      (compute_next_run a.trigger_type a.trigger_config (w.started a)) (count w a r)
      (record s { table = acts w a s.table })

-- `_process_action`: the row `a` as it was selected.
unfoldable pub process_action :
    World → ScheduledAction → TickResult → Store Tables → Option TickResult × Store Tables
process_action w a r s =
    let (run_id, s') = open_db (insert_run a.id (w.started a)) s.faults s.table in
    go_on w a run_id (record r { processed = r.processed + 1 }) s'

abbrev pub after_or_never : Option ℕ → ℕ → Bool
after_or_never none now = true
after_or_never (some t) now = ltb now t

abbrev pub since_or_ever : Option ℕ → ℕ → Bool
since_or_ever none now = true
since_or_ever (some t) now = leb t now

-- The WHERE clause of the tick.
abbrev pub is_due : ℕ → ScheduledAction → Bool
is_due now a =
    a.enabled
    && leb a.next_run_at now
    && since_or_ever a.active_from now
    && after_or_never a.active_until now

-- ORDER BY next_run_at ASC; rows of one time keep the table's order.
unfoldable pub place : ScheduledAction → List ScheduledAction → List ScheduledAction
place a [] = a ∷ []
place a (b ∷ bs) =
    let rest = place a bs in if leb a.next_run_at b.next_run_at then a ∷ b ∷ bs else b ∷ rest

unfoldable pub ordered : List ScheduledAction → List ScheduledAction
unfolding place
ordered [] = []
ordered (a ∷ as') = place a (ordered as')

unfoldable pub select_due : ℕ → ℕ → List ScheduledAction → List ScheduledAction
unfolding ordered
select_due max_per_tick now actions = take max_per_tick (ordered (select (is_due now) actions))

-- An exception leaves the loop, and the tick with it.
abbrev pub carry_on :
    (TickResult → Store Tables → Option TickResult × Store Tables)
    → Option TickResult × Store Tables
    → Option TickResult × Store Tables
carry_on rest (none, s) = (none, s)
carry_on rest (some r, s) = rest r s

unfoldable pub process_all :
    World → List ScheduledAction → TickResult → Store Tables → Option TickResult × Store Tables
process_all w [] r s = (some r, s)
process_all w (a ∷ as') r s = carry_on (process_all w as') (process_action w a r s)

abbrev pub tick_rows :
    World → Option (List ScheduledAction) → Store Tables → Option TickResult × Store Tables
tick_rows w none s = (some no_results, s)
tick_rows w (some due) s = process_all w due no_results s

unfoldable pub tick : World → ℕ → ℕ → Store Tables → Option TickResult × Store Tables
unfolding process_all
tick w max_per_tick now s =
    let (due, s') = open_db (λ t. (select_due max_per_tick now t.actions, t)) s.faults s.table in
    tick_rows w due s'

abbrev fire_row :
    World → Option (Option ScheduledAction) → Store Tables → Option TickResult × Store Tables
fire_row w (some (some a)) s = process_action w a no_results s
fire_row w _ s = (none, s)

-- `fire_now`: a run of one action, whether or not it is due; `none` is an exception.
unfoldable fire_now : World → String → Store Tables → Option TickResult × Store Tables
fire_now w id s =
    let (row, s') = open_db (λ t. (find_action id t.actions, t)) s.faults s.table in
    fire_row w row s'
