-- ===== src/Scheduling.antt =====
-- xibi/scheduling: when an action runs next (triggers.py), the table of actions (api.py) and what
-- runs one (handlers.py). The kernel that ticks over the table is in the child `Kernel`. Times are
-- whole seconds, as in the tables' texts.
pub mod Kernel
pub mod Triggers
pub mod Selection
pub mod Settling
pub mod Accounting
mod Tests
use xibi.Base.{
  ℕ, ◌+◌, ◌≡◌, Bool, true, false, not, Option, none, some, String, List, [], ◌∷◌, ◌++◌, ◌==◌, ltb,
  leb, if◌then◌else◌, Dict, lookup, Store, open_db, select, ◌<◌,
}
use xibi.Tools.{Value, get_or}

-- The last second that a `datetime` can name, 9999-12-31 23:59:59.
abbrev pub datetime_max : ℕ
datetime_max = 253_402_300_799

pub data TriggerType : Type 0 where
  interval oneshot cron unknown_trigger : TriggerType

-- The value of the key `at`: absent or empty, not a date, or a time.
pub data AtTime : Type 0 where
  unset_at bad_at : AtTime
  at_time : ℕ → AtTime

pub record TriggerConfig : Type 0 where
  pub every_seconds : Option ℕ
  pub at : AtTime

-- `after + timedelta(...)`; `none` is the `OverflowError`.
abbrev add_seconds : ℕ → ℕ → Option ℕ
add_seconds after seconds =
    if leb (after + seconds) datetime_max then some (after + seconds) else none

abbrev oneshot_next : AtTime → ℕ → ℕ
oneshot_next (at_time t) after = if ltb after t then t else datetime_max
oneshot_next _ after = datetime_max

-- `none` is an exception: an unknown trigger, or one that is not implemented.
unfoldable pub compute_next_run : TriggerType → TriggerConfig → ℕ → Option ℕ
compute_next_run interval config after = add_seconds after (get_or config.every_seconds 86400)
compute_next_run oneshot config after = some (oneshot_next config.at after)
compute_next_run cron config after = none
compute_next_run unknown_trigger config after = none

-- The action type with what its configuration names, where a key may be missing.
pub data ActionType : Type 0 where
  tool_call : Option String → Dict Value → ActionType
  internal_hook : Option String → ActionType
  subagent_spawn : ActionType
  unknown_action : ActionType

pub data RunStatus : Type 0 where
  running success error timeout skipped : RunStatus

pub record ScheduledAction : Type 0 where
  pub id : String
  pub trigger_type : TriggerType
  pub trigger_config : TriggerConfig
  pub action_type : ActionType
  pub enabled : Bool
  pub active_from : Option ℕ
  pub active_until : Option ℕ
  pub next_run_at : ℕ
  pub last_run_at : Option ℕ
  pub last_status : Option RunStatus
  pub run_count : ℕ
  pub consecutive_failures : ℕ

pub record RunRow : Type 0 where
  pub id : ℕ
  pub action_id : String
  pub started_at : ℕ
  pub status : RunStatus
  pub finished_at : Option ℕ

-- The tables `scheduled_actions` and `scheduled_action_runs`.
pub record Tables : Type 0 where
  pub actions : List ScheduledAction
  pub runs : List RunRow
  pub last_run_id : ℕ

-- UPDATE scheduled_actions SET ... WHERE id = ?
abbrev pub update_action :
    String → (ScheduledAction → ScheduledAction) → List ScheduledAction → List ScheduledAction
update_action id f [] = []
update_action id f (a ∷ as') = (if a.id == id then f a else a) ∷ update_action id f as'

abbrev pub find_action : String → List ScheduledAction → Option ScheduledAction
find_action id [] = none
find_action id (a ∷ as') = if a.id == id then some a else find_action id as'

abbrev inserted : ScheduledAction → Option ℕ → Store Tables → Option String × Store Tables
inserted a none s = (none, s)
inserted a (some next) s =
    open_db (λ t. (a.id, record t { actions = t.actions ++ record a { next_run_at = next } ∷ [] }))
      s.faults s.table

-- `register_action`, with a fresh id: the action gets its first time to run; `none` is an exception,
-- of the trigger or of the database.
unfoldable pub register_action : ScheduledAction → ℕ → Store Tables → Option String × Store Tables
register_action a now s = inserted a (compute_next_run a.trigger_type a.trigger_config now) s

unfoldable set_enabled : Bool → String → Store Tables → Option (Unit {0}) × Store Tables
set_enabled on id s =
    open_db
      (λ t.
        (tt, record t { actions = update_action id (λ a. record a { enabled = on }) t.actions }))
      s.faults s.table

unfoldable disable_action : String → Store Tables → Option (Unit {0}) × Store Tables
unfolding set_enabled
disable_action = set_enabled false

unfoldable enable_action : String → Store Tables → Option (Unit {0}) × Store Tables
unfolding set_enabled
enable_action = set_enabled true

unfoldable delete_action : String → Store Tables → Option (Unit {0}) × Store Tables
delete_action id s =
    open_db (λ t. (tt, record t { actions = select (λ a. not (a.id == id)) t.actions })) s.faults
      s.table

-- What the code behind a handler does: it returns, with a status or with an error, or it raises,
-- `TimeoutError` included, which the kernel's timer sends into it.
pub data CalleeResult : Type 0 where
  returned returned_error raised interrupted : CalleeResult

-- The executor, the registered hooks and the subagent runtime, by what they do when called.
pub record Callees : Type 0 where
  pub execute : String → Dict Value → CalleeResult
  pub hooks : Dict CalleeResult
  pub spawn : CalleeResult

pub data HandlerStatus : Type 0 where
  handler_success handler_error : HandlerStatus

-- Each handler's `try ... except Exception`.
abbrev guarded : CalleeResult → HandlerStatus
guarded returned = handler_success
guarded _ = handler_error

abbrev run_hook : Option CalleeResult → HandlerStatus
run_hook none = handler_error
run_hook (some r) = guarded r

-- `get_handler(action_type)` applied to the configuration; `none` for an unknown action type.
unfoldable pub run_handler : Callees → ActionType → Option HandlerStatus
run_handler c (tool_call none args) = some handler_error
run_handler c (tool_call (some tool) args) =
    some (if tool == "" then handler_error else guarded (c.execute tool args))
run_handler c (internal_hook none) = some handler_error
run_handler c (internal_hook (some hook)) =
    some (if hook == "" then handler_error else run_hook (lookup hook c.hooks))
run_handler c subagent_spawn = some (guarded c.spawn)
run_handler c unknown_action = none
