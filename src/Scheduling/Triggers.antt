-- ===== src/Scheduling/Triggers.antt =====
-- What `compute_next_run` of xibi/scheduling/triggers.py promises.
use xibi.Base.{ℕ, ◌+◌, ◌≤◌, ◌<◌, ◌≡◌, ◌≢◌, ◌⊎◌, none, some, String, arith, Store}
use xibi.Tools.{get_or}
use xibi.Scheduling.{
  datetime_max, TriggerType, interval, oneshot, cron, unknown_trigger, TriggerConfig,
  compute_next_run, ScheduledAction, Tables, register_action,
}

-- A time to run is never before the time that it is computed from, and it is later than that,
-- unless it is the end of time or the interval is zero.
compute_next_run_later :
    (trigger : TriggerType) (config : TriggerConfig) (after next : ℕ)
    → after ≤ datetime_max
    → compute_next_run trigger config after ≡ some next
    → (after ≤ next) × (after < next ⊎ (next ≡ datetime_max) ⊎ (config.every_seconds ≡ some 0))
unfolding compute_next_run
compute_next_run_later interval config after next h e = ground arith
compute_next_run_later oneshot config after next h e = ground arith
compute_next_run_later cron config after next h e = cc
compute_next_run_later unknown_trigger config after next h e = cc

-- An action that `register_action` has let in does not make the trigger raise at any later time,
-- as long as the interval does not lead past the last date there is.
registered_never_raises :
    (a : ScheduledAction) (now later : ℕ) (s : Store Tables) (id : String)
    → (register_action a now s).0 ≡ some id
    → later + get_or a.trigger_config.every_seconds 86400 ≤ datetime_max
    → compute_next_run a.trigger_type a.trigger_config later ≢ none
unfolding compute_next_run register_action
registered_never_raises a now later s id e room h = ground arith
