-- ===== src/Scheduling/Tests.antt =====
-- The scheduler of xibi/scheduling on concrete actions, and its theorems at concrete inputs.
use mathlib.Core.List.{Perm}
use mathlib.Core.Logic.{◌⊎◌}
use xibi.Base.{◌≤◌, ◌≡◌, refl, ◌++◌, true, none, some, List, [], ◌∷◌, length, Store}
use xibi.Tools.{resolve_tier, validate_schema, is_external, base_tier, override, tier_named}
use xibi.CommandLayer.{rows, check}
use xibi.Scheduling.{
  ScheduledAction, interval, oneshot, at_time, unset_at, tool_call, subagent_spawn, Tables,
  returned, compute_next_run, register_action, run_handler, datetime_max,
}
use xibi.Scheduling.Kernel.{World, never, TickResult, process_action, tick, select_due, run_status}
use xibi.Scheduling.Selection.{All, CanRun, IsOrdered, AllBefore, select_due_earliest}
use xibi.Scheduling.Accounting.{IsBalanced, selected, tick_counts}

abbrev hourly : ScheduledAction
hourly = record {
  id = "a";
  trigger_type = interval;
  trigger_config = record { every_seconds = some 3600; at = unset_at };
  action_type = subagent_spawn;
  enabled = true;
  active_from = none;
  active_until = none;
  next_run_at = 100;
  last_run_at = none;
  last_status = none;
  run_count = 0;
  consecutive_failures = 0;
}

abbrev once : ScheduledAction
once = record hourly {
  id = "b";
  trigger_type = oneshot;
  trigger_config = record { every_seconds = none; at = at_time 90 };
  action_type = tool_call (some "delete_email") [];
  next_run_at = 90;
}

abbrev world : World
world = record {
  profile = record { tool_permissions = []; nudge_dedup_hours = none };
  log = rows [];
  callees = record { execute = λ tool args. returned; hooks = []; spawn = returned };
  writes = λ a t. t;
  started = λ a. 120;
  finished = λ a. 125;
  late_interrupt = λ a. never;
}

abbrev tables : Store Tables
tables = record {
  table = record { actions = hourly ∷ once ∷ []; runs = []; last_run_id = 0 };
  faults = [];
}

abbrev counts : TickResult
counts = record { processed = 2; success = 1; error = 0; skipped = 1; timeout = 0 }

-- The one-shot action may not delete with nobody present, so it is skipped; the hourly one runs.
tick-tables : (tick world 25 120 tables).0 ≡ some counts
unfolding tick select_due process_action run_status run_handler compute_next_run check override
    tier_named resolve_tier validate_schema is_external base_tier
tick-tables = refl

tick_counts_example :
    IsBalanced counts
    × (counts.processed ≡ selected 25 120 [] (hourly ∷ once ∷ []))
    × (counts.processed ≤ 25)
tick_counts_example = tick_counts world 25 120 tables counts (λ a e. cc) tick-tables

hourly-next : compute_next_run interval hourly.trigger_config 120 ≡ some 3720
unfolding compute_next_run
hourly-next = refl

hourly-registered : (register_action hourly 100 tables).0 ≡ some "a"
unfolding register_action compute_next_run
hourly-registered = refl

select_due_earliest_example :
    let chosen = select_due 1 120 (hourly ∷ once ∷ []) in
    (left : List ScheduledAction) × (others : List ScheduledAction) × Perm
      ((chosen ++ left) ++ others)
      (hourly ∷ once ∷ [])
    × All (CanRun 120) (chosen ++ left)
    × All (λ a. ¬ CanRun 120 a) others
    × IsOrdered chosen
    × AllBefore chosen left
    × ((left ≡ []) ⊎ (length chosen ≡ 1))
select_due_earliest_example = select_due_earliest 1 120 (hourly ∷ once ∷ [])

abbrev shaky : ScheduledAction
shaky = record hourly { consecutive_failures = 2 }

shaky-next : compute_next_run shaky.trigger_type shaky.trigger_config 120 ≡ some 3720
unfolding compute_next_run
shaky-next = refl

once-next : compute_next_run once.trigger_type once.trigger_config 120 ≡ some datetime_max
unfolding compute_next_run
once-next = refl
