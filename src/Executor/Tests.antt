-- ===== src/Executor/Tests.antt =====
-- Tools that fail.
use xibi.Base.{ℕ, ◌≡◌, refl, true, false, none, some, [], ◌∷◌, arith, Store}
use xibi.CircuitBreaker.{Config, Table, initial_row}
use xibi.CircuitBreaker.Machine.{healthy, Represents}
use xibi.Executor.{
  failing, tool_not_found, raised, timed_out, circuit_open_result, execute_local, execute,
}
use xibi.Executor.Outages.{Use, use_all, failing_tool_never_disabled, timeouts_disable_tool}

abbrev config : Config
config = record { failure_threshold = 2; recovery_timeout_secs = 60; success_threshold = 2 }

abbrev fresh : Store Table
fresh = record { table = some initial_row; faults = [] }

fresh-Represents : Represents config fresh (healthy 0)
fresh-Represents = record { reliable = refl; row = (refl, refl, refl) }

abbrev raising : ℕ → Use
raising now = record { start = now; end = now; outcome = raised }

abbrev late : ℕ → Use
late now = record { start = now; end = now; outcome = timed_out }

failing_tool_never_disabled_example :
    (use_all config (raising 1 ∷ raising 2 ∷ raising 3 ∷ []) fresh).0 ≡ true ∷ true ∷ true ∷ []
failing_tool_never_disabled_example =
    failing_tool_never_disabled config (raising 1 ∷ raising 2 ∷ raising 3 ∷ []) fresh 0 refl
      fresh-Represents

timeouts_disable_tool_example :
    (execute_local config 8 8 raised
      (execute_local config 7 7 timed_out (use_all config (late 6 ∷ []) fresh).1).1).0
    ≡ (circuit_open_result, false)
timeouts_disable_tool_example =
    timeouts_disable_tool config (late 6 ∷ []) (late 7) (raising 8) fresh refl refl (omega arith)
      (omega arith) (omega arith) fresh-Represents

-- Nobody has the tool.
not_found :
    execute config 1 2 [] raised none "send_email" fresh
    ≡ ((failing (some tool_not_found), false), fresh)
unfolding execute
not_found = refl
