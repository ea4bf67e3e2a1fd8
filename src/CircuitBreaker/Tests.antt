-- ===== src/CircuitBreaker/Tests.antt =====
-- The breaker of xibi/circuit_breaker.py on concrete calls, and its theorems at concrete inputs.
use xibi.Base.{◌≡◌, refl, true, false, some, List, [], ◌∷◌, Store}
use xibi.CircuitBreaker.{
  Config, persistent, Table, initial_row, is_open, record_success, record_failure,
}
use xibi.CircuitBreaker.Machine.{
  Call, query, success, failure, perform, run, healthy, steps, Represents, run_refines_steps,
}

abbrev standard : Config
standard = record { failure_threshold = 2; recovery_timeout_secs = 60; success_threshold = 2 }

abbrev fresh : Store Table
fresh = record { table = some initial_row; faults = [] }

abbrev calls : List Call
calls =
    failure 5 persistent
    ∷ failure 6 persistent
    ∷ query 7
    ∷ query 60_000_007
    ∷ success
    ∷ success
    ∷ query 60_000_008
    ∷ []

run-calls : (run standard calls fresh).0 ≡ false ∷ false ∷ true ∷ false ∷ false ∷ false ∷ false ∷ []
unfolding run perform is_open record_success record_failure
run-calls = refl

fresh-Represents : Represents standard fresh (healthy 0)
fresh-Represents = record { reliable = refl; row = (refl, refl, refl) }

run_refines_steps_example :
    ((run standard calls fresh).0 ≡ (steps standard calls (healthy 0)).0)
    × Represents standard (run standard calls fresh).1 (steps standard calls (healthy 0)).1
run_refines_steps_example = run_refines_steps standard calls fresh (healthy 0) fresh-Represents

abbrev flaky : Store Table
flaky = record { table = some initial_row; faults = false ∷ true ∷ false ∷ false ∷ true ∷ [] }
