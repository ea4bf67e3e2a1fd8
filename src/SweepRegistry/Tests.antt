-- ===== src/SweepRegistry/Tests.antt =====
-- Runs of the sweep registry's theorems on two sweeps over a counter.
use xibi.Base.{ℕ, ◌+◌, ◌<◌, ◌≡◌, arith, false, none, some, [], ◌∷◌, List}
use xibi.SweepRegistry.{
  SweepDefinition, Registry, Database, Conditions, run_registered_sweeps, run_sweeps,
}
use xibi.SweepRegistry.Reports.{listed, reported, reported-run_registered_sweeps}
use xibi.SweepRegistry.Rotation.{Beat, after_runs, at, every_sweep_leads}

abbrev prune : SweepDefinition ℕ
prune = record { name = "prune"; fn = λ n. (some n, 0); interval = 60_000_000 }

abbrev broken : SweepDefinition ℕ
broken = record { name = "broken"; fn = λ n. (none, n + 1); interval = 5_000_000 }

abbrev registry : Registry ℕ
registry = record { sweeps = prune ∷ broken ∷ []; rotation_offset = 1 }

abbrev database : Database ℕ
database = record { gates = ("prune_last_run", some 0) ∷ []; rest = 4 }

abbrev calm : Conditions
calm = record { elapsed = 10; cannot_open = false; cannot_read = false; cannot_write = false }

reported-run_registered_sweeps_example :
    reported "broken" (run_registered_sweeps (λ name. calm) 90_000_000 5 registry database).0
    ≡ listed "broken" registry.sweeps
reported-run_registered_sweeps_example =
    reported-run_registered_sweeps (λ name. calm) 90_000_000 5 registry database "broken"

abbrev beats : ℕ → Beat
beats n = record { around = λ name. calm; now = 90_000_000; budget = 50 }

every_sweep_leads_example :
    (k : ℕ) × (k < 2)
    × (s : SweepDefinition ℕ) × (at 0 registry.sweeps ≡ some s)
    × (rest : List (SweepDefinition ℕ)) × (let (r', db') = after_runs beats k registry database in
        let (results, r'', db'') = run_registered_sweeps (λ name. calm) 90_000_000 50 r' db' in
        (results, db'') ≡ run_sweeps (λ name. calm) 90_000_000 50 (s ∷ rest) (s ∷ rest) db' [])
every_sweep_leads_example = every_sweep_leads beats registry database 0 (omega arith)
