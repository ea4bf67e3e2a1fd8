-- ===== src/CircuitBreaker/Recovery.antt =====
-- When the breaker of xibi/circuit_breaker.py trips and when it closes again, while the database
-- answers. Proved of the three-phase machine and carried over by the refinement.
use xibi.Base.{
  ℕ, zero, suc, ◌+◌, ◌*◌, ◌≤◌, ◌<◌, ◌≡◌, refl, List, [], ◌∷◌, arith, leb, if◌then◌else◌, Store,
  Bool-cases, inl, inr,
}
use xibi.CircuitBreaker.{Config, persistent, transient, Table, is_open}
use xibi.CircuitBreaker.Machine.{
  Call, query, success, failure, run, healthy, tripped, probing, step, steps, Represents,
  run_refines_steps, query-Simulates,
}

-- `n` persistent failures, and some that do not count between them.
abbrev pub failures : ℕ → ℕ → List Call
failures zero now = []
failures (suc n) now = failure now transient ∷ failure now persistent ∷ failures n now

steps-tripped :
    (cfg : Config) (n now at k : ℕ) → (steps cfg (failures n now) (tripped at k)).1 ≡ tripped at k
unfolding steps
steps-tripped cfg zero now at k = refl
steps-tripped cfg (suc n) now at k = steps-tripped cfg n now at k

steps-healthy :
    (cfg : Config) (n now k : ℕ)
    → k < cfg.failure_threshold
    → (steps cfg (failures n now) (healthy k)).1
      ≡ (if leb cfg.failure_threshold (k + n) then tripped now 0 else healthy (k + n))
unfolding steps
steps-healthy cfg zero now k h = ground arith
steps-healthy cfg (suc n) now k h = elim (Bool-cases (leb cfg.failure_threshold (k + 1))) [
  | inl trips ↦ ground (arith, steps-tripped cfg n now now 0)
  | inr stays ↦ ground (arith, steps-healthy cfg n now (k + 1))
]

answer :
    (cfg : Config) (n now : ℕ)
    → (step cfg (query now) (if leb cfg.failure_threshold n then tripped now 0 else healthy n)).0
      ≡ leb cfg.failure_threshold n
answer cfg n now = ground arith

-- After `n` persistent failures of a healthy breaker, with any transient ones between them, a
-- query at that time is blocked exactly if `n` has reached the failure threshold, which is
-- positive, while the database answers.
trips_at_threshold :
    (cfg : Config) (n now : ℕ) (s : Store Table)
    → 0 < cfg.failure_threshold
    → Represents cfg s (healthy 0)
    → (is_open cfg now (run cfg (failures n now) s).1).0 ≡ leb cfg.failure_threshold n
trips_at_threshold cfg n now s pos h =
    let after = run_refines_steps cfg (failures n now) s (healthy 0) h in
    ground (
      arith,
      query-Simulates cfg now (run cfg (failures n now) s).1
          (steps cfg (failures n now) (healthy 0)).1 after.1,
      steps-healthy cfg n now 0,
      answer cfg n now,
    )

-- A breaker that is probing with `k` successes, one short of the threshold or more, and whose
-- probe fails at a time above zero, closes after the timeout by a single success: the successes
-- before the failed probe are still counted. The database answers.
successes_outlast_failed_probe :
    (cfg : Config) (k t later : ℕ) (s : Store Table)
    → Represents cfg s (probing k)
    → cfg.success_threshold ≤ k + 1
    → 0 < t
    → t + 1_000_000 * cfg.recovery_timeout_secs < later
    → Represents cfg (run cfg (failure t persistent ∷ query later ∷ success ∷ []) s).1 (healthy 0)
unfolding steps
successes_outlast_failed_probe cfg k t later s h enough pos late =
    let cs = failure t persistent ∷ query later ∷ success ∷ [] in
    let after = run_refines_steps cfg cs s (probing k) h in
    let e : (steps cfg cs (probing k)).1 ≡ healthy 0 = ground arith in rw e at (after.1)
