-- ===== src/CircuitBreaker/Machine.antt =====
-- The breaker of xibi/circuit_breaker.py as callers use it: a run of calls, and the three-phase
-- machine that it implements.
use xibi.Base.{
  ℕ, ◌+◌, ◌≤◌, ◌≡◌, refl, Bool, true, false, none, some, List, [], ◌∷◌, arith, leb, if◌then◌else◌,
  Store,
}
use mathlib.Core.Path.{ap₂}
use xibi.CircuitBreaker.{
  Config, closed, opened, half_open, FailureType, persistent, transient, Row, Table, is_open,
  record_success, record_failure, has_recovered,
}

-- One call of a method, with the clock reading that it takes.
pub data Call : Type 0 where
  query : ℕ → Call
  success : Call
  failure : ℕ → FailureType → Call

-- A call returns whether the request is blocked; only `is_open` blocks any.
unfoldable pub perform : Config → Call → Store Table → Bool × Store Table
perform cfg (query now) s = is_open cfg now s
perform cfg success s = (false, (record_success cfg s).1)
perform cfg (failure now kind) s = (false, (record_failure cfg now kind s).1)

unfoldable pub run : Config → List Call → Store Table → List Bool × Store Table
run cfg [] s = ([], s)
run cfg (c ∷ cs) s = let (b, s') = perform cfg c s in let (bs, s'') = run cfg cs s' in (b ∷ bs, s'')

-- What a breaker promises: healthy with a count of failures in a row, tripped at some time, or
-- probing with a count of successes. The successes outlast a failed probe.
pub data Phase : Type 0 where
  healthy : ℕ → Phase
  tripped : ℕ → ℕ → Phase
  probing : ℕ → Phase

abbrev pub fail_at : Config → ℕ → Phase → Phase
fail_at cfg now (healthy n) =
    if leb cfg.failure_threshold (n + 1) then tripped now 0 else healthy (n + 1)
fail_at cfg now (tripped at s) = tripped at s
fail_at cfg now (probing s) = tripped now s

abbrev pub succeed : Config → Phase → Phase
succeed cfg (healthy n) = healthy 0
succeed cfg (tripped at s) = tripped at s
succeed cfg (probing s) = if leb cfg.success_threshold (s + 1) then healthy 0 else probing (s + 1)

abbrev pub ask : Config → ℕ → Phase → Bool × Phase
ask cfg now (tripped at s) =
    if has_recovered cfg now (some at) then (false, probing s) else (true, tripped at s)
ask cfg now p = (false, p)

abbrev pub step : Config → Call → Phase → Bool × Phase
step cfg (query now) p = ask cfg now p
step cfg success p = (false, succeed cfg p)
step cfg (failure now persistent) p = (false, fail_at cfg now p)
step cfg (failure now transient) p = (false, p)

unfoldable pub steps : Config → List Call → Phase → List Bool × Phase
steps cfg [] p = ([], p)
steps cfg (c ∷ cs) p =
    let (b, p') = step cfg c p in let (bs, p'') = steps cfg cs p' in (b ∷ bs, p'')

-- A row that stands for a phase.
abbrev RowFor : Config → Row → Phase → Type 0
RowFor cfg r (healthy n) = (r.state ≡ some closed) × (r.failure_count ≡ n) × (r.success_count ≡ 0)
RowFor cfg r (tripped at s) =
    (r.state ≡ some opened)
    × (cfg.failure_threshold ≤ r.failure_count)
    × (r.success_count ≡ s)
    × (r.opened_at ≡ some at)
RowFor cfg r (probing s) =
    (r.state ≡ some half_open) × (cfg.failure_threshold ≤ r.failure_count) × (r.success_count ≡ s)

abbrev TableFor : Config → Table → Phase → Type 0
TableFor cfg none p = ⊥
TableFor cfg (some r) p = RowFor cfg r p

-- A database that does not fail, and whose row stands for a phase.
pub record Represents (cfg : Config) (s : Store Table) (p : Phase) : Type 0 where
  pub reliable : s.faults ≡ []
  pub row : TableFor cfg s.table p

abbrev Simulates : Config → Bool × Store Table → Bool × Phase → Type 0
Simulates cfg (b, s) (b', p) = (b ≡ b') × Represents cfg s p

pub query-Simulates :
    (cfg : Config) (now : ℕ) (s : Store Table) (p : Phase)
    → Represents cfg s p
    → Simulates cfg (is_open cfg now s) (ask cfg now p)
unfolding is_open
query-Simulates cfg now s (healthy n) h = ground arith
query-Simulates cfg now s (tripped at k) h = ground arith
query-Simulates cfg now s (probing k) h = ground arith

pub success-Represents :
    (cfg : Config) (s : Store Table) (p : Phase)
    → Represents cfg s p
    → Represents cfg (record_success cfg s).1 (succeed cfg p)
unfolding record_success
success-Represents cfg s (healthy n) h = ground arith
success-Represents cfg s (tripped at k) h = ground arith
success-Represents cfg s (probing k) h = ground arith

pub failure-Represents :
    (cfg : Config) (now : ℕ) (s : Store Table) (p : Phase)
    → Represents cfg s p
    → Represents cfg (record_failure cfg now persistent s).1 (fail_at cfg now p)
unfolding record_failure
failure-Represents cfg now s (healthy n) h = ground arith
failure-Represents cfg now s (tripped at k) h = ground arith
failure-Represents cfg now s (probing k) h = ground arith

transient-Represents :
    (cfg : Config) (now : ℕ) (s : Store Table) (p : Phase)
    → Represents cfg s p
    → Represents cfg (record_failure cfg now transient s).1 p
unfolding record_failure
transient-Represents cfg now s (healthy n) h = ground arith
transient-Represents cfg now s (tripped at k) h = ground arith
transient-Represents cfg now s (probing k) h = ground arith

perform-Simulates :
    (cfg : Config) (c : Call) (s : Store Table) (p : Phase)
    → Represents cfg s p
    → Simulates cfg (perform cfg c s) (step cfg c p)
unfolding perform
perform-Simulates cfg (query now) s p h = query-Simulates cfg now s p h
perform-Simulates cfg success s p h = (refl, success-Represents cfg s p h)
perform-Simulates cfg (failure now persistent) s p h = (refl, failure-Represents cfg now s p h)
perform-Simulates cfg (failure now transient) s p h = (refl, transient-Represents cfg now s p h)

-- While the database answers, every sequence of calls gets from the breaker the answers of the
-- three-phase machine, and leaves the row in the state that the machine's phase names.
pub run_refines_steps :
    (cfg : Config) (cs : List Call) (s : Store Table) (p : Phase)
    → Represents cfg s p
    → ((run cfg cs s).0 ≡ (steps cfg cs p).0) × Represents cfg (run cfg cs s).1 (steps cfg cs p).1
unfolding run steps
run_refines_steps cfg [] s p h = (refl, h)
run_refines_steps cfg (c ∷ cs) s p h =
    let one = perform-Simulates cfg c s p h in
    let rest = run_refines_steps cfg cs (perform cfg c s).1 (step cfg c p).1 one.1 in
    (ap₂ ◌∷◌ one.0 rest.0, rest.1)
