-- ===== src/CircuitBreaker/Safety.antt =====
-- The breaker of xibi/circuit_breaker.py over a database that may fail at any access: it never
-- shuts its callers out for good.
use xibi.Base.{ℕ, ◌+◌, ◌*◌, ◌≤◌, ◌<◌, ◌≡◌, false, Option, none, some, List, [], ◌∷◌, arith, Store}
use xibi.CircuitBreaker.{
  Config, CircuitState, opened, FailureType, Table, is_open, record_success, record_failure,
}
use xibi.CircuitBreaker.Machine.{Call, query, success, failure, perform, run}

-- An open breaker knows when it opened: after the clock's zero, and by the time `T`.
abbrev Opened : ℕ → Option ℕ → Type 0
Opened T none = ⊥
Opened T (some at) = (0 < at) × (at ≤ T)

abbrev StateTimed : ℕ → Option CircuitState → Option ℕ → Type 0
StateTimed T (some opened) at = Opened T at
StateTimed T _ at = Unit

abbrev TableTimed : ℕ → Table → Type 0
TableTimed T none = Unit
TableTimed T (some r) = StateTimed T r.state r.opened_at

pub record IsTimed (T : ℕ) (s : Store Table) : Type 0 where
  pub timed : TableTimed T s.table

abbrev ByTime : ℕ → Call → Type 0
ByTime T (failure now kind) = (0 < now) × (now ≤ T)
ByTime T _ = Unit

abbrev AllByTime : ℕ → List Call → Type 0
AllByTime T [] = Unit
AllByTime T (c ∷ cs) = ByTime T c × AllByTime T cs

query-IsTimed :
    (cfg : Config) (T now : ℕ) (s : Store Table) → IsTimed T s → IsTimed T (is_open cfg now s).1
unfolding is_open
query-IsTimed cfg T now s h = ground arith

success-IsTimed :
    (cfg : Config) (T : ℕ) (s : Store Table) → IsTimed T s → IsTimed T (record_success cfg s).1
unfolding record_success
success-IsTimed cfg T s h = ground arith

failure-IsTimed :
    (cfg : Config) (T now : ℕ) (kind : FailureType) (s : Store Table)
    → IsTimed T s
    → 0 < now
    → now ≤ T
    → IsTimed T (record_failure cfg now kind s).1
unfolding record_failure
failure-IsTimed cfg T now FailureType.persistent s h p q = ground arith
failure-IsTimed cfg T now FailureType.transient s h p q = ground arith

perform-IsTimed :
    (cfg : Config) (T : ℕ) (c : Call) (s : Store Table)
    → IsTimed T s
    → ByTime T c
    → IsTimed T (perform cfg c s).1
unfolding perform
perform-IsTimed cfg T (query now) s h b = query-IsTimed cfg T now s h
perform-IsTimed cfg T success s h b = success-IsTimed cfg T s h
perform-IsTimed cfg T (failure now kind) s h b = failure-IsTimed cfg T now kind s h b.0 b.1

run-IsTimed :
    (cfg : Config) (T : ℕ) (cs : List Call) (s : Store Table)
    → IsTimed T s
    → AllByTime T cs
    → IsTimed T (run cfg cs s).1
unfolding run
run-IsTimed cfg T [] s h b = h
run-IsTimed cfg T (c ∷ cs) s h (b, bs) =
    run-IsTimed cfg T cs (perform cfg c s).1 (perform-IsTimed cfg T c s h b) bs

passes_when_timed :
    (cfg : Config) (T now : ℕ) (s : Store Table)
    → IsTimed T s
    → T + 1_000_000 * cfg.recovery_timeout_secs < now
    → (is_open cfg now s).0 ≡ false
unfolding is_open
passes_when_timed cfg T now s h late = ground arith

-- Whatever calls were made until the time `T`, and whichever accesses to the database failed, a
-- query made later than `T` by more than the recovery timeout is not blocked, from a table whose
-- breaker, if open, has an opening time above zero and at most `T`.
is_open_lets_through_after_timeout :
    (cfg : Config) (T now : ℕ) (cs : List Call) (s : Store Table)
    → IsTimed T s
    → AllByTime T cs
    → T + 1_000_000 * cfg.recovery_timeout_secs < now
    → (is_open cfg now (run cfg cs s).1).0 ≡ false
is_open_lets_through_after_timeout cfg T now cs s h b late =
    passes_when_timed cfg T now (run cfg cs s).1 (run-IsTimed cfg T cs s h b) late
