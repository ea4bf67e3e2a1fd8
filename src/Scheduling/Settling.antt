-- ===== src/Scheduling/Settling.antt =====
-- What a run of an action leaves behind (`_process_action` of xibi/scheduling/kernel.py): retries,
-- the switch-off after ten failures, and one-shot actions.
use xibi.Base.{ℕ, zero, suc, ◌+◌, ◌^◌, ◌≤◌, ◌<◌, ◌≡◌, refl, ◌⊎◌, true, some, arith, ltb}
use xibi.Tools.{get_or}
use xibi.Scheduling.{
  ScheduledAction, interval, oneshot, RunStatus, compute_next_run, datetime_max, at_time,
}
use xibi.Scheduling.Kernel.{settle, is_failure, backoff_seconds}

pow_bounds : (n : ℕ) → 3 ≤ n → n < 10 → (2 ^ n ≤ 512) × (8 ≤ 2 ^ n)
pow_bounds zero lo hi = omega arith
pow_bounds (suc zero) lo hi = omega arith
pow_bounds (suc (suc zero)) lo hi = omega arith
pow_bounds (suc (suc (suc zero))) lo hi = (omega arith, omega arith)
pow_bounds (suc (suc (suc (suc zero)))) lo hi = (omega arith, omega arith)
pow_bounds (suc (suc (suc (suc (suc zero))))) lo hi = (omega arith, omega arith)
pow_bounds (suc (suc (suc (suc (suc (suc zero)))))) lo hi = (omega arith, omega arith)
pow_bounds (suc (suc (suc (suc (suc (suc (suc zero))))))) lo hi = (omega arith, omega arith)
pow_bounds (suc (suc (suc (suc (suc (suc (suc (suc zero)))))))) lo hi = (omega arith, omega arith)
pow_bounds (suc (suc (suc (suc (suc (suc (suc (suc (suc zero))))))))) lo hi =
    (omega arith, omega arith)
pow_bounds (suc (suc (suc (suc (suc (suc (suc (suc (suc (suc k)))))))))) lo hi = omega arith

min-pow : (n : ℕ) → 3 ≤ n → n < 10 → backoff_seconds n ≡ 2 ^ n
min-pow n lo hi = omega (arith, pow_bounds n lo hi)

-- What the `n`th failure in a row leaves.
abbrev FailedRow : ℕ → ℕ → ℕ → ScheduledAction → Type 0
FailedRow n started next b =
    (b.consecutive_failures ≡ n)
    × (b.enabled ≡ ltb n 10)
    × (3 ≤ n → n < 10 → (b.next_run_at ≡ started + 2 ^ n) × (2 ^ n ≤ 512) × (8 ≤ 2 ^ n))
    × ((n < 3) ⊎ (10 ≤ n) → b.next_run_at ≡ next)

settle-FailedRow :
    (n : ℕ) (status : RunStatus) (started next : ℕ) (a b : ScheduledAction)
    → is_failure status ≡ true
    → a.consecutive_failures + 1 ≡ n
    → FailedRow n started next (settle status started next a b)
unfolding settle
settle-FailedRow n status started next a b h e = (
  ground arith,
  ground arith,
  (λ lo hi. let p = pow_bounds n lo hi in (ground (arith, min-pow n lo hi), p.0, p.1)),
  (λ out. ground arith),
)

-- `n` failed runs of one action in a row, at the times of the trigger.
fail_times : ℕ → RunStatus → (ℕ → ℕ) → (ℕ → ℕ) → ScheduledAction → ScheduledAction
unfolding settle
fail_times zero status started next a = a
fail_times (suc n) status started next a =
    let before = fail_times n status started next a in
    settle status (started n) (next n) before before

fail_times-count :
    (n : ℕ) (status : RunStatus) (started next : ℕ → ℕ) (a : ScheduledAction)
    → is_failure status ≡ true
    → a.consecutive_failures ≡ 0
    → (fail_times n status started next a).consecutive_failures ≡ n
unfolding fail_times
fail_times-count zero status started next a h e = e
fail_times-count (suc n) status started next a h e =
    ground (arith, fail_times-count n status started next a h e)

-- From an action that has not failed since it last ran well, the failure number `n + 1` in a row (by
-- an error or a timeout) leaves `n + 1` failures on the row, and leaves the action switched on
-- exactly if they are below ten. From the third to the ninth the next run is a power of two of
-- seconds after the start of this one, at least 8 and at most 512; else it is the trigger's.
fail_times_schedule :
    (n : ℕ) (status : RunStatus) (started next : ℕ → ℕ) (a : ScheduledAction)
    → is_failure status ≡ true
    → a.consecutive_failures ≡ 0
    → FailedRow (n + 1) (started n) (next n) (fail_times (suc n) status started next a)
unfolding fail_times
fail_times_schedule n status started next a h e =
    let before = fail_times n status started next a in
    settle-FailedRow (n + 1) status (started n) (next n) before before h
      (omega (arith, fail_times-count n status started next a h e))

-- The third failure in a row, and each up to the ninth, of an interval action with an interval
-- above 512 seconds sets the next run strictly before the time that the interval alone would give.
backoff_hastens_long_intervals :
    (status : RunStatus) (started next : ℕ) (a b : ScheduledAction)
    → is_failure status ≡ true
    → a.trigger_type ≡ interval
    → 512 < get_or a.trigger_config.every_seconds 86400
    → compute_next_run a.trigger_type a.trigger_config started ≡ some next
    → 2 ≤ a.consecutive_failures
    → a.consecutive_failures < 9
    → (settle status started next a b).next_run_at < next
unfolding compute_next_run
backoff_hastens_long_intervals status started next a b h i long e lo hi =
    let row = settle-FailedRow (a.consecutive_failures + 1) status started next a b h refl in
    let late : next ≡ started + get_or a.trigger_config.every_seconds 86400 = ground arith in
    let soon = row.2 (omega arith) (omega arith) in omega arith

-- The first or second failure of a one-shot action, once its time has come, leaves it switched on
-- and puts its next run at the end of time: it is not tried again.
failed_oneshot_never_retried :
    (status : RunStatus) (started t next : ℕ) (a b : ScheduledAction)
    → is_failure status ≡ true
    → a.trigger_type ≡ oneshot
    → a.trigger_config.at ≡ at_time t
    → t ≤ started
    → compute_next_run a.trigger_type a.trigger_config started ≡ some next
    → a.consecutive_failures < 2
    → let c = settle status started next a b in (c.enabled ≡ true) × (c.next_run_at ≡ datetime_max)
unfolding settle compute_next_run
failed_oneshot_never_retried status started t next a b h o at past e few = ground arith
