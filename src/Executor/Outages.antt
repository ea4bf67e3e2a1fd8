-- ===== src/Executor/Outages.antt =====
-- Which tools the breakers of xibi/executor.py shut off.
use xibi.Base.{
  ℕ, ◌+◌, ◌*◌, ◌≤◌, ◌<◌, ◌≡◌, refl, ap, ◌∙◌, Bool, true, false, not, ◌&&◌, List, [], ◌∷◌, length,
  all, map, arith, if◌then◌else◌, Store,
}
use mathlib.Core.Path.{subst}
use xibi.CircuitBreaker.{Config, Table, is_open}
use xibi.CircuitBreaker.Machine.{
  Phase, healthy, tripped, Represents, query-Simulates, success-Represents, failure-Represents, ask,
  fail_at,
}
use xibi.Executor.{
  Outcome, file_missing, no_spec, no_function, returned_other, raised, returned, timed_out,
  failed_outside, execute_with_timeout, record_result, circuit_open_result, unless_blocked,
  execute_local,
}

-- The outcomes that count against a tool.
abbrev pub counts : Outcome → Bool
counts (returned is_error has_xibi_error) = is_error && has_xibi_error
counts timed_out = true
counts failed_outside = true
counts _ = false

-- One use of a tool: when it is asked for, when it is done, and what its code comes to.
pub record Use : Type 0 where
  pub start : ℕ
  pub end : ℕ
  pub outcome : Outcome

-- Whether the tool's code was run, for each use in turn.
unfoldable pub use_all : Config → List Use → Store Table → List Bool × Store Table
unfolding execute_local
use_all cfg [] s = ([], s)
use_all cfg (u ∷ us) s =
    let ((result, ran), s') = execute_local cfg u.start u.end u.outcome s in
    let (rest, s'') = use_all cfg us s' in (ran ∷ rest, s'')

-- A healthy breaker after a use.
abbrev after : Config → ℕ → Outcome → ℕ → Phase
after cfg end outcome n = if counts outcome then fail_at cfg end (healthy n) else healthy 0

recorded :
    (cfg : Config) (end : ℕ) (outcome : Outcome) (s : Store Table) (n : ℕ)
    → Represents cfg s (healthy n)
    → ((record_result cfg end (execute_with_timeout outcome) s).0.1 ≡ true)
      × Represents cfg
          (record_result cfg end (execute_with_timeout outcome) s).1
          (after cfg end outcome n)
recorded cfg end file_missing s n h = (refl, success-Represents cfg s (healthy n) h)
recorded cfg end no_spec s n h = (refl, success-Represents cfg s (healthy n) h)
recorded cfg end no_function s n h = (refl, success-Represents cfg s (healthy n) h)
recorded cfg end returned_other s n h = (refl, success-Represents cfg s (healthy n) h)
recorded cfg end raised s n h = (refl, success-Represents cfg s (healthy n) h)
recorded cfg end (returned true true) s n h = (refl, failure-Represents cfg end s (healthy n) h)
recorded cfg end (returned true false) s n h = (refl, success-Represents cfg s (healthy n) h)
recorded cfg end (returned false true) s n h = (refl, success-Represents cfg s (healthy n) h)
recorded cfg end (returned false false) s n h = (refl, success-Represents cfg s (healthy n) h)
recorded cfg end timed_out s n h = (refl, failure-Represents cfg end s (healthy n) h)
recorded cfg end failed_outside s n h = (refl, failure-Represents cfg end s (healthy n) h)

executed :
    (cfg : Config) (u : Use) (s : Store Table) (n : ℕ)
    → Represents cfg s (healthy n)
    → ((execute_local cfg u.start u.end u.outcome s).0.1 ≡ true)
      × Represents cfg (execute_local cfg u.start u.end u.outcome s).1 (after cfg u.end u.outcome n)
unfolding execute_local
executed cfg u s n h = asked (is_open cfg u.start s) (query-Simulates cfg u.start s (healthy n) h)
  where
    asked :
        (q : Bool × Store Table)
        → (q.0 ≡ false) × Represents cfg q.1 (healthy n)
        → ((unless_blocked cfg u.end u.outcome q).0.1 ≡ true)
          × Represents cfg (unless_blocked cfg u.end u.outcome q).1 (after cfg u.end u.outcome n)
    asked (false, s') (lets, h') = recorded cfg u.end u.outcome s' n h'
    asked (true, s') (lets, h') = ground arith

-- A tool whose code only ever raises, is missing, or answers with an error of its own, is never shut
-- off: from a healthy breaker and while the database answers, its code is run at every use.
pub failing_tool_never_disabled :
    (cfg : Config) (us : List Use) (s : Store Table) (n : ℕ)
    → all (λ u. not (counts u.outcome)) us ≡ true
    → Represents cfg s (healthy n)
    → (use_all cfg us s).0 ≡ map (λ u. true) us
unfolding use_all
failing_tool_never_disabled cfg [] s n h rep = refl
failing_tool_never_disabled cfg (u ∷ us) s n h rep =
    let this : (counts u.outcome ≡ false) × (all (λ u. not (counts u.outcome)) us ≡ true) =
      ground (arith, h) in
    let s' = (execute_local cfg u.start u.end u.outcome s).1 in
    let (ran, left) = executed cfg u s n rep in
    let healthy_again : (if counts u.outcome then fail_at cfg u.end (healthy n) else healthy 0)
        ≡ healthy 0 =
      ap (λ b. if b then fail_at cfg u.end (healthy n) else healthy 0) this.0 in
    ap (λ b. b ∷ (use_all cfg us s').0) ran
    ∙ ap (◌∷◌ true) (
        failing_tool_never_disabled cfg us s' 0 this.1
          (subst (Represents cfg s') healthy_again left))

use_all-failing :
    (cfg : Config) (us : List Use) (s : Store Table) (n : ℕ)
    → all (λ u. counts u.outcome) us ≡ true
    → n + length us < cfg.failure_threshold
    → Represents cfg s (healthy n)
    → Represents cfg (use_all cfg us s).1 (healthy (n + length us))
unfolding use_all
use_all-failing cfg [] s n h room rep = subst (λ m. Represents cfg s (healthy m)) (omega arith) rep
use_all-failing cfg (u ∷ us) s n h room rep =
    let this : (counts u.outcome ≡ true) × (all (λ u. counts u.outcome) us ≡ true) =
      ground (arith, h) in
    let s' = (execute_local cfg u.start u.end u.outcome s).1 in
    let more : (if counts u.outcome then fail_at cfg u.end (healthy n) else healthy 0)
        ≡ healthy (n + 1) =
      ground (arith, this.0, room) in
    subst (λ m. Represents cfg (use_all cfg us s').1 (healthy m)) (omega arith)
      (use_all-failing cfg us s' (n + 1) this.1 (omega (arith, room))
        (subst (Represents cfg s') more (executed cfg u s n rep).1))

-- After as many failures in a row as the threshold says, timeouts among them, the next use within the
-- recovery time is refused: its answer says that the circuit is open, and the tool's code is not run.
-- The breaker was healthy without failures, the last failure's time is not 0, and the database answers.
pub timeouts_disable_tool :
    (cfg : Config) (us : List Use) (last next : Use) (s : Store Table)
    → all (λ u. counts u.outcome) us ≡ true
    → counts last.outcome ≡ true
    → length us + 1 ≡ cfg.failure_threshold
    → 0 < last.end
    → next.start ≤ last.end + 1_000_000 * cfg.recovery_timeout_secs
    → Represents cfg s (healthy 0)
    → let s' : Store Table = (use_all cfg us s).1 in
      let s'' : Store Table = (execute_local cfg last.start last.end last.outcome s').1 in
      (execute_local cfg next.start next.end next.outcome s'').0 ≡ (circuit_open_result, false)
unfolding execute_local
timeouts_disable_tool cfg us last next s h counted enough positive soon rep =
    let s' : Store Table = (use_all cfg us s).1 in
    let s'' : Store Table = (execute_local cfg last.start last.end last.outcome s').1 in
    let before = use_all-failing cfg us s 0 h (omega (arith, enough)) rep in
    let trips : (if counts last.outcome
          then fail_at cfg last.end (healthy (0 + length us))
          else healthy 0)
        ≡ tripped last.end 0 =
      ground (arith, counted, enough) in
    let tripped_now =
      subst (Represents cfg s'') trips (executed cfg last s' (0 + length us) before).1 in
    let asked = (query-Simulates cfg next.start s'' (tripped last.end 0) tripped_now).0 in
    let refused : (ask cfg next.start (tripped last.end 0)).0 ≡ true =
      ground (arith, soon, positive) in
    blocked (is_open cfg next.start s'') (asked ∙ refused)
  where
    blocked :
        (q : Bool × Store Table)
        → q.0 ≡ true
        → (unless_blocked cfg next.end next.outcome q).0 ≡ (circuit_open_result, false)
    blocked (true, s) e = refl
    blocked (false, s) e = ground arith
