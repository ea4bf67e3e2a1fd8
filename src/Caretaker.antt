-- ===== src/Caretaker.antt =====
-- xibi/caretaker: the drift state of dedup.py, the notifier of notifier.py and `Caretaker.pulse` of
-- pulse.py. What the checks return is an argument, `none` for a check that raised; the database is
-- taken to answer, since an exception of it leaves `pulse`. Spans and durations are left out.
pub mod Drift
pub mod Verdict
mod Tests
use xibi.Base.{
  ℕ, suc, ◌+◌, Bool, true, false, not, ◌&&◌, Option, none, some, List, [], ◌∷◌, ◌++◌, String, ◌==◌,
  Dict, lookup, insert, remove, keys, ltb, if◌then◌else◌, length, select, member, is_some,
}

pub data Severity : Type 0 where
  warning critical : Severity

-- The metadata is the JSON text that is stored, or none when the dict is empty.
pub record Finding : Type 0 where
  pub check_name : String
  pub severity : Severity
  pub dedup_key : String
  pub message : String
  pub metadata : Option String

-- A row of `caretaker_drift_state`, whose primary key is the dedup key.
pub record DriftRow : Type 0 where
  pub check_name : String
  pub severity : Severity
  pub first_observed_at : ℕ
  pub last_observed_at : ℕ
  pub accepted_at : Option ℕ
  pub metadata_json : Option String

abbrev pub Table : Type 0
Table = Dict DriftRow

unfoldable pub seen_before : String → Table → Bool
seen_before key t = is_some (lookup key t)

abbrev accepted : Option DriftRow → Bool
accepted none = false
accepted (some row) = is_some row.accepted_at

unfoldable is_accepted : String → Table → Bool
is_accepted key t = accepted (lookup key t)

abbrev pub drift_row : ℕ → Finding → DriftRow
drift_row now f = record {
  check_name = f.check_name;
  severity = f.severity;
  first_observed_at = now;
  last_observed_at = now;
  accepted_at = none;
  metadata_json = f.metadata;
}

-- INSERT OR IGNORE
unfoldable pub record_finding : ℕ → Finding → Table → Table
record_finding now f t =
    if is_some (lookup f.dedup_key t) then t else insert f.dedup_key (drift_row now f) t

-- UPDATE ... WHERE dedup_key = ?
abbrev pub update : (DriftRow → DriftRow) → String → Table → Table
update change key [] = []
update change key ((k, row) ∷ t) = (k, if k == key then change row else row) ∷ update change key t

unfoldable touch : ℕ → String → Table → Table
touch now key t = update (λ row. record row { last_observed_at = now }) key t

unfoldable resolve : String → Table → Table
resolve key t = remove key t

unfoldable accept : ℕ → String → Table → Table
accept now key t = update (λ row. record row { accepted_at = some now }) key t

unfoldable pub active_keys : Table → List String
active_keys t = keys t

-- A telegram's category, title and message.
abbrev pub Telegram : Type 0
Telegram = String × String × String

abbrev pub title_of : String → String
title_of name =
    if name == "service_silence"
    then "service silence"
    else if name == "config_drift"
    then "config drift"
    else if name == "schema_drift"
    then "schema drift"
    else if name == "provider_health"
    then "provider health"
    else name

abbrev pub category_of : Severity → String
category_of critical = "urgent"
category_of warning = "alert"

-- One telegram for a finding; `sends` says for which of them `send_nudge` does not raise. The
-- telegrams sent, of which the source returns the number.
unfoldable pub notify : (Finding → Bool) → List Finding → List Telegram
notify sends [] = []
notify sends (f ∷ findings) =
    let rest = notify sends findings in
    if sends f then (category_of f.severity, title_of f.check_name, f.message) ∷ rest else rest

pub data Status : Type 0 where
  clean resolved repeat findings error : Status

-- _STATUS_RANK
abbrev status_rank : Status → ℕ
status_rank clean = 0
status_rank resolved = 1
status_rank repeat = 2
status_rank findings = 3
status_rank error = 4

abbrev pub bump : Status → Status → Status
bump s status = if ltb (status_rank status) (status_rank s) then s else status

-- What `pulse` carries through its loops.
pub record Pass : Type 0 where
  pub status : Status
  pub table : Table
  pub new_findings : List Finding
  pub repeat_findings : List Finding

-- The loop over the checks.
unfoldable pub run_checks : List (Option (List Finding)) → Status → List Finding × Status
run_checks [] status = ([], status)
run_checks (none ∷ checks) status = run_checks checks (bump error status)
run_checks (some produced ∷ checks) status =
    let (rest, s) = run_checks checks status in (produced ++ rest, s)

-- One round of the dedup state machine.
unfoldable pub settle : ℕ → Finding → Pass → Pass
unfolding seen_before is_accepted record_finding touch
settle now f p =
    if not (seen_before f.dedup_key p.table)
    then record p {
      table = record_finding now f p.table;
      new_findings = p.new_findings ++ (f ∷ []);
      status = bump findings p.status;
    }
    else if is_accepted f.dedup_key p.table
    then p
    else record p {
      table = touch now f.dedup_key p.table;
      repeat_findings = p.repeat_findings ++ (f ∷ []);
      status = bump repeat p.status;
    }

unfoldable pub settle_all : ℕ → List Finding → Pass → Pass
settle_all now [] p = p
settle_all now (f ∷ fs) p = settle_all now fs (settle now f p)

abbrev pub observed_keys : List Finding → List String
observed_keys [] = []
observed_keys (f ∷ fs) = f.dedup_key ∷ observed_keys fs

-- `active_keys(...) - observed_keys`; the order of a Python set is not fixed, here it is the table's.
unfoldable pub gone_keys : List Finding → Table → List String
unfolding active_keys
gone_keys fs t = select (λ k. not (member k (observed_keys fs))) (active_keys t)

unfoldable pub resolve_all : List String → Table → Table
unfolding resolve
resolve_all [] t = t
resolve_all (k ∷ ks) t = resolve_all ks (resolve k t)

abbrev pub bump_all : List String → Status → Status
bump_all [] status = status
bump_all (k ∷ ks) status = bump_all ks (bump resolved status)

-- `PulseResult`, with the telegrams sent and the table left.
pub record PulseResult : Type 0 where
  pub status : Status
  pub findings : List Finding
  pub repeats : List Finding
  pub resolved_keys : List String
  pub telegrams : List Telegram
  pub table : Table

unfoldable pub pulse : (Finding → Bool) → ℕ → List (Option (List Finding)) → Table → PulseResult
unfolding run_checks settle_all gone_keys resolve_all notify
pulse sends now checks t =
    let (fs, s) = run_checks checks clean in
    let p =
      settle_all now fs
        (record { status = s; table = t; new_findings = []; repeat_findings = [] }) in
    let gone = gone_keys fs p.table in
    record {
      status = bump_all gone p.status;
      findings = p.new_findings;
      repeats = p.repeat_findings;
      resolved_keys = gone;
      telegrams = notify sends p.new_findings;
      table = resolve_all gone p.table;
    }
