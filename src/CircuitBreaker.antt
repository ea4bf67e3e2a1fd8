-- ===== src/CircuitBreaker.antt =====
-- xibi/circuit_breaker.py: the breaker's row in the table `circuit_breakers`, and every method of
-- `CircuitBreaker` that reads or writes it. Clock readings are counted in microseconds. The
-- columns `last_failure_at` and `updated_at` are never read back and are left out.
pub mod Safety
pub mod Machine
pub mod Recovery
mod Tests
use xibi.Base.{
  ℕ, zero, ◌+◌, ◌-◌, ◌*◌, Bool, true, false, Option, none, some, ltb, leb, eqb, if◌then◌else◌, not,
  ◌&&◌, Action, ◌>>=◌, ◌>>◌, pure, Store, open_db,
}

pub data CircuitState : Type 0 where
  closed opened half_open : CircuitState

pub data FailureType : Type 0 where
  persistent transient : FailureType

pub record Config : Type 0 where
  pub failure_threshold : ℕ
  pub recovery_timeout_secs : ℕ
  pub success_threshold : ℕ

-- A row of the table. The state is a text in the database: `none` is a text that names no member
-- of the enumeration, for which `CircuitState(...)` raises `ValueError`.
pub record Row : Type 0 where
  pub state : Option CircuitState
  pub failure_count : ℕ
  pub transient_count : ℕ
  pub success_count : ℕ
  pub opened_at : Option ℕ

-- The row of this breaker, if there is one.
abbrev pub Table : Type 0
Table = Option Row

abbrev Breaker : Type 0 → Type 0
Breaker A = Action (Store Table) A

-- `with open_db(self.db_path) as conn: ...`; `none` is an exception, which every method catches.
abbrev pub access : {A : Type 0} → (Table → A × Table) → Breaker (Option A)
access f s = open_db f s.faults s.table

-- UPDATE ... WHERE name = ?
abbrev pub update : (Row → Row) → Table → Table
update f none = none
update f (some row) = some (f row)

-- The row that INSERT OR IGNORE makes, with the columns' defaults.
abbrev pub initial_row : Row
initial_row = record {
  state = some closed;
  failure_count = 0;
  transient_count = 0;
  success_count = 0;
  opened_at = none;
}

abbrev insert_or_ignore : Table → Table
insert_or_ignore none = some initial_row
insert_or_ignore (some row) = some row

-- What `_get_row` and `get_status` hand out.
pub record View : Type 0 where
  pub state : Option CircuitState
  pub failure_count : ℕ
  pub success_count : ℕ
  pub opened_at : Option ℕ

abbrev defaults : View
defaults = record { state = some closed; failure_count = 0; success_count = 0; opened_at = none }

abbrev view : Row → View
view row = record {
  state = row.state;
  failure_count = row.failure_count;
  success_count = row.success_count;
  opened_at = row.opened_at;
}

try_insert_row : Breaker (Option Unit)
try_insert_row = access (λ t. (tt, insert_or_ignore t))

found_row : Option Table → Breaker View
unfolding try_insert_row
found_row none = pure defaults
found_row (some none) = do try_insert_row; pure defaults
found_row (some (some row)) = pure (view row)

get_row : Breaker View
unfolding found_row
get_row = do read ← access (λ t. (t, t)); found_row read

abbrev coalesce : Option ℕ → Option ℕ → Option ℕ
coalesce none old = old
coalesce (some new) old = some new

set_state : CircuitState → Option ℕ → Breaker (Option Unit)
set_state state at =
    access λ t.
      (tt, update (λ r. record r { state = some state; opened_at = coalesce at r.opened_at }) t)

abbrev counted : Option (Option ℕ) → ℕ
counted (some (some n)) = n
counted _ = 0

abbrev count_of : (Row → ℕ) → Table → Option ℕ
count_of f none = none
count_of f (some row) = some (f row)

abbrev fail_once : Row → Row
fail_once r = record r { failure_count = r.failure_count + 1 }

increment_failure : Breaker ℕ
increment_failure = do
  count ← access (λ t. (count_of (λ r. r.failure_count) (update fail_once t), update fail_once t))
  pure (counted count)

abbrev reset_row : Row → Row
reset_row r = record r {
  state = some closed;
  failure_count = 0;
  success_count = 0;
  opened_at = none;
}

reset : Breaker (Option Unit)
reset = access (λ t. (tt, update reset_row t))

abbrev is_half_open : Option CircuitState → Bool
is_half_open (some half_open) = true
is_half_open _ = false

-- `opened_at and (time.time() - opened_at) > recovery_timeout_secs`: a time of zero counts as none.
abbrev pub has_recovered : Config → ℕ → Option ℕ → Bool
has_recovered cfg now none = false
has_recovered cfg now (some at) =
    not (eqb at 0) && ltb (1_000_000 * cfg.recovery_timeout_secs) (now - at)

abbrev blocks : Config → ℕ → View → Breaker Bool
blocks cfg now v = elim v.state [
  | none ↦ pure false
  | some s ↦ elim s [
    | opened ↦
        if has_recovered cfg now v.opened_at
        then (do set_state half_open none; pure false)
        else pure true
    | _ ↦ pure false
  ]
]

-- True if requests should be blocked.
pub is_open : Config → ℕ → Breaker Bool
unfolding get_row set_state
is_open cfg now = do v ← get_row; blocks cfg now v

abbrev succeed_once : Row → Row
succeed_once r = record r { success_count = r.success_count + 1 }

-- `if successes and successes[0] >= success_threshold: self._reset()`
abbrev close_if_recovered : Config → Option (Option ℕ) → Breaker Unit
close_if_recovered cfg (some (some n)) =
    if leb cfg.success_threshold n then (do reset; pure tt) else pure tt
close_if_recovered cfg _ = pure tt

abbrev note_success : Config → View → Breaker Unit
note_success cfg v = elim v.state [
  | none ↦ pure tt
  | some s ↦ elim s [
    | half_open ↦ do
      count ←
          access
            λ t. (count_of (λ r. r.success_count) (update succeed_once t), update succeed_once t)
      close_if_recovered cfg count
    | closed ↦ do access (λ t. (tt, update (λ r. record r { failure_count = 0 }) t)); pure tt
    | opened ↦ pure tt
  ]
]

pub record_success : Config → Breaker Unit
unfolding get_row reset
record_success cfg = do v ← get_row; note_success cfg v

abbrev open_if_failing : Config → ℕ → ℕ → View → Breaker Unit
open_if_failing cfg now failures v = elim v.state [
  | none ↦ pure tt
  | some s ↦ elim s [
    | opened ↦ pure tt
    | _ ↦
        if leb cfg.failure_threshold failures
        then (do set_state opened (some now); pure tt)
        else pure tt
  ]
]

pub record_failure : Config → ℕ → FailureType → Breaker Unit
unfolding increment_failure get_row set_state
record_failure cfg now persistent = do
  failures ← increment_failure
  v ← get_row
  open_if_failing cfg now failures v
record_failure cfg now transient = do
  access λ t. (tt, update (λ r. record r { transient_count = r.transient_count + 1 }) t)
  pure tt

-- Health checks and the dashboard read the row.
unfoldable get_status : Breaker View
unfolding get_row
get_status = get_row
