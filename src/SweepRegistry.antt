-- ===== src/SweepRegistry.antt =====
-- xibi/heartbeat/sweep_registry.py: the registry of sweeps, and one run of it per heartbeat tick.
-- Times are counted in microseconds. Spans and log lines are left out.
pub mod Registration
pub mod Reports
pub mod Rotation
pub mod Gating
mod Tests
use xibi.Base.{
  ℕ, zero, suc, ◌+◌, ◌*◌, ◌/◌, ◌%◌, Bool, true, false, not, Option, none, some, List, [], ◌∷◌, ◌++◌,
  String, ◌==◌, Dict, lookup, insert, ltb, leb, if◌then◌else◌, length, take, drop, select, is_some,
  append_text,
}

-- A sweep's function works on the rest of the database; `none` is an exception.
pub record SweepDefinition (D : Type 0) : Type 0 where
  pub name : String
  pub fn : D → Option ℕ × D
  pub interval : ℕ

-- `_RegistryState`
pub record Registry (D : Type 0) : Type 0 where
  pub sweeps : List (SweepDefinition D)
  pub rotation_offset : ℕ

-- The table `heartbeat_state` and the rest of the database. A value of the table is a moment, or
-- `none`: an empty or unparseable text.
pub record Database (D : Type 0) : Type 0 where
  pub gates : Dict (Option ℕ)
  pub rest : D

-- What the surroundings do to a sweep in one run: the time gone by when its turn comes, and
-- whether opening the database, reading the gate and writing the gate raise.
pub record Conditions : Type 0 where
  pub elapsed : ℕ
  pub cannot_open : Bool
  pub cannot_read : Bool
  pub cannot_write : Bool

abbrev pub gate_key : String → String
gate_key sweep_name = append_text sweep_name "_last_run"

-- Each sweep's result: the rows affected, or None.
abbrev pub Results : Type 0
Results = Dict (Option ℕ)

abbrev found : Option (Option ℕ) → Option ℕ
found none = none
found (some value) = value

-- `when.isoformat(timespec="seconds")`
abbrev pub to_seconds : ℕ → ℕ
to_seconds time = time / 1_000_000 * 1_000_000

-- `last_run is not None and (current_now - last_run) < sweep.interval`
abbrev pub is_gated : ℕ → ℕ → Option ℕ → Bool
is_gated now interval none = false
is_gated now interval (some last_run) = ltb now (last_run + interval)

module _ {D : Type 0} where
  abbrev pub has_name : String → SweepDefinition D → Bool
  has_name name s = s.name == name

  unfoldable pub register_sweep : SweepDefinition D → Registry D → Registry D
  register_sweep defn r = record r {
    sweeps = select (λ s. not (has_name defn.name s)) r.sweeps ++ (defn ∷ []);
  }

  unfoldable clear_registry : Registry D → Registry D
  clear_registry r = record { sweeps = []; rotation_offset = 0 }

  unfoldable registered_sweeps : Registry D → List (SweepDefinition D)
  registered_sweeps r = r.sweeps

  -- An exception is answered with None, as a missing row is.
  unfoldable pub read_last_run : Conditions → Database D → String → Option ℕ
  read_last_run c db key = if c.cannot_read then none else found (lookup key db.gates)

  pub write_last_run : Conditions → String → ℕ → Database D → Database D
  write_last_run c key time db =
      if c.cannot_write
      then db
      else record db { gates = insert key (some (to_seconds time)) db.gates }

  abbrev pub perform : Conditions → ℕ → SweepDefinition D → Database D → Option ℕ × Database D
  perform c now s db =
      let (rows, rest') = s.fn db.rest in
      (rows, write_last_run c (gate_key s.name) now (record db { rest = rest' }))

  -- One turn of the loop, when there is time for it.
  unfoldable pub run_sweep : Conditions → ℕ → SweepDefinition D → Database D → Option ℕ × Database D
  unfolding read_last_run write_last_run
  run_sweep c now s db =
      if c.cannot_open
      then (none, db)
      else if is_gated now s.interval (read_last_run c db (gate_key s.name))
      then (none, db)
      else perform c now s db

  -- `for s in ordered: results.setdefault(s.name, None)`
  abbrev pub set_defaults : List (SweepDefinition D) → Results → Results
  set_defaults [] results = results
  set_defaults (s ∷ rest) results =
      set_defaults rest
        (if is_some (lookup s.name results) then results else insert s.name none results)

  -- The loop over `ordered`, of which the first list is what is left.
  unfoldable pub run_sweeps :
      (String → Conditions)
      → ℕ
      → ℕ
      → List (SweepDefinition D)
      → List (SweepDefinition D)
      → Database D
      → Results
      → Results × Database D
  unfolding run_sweep
  run_sweeps around now budget [] ordered db results = (results, db)
  run_sweeps around now budget (s ∷ rest) ordered db results =
      let (rows, db') = run_sweep (around s.name) now s db in
      let after = run_sweeps around now budget rest ordered db' (insert s.name rows results) in
      if leb budget (around s.name).elapsed then (set_defaults ordered results, db) else after

  -- `_state.rotation_offset % n`; only a registry with sweeps gets here.
  abbrev pub offset : Registry D → ℕ
  offset r = r.rotation_offset % length r.sweeps

  -- `sweeps[offset:] + sweeps[:offset]`
  unfoldable pub ordered_sweeps : Registry D → List (SweepDefinition D)
  ordered_sweeps r = drop (offset r) r.sweeps ++ take (offset r) r.sweeps

  unfoldable pub rotate : Registry D → Registry D
  rotate r = record r { rotation_offset = (offset r + 1) % length r.sweeps }

  abbrev run_ordered :
      (String → Conditions)
      → ℕ
      → ℕ
      → List (SweepDefinition D)
      → Registry D
      → Database D
      → Results × Registry D × Database D
  run_ordered around now budget ordered r db =
      let (results, db') = run_sweeps around now budget ordered ordered db [] in
      (results, rotate r, db')

  unfoldable pub run_registered_sweeps :
      (String → Conditions) → ℕ → ℕ → Registry D → Database D → Results × Registry D × Database D
  unfolding rotate ordered_sweeps run_sweeps
  run_registered_sweeps around now budget r db = elim r.sweeps [
    | [] ↦ ([], r, db)
    | s ∷ rest ↦ run_ordered around now budget (ordered_sweeps r) r db
  ]
