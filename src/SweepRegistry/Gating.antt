-- ===== src/SweepRegistry/Gating.antt =====
-- The interval between two runs of one sweep in xibi/heartbeat/sweep_registry.py.
use xibi.Base.{ℕ, ◌+◌, ◌<◌, ◌≡◌, false, none, some, eq_refl, arith, lookup-insert}
use xibi.SweepRegistry.{
  SweepDefinition, Database, Conditions, run_sweep, is_gated, to_seconds, gate_key, read_last_run,
}

module _ {D : Type 0} where
  -- The interval is kept, also by a sweep that raised: once a due sweep has had its turn and its
  -- gate could be written, a later turn whose gate can be read does nothing, reports None and
  -- leaves the database alone, until the interval has gone by since the first turn's time cut to
  -- whole seconds.
  interval_respected :
      (first later : Conditions) (now now' : ℕ) (s : SweepDefinition D) (db : Database D)
      → first.cannot_open ≡ false
      → first.cannot_write ≡ false
      → is_gated now s.interval (read_last_run first db (gate_key s.name)) ≡ false
      → later.cannot_read ≡ false
      → now' < to_seconds now + s.interval
      → run_sweep later now' s (run_sweep first now s db).1 ≡ (none, (run_sweep first now s db).1)
  unfolding run_sweep
  interval_respected first later now now' s db opened written due readable early = ground (
    arith,
    eq_refl (gate_key s.name),
    lookup-insert (gate_key s.name) (gate_key s.name) (some (to_seconds now)) db.gates,
  )
