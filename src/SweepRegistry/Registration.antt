-- ===== src/SweepRegistry/Registration.antt =====
-- Registration in xibi/heartbeat/sweep_registry.py: one sweep for a name.
use xibi.Base.{
  ℕ, ◌≡◌, not, List, [], ◌∷◌, ◌++◌, String, ◌==◌, eq_iff, arith, if◌then◌else◌, length, select,
}
use xibi.SweepRegistry.{SweepDefinition, Registry, has_name, register_sweep}

module _ {D : Type 0} where
  -- How many of the sweeps have the name.
  abbrev pub count : String → List (SweepDefinition D) → ℕ
  count name sweeps = length (select (has_name name) sweeps)

  count-others :
      (name : String) (defn : SweepDefinition D) (sweeps : List (SweepDefinition D))
      → count name (select (λ s. not (has_name defn.name s)) sweeps ++ (defn ∷ []))
        ≡ (if defn.name == name then 1 else count name sweeps)
  count-others name defn [] = ground arith
  count-others name defn (s ∷ sweeps) = ground (
    arith,
    eq_iff s.name name,
    eq_iff s.name defn.name,
    eq_iff defn.name name,
    count-others name defn sweeps,
  )

  -- A registration replaces what was registered under the same name: afterwards exactly one sweep
  -- has that name, and as many as before have any other.
  count-register_sweep :
      (name : String) (defn : SweepDefinition D) (r : Registry D)
      → count name (register_sweep defn r).sweeps
        ≡ (if defn.name == name then 1 else count name r.sweeps)
  unfolding register_sweep
  count-register_sweep name defn r = count-others name defn r.sweeps
