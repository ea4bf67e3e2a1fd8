-- ===== src/SweepRegistry/Reports.antt =====
-- What a run of xibi/heartbeat/sweep_registry.py reports.
use xibi.Base.{
  ℕ, zero, suc, ◌≡◌, refl, ◌∙◌, Bool, ◌||◌, Option, none, List, [], ◌∷◌, ◌++◌, String, ◌==◌, eq_iff,
  arith, take, drop, any, lookup, insert, lookup-insert, is_some,
}
use xibi.SweepRegistry.{
  SweepDefinition, Registry, Database, Conditions, Results, has_name, run_sweep, run_sweeps,
  set_defaults, offset, ordered_sweeps, run_registered_sweeps,
}

abbrev pub reported : String → Results → Bool
reported name results = is_some (lookup name results)

reported-insert :
    (name key : String) (v : Option ℕ) (results : Results)
    → reported name (insert key v results) ≡ ((key == name) || reported name results)
reported-insert name key v results = ground (arith, lookup-insert key name v results)

module _ {D : Type 0} where
  -- Whether a sweep of that name is among them.
  abbrev pub listed : String → List (SweepDefinition D) → Bool
  listed name sweeps = any (has_name name) sweeps

  reported-set_defaults :
      (name : String) (sweeps : List (SweepDefinition D)) (results : Results)
      → reported name (set_defaults sweeps results) ≡ (reported name results || listed name sweeps)
  reported-set_defaults name [] results = ground arith
  reported-set_defaults name (s ∷ sweeps) results = ground (
    arith,
    eq_iff s.name name,
    reported-set_defaults name sweeps results,
    reported-set_defaults name sweeps (insert s.name none results),
    reported-insert name s.name none results,
  )

  listed-append :
      (name : String) (xs ys : List (SweepDefinition D))
      → listed name (xs ++ ys) ≡ (listed name xs || listed name ys)
  listed-append name [] ys = refl
  listed-append name (x ∷ xs) ys = ground (arith, listed-append name xs ys)

  listed-rotated :
      (name : String) (k : ℕ) (xs : List (SweepDefinition D))
      → (listed name (drop k xs) || listed name (take k xs)) ≡ listed name xs
  listed-rotated name zero xs = ground arith
  listed-rotated name (suc k) [] = refl
  listed-rotated name (suc k) (x ∷ xs) = ground (arith, listed-rotated name k xs)

  reported-run_sweeps :
      (around : String → Conditions) (now budget : ℕ) (rest ordered : List (SweepDefinition D))
      (db : Database D) (results : Results) (name : String)
      → (reported name results || listed name rest) ≡ listed name ordered
      → reported name (run_sweeps around now budget rest ordered db results).0 ≡ listed name ordered
  unfolding run_sweeps
  reported-run_sweeps around now budget [] ordered db results name h = ground arith
  reported-run_sweeps around now budget (s ∷ rest) ordered db results name h =
      let (rows, db') = run_sweep (around s.name) now s db in
      ground (
        arith,
        reported-insert name s.name rows results,
        reported-set_defaults name ordered results,
        reported-run_sweeps around now budget rest ordered db' (insert s.name rows results) name,
      )

  -- A run reports on every sweep and on nothing else: whatever the budget, the clock, the faults
  -- and the sweeps do, a name is a key of the returned dict just if a sweep of that name is
  -- registered.
  pub reported-run_registered_sweeps :
      (around : String → Conditions) (now budget : ℕ) (r : Registry D) (db : Database D)
      (name : String)
      → reported name (run_registered_sweeps around now budget r db).0 ≡ listed name r.sweeps
  unfolding run_registered_sweeps ordered_sweeps
  reported-run_registered_sweeps around now budget r db name = go r.sweeps r.rotation_offset
    where
      go :
          (sweeps : List (SweepDefinition D)) (o : ℕ)
          → let q : Registry D = record { sweeps = sweeps; rotation_offset = o } in
            reported name (run_registered_sweeps around now budget q db).0 ≡ listed name sweeps
      go [] o = refl
      go (s ∷ rest) o =
          let q : Registry D = record { sweeps = s ∷ rest; rotation_offset = o } in
          reported-run_sweeps around now budget (ordered_sweeps q) (ordered_sweeps q) db [] name
            refl
          ∙ listed-append name (drop (offset q) (s ∷ rest)) (take (offset q) (s ∷ rest))
          ∙ listed-rotated name (offset q) (s ∷ rest)
