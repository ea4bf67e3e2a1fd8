-- ===== src/SweepRegistry/Rotation.antt =====
-- The round robin of xibi/heartbeat/sweep_registry.py.
use xibi.Base.{
  zero_add, suc_add, ℕ, zero, suc, ◌+◌, ◌-◌, ◌%◌, ◌≤◌, ◌<◌, ◌≡◌, refl, ap, ◌∙◌, ◌⊎◌, inl, inr,
  Option, none, some, List, [], ◌∷◌, ◌++◌, arith, length, take, drop, String, ◌≢◌, sym,
}
use native.Mathlib.Nat.{mod-eq_of_lt, mod_self, mod-mod}
use xibi.SweepRegistry.{
  SweepDefinition, Registry, offset, ordered_sweeps, rotate, Database, run_registered_sweeps,
  Conditions, run_sweeps,
}

step_mod : (o n : ℕ) → o + 1 < n → (o + 1) % n % n ≡ suc o
step_mod o n h = mod-mod (o + 1) n ∙ mod-eq_of_lt h ∙ omega arith

wrap_mod : (o n : ℕ) → o + 1 ≡ n → (o + 1) % n % n ≡ 0
wrap_mod o n h = mod-mod (o + 1) n ∙ ap (λ k. k % n) h ∙ mod_self n

-- What one run is given: what surrounds the sweeps, the time and the budget.
pub record Beat : Type 0 where
  pub around : String → Conditions
  pub now : ℕ
  pub budget : ℕ

module _ {D : Type 0} where
  -- The registry after a number of runs.
  abbrev pub rotate_times : ℕ → Registry D → Registry D
  rotate_times zero r = r
  rotate_times (suc n) r = rotate_times n (rotate r)

  -- The sweep at a position, and the sweep that a run starts with.
  abbrev pub at : ℕ → List (SweepDefinition D) → Option (SweepDefinition D)
  at i [] = none
  at zero (s ∷ sweeps) = some s
  at (suc i) (s ∷ sweeps) = at i sweeps

  at-drop :
      (i : ℕ) (xs ys : List (SweepDefinition D))
      → i < length xs
      → at zero (drop i xs ++ ys) ≡ at i xs
  at-drop zero (x ∷ xs) ys h = refl
  at-drop (suc i) (x ∷ xs) ys h = at-drop i xs ys (omega arith)
  at-drop zero [] ys h = absurd (omega (arith, h))
  at-drop (suc i) [] ys h = absurd (omega (arith, h))

  sweeps-rotate_times : (n : ℕ) (r : Registry D) → (rotate_times n r).sweeps ≡ r.sweeps
  unfolding rotate
  sweeps-rotate_times zero r = refl
  sweeps-rotate_times (suc n) r = sweeps-rotate_times n (rotate r)

  length-rotate : (r : Registry D) → length (rotate r).sweeps ≡ length r.sweeps
  unfolding rotate
  length-rotate r = refl

  offset-rotate :
      (r : Registry D) → offset r + 1 < length r.sweeps → offset (rotate r) ≡ suc (offset r)
  unfolding rotate
  offset-rotate r h = step_mod (offset r) (length r.sweeps) h

  offset-wrap : (r : Registry D) → offset r + 1 ≡ length r.sweeps → offset (rotate r) ≡ 0
  unfolding rotate
  offset-wrap r h = wrap_mod (offset r) (length r.sweeps) h

  -- Counting up from the present position.
  offset-climb :
      (k : ℕ) (r : Registry D)
      → offset r + k < length r.sweeps
      → offset (rotate_times k r) ≡ offset r + k
  offset-climb zero r h = omega arith
  offset-climb (suc k) r h =
      let step = offset-rotate r (omega arith) in
      let same = length-rotate r in
      offset-climb k (rotate r) (omega (arith, step, same, h)) ∙ omega (arith, step)

  rotate_times_add :
      (m n : ℕ) (r : Registry D) → rotate_times (m + n) r ≡ rotate_times n (rotate_times m r)
  rotate_times_add zero n r = ap (λ k. rotate_times k r) (zero_add n)
  rotate_times_add (suc m) n r =
      ap (λ k. rotate_times k r) (suc_add m n) ∙ rotate_times_add m n (rotate r)

  -- Some number of runs, fewer than there are sweeps, leads to a given position.
  offset-reach :
      (r : Registry D) (i : ℕ)
      → i < length r.sweeps
      → (k : ℕ) × (k < length r.sweeps) × (offset (rotate_times k r) ≡ i)
  offset-reach r i h = elim (order (offset r) i) [
    | inl below ↦
        (i - offset r, omega arith, offset-climb (i - offset r) r (omega arith) ∙ omega arith)
    | inr above ↦
        let n = length r.sweeps in
        let d = n - 1 - offset r in
        let last = offset-climb d r (omega arith) in
        let q = rotate_times d r in
        let same = ap length (sweeps-rotate_times d r) in
        let wrapped = offset-wrap q (omega (arith, last, same)) in
        let kept = length-rotate q in
        let there = offset-climb i (rotate q) (omega (arith, wrapped, kept, same)) in
        (
          d + suc i,
          omega arith,
          ap offset (rotate_times_add d (suc i) r) ∙ there ∙ omega (arith, wrapped),
        )
  ]
    where
      order : (a b : ℕ) → (a ≤ b) ⊎ (b < a)
      order a b = ground arith

  -- The registry and the database after so many runs, with the beat of each by its number.
  abbrev pub after_runs : (ℕ → Beat) → ℕ → Registry D → Database D → Registry D × Database D
  after_runs beats zero r db = (r, db)
  after_runs beats (suc n) r db =
      let (r', db') = after_runs beats n r db in
      let (results, r'', db'') =
        run_registered_sweeps (beats n).around (beats n).now (beats n).budget r' db' in
      (r'', db'')

  cons_of :
      (xs : List (SweepDefinition D))
      → xs ≢ []
      → (s : SweepDefinition D) × (rest : List (SweepDefinition D)) × (xs ≡ s ∷ rest)
  cons_of [] ne = absurd (ne refl)
  cons_of (s ∷ rest) ne = (s, rest, refl)

  run-ordered :
      (b : Beat) (r : Registry D) (db : Database D)
      → r.sweeps ≢ []
      → let order = ordered_sweeps r in
        let (results, db') = run_sweeps b.around b.now b.budget order order db [] in
        run_registered_sweeps b.around b.now b.budget r db ≡ (results, rotate r, db')
  unfolding run_registered_sweeps
  run-ordered b r db ne = let (s, rest, e) = cons_of r.sweeps ne in rw e refl

  rotate-rotate_times :
      (n : ℕ) (r : Registry D) → rotate (rotate_times n r) ≡ rotate_times (suc n) r
  rotate-rotate_times n r =
      let next : n + 1 ≡ suc n = omega arith in
      sym (rotate_times_add n 1 r) ∙ ap (λ k. rotate_times k r) next

  rotate_times-sweeps : (n : ℕ) (r : Registry D) → r.sweeps ≢ [] → (rotate_times n r).sweeps ≢ []
  rotate_times-sweeps n r ne e = ne (sym (sweeps-rotate_times n r) ∙ e)

  after_runs-rotate_times :
      (beats : ℕ → Beat) (n : ℕ) (r : Registry D) (db : Database D)
      → r.sweeps ≢ []
      → (after_runs beats n r db).0 ≡ rotate_times n r
  after_runs-rotate_times beats zero r db ne = refl
  after_runs-rotate_times beats (suc n) r db ne =
      let (r', db') = after_runs beats n r db in
      let same = after_runs-rotate_times beats n r db ne in
      let there : r'.sweeps ≢ [] =
        λ e. rotate_times-sweeps n r ne (ap (λ q. q.sweeps) (sym same) ∙ e) in
      ap (λ q. q.1) (run-ordered (beats n) r' db' there)
      ∙ ap (λ q. rotate q) same
      ∙ rotate-rotate_times n r

  at-some :
      (i : ℕ) (xs : List (SweepDefinition D))
      → i < length xs
      → (s : SweepDefinition D) × (at i xs ≡ some s)
  at-some i [] h = absurd (omega (arith, h))
  at-some zero (s ∷ xs) h = (s, refl)
  at-some (suc i) (s ∷ xs) h = at-some i xs (omega arith)

  at_zero :
      (s : SweepDefinition D) (xs : List (SweepDefinition D))
      → at zero xs ≡ some s
      → (rest : List (SweepDefinition D)) × (xs ≡ s ∷ rest)
  at_zero s [] e = cc
  at_zero s (x ∷ rest) e = (rest, cc)

  leads :
      (k i : ℕ) (r : Registry D)
      → offset (rotate_times k r) ≡ i
      → i < length r.sweeps
      → at zero (ordered_sweeps (rotate_times k r)) ≡ at i r.sweeps
  unfolding ordered_sweeps
  leads k i r e h = rw (e, sweeps-rotate_times k r) (at-drop i r.sweeps (take i r.sweeps) h)

  -- Whatever the rotation, and whatever time, budget and surroundings each run has: each of the `n`
  -- registered sweeps is the one that the loop of one of the next `n` runs starts with.
  pub every_sweep_leads :
      (beats : ℕ → Beat) (r : Registry D) (db : Database D) (i : ℕ)
      → i < length r.sweeps
      → (k : ℕ) × (k < length r.sweeps)
        × (s : SweepDefinition D) × (at i r.sweeps ≡ some s)
        × (rest : List (SweepDefinition D)) × (let (r', db') = after_runs beats k r db in
            let b = beats k in
            let (results, r'', db'') = run_registered_sweeps b.around b.now b.budget r' db' in
            (results, db'') ≡ run_sweeps b.around b.now b.budget (s ∷ rest) (s ∷ rest) db' [])
  every_sweep_leads beats r db i h =
      let (k, less, e) = offset-reach r i h in
      let (s, here) = at-some i r.sweeps h in
      let ne : r.sweeps ≢ [] = λ f. ground (arith, f, h) in
      let b = beats k in
      let (r', db') = after_runs beats k r db in
      let same = after_runs-rotate_times beats k r db ne in
      let there : r'.sweeps ≢ [] =
        λ f. rotate_times-sweeps k r ne (ap (λ q. q.sweeps) (sym same) ∙ f) in
      let (rest, first) =
        at_zero s (ordered_sweeps r')
          (ap (λ q. at zero (ordered_sweeps q)) same ∙ leads k i r e h ∙ here) in
      (
        k,
        less,
        s,
        here,
        rest,
        ap (λ q. (q.0, q.2)) (run-ordered b r' db' there)
            ∙ ap (λ order. run_sweeps b.around b.now b.budget order order db' []) first,
      )
