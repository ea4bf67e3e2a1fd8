-- ===== src/TrustGradient/Effects.antt =====
-- What one call of xibi/trust/gradient.py does to the table, with and without a locked database.
use xibi.Base.{
  Option-cases, Bool-cases, inl, inr, ℕ, ◌*◌, ◌≤◌, ◌≡◌, refl, ap, ◌∙◌, true, false, none, some, [],
  ◌∷◌, String, eq_iff, arith, if◌then◌else◌, Store,
}
use xibi.TrustGradient.{
  TrustConfig, TrustRecord, Gradient, Table, config_of, model_hash_of, find, upsert, is_role,
  succeeded, fresh, get_record, upsert_record, reset_record, revise, record_success, has_changed,
}

-- The primary key: the new record is found under its own role, every other role's as before.
find-upsert :
    (specialty effort : String) (new : TrustRecord) (t : Table)
    → find specialty effort (upsert new t)
      ≡ (if is_role specialty effort new then some new else find specialty effort t)
find-upsert specialty effort new [] = ground arith
find-upsert specialty effort new (r ∷ t) = ground (
  arith,
  eq_iff r.specialty specialty,
  eq_iff r.effort effort,
  eq_iff new.specialty specialty,
  eq_iff new.effort effort,
  eq_iff r.specialty new.specialty,
  eq_iff r.effort new.effort,
  find-upsert specialty effort new t,
)

-- A store that raises nothing.
abbrev pub sound : Table → Store Table
sound t = record { table = t; faults = [] }

pub revise-found :
    (g : Gradient) (now : ℕ) (change : TrustRecord → TrustRecord) (specialty effort : String)
    (t : Table) (r : TrustRecord)
    → find specialty effort t ≡ some r
    → has_changed (model_hash_of g specialty effort) r ≡ false
    → revise g now change specialty effort (sound t)
      ≡ (some (change r), sound (upsert (change r) t))
unfolding get_record upsert_record
revise-found g now change specialty effort t r found same = rw (found, same) refl

pub find-revise :
    (specialty effort : String) (new : TrustRecord) (t : Table)
    → new.specialty ≡ specialty
    → new.effort ≡ effort
    → find specialty effort (upsert new t) ≡ some new
find-revise specialty effort new t h k = ground (
  arith,
  eq_iff new.specialty specialty,
  eq_iff new.effort effort,
  find-upsert specialty effort new t,
)

-- After a change of model the stored record is overwritten by a blank one first.
revise-changed :
    (g : Gradient) (now : ℕ) (change : TrustRecord → TrustRecord) (specialty effort : String)
    (t : Table) (r : TrustRecord)
    → find specialty effort t ≡ some r
    → has_changed (model_hash_of g specialty effort) r ≡ true
    → let new = fresh g now specialty effort (model_hash_of g specialty effort) in
      revise g now change specialty effort (sound t) ≡ (
        some (change new),
        sound (upsert (change new) (upsert (fresh g now specialty effort none) t)),
      )
unfolding get_record upsert_record reset_record
revise-changed g now change specialty effort t r found changed =
    rw
      (found, changed, find-revise specialty effort (fresh g now specialty effort none) t refl refl)
      refl

revise-absent :
    (g : Gradient) (now : ℕ) (change : TrustRecord → TrustRecord) (specialty effort : String)
    (t : Table)
    → find specialty effort t ≡ none
    → let new = fresh g now specialty effort (model_hash_of g specialty effort) in
      revise g now change specialty effort (sound t)
      ≡ (some (change new), sound (upsert (change new) t))
unfolding get_record upsert_record
revise-absent g now change specialty effort t e = rw e refl

-- With a database that raises nothing a record is always written and returned.
pub revise-Returns :
    (g : Gradient) (now : ℕ) (change : TrustRecord → TrustRecord) (specialty effort : String)
    (t : Table)
    → (r : TrustRecord) × (t' : Table) × (revise g now change specialty effort (sound t)
        ≡ (some r, sound t'))
revise-Returns g now change specialty effort t = elim (Option-cases (find specialty effort t)) [
  | inl e ↦ (_, _, revise-absent g now change specialty effort t e)
  | inr (r, e) ↦ elim (Bool-cases (has_changed (model_hash_of g specialty effort) r)) [
    | inl changed ↦ (_, _, revise-changed g now change specialty effort t r e changed)
    | inr same ↦ (_, _, revise-found g now change specialty effort t r e same)
  ]
]

pub succeeded_same :
    (cfg : TrustConfig) (now : ℕ) (r : TrustRecord)
    → ((succeeded cfg now r).specialty ≡ r.specialty) × ((succeeded cfg now r).effort ≡ r.effort)
unfolding succeeded
succeeded_same cfg now r = ground arith

first_success :
    (cfg : TrustConfig) (now : ℕ) (r : TrustRecord)
    → r.total_outputs ≡ 0
    → r.total_failures ≡ 0
    → ((succeeded cfg now r).total_outputs ≡ 1)
      × ((succeeded cfg now r).total_failures ≡ 0)
      × ((succeeded cfg now r).model_hash ≡ r.model_hash)
      × ((succeeded cfg now r).audit_interval ≤ r.audit_interval * 2)
unfolding succeeded
first_success cfg now r h k = ground arith

-- A locked database loses the record: when the read of `record_success` raises and its write does
-- not, then whatever record the role had is replaced by one that counts a single output and no
-- failure, with at most the initial interval doubled.
locked_read_forgets :
    (g : Gradient) (now : ℕ) (specialty effort : String) (t : Table)
    → (x : TrustRecord) × (find specialty effort
          (record_success g now specialty effort (record { table = t; faults = true ∷ [] })).1.table
        ≡ some x)
      × (x.total_outputs ≡ 1)
      × (x.total_failures ≡ 0)
      × (x.audit_interval ≤ (config_of g specialty effort).initial_audit_interval * 2)
unfolding record_success get_record upsert_record succeeded
locked_read_forgets g now specialty effort t =
    let cfg = config_of g specialty effort in
    let new = fresh g now specialty effort (model_hash_of g specialty effort) in
    let same = succeeded_same cfg now new in
    let counts = first_success cfg now new refl refl in
    (
      succeeded cfg now new,
      find-revise specialty effort (succeeded cfg now new) t same.0 same.1,
      counts.0,
      counts.1,
      counts.3,
    )

-- A change of model starts the role over: on a database that raises nothing, a success recorded
-- for a role whose stored record was made by another model leaves a record that carries the
-- present model's hash and counts this one output.
new_model_starts_over :
    (g : Gradient) (now : ℕ) (specialty effort : String) (t : Table) (r : TrustRecord)
    → find specialty effort t ≡ some r
    → has_changed (model_hash_of g specialty effort) r ≡ true
    → (x : TrustRecord) × (find specialty effort
          (record_success g now specialty effort (sound t)).1.table
        ≡ some x)
      × (x.model_hash ≡ model_hash_of g specialty effort)
      × (x.total_outputs ≡ 1)
      × (x.total_failures ≡ 0)
unfolding record_success get_record upsert_record succeeded reset_record
new_model_starts_over g now specialty effort t r found changed =
    let cfg = config_of g specialty effort in
    let new = fresh g now specialty effort (model_hash_of g specialty effort) in
    let same = succeeded_same cfg now new in
    let counts = first_success cfg now new refl refl in
    let blank = upsert (fresh g now specialty effort none) t in
    (
      succeeded cfg now new,
      ap (λ o. find specialty effort o.1.table)
            (revise-changed g now (succeeded cfg now) specialty effort t r found changed)
          ∙ find-revise specialty effort (succeeded cfg now new) blank same.0 same.1,
      counts.2,
      counts.0,
      counts.1,
    )
