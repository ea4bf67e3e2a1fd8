-- ===== src/TrustGradient/Within.antt =====
-- The bounds of the audit intervals in xibi/trust/gradient.py: what they mean for a record and a
-- table, and that a success, a failure and a write of the table keep them.
use xibi.Base.{ℕ, ◌≤◌, ◌≡◌, inl, inr, some, [], ◌∷◌, String, eq_iff, arith, Bool-cases}
use xibi.TrustGradient.{
  TrustConfig, TrustRecord, Gradient, Table, FailureType, transient, persistent,
  quality_degradation, config_of, find, upsert, is_role, succeeded, failed,
}

abbrev pub IsValid : TrustConfig → Type 0
IsValid cfg =
    (1 ≤ cfg.min_interval)
    × (cfg.min_interval ≤ cfg.initial_audit_interval)
    × (cfg.initial_audit_interval ≤ cfg.max_interval)

abbrev pub IsWithin : TrustConfig → TrustRecord → Type 0
IsWithin cfg r = (cfg.min_interval ≤ r.audit_interval) × (r.audit_interval ≤ cfg.max_interval)

-- Every stored interval is between the bounds configured for its role.
abbrev pub AllWithin : Gradient → Table → Type 0
AllWithin g [] = Unit
AllWithin g (r ∷ t) = IsWithin (config_of g r.specialty r.effort) r × AllWithin g t

abbrev pub IsOfRole : Gradient → String → String → TrustRecord → Type 0
IsOfRole g specialty effort r =
    (r.specialty ≡ specialty) × (r.effort ≡ effort) × IsWithin (config_of g specialty effort) r

pub succeeded-IsWithin :
    (cfg : TrustConfig) (now : ℕ) (r : TrustRecord)
    → IsWithin cfg r
    → IsWithin cfg (succeeded cfg now r)
unfolding succeeded
succeeded-IsWithin cfg now r within = ground arith

pub succeeded-specialty :
    (cfg : TrustConfig) (now : ℕ) (r : TrustRecord) → (succeeded cfg now r).specialty ≡ r.specialty
unfolding succeeded
succeeded-specialty cfg now r = ground arith

pub succeeded-effort :
    (cfg : TrustConfig) (now : ℕ) (r : TrustRecord) → (succeeded cfg now r).effort ≡ r.effort
unfolding succeeded
succeeded-effort cfg now r = ground arith

pub failed-IsWithin :
    (cfg : TrustConfig) (now : ℕ) (type : FailureType) (r : TrustRecord)
    → cfg.min_interval ≤ cfg.max_interval
    → IsWithin cfg r
    → IsWithin cfg (failed cfg now type r)
unfolding failed
failed-IsWithin cfg now transient r valid within = ground arith
failed-IsWithin cfg now persistent r valid within = ground arith
failed-IsWithin cfg now quality_degradation r valid within = ground arith

pub find-IsOfRole :
    (g : Gradient) (specialty effort : String) (t : Table) (r : TrustRecord)
    → AllWithin g t
    → find specialty effort t ≡ some r
    → IsOfRole g specialty effort r
find-IsOfRole g specialty effort [] r within found = ground arith
find-IsOfRole g specialty effort (x ∷ t) r within found = ground (
  arith,
  eq_iff x.specialty specialty,
  eq_iff x.effort effort,
  find-IsOfRole g specialty effort t r within.1,
)

pub upsert-AllWithin :
    (g : Gradient) (new : TrustRecord) (t : Table)
    → IsWithin (config_of g new.specialty new.effort) new
    → AllWithin g t
    → AllWithin g (upsert new t)
upsert-AllWithin g new [] ok within = (ok, tt)
upsert-AllWithin g new (r ∷ t) ok within = elim (Bool-cases (is_role new.specialty new.effort r)) [
  | inl e ↦ rw e (ok, within.1)
  | inr e ↦ rw e (within.0, upsert-AllWithin g new t ok within.1)
]
