-- ===== src/TrustGradient.antt =====
-- xibi/trust/gradient.py: how often a role's outputs are audited. The table `trust_records`, and
-- every method of `TrustGradient` but the listing of all records. The clock is a number; one
-- reading stands for the readings of one call.
pub mod Within
pub mod Keeps
pub mod Bounds
pub mod Promotion
pub mod Effects
mod Tests
use xibi.Base.{
  ℕ, zero, ◌+◌, ◌-◌, ◌*◌, ◌/◌, Bool, true, false, not, ◌&&◌, Option, none, some, List, [], ◌∷◌,
  String, ◌==◌, ◌++◌, Dict, lookup, ltb, leb, eqb, if◌then◌else◌, Action, ◌>>=◌, ◌>>◌, pure, Store,
  open_db, append_text,
}

pub record TrustConfig : Type 0 where
  pub initial_audit_interval : ℕ
  pub promote_after : ℕ
  pub demote_on_failure : Bool
  pub min_interval : ℕ
  pub max_interval : ℕ

-- DEFAULT_TRUST_CONFIG
abbrev default_trust_config : TrustConfig
default_trust_config = record {
  initial_audit_interval = 5;
  promote_after = 10;
  demote_on_failure = true;
  min_interval = 2;
  max_interval = 50;
}

pub data FailureType : Type 0 where
  transient persistent quality_degradation : FailureType

pub record TrustRecord : Type 0 where
  pub specialty : String
  pub effort : String
  pub audit_interval : ℕ
  pub consecutive_clean : ℕ
  pub total_outputs : ℕ
  pub total_failures : ℕ
  pub last_updated : ℕ
  pub model_hash : Option String
  pub last_failure_type : Option FailureType

abbrev pub Table : Type 0
Table = List TrustRecord

-- A computation on the database; `none` is an exception that reaches the caller.
abbrev pub Trust : Type 0 → Type 0
Trust A = Action (Store Table) (Option A)

abbrev pub access : {A : Type 0} → (Table → A × Table) → Trust A
access f s = open_db f s.faults s.table

-- Go on with the result, unless an exception was raised.
infixl 5 ◌>>?◌
abbrev pub ◌>>?◌ : {A B : Type 0} → Trust A → (A → Trust B) → Trust B
m >>? k = m >>= λ r. elim r [ none ↦ pure none | some a ↦ k a ]

-- The arguments of `TrustGradient.__init__`. A role's configuration is the text that
-- `json.dumps(..., sort_keys=True)` makes of it, and `digest` is the head of its SHA-256.
pub record Gradient : Type 0 where
  pub configs : Dict TrustConfig
  pub role_configs : Option (Dict String)
  pub digest : String → String

-- f"{specialty}.{effort}"
abbrev role_key : String → String → String
role_key specialty effort = append_text specialty (append_text "." effort)

abbrev or_else {ℓ} : {A : Type ℓ} → A → Option A → A
or_else d none = d
or_else d (some a) = a

unfoldable pub config_of : Gradient → String → String → TrustConfig
config_of g specialty effort =
    or_else default_trust_config (lookup (role_key specialty effort) g.configs)

unfoldable pub model_hash_of : Gradient → String → String → Option String
model_hash_of g specialty effort = elim g.role_configs [
  | none ↦ none
  | some roles ↦ some (g.digest (or_else "{}" (lookup (role_key specialty effort) roles)))
]

abbrev pub is_role : String → String → TrustRecord → Bool
is_role specialty effort r = (r.specialty == specialty) && (r.effort == effort)

-- SELECT * ... WHERE specialty = ? AND effort = ?
abbrev pub find : String → String → Table → Option TrustRecord
find specialty effort [] = none
find specialty effort (r ∷ t) =
    if is_role specialty effort r then some r else find specialty effort t

-- INSERT OR REPLACE, by the key (specialty, effort)
abbrev pub upsert : TrustRecord → Table → Table
upsert new [] = new ∷ []
upsert new (r ∷ t) = if is_role new.specialty new.effort r then new ∷ t else r ∷ upsert new t

unfoldable pub upsert_record : TrustRecord → Trust Unit
upsert_record new = access (λ t. (tt, upsert new t))

-- `sqlite3.OperationalError`, the exception of a locked database, is answered with None, as a
-- missing row is.
unfoldable pub get_record : String → String → Action (Store Table) (Option TrustRecord)
get_record specialty effort = do
  found ← access (λ t. (find specialty effort t, t))
  pure (elim found [ none ↦ none | some r ↦ r ])

-- A record for a role that has none.
abbrev pub fresh : Gradient → ℕ → String → String → Option String → TrustRecord
fresh g now specialty effort hash = record {
  specialty = specialty;
  effort = effort;
  audit_interval = (config_of g specialty effort).initial_audit_interval;
  consecutive_clean = 0;
  total_outputs = 0;
  total_failures = 0;
  last_updated = now;
  model_hash = hash;
  last_failure_type = none;
}

-- `self._upsert_record(record); return record`
abbrev pub save : TrustRecord → Trust TrustRecord
save r = upsert_record r >>? λ _. pure (some r)

unfoldable pub reset_record : Gradient → ℕ → String → String → Trust TrustRecord
unfolding upsert_record
reset_record g now specialty effort = save (fresh g now specialty effort none)

-- `current_hash and record.model_hash != current_hash`
abbrev pub has_changed : Option String → TrustRecord → Bool
has_changed none r = false
has_changed (some hash) r =
    not (hash == "") && not (elim r.model_hash [ none ↦ false | some old ↦ old == hash ])

-- The record that is updated: the stored one, after a change of model a reset one, or a new one.
abbrev pub rehashed : Gradient → ℕ → String → String → Option TrustRecord → TrustRecord
rehashed g now specialty effort none =
    fresh g now specialty effort (model_hash_of g specialty effort)
rehashed g now specialty effort (some r) = record r {
  model_hash = model_hash_of g specialty effort;
}

abbrev pub after_reset : Gradient → ℕ → String → String → Trust TrustRecord
after_reset g now specialty effort = reset_record g now specialty effort >>? (λ _. (do
  again ← get_record specialty effort
  pure (some (rehashed g now specialty effort again))))

abbrev pub current : Gradient → ℕ → String → String → Option TrustRecord → Trust TrustRecord
current g now specialty effort none =
    pure (some (fresh g now specialty effort (model_hash_of g specialty effort)))
current g now specialty effort (some r) =
    if has_changed (model_hash_of g specialty effort) r
    then after_reset g now specialty effort
    else pure (some r)

abbrev pub min : ℕ → ℕ → ℕ
min a b = if leb a b then a else b

abbrev max : ℕ → ℕ → ℕ
max a b = if leb a b then b else a

abbrev counted_success : ℕ → TrustRecord → TrustRecord
counted_success now r = record r {
  consecutive_clean = r.consecutive_clean + 1;
  total_outputs = r.total_outputs + 1;
  last_updated = now;
}

abbrev promoted : TrustConfig → TrustRecord → TrustRecord
promoted cfg r =
    if leb cfg.promote_after r.consecutive_clean && ltb r.audit_interval cfg.max_interval
    then record r {
      audit_interval = min (r.audit_interval * 2) cfg.max_interval;
      consecutive_clean = 0;
    }
    else r

unfoldable pub succeeded : TrustConfig → ℕ → TrustRecord → TrustRecord
succeeded cfg now r = promoted cfg (counted_success now r)

-- `int(n * 0.75)` is `3 * n / 4`: the product is exact as a float below 2 ^ 51.
abbrev demoted : TrustConfig → FailureType → ℕ → ℕ
demoted cfg persistent n = max (n / 2) cfg.min_interval
demoted cfg _ n = max (3 * n / 4) cfg.min_interval

abbrev clean_after : FailureType → ℕ → ℕ
clean_after quality_degradation n = n - 1
clean_after _ n = 0

unfoldable pub failed : TrustConfig → ℕ → FailureType → TrustRecord → TrustRecord
failed cfg now type r = record r {
  consecutive_clean = clean_after type r.consecutive_clean;
  audit_interval =
      if cfg.demote_on_failure then demoted cfg type r.audit_interval else r.audit_interval;
  total_outputs = r.total_outputs + 1;
  total_failures = r.total_failures + 1;
  last_updated = now;
  last_failure_type = some type;
}

abbrev pub revise : Gradient → ℕ → (TrustRecord → TrustRecord) → String → String → Trust TrustRecord
revise g now change specialty effort = do
  found ← get_record specialty effort
  current g now specialty effort found >>? λ r. save (change r)

unfoldable pub record_success : Gradient → ℕ → String → String → Trust TrustRecord
unfolding get_record
record_success g now specialty effort =
    revise g now (succeeded (config_of g specialty effort) now) specialty effort

unfoldable pub record_failure : Gradient → ℕ → FailureType → String → String → Trust TrustRecord
unfolding get_record
record_failure g now type specialty effort =
    revise g now (failed (config_of g specialty effort) now type) specialty effort

-- `self._rng.random() < 1.0 / interval`, where `drawn interval` says what the generator's next
-- number does; none is `ZeroDivisionError`.
abbrev pub sampled : (ℕ → Bool) → ℕ → Option Bool
sampled drawn zero = none
sampled drawn interval = some (drawn interval)

unfoldable pub should_audit : Gradient → (ℕ → Bool) → String → String → Trust Bool
unfolding get_record
should_audit g drawn specialty effort = do
  found ← get_record specialty effort
  pure (elim found [
    | none ↦ sampled drawn (config_of g specialty effort).initial_audit_interval
    | some r ↦ sampled drawn r.audit_interval
  ])
