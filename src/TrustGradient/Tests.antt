-- ===== src/TrustGradient/Tests.antt =====
-- Runs of the audit intervals' theorems on one role.
use xibi.Base.{ℕ, List, ◌≤◌, ◌≡◌, refl, arith, true, false, none, some, [], ◌∷◌, Store, String}
use xibi.TrustGradient.{
  TrustConfig, TrustRecord, Gradient, Table, config_of, model_hash_of, has_changed, persistent,
}
use xibi.TrustGradient.Within.{IsValid, AllWithin}
use xibi.TrustGradient.Bounds.{
  perform_all, success_of, failure_of, restart_of, Call, perform_all-AllWithin,
}

abbrev two_step : TrustConfig
two_step = record {
  initial_audit_interval = 5;
  promote_after = 2;
  demote_on_failure = true;
  min_interval = 2;
  max_interval = 16;
}

abbrev gradient : Gradient
gradient = record {
  configs = ("text.fast", two_step) ∷ [];
  role_configs = some (("text.fast", "{}") ∷ []);
  digest = λ json. "ab12";
}

abbrev stored : TrustRecord
stored = record {
  specialty = "text";
  effort = "fast";
  audit_interval = 5;
  consecutive_clean = 0;
  total_outputs = 7;
  total_failures = 3;
  last_updated = 0;
  model_hash = some "ab12";
  last_failure_type = none;
}

abbrev outdated : TrustRecord
outdated = record stored { model_hash = some "ff00" }

abbrev calls : List (ℕ × Call)
calls =
    (1, success_of "text" "fast")
    ∷ (2, failure_of persistent "text" "fast")
    ∷ (3, restart_of "code" "think")
    ∷ []

abbrev faulty : Store Table
faulty = record { table = stored ∷ []; faults = false ∷ false ∷ true ∷ [] }

valid : (specialty effort : String) → IsValid (config_of gradient specialty effort)
unfolding config_of
valid specialty effort = ground arith

within : AllWithin gradient faulty.table
unfolding config_of
within = ground arith

perform_all-AllWithin_example : AllWithin gradient (perform_all gradient calls faulty).table
perform_all-AllWithin_example = perform_all-AllWithin gradient calls faulty valid within

outdated_changed : has_changed (model_hash_of gradient "text" "fast") outdated ≡ true
unfolding model_hash_of
outdated_changed = refl

stored_unchanged : has_changed (model_hash_of gradient "text" "fast") stored ≡ false
unfolding model_hash_of
stored_unchanged = refl

needed : 1 ≤ (config_of gradient "text" "fast").promote_after
unfolding config_of
needed = omega arith

below : stored.audit_interval ≤ (config_of gradient "text" "fast").max_interval
unfolding config_of
below = omega arith
