-- ===== src/Caretaker/Tests.antt =====
-- Runs of the caretaker's theorems.
use xibi.Base.{◌≡◌, Bool, true, Option, none, some, List, [], ◌∷◌}
use xibi.Caretaker.{Finding, DriftRow, Table, critical, pulse, run_checks, clean}
use xibi.Caretaker.Drift.{observed, fresh, told, alerts_are_rising_edges}

abbrev silence : Finding
silence = record {
  check_name = "service_silence";
  severity = critical;
  dedup_key = "silence:email";
  message = "no email for 6 hours";
  metadata = none;
}

abbrev accepted_row : DriftRow
accepted_row = record {
  check_name = "service_silence";
  severity = critical;
  first_observed_at = 1;
  last_observed_at = 1;
  accepted_at = some 2;
  metadata_json = none;
}

abbrev accepted_silence : Table
accepted_silence = ("silence:email", accepted_row) ∷ []

abbrev firing : List (Option (List Finding))
firing = some (silence ∷ []) ∷ some [] ∷ []

abbrev raising : List (Option (List Finding))
raising = none ∷ some [] ∷ []

abbrev sends : Finding → Bool
sends f = true

alerts_are_rising_edges_example :
    let result = pulse sends 10 firing (pulse sends 9 raising accepted_silence).table in
    let new = fresh (observed raising) (run_checks firing clean).0 in
    (result.findings ≡ new) × (result.telegrams ≡ told sends new)
alerts_are_rising_edges_example = alerts_are_rising_edges sends 9 10 raising firing accepted_silence
