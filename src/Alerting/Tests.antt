-- ===== src/Alerting/Tests.antt =====
-- A day of mails and digests.
use xibi.Base.{◌≡◌, refl, true, false, none, List, [], ◌∷◌, ◌++◌, arith, select}
use xibi.Alerting.{Engine, is_digestible, joined}
use xibi.Alerting.Digests.{Event, triaged, digest, run, pending}
use xibi.Alerting.Reporting.{digests_report_once}

-- The second digest finds the database locked.
abbrev engine : Engine
engine = record {
  db = record {
    table = record { triage_log = []; signals = []; last_digest_at = none; seen_emails = [] };
    faults = false ∷ false ∷ false ∷ true ∷ [];
  };
  watermark_cache = 0;
}

abbrev day : List Event
day =
    triaged 10 "m1" "ann" "lunch" "LOW"
    ∷ triaged 10 "m2" "bob" "fire" "URGENT"
    ∷ digest 10
    ∷ digest 20
    ∷ triaged 25 "m3" "eve" "news" "LOW"
    ∷ digest 30
    ∷ []

digests_report_once_example :
    let (reported, e) = run day engine in
    reported ++ joined e.db.table.signals (pending e.db.table)
    ≡ joined e.db.table.signals (select is_digestible e.db.table.triage_log)
digests_report_once_example =
    digests_report_once day engine
      (
        omega arith,
        omega arith,
        (
          omega arith,
          omega arith,
          (omega arith, (omega arith, (omega arith, omega arith, (omega arith, tt)))),
        ),
      )
      refl refl
