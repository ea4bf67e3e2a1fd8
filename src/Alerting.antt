-- ===== src/Alerting.antt =====
-- The digest of xibi/alerting/rules.py: `RuleEngine` over the table of triaged mail and the watermark of
-- the last digest. Times are whole seconds, as in the tables' texts.
pub mod Digests
pub mod Reporting
mod Tests
use xibi.Base.{
  ℕ, Bool, true, false, not, ◌&&◌, Option, none, some, String, List, [], ◌∷◌, ◌++◌, ◌==◌, ltb, leb,
  if◌then◌else◌, member, select, Store, open_db,
}

pub record TriageRow : Type 0 where
  pub email_id : String
  pub sender : String
  pub subject : String
  pub verdict : String
  pub timestamp : ℕ

pub record Signal : Type 0 where
  pub id : ℕ
  pub ref_id : String
  pub source : String

-- The signals are those whose `ref_source` is mail. The watermark is the row `last_digest_at`.
pub record Tables : Type 0 where
  pub triage_log : List TriageRow
  pub signals : List Signal
  pub last_digest_at : Option ℕ
  pub seen_emails : List String

pub record Engine : Type 0 where
  pub db : Store Tables
  pub watermark_cache : ℕ

-- A row of the digest, with the signal of its mail if there is one.
pub record DigestItem : Type 0 where
  pub row : TriageRow
  pub signal : Option Signal

abbrev priority_verdicts : List String
priority_verdicts = "CRITICAL" ∷ "HIGH" ∷ "URGENT" ∷ []

abbrev pub is_digestible : TriageRow → Bool
is_digestible r = not (member r.verdict priority_verdicts)

-- WHERE timestamp > ? AND verdict NOT IN (...)
abbrev pub is_due : ℕ → TriageRow → Bool
is_due watermark r = ltb watermark r.timestamp && is_digestible r

-- ORDER BY timestamp ASC
abbrev pub insert_row : TriageRow → List TriageRow → List TriageRow
insert_row r [] = r ∷ []
insert_row r (s ∷ rows) =
    let later = insert_row r rows in if leb r.timestamp s.timestamp then r ∷ s ∷ rows else s ∷ later

abbrev pub ordered : List TriageRow → List TriageRow
ordered [] = []
ordered (r ∷ rows) = insert_row r (ordered rows)

abbrev matching : TriageRow → List Signal → List DigestItem
matching r [] = []
matching r (s ∷ signals) =
    let rest = matching r signals in
    if s.ref_id == r.email_id then record { row = r; signal = some s } ∷ rest else rest

abbrev or_unmatched : TriageRow → List DigestItem → List DigestItem
or_unmatched r [] = record { row = r; signal = none } ∷ []
or_unmatched r (i ∷ items) = i ∷ items

-- LEFT JOIN signals
abbrev pub joined : List Signal → List TriageRow → List DigestItem
joined signals [] = []
joined signals (r ∷ rows) = or_unmatched r (matching r signals) ++ joined signals rows

abbrev or_empty {ℓ} : {A : Type ℓ} → A → Option A → A
or_empty d none = d
or_empty d (some a) = a

abbrev pub triage_row : ℕ → String → String → String → String → TriageRow
triage_row now email_id sender subject verdict = record {
  email_id = email_id;
  sender = sender;
  subject = subject;
  verdict = verdict;
  timestamp = now;
}

abbrev pub add_row : TriageRow → Tables → Tables
add_row row t = record t { triage_log = t.triage_log ++ row ∷ [] }

-- `log_triage` and its variant on an open connection.
unfoldable pub log_triage : ℕ → String → String → String → String → Engine → Engine
log_triage now email_id sender subject verdict e =
    let row = triage_row now email_id sender subject verdict in
    record e { db = (open_db (λ t. (tt, add_row row t)) e.db.faults e.db.table).1 }

unfoldable get_digest_items : Engine → List TriageRow × Engine
get_digest_items e =
    let (rows, db) =
      open_db (λ t. (ordered (select (is_due e.watermark_cache) t.triage_log), t)) e.db.faults
        e.db.table in
    (or_empty [] rows, record e { db = db })

abbrev pub watermark : Tables → ℕ
watermark t = or_empty 0 t.last_digest_at

abbrev pub advanced : ℕ → List DigestItem → Tables → Tables
advanced now [] t = t
advanced now (i ∷ items) t = record t { last_digest_at = some now }

-- The transaction of `pop_digest_items`.
abbrev pub pop : ℕ → Tables → List DigestItem × Tables
pop now t =
    let items = joined t.signals (ordered (select (is_due (watermark t)) t.triage_log)) in
    (items, advanced now items t)

abbrev cached : ℕ → List DigestItem → ℕ → ℕ
cached now [] old = old
cached now (i ∷ items) old = now

-- `pop_digest_items`; the transaction commits as a whole or is rolled back, and a fault is taken to come
-- before the cache is refreshed.
unfoldable pub pop_digest_items : ℕ → Engine → List DigestItem × Engine
pop_digest_items now e =
    let (popped, db) = open_db (pop now) e.db.faults e.db.table in
    let items = or_empty [] popped in
    (items, record { db = db; watermark_cache = cached now items e.watermark_cache })

unfoldable update_watermark : ℕ → Engine → Engine
update_watermark now e =
    let (done, db) =
      open_db (λ t. (tt, record t { last_digest_at = some now })) e.db.faults e.db.table in
    record { db = db; watermark_cache = elim done [ none ↦ e.watermark_cache | some _ ↦ now ] }

unfoldable was_digest_sent_since : ℕ → Engine → Bool
was_digest_sent_since since e = ltb since e.watermark_cache

-- INSERT OR IGNORE INTO seen_emails
abbrev add_seen : String → Tables → Tables
add_seen id t = if member id t.seen_emails then t else record t { seen_emails = id ∷ t.seen_emails }

unfoldable mark_seen : String → Engine → Engine
mark_seen id e = record e { db = (open_db (λ t. (tt, add_seen id t)) e.db.faults e.db.table).1 }

unfoldable get_seen_ids : Engine → List String × Engine
get_seen_ids e =
    let (seen, db) = open_db (λ t. (t.seen_emails, t)) e.db.faults e.db.table in
    (or_empty [] seen, record e { db = db })
