-- ===== src/Alerting/Digests.antt =====
-- What the digests of xibi/alerting/rules.py report, over any sequence of triaged mails and digests.
use xibi.Base.{
  Bool-cases, inl, inr, ℕ, ◌≤◌, ◌<◌, ◌≡◌, refl, sym, Bool, true, String, List, [], ◌∷◌, ◌++◌, arith,
  leb, all, select,
}
use mathlib.Core.List.{append_assoc}
use xibi.Alerting.{
  TriageRow, Signal, Tables, Engine, DigestItem, is_digestible, is_due, insert_row, ordered, joined,
  log_triage, watermark, pop_digest_items,
}

pub select-append :
    (p : TriageRow → Bool) (xs ys : List TriageRow)
    → select p (xs ++ ys) ≡ select p xs ++ select p ys
select-append p [] ys = refl
select-append p (x ∷ xs) ys = ground (arith, select-append p xs ys)

pub joined-append :
    (signals : List Signal) (xs ys : List TriageRow)
    → joined signals (xs ++ ys) ≡ joined signals xs ++ joined signals ys
joined-append signals [] ys = refl
joined-append signals (x ∷ xs) ys =
    rw (joined-append signals xs ys) (sym (append_assoc _ (joined signals xs) (joined signals ys)))

-- Logged in the order of their times, none later than the bound.
abbrev pub InOrder : List TriageRow → Type 0
InOrder [] = Unit
InOrder (r ∷ rows) = (all (λ s. leb r.timestamp s.timestamp) rows ≡ true) × InOrder rows

abbrev pub IsUpTo : ℕ → List TriageRow → Type 0
IsUpTo n rows = all (λ r. leb r.timestamp n) rows ≡ true

all-select :
    (p q : TriageRow → Bool) (rows : List TriageRow)
    → all q rows ≡ true
    → all q (select p rows) ≡ true
all-select p q [] h = refl
all-select p q (r ∷ rows) h = ground (arith, all-select p q rows)

pub select-InOrder :
    (p : TriageRow → Bool) (rows : List TriageRow) → InOrder rows → InOrder (select p rows)
select-InOrder p [] h = tt
select-InOrder p (r ∷ rows) h = elim (Bool-cases (p r)) [
  | inl e ↦
      rw e (all-select p (λ s. leb r.timestamp s.timestamp) rows h.0, select-InOrder p rows h.1)
  | inr e ↦ rw e (select-InOrder p rows h.1)
]

insert_first :
    (r : TriageRow) (rows : List TriageRow)
    → all (λ s. leb r.timestamp s.timestamp) rows ≡ true
    → insert_row r rows ≡ r ∷ rows
insert_first r [] h = refl
insert_first r (s ∷ rows) h = ground (arith, h)

pub ordered_same : (rows : List TriageRow) → InOrder rows → ordered rows ≡ rows
ordered_same [] h = refl
ordered_same (r ∷ rows) h = rw (ordered_same rows h.1) (insert_first r rows h.0)

pub all-snoc :
    (p : TriageRow → Bool) (rows : List TriageRow) (r : TriageRow)
    → all p rows ≡ true
    → p r ≡ true
    → all p (rows ++ r ∷ []) ≡ true
all-snoc p [] r h k = ground arith
all-snoc p (s ∷ rows) r h k = ground (arith, all-snoc p rows r)

pub InOrder-snoc :
    (rows : List TriageRow) (r : TriageRow)
    → InOrder rows
    → IsUpTo r.timestamp rows
    → InOrder (rows ++ r ∷ [])
InOrder-snoc [] r h k = (refl, tt)
InOrder-snoc (s ∷ rows) r h k = (
  all-snoc (λ x. leb s.timestamp x.timestamp) rows r h.0 (ground (arith, k)),
  InOrder-snoc rows r h.1 (ground (arith, k)),
)

pub IsUpTo-le : (m n : ℕ) (rows : List TriageRow) → m ≤ n → IsUpTo m rows → IsUpTo n rows
IsUpTo-le m n [] le h = refl
IsUpTo-le m n (r ∷ rows) le h = ground (arith, IsUpTo-le m n rows le)

-- The rows that the next digest reports.
abbrev pub pending : Tables → List TriageRow
pending t = select (is_due (watermark t)) t.triage_log

pub nothing_due :
    (now : ℕ) (rows : List TriageRow) → IsUpTo now rows → select (is_due now) rows ≡ []
nothing_due now [] h = refl
nothing_due now (r ∷ rows) h = ground (arith, nothing_due now rows)

-- A mail that is triaged, or a digest, with its time.
pub data Event : Type 0 where
  triaged : ℕ → String → String → String → String → Event
  digest : ℕ → Event

abbrev pub perform : Event → Engine → List DigestItem × Engine
perform (triaged now id sender subject verdict) e = ([], log_triage now id sender subject verdict e)
perform (digest now) e = pop_digest_items now e

abbrev pub run : List Event → Engine → List DigestItem × Engine
run [] e = ([], e)
run (event ∷ events) e =
    let (items, e') = perform event e in let (more, e'') = run events e' in (items ++ more, e'')

-- The clock does not go back, and no mail is triaged in the second of the last digest.
abbrev pub IsTimely : ℕ → ℕ → List Event → Type 0
IsTimely last newest [] = Unit
IsTimely last newest (triaged now id sender subject verdict ∷ events) =
    (last < now) × (newest ≤ now) × IsTimely last now events
IsTimely last newest (digest now ∷ events) = (newest ≤ now) × IsTimely now now events

-- The rows are in order and not later than `newest`, the watermark not later than the last digest.
abbrev pub IsKept : ℕ → ℕ → Tables → Type 0
IsKept last newest t =
    InOrder t.triage_log × IsUpTo newest t.triage_log × (watermark t ≤ last) × (last ≤ newest)

-- What was reported, and what is pending, are together the mails of the digest.
abbrev pub Accounts : List DigestItem → Tables → Type 0
Accounts reported t =
    reported ++ joined t.signals (pending t) ≡ joined t.signals (select is_digestible t.triage_log)
