-- ===== src/Caretaker/Drift.antt =====
-- The drift state of xibi/caretaker over pulses: which findings are active, and which are alerted.
use xibi.Base.{
  ℕ, ◌≡◌, refl, ap, ◌∙◌, Bool, not, ◌&&◌, ◌||◌, Option, List, [], ◌∷◌, ◌++◌, String, ◌==◌, eq_iff,
  arith, lookup, remove, keys, select, if◌then◌else◌, member, is_some, lookup-insert, lookup-remove,
  sym, false, true, Bool-cases, inl, inr,
}
use mathlib.Core.List.{append-nil, append_assoc}
use xibi.Caretaker.{
  Finding, DriftRow, Table, Pass, Status, clean, seen_before, record_finding, update, settle,
  settle_all, observed_keys, gone_keys, active_keys, resolve_all, run_checks, pulse, drift_row,
  Telegram, notify, category_of, title_of,
}

-- Whether a key has a row.
abbrev has : String → Table → Bool
has key t = is_some (lookup key t)

has-update :
    (change : DriftRow → DriftRow) (key k : String) (t : Table)
    → has k (update change key t) ≡ has k t
has-update change key k [] = refl
has-update change key k ((j, row) ∷ t) = ground (arith, has-update change key k t)

has-record_finding :
    (now : ℕ) (f : Finding) (k : String) (t : Table)
    → has k (record_finding now f t) ≡ ((f.dedup_key == k) || has k t)
unfolding record_finding
has-record_finding now f k t =
    ground (arith, eq_iff f.dedup_key k, lookup-insert f.dedup_key k (drift_row now f) t)

has-settle :
    (now : ℕ) (f : Finding) (p : Pass) (k : String)
    → has k (settle now f p).table ≡ ((f.dedup_key == k) || has k p.table)
unfolding settle
has-settle now f p k = ground (
  arith,
  eq_iff f.dedup_key k,
  has-record_finding now f k p.table,
  has-update (λ row. record row { last_observed_at = now }) f.dedup_key k p.table,
)

has-settle_all :
    (now : ℕ) (fs : List Finding) (p : Pass) (k : String)
    → has k (settle_all now fs p).table ≡ (member k (observed_keys fs) || has k p.table)
unfolding settle_all
has-settle_all now [] p k = refl
has-settle_all now (f ∷ fs) p k =
    ground (arith, has-settle now f p k, has-settle_all now fs (settle now f p) k)

has-resolve_all :
    (ks : List String) (t : Table) (k : String)
    → has k (resolve_all ks t) ≡ (not (member k ks) && has k t)
unfolding resolve_all
has-resolve_all [] t k = refl
has-resolve_all (j ∷ ks) t k =
    ground (arith, lookup-remove j k t, has-resolve_all ks (remove j t) k)

member-select :
    (p : String → Bool) (names : List String) (k : String)
    → member k (select p names) ≡ (member k names && p k)
member-select p [] k = refl
member-select p (j ∷ names) k = ground (arith, eq_iff j k, member-select p names k)

member-keys : (t : Table) (k : String) → member k (keys t) ≡ has k t
member-keys [] k = refl
member-keys ((j, row) ∷ t) k = ground (arith, member-keys t k)

-- What the checks of a pulse find.
abbrev pub observed : List (Option (List Finding)) → List String
observed checks = observed_keys (run_checks checks clean).0

has_after :
    (fs : List Finding) (t : Table) (before : Bool) (k : String)
    → has k t ≡ (member k (observed_keys fs) || before)
    → has k (resolve_all (gone_keys fs t) t) ≡ member k (observed_keys fs)
unfolding gone_keys active_keys
has_after fs t before k h =
    let gone : String → Bool = λ j. not (member j (observed_keys fs)) in
    ground (
      arith,
      h,
      has-resolve_all (select gone (keys t)) t k,
      member-select gone (keys t) k,
      member-keys t k,
    )

begin : Status → Table → Pass
begin status t = record { status = status; table = t; new_findings = []; repeat_findings = [] }

-- After a pulse exactly the findings of that pulse are active: a key has a row just if a check of
-- the pulse reported it, whatever the table was, and also when other checks raised.
active_is_observed :
    (sends : Finding → Bool) (now : ℕ) (checks : List (Option (List Finding))) (t : Table)
    (k : String)
    → seen_before k (pulse sends now checks t).table ≡ member k (observed checks)
unfolding pulse seen_before begin
active_is_observed sends now checks t k =
    let (fs, status) = run_checks checks clean in
    let p = begin status t in
    has_after fs (settle_all now fs p).table (has k t) k (has-settle_all now fs p k)

-- The findings of a list whose keys have not been seen, each key once.
abbrev pub fresh : List String → List Finding → List Finding
fresh seen [] = []
fresh seen (f ∷ fs) =
    let rest = fresh (f.dedup_key ∷ seen) fs in
    if member f.dedup_key seen then fresh seen fs else f ∷ rest

-- The telegrams that tell of findings, for those that can be sent.
abbrev pub told : (Finding → Bool) → List Finding → List Telegram
told sends [] = []
told sends (f ∷ fs) =
    let rest = told sends fs in
    if sends f then (category_of f.severity, title_of f.check_name, f.message) ∷ rest else rest

notify-told : (sends : Finding → Bool) (fs : List Finding) → notify sends fs ≡ told sends fs
unfolding notify
notify-told sends [] = refl
notify-told sends (f ∷ fs) = rw (notify-told sends fs)

-- The rows of a table are those of the keys that have been seen.
abbrev AreSeen : Table → List String → Type 0
AreSeen t seen = (k : String) → has k t ≡ member k seen

settle-AreSeen :
    (now : ℕ) (f : Finding) (p : Pass) (seen : List String)
    → AreSeen p.table seen
    → AreSeen (settle now f p).table (f.dedup_key ∷ seen)
settle-AreSeen now f p seen h k = ground (arith, has-settle now f p k, h k)

settle-known :
    (now : ℕ) (f : Finding) (p : Pass)
    → has f.dedup_key p.table ≡ true
    → (settle now f p).new_findings ≡ p.new_findings
unfolding settle
settle-known now f p h = ground (arith, h)

settle-unknown :
    (now : ℕ) (f : Finding) (p : Pass)
    → has f.dedup_key p.table ≡ false
    → (settle now f p).new_findings ≡ p.new_findings ++ f ∷ []
unfolding settle
settle-unknown now f p h = ground (arith, h)

settle_all-fresh :
    (now : ℕ) (fs : List Finding) (p : Pass) (seen : List String)
    → AreSeen p.table seen
    → (settle_all now fs p).new_findings ≡ p.new_findings ++ fresh seen fs
unfolding settle_all
settle_all-fresh now [] p seen h = sym (append-nil p.new_findings)
settle_all-fresh now (f ∷ fs) p seen h = elim (Bool-cases (member f.dedup_key seen)) [
  | inl e ↦
      settle_all-fresh now fs (settle now f p) seen (known e)
      ∙ rw (e, settle-known now f p (h f.dedup_key ∙ e)) refl
  | inr e ↦
      settle_all-fresh now fs (settle now f p) (f.dedup_key ∷ seen) (settle-AreSeen now f p seen h)
      ∙ rw (e, settle-unknown now f p (h f.dedup_key ∙ e))
          (append_assoc p.new_findings (f ∷ []) (fresh (f.dedup_key ∷ seen) fs))
]
  where
    known : member f.dedup_key seen ≡ true → AreSeen (settle now f p).table seen
    known e k = ground (arith, has-settle now f p k, h k, eq_iff f.dedup_key k)

-- Of two pulses, one after the other, the second tells the user of the findings of its checks whose
-- keys no check of the first pulse reported, of each such key once and in their order, by a telegram
-- each as far as they can be sent, and of nothing else, whatever the table held before the first.
pub alerts_are_rising_edges :
    (sends : Finding → Bool) (now now' : ℕ) (first second : List (Option (List Finding)))
    (t : Table)
    → let result = pulse sends now' second (pulse sends now first t).table in
      let new = fresh (observed first) (run_checks second clean).0 in
      (result.findings ≡ new) × (result.telegrams ≡ told sends new)
unfolding pulse begin seen_before
alerts_are_rising_edges sends now now' first second t =
    let (fs, status) = run_checks second clean in
    let t' = (pulse sends now first t).table in
    let new =
      settle_all-fresh now' fs (begin status t') (observed first)
        (active_is_observed sends now first t) in
    (new, ap (notify sends) new ∙ notify-told sends (fresh (observed first) fs))
