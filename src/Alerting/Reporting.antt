-- ===== src/Alerting/Reporting.antt =====
-- Every mail of the digests of xibi/alerting/rules.py is reported once.
use xibi.Base.{
  leb, ℕ, ◌≤◌, ◌<◌, ◌≡◌, refl, sym, ap, ◌∙◌, Bool, true, false, none, String, List, [], ◌∷◌, ◌++◌,
  arith, select,
}
use mathlib.Core.List.{append-nil, append_assoc}
use xibi.Alerting.{
  TriageRow, Tables, Engine, DigestItem, is_digestible, is_due, joined, triage_row, add_row,
  log_triage, watermark, advanced, pop, pop_digest_items,
}
use xibi.Alerting.Digests.{
  select-append, joined-append, InOrder, IsUpTo, IsUpTo-le, InOrder-snoc, all-snoc, select-InOrder,
  ordered_same, pending, nothing_due, Event, triaged, digest, perform, run, IsTimely, IsKept,
  Accounts,
}

due_now :
    (low : ℕ) (r : TriageRow)
    → low < r.timestamp
    → select (is_due low) (r ∷ []) ≡ select is_digestible (r ∷ [])
due_now low r h = ground (arith, h)

add_row-Accounts :
    (reported : List DigestItem) (t : Tables) (r : TriageRow)
    → watermark t < r.timestamp
    → Accounts reported t
    → Accounts reported (add_row r t)
add_row-Accounts reported t r late h =
    let new = joined t.signals (select is_digestible (r ∷ [])) in
    rw
      (
        select-append (is_due (watermark t)) t.triage_log (r ∷ []),
        select-append is_digestible t.triage_log (r ∷ []),
        due_now (watermark t) r late,
        joined-append t.signals (pending t) (select is_digestible (r ∷ [])),
        joined-append t.signals (select is_digestible t.triage_log) (select is_digestible (r ∷ [])),
      )
      (sym (append_assoc reported (joined t.signals (pending t)) new)
        ∙ ap (λ items. items ++ new) h)

add_row-IsKept :
    (last newest : ℕ) (t : Tables) (r : TriageRow)
    → newest ≤ r.timestamp
    → IsKept last newest t
    → IsKept last r.timestamp (add_row r t)
add_row-IsKept last newest t r le (order, upto, low, later) =
    let upto' = IsUpTo-le newest r.timestamp t.triage_log le upto in
    (
      InOrder-snoc t.triage_log r order upto',
      all-snoc (λ s. leb s.timestamp r.timestamp) t.triage_log r upto' (ground arith),
      low,
      omega arith,
    )

advanced-Accounts :
    (reported items : List DigestItem) (now : ℕ) (t : Tables)
    → items ≡ joined t.signals (pending t)
    → IsUpTo now t.triage_log
    → Accounts reported t
    → Accounts (reported ++ items) (advanced now items t)
advanced-Accounts reported [] now t e upto h = rw (append-nil reported) h
advanced-Accounts reported (i ∷ items) now t e upto h =
    rw (nothing_due now t.triage_log upto, append-nil (reported ++ i ∷ items), e) h

advanced-IsKept :
    (last newest now : ℕ) (items : List DigestItem) (t : Tables)
    → newest ≤ now
    → IsKept last newest t
    → IsKept now now (advanced now items t)
advanced-IsKept last newest now [] t le (order, upto, low, later) =
    (order, IsUpTo-le newest now t.triage_log le upto, omega arith, omega arith)
advanced-IsKept last newest now (i ∷ items) t le (order, upto, low, later) =
    (order, IsUpTo-le newest now t.triage_log le upto, omega arith, omega arith)

pop-pending :
    (now : ℕ) (t : Tables) → InOrder t.triage_log → (pop now t).0 ≡ joined t.signals (pending t)
pop-pending now t order =
    ap (joined t.signals)
      (ordered_same (pending t) (select-InOrder (is_due (watermark t)) t.triage_log order))

-- One event, with what it reports.
abbrev Goes : List DigestItem → ℕ → ℕ → List DigestItem × Engine → Type 0
Goes reported last newest (items, e) =
    Accounts (reported ++ items) e.db.table × IsKept last newest e.db.table

later-IsKept :
    (last newest now : ℕ) (t : Tables) → newest ≤ now → IsKept last newest t → IsKept last now t
later-IsKept last newest now t le (order, upto, low, later) =
    (order, IsUpTo-le newest now t.triage_log le upto, low, omega arith)

triaged-Goes :
    (reported : List DigestItem) (last newest now : ℕ) (id sender subject verdict : String)
    (faults : List Bool) (t : Tables) (cache : ℕ)
    → last < now
    → newest ≤ now
    → Accounts reported t
    → IsKept last newest t
    → Goes reported last now (
        perform
          (triaged now id sender subject verdict)
          (record { db = record { table = t; faults = faults }; watermark_cache = cache }))
unfolding log_triage
triaged-Goes reported last newest now id sender subject verdict [] t cache late le h kept =
    let r = triage_row now id sender subject verdict in
    (
      rw (append-nil reported) (add_row-Accounts reported t r (omega (arith, kept.2)) h),
      add_row-IsKept last newest t r le kept,
    )
triaged-Goes reported last newest now id sender subject verdict (true ∷ faults) t cache late le h
      kept =
    (rw (append-nil reported) h, later-IsKept last newest now t le kept)
triaged-Goes reported last newest now id sender subject verdict (false ∷ faults) t cache late le h
      kept =
    let r = triage_row now id sender subject verdict in
    (
      rw (append-nil reported) (add_row-Accounts reported t r (omega (arith, kept.2)) h),
      add_row-IsKept last newest t r le kept,
    )

digest-Goes :
    (reported : List DigestItem) (last newest now : ℕ) (faults : List Bool) (t : Tables) (cache : ℕ)
    → newest ≤ now
    → Accounts reported t
    → IsKept last newest t
    → Goes reported now now (
        perform
          (digest now)
          (record { db = record { table = t; faults = faults }; watermark_cache = cache }))
unfolding pop_digest_items
digest-Goes reported last newest now [] t cache le h kept = (
  advanced-Accounts reported (pop now t).0 now t (pop-pending now t kept.0)
      (IsUpTo-le newest now t.triage_log le kept.1) h,
  advanced-IsKept last newest now (pop now t).0 t le kept,
)
digest-Goes reported last newest now (true ∷ faults) t cache le h kept =
    (rw (append-nil reported) h, advanced-IsKept last newest now [] t le kept)
digest-Goes reported last newest now (false ∷ faults) t cache le h kept = (
  advanced-Accounts reported (pop now t).0 now t (pop-pending now t kept.0)
      (IsUpTo-le newest now t.triage_log le kept.1) h,
  advanced-IsKept last newest now (pop now t).0 t le kept,
)

run-Accounts :
    (events : List Event) (reported : List DigestItem) (last newest : ℕ) (e : Engine)
    → IsTimely last newest events
    → Accounts reported e.db.table
    → IsKept last newest e.db.table
    → Accounts (reported ++ (run events e).0) (run events e).1.db.table
run-Accounts [] reported last newest e timely h kept = rw (append-nil reported) h
run-Accounts (triaged now id sender subject verdict ∷ events) reported last newest e timely h kept =
    let (items, e') = perform (triaged now id sender subject verdict) e in
    let goes =
      triaged-Goes reported last newest now id sender subject verdict e.db.faults e.db.table
        e.watermark_cache timely.0 timely.1 h kept in
    rw (sym (append_assoc reported items (run events e').0))
      (run-Accounts events (reported ++ items) last now e' timely.2 goes.0 goes.1)
run-Accounts (digest now ∷ events) reported last newest e timely h kept =
    let (items, e') = perform (digest now) e in
    let goes =
      digest-Goes reported last newest now e.db.faults e.db.table e.watermark_cache timely.0 h
        kept in
    rw (sym (append_assoc reported items (run events e').0))
      (run-Accounts events (reported ++ items) now now e' timely.1 goes.0 goes.1)

-- Whatever the order of triaged mails and digests, and whichever accesses of the database fail: from
-- an empty log, the rows that the digests have reported, followed by those that the next one will
-- report, are the logged mails that are no priority, each joined with its signals, in their order and
-- none twice; if the clock does not go back and no mail is logged in the second of a digest before it.
pub digests_report_once :
    (events : List Event) (e : Engine)
    → IsTimely 0 0 events
    → e.db.table.triage_log ≡ []
    → e.db.table.last_digest_at ≡ none
    → let (reported, e') = run events e in
      let t = e'.db.table in
      reported ++ joined t.signals (pending t)
      ≡ joined t.signals (select is_digestible t.triage_log)
digests_report_once events e timely empty never =
    run-Accounts events [] 0 0 e timely (rw empty refl)
      (rw (empty, never) (tt, refl, omega arith, omega arith))
