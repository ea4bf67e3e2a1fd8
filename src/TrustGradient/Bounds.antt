-- ===== src/TrustGradient/Bounds.antt =====
-- The audit intervals of `TrustGradient` in xibi/trust/gradient.py, over any sequence of calls.
use xibi.Base.{
  ℕ, zero, suc, ◌≤◌, ◌≡◌, ◌≢◌, sym, ◌∙◌, inl, inr, Bool, none, some, List, [], ◌∷◌, String, arith,
  pure, Store, Option-cases,
}
use mathlib.Core.Option.{none-ne-some}
use xibi.TrustGradient.{
  TrustRecord, Gradient, Table, Trust, FailureType, config_of, succeeded, failed, get_record,
  reset_record, record_success, record_failure, should_audit, sampled,
}
use xibi.TrustGradient.Within.{
  IsValid, AllWithin, IsOfRole, succeeded-IsWithin, succeeded-specialty, succeeded-effort,
  failed-IsWithin,
}
use xibi.TrustGradient.Keeps.{Keeps, revise-Keeps, reset_record-Keeps, get_record-Keeps, pure-Keeps}

-- A call that writes, and the time at which it is made.
pub data Call : Type 0 where
  success_of restart_of : String → String → Call
  failure_of : FailureType → String → String → Call

abbrev pub perform : Gradient → ℕ → Call → Trust TrustRecord
perform g now (success_of specialty effort) = record_success g now specialty effort
perform g now (restart_of specialty effort) = reset_record g now specialty effort
perform g now (failure_of type specialty effort) = record_failure g now type specialty effort

abbrev pub perform_all : Gradient → List (ℕ × Call) → Store Table → Store Table
perform_all g [] s = s
perform_all g ((now, call) ∷ calls) s = perform_all g calls (perform g now call s).1

perform-Keeps :
    (g : Gradient) (now : ℕ) (call : Call)
    → ((specialty effort : String) → IsValid (config_of g specialty effort))
    → Keeps g (perform g now call) (λ _. Unit)
unfolding record_success record_failure reset_record succeeded failed
perform-Keeps g now (success_of specialty effort) valid =
    let cfg = config_of g specialty effort in
    revise-Keeps g now (succeeded cfg now) specialty effort (valid specialty effort) (λ r ok. (
      succeeded-specialty cfg now r ∙ ok.0,
      succeeded-effort cfg now r ∙ ok.1,
      succeeded-IsWithin cfg now r ok.2,
    ))
perform-Keeps g now (restart_of specialty effort) valid =
    reset_record-Keeps g now specialty effort (valid specialty effort)
perform-Keeps g now (failure_of type specialty effort) valid =
    let cfg = config_of g specialty effort in
    revise-Keeps g now (failed cfg now type) specialty effort (valid specialty effort)
      (λ r ok. (ok.0, ok.1, failed-IsWithin cfg now type r (omega arith) ok.2))

-- Whatever the calls and whichever database accesses raise, when the configured bounds of each
-- role are in order, the audit intervals in the table stay within the bounds of their roles.
pub perform_all-AllWithin :
    (g : Gradient) (calls : List (ℕ × Call)) (s : Store Table)
    → ((specialty effort : String) → IsValid (config_of g specialty effort))
    → AllWithin g s.table
    → AllWithin g (perform_all g calls s).table
perform_all-AllWithin g [] s valid within = within
perform_all-AllWithin g ((now, call) ∷ calls) s valid within =
    perform_all-AllWithin g calls (perform g now call s).1 valid
      (perform-Keeps g now call valid s within).0

get_record-IsOfRole :
    (g : Gradient) (specialty effort : String) (s : Store Table) (r : TrustRecord)
    → AllWithin g s.table
    → (get_record specialty effort s).0 ≡ some r
    → IsOfRole g specialty effort r
get_record-IsOfRole g specialty effort s r within e =
    (get_record-Keeps g specialty effort (IsOfRole g specialty effort) pure
        (λ t ok. (ok, λ a f. absurd (none-ne-some a f)))
        (λ a good. pure-Keeps g (IsOfRole g specialty effort) a good) s within).1
      r e

sampled-some : (drawn : ℕ → Bool) (n : ℕ) → 1 ≤ n → sampled drawn n ≢ none
sampled-some drawn zero h e = absurd (omega (arith, h))
sampled-some drawn (suc n) h e = none-ne-some (drawn (suc n)) (sym e)

-- When the configured bounds of each role are in order, then after any calls, from a table within
-- bounds and whichever accesses raise, `should_audit` decides for every role, whatever the random
-- number: it does not divide by zero.
should_audit_decides :
    (g : Gradient) (calls : List (ℕ × Call)) (s : Store Table) (drawn : ℕ → Bool)
    (specialty effort : String)
    → ((specialty effort : String) → IsValid (config_of g specialty effort))
    → AllWithin g s.table
    → (should_audit g drawn specialty effort (perform_all g calls s)).0 ≢ none
unfolding should_audit get_record
should_audit_decides g calls s drawn specialty effort valid within =
    let t = perform_all g calls s in
    let ok = perform_all-AllWithin g calls s valid within in
    let cfg = valid specialty effort in
    elim (Option-cases (get_record specialty effort t).0) [
      | inl e ↦ rw e (sampled-some drawn _ (omega arith))
      | inr (r, e) ↦
          let good = get_record-IsOfRole g specialty effort t r ok e in
          rw e (sampled-some drawn r.audit_interval (omega arith))
    ]
