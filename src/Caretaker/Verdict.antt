-- ===== src/Caretaker/Verdict.antt =====
-- The status of a pulse in xibi/caretaker/pulse.py.
use xibi.Base.{
  ℕ, ◌≡◌, refl, ap, ◌∙◌, Bool, true, false, not, ◌&&◌, Option, none, some, List, [], ◌∷◌, ◌++◌,
  String, arith, if◌then◌else◌,
}
use xibi.Caretaker.{
  Finding, Table, Pass, Status, clean, resolved, repeat, findings, error, settle, settle_all,
  run_checks, pulse, bump, bump_all, gone_keys,
}

abbrev has_raised : List (Option (List Finding)) → Bool
has_raised [] = false
has_raised (none ∷ checks) = true
has_raised (some fs ∷ checks) = has_raised checks

abbrev pub is_empty : {A : Type 0} → List A → Bool
is_empty [] = true
is_empty (x ∷ xs) = false

-- The precedence that pulse.py's documentation gives.
abbrev pub verdict : Bool → Bool → Bool → Bool → Status
verdict raised no_new no_repeats no_resolved =
    if raised
    then error
    else if not no_new
    then findings
    else if not no_repeats
    then repeat
    else if not no_resolved
    then resolved
    else clean

is_empty-append : (fs : List Finding) (f : Finding) → is_empty (fs ++ (f ∷ [])) ≡ false
is_empty-append [] f = refl
is_empty-append (g ∷ fs) f = refl

run_checks-error : (checks : List (Option (List Finding))) → (run_checks checks error).1 ≡ error
unfolding run_checks
run_checks-error [] = refl
run_checks-error (none ∷ checks) = run_checks-error checks
run_checks-error (some fs ∷ checks) = run_checks-error checks

run_checks-verdict :
    (checks : List (Option (List Finding)))
    → (run_checks checks clean).1 ≡ verdict (has_raised checks) true true true
unfolding run_checks
run_checks-verdict [] = refl
run_checks-verdict (none ∷ checks) = run_checks-error checks
run_checks-verdict (some fs ∷ checks) = run_checks-verdict checks

settle-verdict :
    (raised : Bool) (now : ℕ) (f : Finding) (p : Pass)
    → p.status ≡ verdict raised (is_empty p.new_findings) (is_empty p.repeat_findings) true
    → (settle now f p).status
      ≡ verdict raised
          (is_empty (settle now f p).new_findings)
          (is_empty (settle now f p).repeat_findings)
          true
unfolding settle
settle-verdict raised now f p h =
    ground (arith, h, is_empty-append p.new_findings f, is_empty-append p.repeat_findings f)

settle_all-verdict :
    (raised : Bool) (now : ℕ) (fs : List Finding) (p : Pass)
    → p.status ≡ verdict raised (is_empty p.new_findings) (is_empty p.repeat_findings) true
    → (settle_all now fs p).status
      ≡ verdict raised
          (is_empty (settle_all now fs p).new_findings)
          (is_empty (settle_all now fs p).repeat_findings)
          true
unfolding settle_all
settle_all-verdict raised now [] p h = h
settle_all-verdict raised now (f ∷ fs) p h =
    settle_all-verdict raised now fs (settle now f p) (settle-verdict raised now f p h)

bump-verdict :
    (raised no_new no_repeats no_resolved : Bool)
    → bump resolved (verdict raised no_new no_repeats no_resolved)
      ≡ verdict raised no_new no_repeats false
bump-verdict raised no_new no_repeats no_resolved = ground arith

bump_all-verdict :
    (raised no_new no_repeats : Bool) (no_resolved : Bool) (ks : List String)
    → bump_all ks (verdict raised no_new no_repeats no_resolved)
      ≡ verdict raised no_new no_repeats (no_resolved && is_empty ks)
bump_all-verdict raised no_new no_repeats no_resolved [] = ground arith
bump_all-verdict raised no_new no_repeats no_resolved (k ∷ ks) =
    ap (bump_all ks) (bump-verdict raised no_new no_repeats no_resolved)
    ∙ bump_all-verdict raised no_new no_repeats false ks
    ∙ ap (verdict raised no_new no_repeats) (and_false no_resolved)
  where
    and_false : (b : Bool) → false ≡ (b && false)
    and_false b = ground arith

-- A pulse's status is the worst thing that happened in it: `error` if a check raised, else
-- `findings` if there are new ones, else `repeat`, else `resolved`, else `clean`.
pulse-verdict :
    (sends : Finding → Bool) (now : ℕ) (checks : List (Option (List Finding))) (t : Table)
    → let result = pulse sends now checks t in
      result.status
      ≡ verdict
          (has_raised checks)
          (is_empty result.findings)
          (is_empty result.repeats)
          (is_empty result.resolved_keys)
unfolding pulse
pulse-verdict sends now checks t =
    let (fs, status) = run_checks checks clean in
    let start : Pass = record {
      status = status;
      table = t;
      new_findings = [];
      repeat_findings = [];
    } in
    let p = settle_all now fs start in
    let gone = gone_keys fs p.table in
    ap (bump_all gone)
      (settle_all-verdict (has_raised checks) now fs start (run_checks-verdict checks))
    ∙ bump_all-verdict (has_raised checks) (is_empty p.new_findings) (is_empty p.repeat_findings)
        true gone
