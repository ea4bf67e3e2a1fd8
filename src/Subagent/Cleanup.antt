-- ===== src/Subagent/Cleanup.antt =====
-- What the cleanup of expired runs in xibi/subagent/db.py leaves.
use xibi.Base.{
  ℕ, ◌≡◌, refl, sym, ap, ◌∙◌, inl, inr, Bool, true, not, ◌||◌, List, [], ◌∷◌, String, ◌==◌, eq_iff,
  arith, all, select, member, Dict, Bool-cases,
}
use xibi.ActionGate.{PendingL2Action}
use xibi.Subagent.{SubagentRun, ChecklistStep, CostEvent, Tables, expired_ids, cleanup_expired_runs}
use xibi.Subagent.Settling.{has_row}

-- Every step, action and cost event is of a run that has a row.
abbrev HaveRuns : Tables → Type 0
HaveRuns t =
    (all (λ (s : ChecklistStep). has_row s.run_id t.runs) t.steps ≡ true)
    × (all (λ (a : PendingL2Action). has_row a.run_id t.runs) t.pending_actions ≡ true)
    × (all (λ (e : CostEvent). has_row e.run_id t.runs) t.cost_events ≡ true)

-- A run that is not deleted keeps its row.
has_row-select :
    (k : String) (ids : List String) (rows : Dict SubagentRun)
    → has_row k rows ≡ true
    → not (member k ids) ≡ true
    → has_row k (select (λ (j, run). not (member j ids)) rows) ≡ true
has_row-select k ids [] h kept = h
has_row-select k ids ((i, row) ∷ rows) h kept = elim (Bool-cases (i == k)) [
  | inl e ↦
      let kept_too : not (member i ids) ≡ true =
        ap (λ j. not (member j ids)) ((eq_iff i k).0 e) ∙ kept in
      rw (kept_too, e) refl
  | inr e ↦
      let rest = has_row-select k ids rows (sym (ap (λ b. b || has_row k rows) e) ∙ h) kept in
      elim (Bool-cases (not (member i ids))) [ inl f ↦ rw (f, e) rest | inr f ↦ rw f rest ]
]

all-select-kept :
    {A : Type 0} (p q kept : A → Bool) (xs : List A)
    → ((x : A) → p x ≡ true → kept x ≡ true → q x ≡ true)
    → all p xs ≡ true
    → all q (select kept xs) ≡ true
all-select-kept p q kept [] step h = refl
all-select-kept p q kept (x ∷ xs) step h =
    ground (arith, h, step x, all-select-kept p q kept xs step)

-- The cleanup leaves no orphans: if every step, action and cost event is of a run with a row, this is
-- still so when the expired runs are deleted.
cleanup_expired_runs-HaveRuns :
    (now : ℕ) (t : Tables) → HaveRuns t → HaveRuns (cleanup_expired_runs now t).1
unfolding cleanup_expired_runs
cleanup_expired_runs-HaveRuns now t (steps, actions, events) =
    let ids = expired_ids now t.runs in
    let kept = λ (k : String). has_row-select k ids t.runs in
    (
      all-select-kept _ _ (λ s. not (member s.run_id ids)) t.steps (λ s. kept s.run_id) steps,
      all-select-kept _ _ (λ a. not (member a.run_id ids)) t.pending_actions (λ a. kept a.run_id)
          actions,
      all-select-kept _ _ (λ e. not (member e.run_id ids)) t.cost_events (λ e. kept e.run_id)
          events,
    )
