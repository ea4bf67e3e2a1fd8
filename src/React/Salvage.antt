-- ===== src/React/Salvage.antt =====
-- What the answer of a run of xibi/react.py can be: given by the model, salvaged from the scratchpad, or
-- missing.
use xibi.Base.{ℕ, ◌≡◌, refl, sym, Bool, true, false, Option, none, some, String, List, [], ◌∷◌}
use mathlib.Core.Option.{none-ne-some}
use xibi.React.{
  Output, Step, ExitReason, finish, ask_user, max_steps, timeout, error, partial, Answer, nothing,
  composed, ReactResult, World,
}
use xibi.React.Rendering.{build_partial_answer, useful, salvage}
use xibi.React.Acting.{Setup}
use xibi.React.Loop.{partial_or, salvaging}

-- What an exit says of the answer, of the steps, and of whether the run is degraded: the model's own
-- exits are not; a partial answer is salvaged from the steps; without one there is no answer, at the
-- limit of steps only if nothing can be salvaged.
abbrev IsHonestAt : (Output → List ℕ) → ExitReason → Answer → List Step → Bool → Type 0
IsHonestAt whole finish answer steps degraded = degraded ≡ false
IsHonestAt whole ask_user answer steps degraded = degraded ≡ false
IsHonestAt whole partial answer steps degraded =
    (degraded ≡ true)
    × ((reason : List ℕ) × (text : List ℕ) × (answer ≡ composed text)
        × (build_partial_answer whole steps reason ≡ some text))
IsHonestAt whole max_steps answer steps degraded =
    (answer ≡ nothing)
    × (degraded ≡ false)
    × ((reason : List ℕ) → build_partial_answer whole steps reason ≡ none)
IsHonestAt whole timeout answer steps degraded = answer ≡ nothing
IsHonestAt whole error answer steps degraded = answer ≡ nothing

abbrev pub IsHonest : (Output → List ℕ) → ReactResult → Type 0
IsHonest whole r = IsHonestAt whole r.exit_reason r.answer r.steps r.degraded

salvage-none :
    (reason other : List ℕ) (found : List (String × List ℕ))
    → salvage reason found ≡ none
    → salvage other found ≡ none
salvage-none reason other [] e = refl
salvage-none reason other (u ∷ us) e = absurd (none-ne-some _ (sym e))

-- Whether anything is salvaged does not depend on the reason that is given.
build_partial_answer-none :
    (whole : Output → List ℕ) (steps : List Step) (reason other : List ℕ)
    → build_partial_answer whole steps reason ≡ none
    → build_partial_answer whole steps other ≡ none
unfolding build_partial_answer
build_partial_answer-none whole steps reason other e =
    salvage-none reason other (useful whole steps) e

module _ {S : Type 0} (w : World S) where
  salvaged_error :
      (steps : List Step) (reason : List ℕ) (o : Option (List ℕ))
      → build_partial_answer w.str_of steps reason ≡ o
      → IsHonest w.str_of (partial_or true error steps o)
  salvaged_error steps reason none e = refl
  salvaged_error steps reason (some text) e = (refl, (reason, text, refl, e))

  salvaged_limit :
      (steps : List Step) (reason : List ℕ) (o : Option (List ℕ))
      → build_partial_answer w.str_of steps reason ≡ o
      → IsHonest w.str_of (partial_or false max_steps steps o)
  salvaged_limit steps reason none e =
      (refl, refl, λ other. build_partial_answer-none w.str_of steps reason other e)
  salvaged_limit steps reason (some text) e = (refl, (reason, text, refl, e))

  pub error-IsHonest :
      (setup : Setup) (steps : List Step) (reason : List ℕ)
      → IsHonest w.str_of (salvaging w setup true error steps reason)
  error-IsHonest setup steps reason = salvaged_error steps reason _ refl

  pub limit-IsHonest :
      (setup : Setup) (steps : List Step) (reason : List ℕ)
      → IsHonest w.str_of (salvaging w setup false max_steps steps reason)
  limit-IsHonest setup steps reason = salvaged_limit steps reason _ refl
