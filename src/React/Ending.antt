-- ===== src/React/Ending.antt =====
-- How a run of xibi/react.py ends.
use xibi.Base.{
  ℕ, zero, suc, ◌+◌, ◌≤◌, ◌≡◌, refl, ap, ◌∙◌, inl, inr, false, Option, none, some, String, List,
  arith, Bool-cases, ◌==◌, length,
}
use xibi.React.{max_steps, ReactResult, Outcome, done, raises, World, Session, Reading, Output}
use xibi.React.Thinking.{Format, Message}
use xibi.React.Acting.{Setup}
use xibi.React.Loop.{
  Progress, Turn, Round, go_on, exit, crash, round, carried_on, exhausted, rounds,
}
use xibi.React.Salvage.{IsHonest, limit-IsHonest}
use xibi.React.Failing.{trail, IsCalm}
use mathlib.Core.Path.{subst}
use xibi.Handles.{HandleStore}
use xibi.React.Dispatching.{dispatch}
use xibi.React.Opening.{
  RoutingDecision, ShadowMatch, run_async, handle_intent, matched, shadowed, controlled,
  answered_intent, answered_directly, fresh_progress, new_store,
}
use xibi.React.Tracking.{IsTracked, Ends, IsSound, round-IsSound, partial_or-steps}

module _ {S : Type 0} (w : World S) (setup : Setup) where
  -- What the result of a run says, if it has one.
  abbrev EndsWith : ℕ → Option ReactResult → Type 0
  EndsWith bound none = Unit
  EndsWith bound (some r) = Ends w setup bound r

  exhausted-Ends :
      (p : Progress) → IsTracked p → Ends w setup (length p.scratchpad) (exhausted w setup p)
  exhausted-Ends p tracked =
      let same = partial_or-steps w setup false max_steps p.scratchpad _ in
      (
        inl (p.consecutive_errors, ap (trail 0) same ∙ tracked.0),
        limit-IsHonest w setup p.scratchpad _,
        omega (arith, ap length same),
      )

  EndsWith-le : {j k : ℕ} (o : Option ReactResult) → j ≤ k → EndsWith j o → EndsWith k o
  EndsWith-le none le h = tt
  EndsWith-le (some r) le (calm, honest, short) = (calm, honest, omega arith)

  carried_on-EndsWith :
      (bound : ℕ) (p : Progress) (next : Progress → Session S → Option ReactResult × Session S)
      (o : Round) (s : Session S)
      → IsSound w setup p o
      → length p.scratchpad + 1 ≤ bound
      → ((p' : Progress) (s : Session S)
          → IsTracked p'
          → length p'.scratchpad ≤ length p.scratchpad + 1
          → EndsWith bound (next p' s).0)
      → EndsWith bound (carried_on w setup next (o, s)).0
  carried_on-EndsWith bound p next (go_on p') s h le rest = rest p' s h.0 h.1
  carried_on-EndsWith bound p next (exit r) s h le rest = EndsWith-le (some r) le h
  carried_on-EndsWith bound p next crash s h le rest = tt

  rounds-EndsWith :
      (format : Format) (max_secs : ℕ) (turn : ℕ → Turn) (left n : ℕ) (p : Progress) (s : Session S)
      (bound : ℕ)
      → IsTracked p
      → length p.scratchpad + left ≤ bound
      → EndsWith bound (rounds w setup format max_secs turn left n p s).0
  unfolding rounds
  rounds-EndsWith format max_secs turn zero n p s bound tracked le =
      EndsWith-le (some (exhausted w setup p)) (omega arith) (exhausted-Ends p tracked)
  rounds-EndsWith format max_secs turn (suc left) n p s bound tracked le =
      let (o, s') = round w setup format max_secs n (turn n) p s in
      carried_on-EndsWith bound p (rounds w setup format max_secs turn left (suc n)) o s'
        (round-IsSound w setup p tracked format max_secs n (turn n) s) (omega arith)
        (λ p' s'' tracked' le'.
          rounds-EndsWith format max_secs turn left (suc n) p' s'' bound tracked' (omega arith))

  answered_intent-EndsWith :
      (bound : ℕ) (a : Option String) (s : Session S)
      → EndsWith bound (answered_intent w setup a s).0
  answered_intent-EndsWith bound none s = tt
  answered_intent-EndsWith bound (some a) s = (inl (0, refl), refl, omega arith)

  answered_directly-EndsWith :
      (bound : ℕ) (store : Option HandleStore) (o : Outcome Output) (s : Session S)
      → EndsWith bound (answered_directly w setup store (o, s)).0
  answered_directly-EndsWith bound store (raises e) s = tt
  answered_directly-EndsWith bound store (done output) s = (inl (0, refl), refl, omega arith)

  shadowed-EndsWith :
      (bound : ℕ) (m : Option ShadowMatch) (r : Reading)
      (next : Session S → Option ReactResult × Session S) (s : Session S)
      → EndsWith bound (next s).0
      → EndsWith bound (shadowed w setup m r next s).0
  shadowed-EndsWith bound none r next s h = h
  shadowed-EndsWith bound (some m) r next s h =
      let (o, s') = dispatch w r m.tool m.tool_input none (record s { handles = none }) in
      elim (Bool-cases (m.tier == "direct")) [
        | inl e ↦ rw e (answered_directly-EndsWith bound s.handles o s')
        | inr e ↦ rw e h
      ]

  controlled-EndsWith :
      (bound : ℕ) (d : Option RoutingDecision) (next : Session S → Option ReactResult × Session S)
      (s : Session S)
      → EndsWith bound (next s).0
      → EndsWith bound (controlled w setup d next s).0
  controlled-EndsWith bound none next s h = h
  controlled-EndsWith bound (some d) next s h = elim (Bool-cases (matched d)) [
    | inl e ↦ rw e (answered_intent-EndsWith bound (handle_intent d) s)
    | inr e ↦ rw e h
  ]

  module _ (decision : Option RoutingDecision) (shadow : Option ShadowMatch) (r : Reading)
      (format : Format) (max_secs : ℕ) (turn : ℕ → Turn) (steps : ℕ) (messages : List Message)
      (s : Session S) where
    run_async-EndsWith :
        EndsWith steps (run_async w setup decision shadow r format max_secs turn steps messages s).0
    unfolding run_async
    run_async-EndsWith = controlled-EndsWith steps decision _ s (
        shadowed-EndsWith steps shadow r _ s (
          rounds-EndsWith format max_secs turn steps 1 (fresh_progress w setup messages)
            (record s { handles = some new_store }) steps (refl, omega arith) (omega arith)))

    -- The result of a run lists no more steps than the run may take, and among them no three failures in
    -- a row, but for the last three, and with those the run has ended for an error or with a partial
    -- answer.
    pub run_async-IsCalm :
        (result : ReactResult)
        → (run_async w setup decision shadow r format max_secs turn steps messages s).0
          ≡ some result
        → IsCalm result × (length result.steps ≤ steps)
    run_async-IsCalm result e =
        let (calm, honest, short) = subst (EndsWith steps) e run_async-EndsWith in (calm, short)

    -- A run that ends with the model's own answer or question is not degraded; one that ends with a
    -- partial answer is, and the answer is what can be salvaged from its steps; one at the limit of
    -- steps has no answer only if nothing can be salvaged; and one that ends late or for an error has
    -- none.
    pub run_async-IsHonest :
        (result : ReactResult)
        → (run_async w setup decision shadow r format max_secs turn steps messages s).0
          ≡ some result
        → IsHonest w.str_of result
    run_async-IsHonest result e =
        let (calm, honest, short) = subst (EndsWith steps) e run_async-EndsWith in honest
