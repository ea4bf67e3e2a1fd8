-- ===== src/React/Sourcing.antt =====
-- One round of xibi/react.py with nobody present: with which source, log and time its call was gated.
use xibi.Base.{
  ◌==◌, ltb, ℕ, ◌≡◌, refl, sym, ap, ◌⊎◌, inl, inr, true, Option, none, some, String, List, [], ◌∷◌,
  Dict, Bool-cases,
}
use mathlib.Core.Path.{subst}
use xibi.Tools.{Value}
use xibi.TrustGradient.{TrustRecord}
use xibi.CommandLayer.{Database, CommandResult}
use xibi.React.{
  Output, Input, fields, no_dict, Step, Raised, own, common, foreign, Outcome, done, raises, Layer,
  World, Session, Reading,
}
use xibi.React.Dispatching.{
  refusal, verdict_of, answered, through_layer, with_input, dispatch, run_tool, after_tool,
}
use xibi.React.Thinking.{Format, native, prompted, Message, think}
use xibi.React.Acting.{Setup, act, is_repeat, noted, call_tool, last_source}
use xibi.React.Loop.{
  told_back, after_success, after_failure, handled, acted, decided, thought, round, Turn, Progress,
  Round,
}
use xibi.React.Guarding.{gates_say, verdict-allowed}
use xibi.React.Keeping.{think-Same}
use xibi.React.Unattended.{IsHarmless, IsUnattended, allowed-IsHarmless}

-- The source of the last step of a scratchpad, after a source from before it.
abbrev latest : Option String → List Step → Option String
latest source [] = source
latest source (s ∷ ss) = latest (some s.source) ss

last_source-latest :
    (source : Option String) (s : Step) (ss : List Step)
    → last_source (s ∷ ss) ≡ latest source (s ∷ ss)
last_source-latest source s [] = refl
last_source-latest source s (t ∷ ss) = last_source-latest (some s.source) t ss

-- The source of the step before, if there is one.
abbrev pub source_before : List Step → Option String
source_before scratchpad = latest none scratchpad

last_source-source_before :
    (scratchpad : List Step) → last_source scratchpad ≡ source_before scratchpad
last_source-source_before [] = refl
last_source-source_before (s ∷ ss) = last_source-latest none s ss

module _ {S : Type 0} (w : World S) where
  -- The executor is as it was, or has made one call that the gates have allowed, asked with that
  -- time, source and log.
  abbrev Reaches : Reading → Option String → Database → S → S → Type 0
  Reaches r source log x x' =
      (x' ≡ x)
      ⊎ ((layer : Layer) × (execute : String → Dict Value → S → Outcome Output × S)
          × (tool : String) × (input : Dict Value) × (w.layer ≡ some layer)
          × (w.execute ≡ some execute)
          × ((gates_say w layer r tool input source log).allowed ≡ true)
          × (x' ≡ (execute tool input x).1))

  after_tool-executor :
      (r : Reading) (c : CommandResult) (tool : String) (input : Dict Value) (s : Session S)
      (o : Outcome Output) (x : S)
      → (after_tool w r c tool input s (o, x)).1.executor ≡ x
  after_tool-executor r c tool input s (raises e) x = refl
  after_tool-executor r c tool input s (done output) x = refl

  module _ (layer : Layer) (r : Reading) (tool : String) (input : Dict Value)
      (source : Option String) (s : Session S) (given : w.layer ≡ some layer) where
    ran-Reaches :
        (execute : Option (String → Dict Value → S → Outcome Output × S))
        → w.execute ≡ execute
        → (verdict_of w layer r tool input source s.log).allowed ≡ true
        → Reaches r source s.log s.executor
            (after_tool w r
              (verdict_of w layer r tool input source s.log)
              tool
              input
              s
              (run_tool w execute tool input s.executor)).1.executor
    ran-Reaches none has ok = inl refl
    ran-Reaches (some execute) has ok =
        let (o, x) = execute tool input s.executor in
        inr (
          layer,
          execute,
          tool,
          input,
          given,
          has,
          ok,
          after_tool-executor r (verdict_of w layer r tool input source s.log) tool input s o x,
        )

    answered-Reaches :
        (o : Option Output)
        → refusal w.exception_text tool (verdict_of w layer r tool input source s.log) ≡ o
        → Reaches r source s.log s.executor
            (answered w r (verdict_of w layer r tool input source s.log) tool input s o).1.executor
    answered-Reaches (some output) e = inl refl
    answered-Reaches none e =
        ran-Reaches w.execute refl (verdict-allowed w layer r tool input source s.log e)

  through_layer-Reaches :
      (layer : Option Layer) (r : Reading) (tool : String) (input : Dict Value)
      (source : Option String) (s : Session S)
      → w.layer ≡ layer
      → Reaches r source s.log s.executor (through_layer w layer r tool input source s).1.executor
  through_layer-Reaches none r tool input source s given = inl refl
  through_layer-Reaches (some layer) r tool input source s given =
      answered-Reaches layer r tool input source s given _ refl

  with_input-Reaches :
      (r : Reading) (tool : String) (source : Option String) (s : Session S)
      (input : Outcome (Dict Value))
      → Reaches r source s.log s.executor (with_input w r tool source s input).1.executor
  with_input-Reaches r tool source s (raises e) = inl refl
  with_input-Reaches r tool source s (done input) =
      through_layer-Reaches w.layer r tool input source s refl

  dispatch-Reaches :
      (r : Reading) (tool : String) (input : Dict Value) (source : Option String) (s : Session S)
      → Reaches r source s.log s.executor (dispatch w r tool input source s).1.executor
  unfolding dispatch
  dispatch-Reaches r tool input source s = with_input-Reaches r tool source s _

  module _ (setup : Setup) where
    noted-executor :
        (step : Step) (o : Outcome Output) (s : Session S) → (noted w setup step (o, s)).1 ≡ s
    noted-executor step (raises e) s = refl
    noted-executor step (done output) s = refl

    call_tool-Reaches :
        (r : Reading) (step : Step) (input : Input) (source : Option String) (s : Session S)
        → Reaches r source s.log s.executor (call_tool w setup r step input source s).1.executor
    call_tool-Reaches r step no_dict source s = inl refl
    call_tool-Reaches r step (fields input) source s =
        let (o, s') = dispatch w r step.tool input source s in
        rw (noted-executor step o s') (dispatch-Reaches r step.tool input source s)

    act-Reaches :
        (r : Reading) (step : Step) (scratchpad : List Step) (s : Session S)
        → Reaches r
            (source_before scratchpad)
            s.log
            s.executor
            (act w setup r step scratchpad s).1.executor
    unfolding act
    act-Reaches r step scratchpad s = elim (Bool-cases (step.tool == "error")) [
      | inl e ↦ rw e (inl refl)
      | inr e ↦
          rw (e, sym (last_source-source_before scratchpad))
            (call_tool-Reaches r step step.tool_input (last_source scratchpad) s)
    ]

    after_failure-executor :
        (o : Round) (r : Option TrustRecord) (s : Session S)
        → (after_failure w setup o (r, s)).1 ≡ s
    after_failure-executor o none s = refl
    after_failure-executor o (some r) s = refl

    handled-executor :
        (now : ℕ) (p : Progress) (e : Raised) (s : Session S)
        → (handled w setup now p e s).1.executor ≡ s.executor
    handled-executor now p foreign s = refl
    handled-executor now p (own e) s = ap (λ t. t.executor) (after_failure-executor _ _ _)
    handled-executor now p (common reason) s = ap (λ t. t.executor) (after_failure-executor _ _ _)

    after_success-executor :
        (step : Step) (p : Progress) (r : Option TrustRecord) (s : Session S)
        → (after_success w setup step p (r, s)).1 ≡ s
    after_success-executor step p none s = refl
    after_success-executor step p (some r) s = refl

    told_back-executor :
        (now : ℕ) (step : Step) (p : Progress) (messages : Option (List Message)) (s : Session S)
        → (told_back w setup now step p messages s).1.executor ≡ s.executor
    told_back-executor now step p none s = refl
    told_back-executor now step p (some messages) s =
        ap (λ t. t.executor) (after_success-executor step _ _ _)

    acted-executor :
        (format : Format) (now : ℕ) (content : String) (p : Progress) (o : Outcome Step)
        (s : Session S)
        → (acted w setup format now content p (o, s)).1.executor ≡ s.executor
    acted-executor format now content p (raises e) s = handled-executor now p e s
    acted-executor (prompted generate parse) now content p (done step) s = refl
    acted-executor (native generate) now content p (done step) s = told_back-executor now step p _ s

    decided-Reaches :
        (format : Format) (t : Turn) (step : Step) (content : String) (p : Progress) (s : Session S)
        → Reaches t.reading
            (source_before p.scratchpad)
            s.log
            s.executor
            (decided w setup format t step content p s).1.executor
    decided-Reaches format t step content p s = elim (Bool-cases (step.tool == "finish")) [
      | inl e ↦ rw e (inl refl)
      | inr e ↦ elim (Bool-cases (step.tool == "ask_user")) [
        | inl f ↦ rw (e, f) (inl refl)
        | inr f ↦ elim (Bool-cases (is_repeat setup.words step p.scratchpad)) [
          | inl g ↦ rw (e, f, g) (inl refl)
          | inr g ↦
              let (o, s') = act w setup t.reading step p.scratchpad s in
              rw (e, f, g, acted-executor format t.now content p o s')
                (act-Reaches t.reading step p.scratchpad s)
        ]
      ]
    ]

    thought-Reaches :
        (format : Format) (t : Turn) (p : Progress) (o : Outcome (Step × String)) (s : Session S)
        → Reaches t.reading
            (source_before p.scratchpad)
            s.log
            s.executor
            (thought w setup format t p (o, s)).1.executor
    thought-Reaches format t p (raises e) s = inl (handled-executor t.now p e s)
    thought-Reaches format t p (done (step, content)) s = decided-Reaches format t step content p s

    round-Reaches :
        (format : Format) (max_secs n : ℕ) (t : Turn) (p : Progress) (s : Session S)
        → Reaches t.reading
            (source_before p.scratchpad)
            s.log
            s.executor
            (round w setup format max_secs n t p s).1.executor
    unfolding round
    round-Reaches format max_secs n t p s =
        let (o, s') = think w format t.now n p.messages p.scratchpad s in
        let (same, same_log) = think-Same w format t.now n p.messages p.scratchpad s in
        elim (Bool-cases (ltb max_secs t.elapsed)) [
          | inl e ↦ rw e (inl (ap (λ u. u.executor) (after_failure-executor _ _ _)))
          | inr e ↦
              let x' = (thought w setup format t p (o, s')).1.executor in
              let source = source_before p.scratchpad in
              let there = thought-Reaches format t p o s' in
              rw e (
                subst (λ log. Reaches t.reading source log s.executor x') same_log
                  (subst (λ x. Reaches t.reading source s'.log x x') same there))
        ]

    -- With nobody present, a round of the loop leaves the executor as it was, or has it make one call:
    -- the call's input conforms to the schema of its tool, it is no duplicate in the log as the round
    -- found it at the time of the round's check, it is no write with sensitive content, and its tier,
    -- raised for the source of the last step of the scratchpad, is green or yellow.
    pub round-unattended :
        (format : Format) (max_secs n : ℕ) (t : Turn) (p : Progress) (s : Session S)
        → IsUnattended w
        → let x' = (round w setup format max_secs n t p s).1.executor in
          (x' ≡ s.executor)
          ⊎ ((layer : Layer) × (execute : String → Dict Value → S → Outcome Output × S)
              × (tool : String) × (input : Dict Value) × (w.layer ≡ some layer)
              × (w.execute ≡ some execute)
              × IsHarmless w layer t.reading.checked_at s.log tool input
                  (source_before p.scratchpad)
              × (x' ≡ (execute tool input s.executor).1))
    round-unattended format max_secs n t p s quiet = elim (round-Reaches format max_secs n t p s) [
      | inl same ↦ inl same
      | inr (layer, execute, tool, input, given, has, ok, made) ↦ inr (
        layer,
        execute,
        tool,
        input,
        given,
        has,
        allowed-IsHarmless w layer t.reading tool input (source_before p.scratchpad) s.log
            (quiet layer given) ok,
        made,
      )
    ]
