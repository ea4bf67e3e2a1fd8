-- ===== src/React/Keeping.antt =====
-- What the parts of a round of xibi/react.py leave of the executor and of the log.
use xibi.Base.{
  ℕ, ◌≡◌, refl, inl, inr, true, false, Option, none, some, String, List, Bool-cases, ◌==◌,
}
use xibi.TrustGradient.{TrustRecord}
use xibi.React.{
  Output, Input, fields, no_dict, Step, Raised, own, common, foreign, Outcome, done, raises, World,
  Session, Reading,
}
use xibi.React.Thinking.{
  Format, native, prompted, Message, Parsed, Thought, think, succeed, first_answer, parsed_step,
  second_answer, recovered, give_up, recorded, failed_parse,
}
use xibi.React.Acting.{
  append_native_tool_result, Setup, act, is_repeat, noted, call_tool, last_source,
}
use xibi.React.Loop.{
  Progress, Turn, Round, handled, acted, recorded_act, told_back, after_success, decided, thought,
  after_failure,
}
use xibi.React.Guarding.{Moves, stay, dispatch-Moves}

module _ {S : Type 0} (w : World S) where
  -- What trust is recorded in is neither the executor nor the log.
  abbrev pub Same : Session S → Session S → Type 0
  Same s s' = (s'.executor ≡ s.executor) × (s'.log ≡ s.log)

  failed_parse-Same :
      (n : ℕ) (r : Option TrustRecord) (s : Session S) → Same s (failed_parse w n (r, s)).1
  failed_parse-Same n none s = (refl, refl)
  failed_parse-Same n (some r) s = (refl, refl)

  give_up-Same : (now n : ℕ) (s : Session S) → Same s (give_up w now n s).1
  give_up-Same now n s = failed_parse-Same n _ _

  recorded-Same :
      (n : ℕ) (p : Parsed) (warning : Option String) (otherwise : Thought S)
      (r : Option TrustRecord) (s s' : Session S)
      → Same s otherwise.1
      → Same s s'
      → Same s (recorded w n p warning otherwise (r, s')).1
  recorded-Same n p warning otherwise none s s' left right = left
  recorded-Same n p warning otherwise (some r) s s' left right = right

  recovered-Same :
      (now n : ℕ) (p : Option Parsed) (s : Session S) → Same s (recovered w now n p s).1
  recovered-Same now n none s = give_up-Same now n s
  recovered-Same now n (some p) s =
      recorded-Same n p _ _ _ s _ (give_up-Same now n (succeed w now s).1) (refl, refl)

  second_answer-Same :
      (parse : String → Option Parsed) (now n : ℕ) (answer : Outcome String) (s : Session S)
      → Same s (second_answer w parse now n answer s).1
  second_answer-Same parse now n (raises e) s = give_up-Same now n s
  second_answer-Same parse now n (done response) s = recovered-Same now n (parse response) s

  parsed_step-Same :
      (parse : String → Option Parsed) (now n : ℕ) (p : Option Parsed) (again : Outcome String)
      (s : Session S)
      → Same s (parsed_step w parse now n p again s).1
  parsed_step-Same parse now n none again s = second_answer-Same parse now n again s
  parsed_step-Same parse now n (some p) again s =
      recorded-Same n p _ _ _ s _ (second_answer-Same parse now n again (succeed w now s).1)
        (refl, refl)

  first_answer-Same :
      (parse : String → Option Parsed) (now n : ℕ) (answer again : Outcome String) (s : Session S)
      → Same s (first_answer w parse now n answer again s).1
  first_answer-Same parse now n (raises e) again s = (refl, refl)
  first_answer-Same parse now n (done response) again s =
      parsed_step-Same parse now n (parse response) again s

  pub think-Same :
      (format : Format) (now n : ℕ) (messages : List Message) (scratchpad : List Step)
      (s : Session S)
      → Same s (think w format now n messages scratchpad s).1
  unfolding think
  think-Same (native generate) now n messages scratchpad s = (refl, refl)
  think-Same (prompted generate parse) now n messages scratchpad s =
      first_answer-Same parse now n (generate n false scratchpad) (generate n true scratchpad) s

  module _ (setup : Setup) where
    noted-Moves :
        (step : Step) (o : Outcome Output) (s s' : Session S)
        → Moves w 1 s s'
        → Moves w 1 s (noted w setup step (o, s')).1
    noted-Moves step (raises e) s s' m = m
    noted-Moves step (done output) s s' m = m

    call_tool-Moves :
        (r : Reading) (step : Step) (input : Input) (source : Option String) (s : Session S)
        → Moves w 1 s (call_tool w setup r step input source s).1
    call_tool-Moves r step no_dict source s = stay w 1
    call_tool-Moves r step (fields input) source s =
        noted-Moves step _ s _ (dispatch-Moves w r step.tool input source s)

    act-Moves :
        (r : Reading) (step : Step) (scratchpad : List Step) (s : Session S)
        → Moves w 1 s (act w setup r step scratchpad s).1
    unfolding act
    act-Moves r step scratchpad s = elim (Bool-cases (step.tool == "error")) [
      | inl e ↦ rw e (stay w 1)
      | inr e ↦ rw e (call_tool-Moves r step step.tool_input (last_source scratchpad) s)
    ]

    pub after_failure-Moves :
        (k : ℕ) (o : Round) (r : Option TrustRecord) (s s' : Session S)
        → Moves w k s s'
        → Moves w k s (after_failure w setup o (r, s')).1
    after_failure-Moves k o none s s' m = m
    after_failure-Moves k o (some r) s s' m = m

    handled-Moves :
        (k now : ℕ) (p : Progress) (e : Raised) (s s' : Session S)
        → Moves w k s s'
        → Moves w k s (handled w setup now p e s').1
    handled-Moves k now p foreign s s' m = m
    handled-Moves k now p (own e) s s' m = after_failure-Moves k _ _ s _ m
    handled-Moves k now p (common reason) s s' m = after_failure-Moves k _ _ s _ m

    after_success-Moves :
        (step : Step) (p : Progress) (r : Option TrustRecord) (s s' : Session S)
        → Moves w 1 s s'
        → Moves w 1 s (after_success w setup step p (r, s')).1
    after_success-Moves step p none s s' m = m
    after_success-Moves step p (some r) s s' m = m

    told_back-Moves :
        (now : ℕ) (step : Step) (p : Progress) (messages : Option (List Message)) (s s' : Session S)
        → Moves w 1 s s'
        → Moves w 1 s (told_back w setup now step p messages s').1
    told_back-Moves now step p none s s' m = m
    told_back-Moves now step p (some messages) s s' m = after_success-Moves step _ _ s _ m

    recorded_act-Moves :
        (format : Format) (now : ℕ) (content : String) (step : Step) (p : Progress)
        (s s' : Session S)
        → Moves w 1 s s'
        → Moves w 1 s (recorded_act w setup format now content step p s').1
    recorded_act-Moves (prompted generate parse) now content step p s s' m = m
    recorded_act-Moves (native generate) now content step p s s' m =
        told_back-Moves now step p (append_native_tool_result setup p.messages step content) s s' m

    acted-Moves :
        (format : Format) (now : ℕ) (content : String) (p : Progress) (o : Outcome Step)
        (s s' : Session S)
        → Moves w 1 s s'
        → Moves w 1 s (acted w setup format now content p (o, s')).1
    acted-Moves format now content p (raises e) s s' m = handled-Moves 1 now p e s s' m
    acted-Moves format now content p (done step) s s' m =
        recorded_act-Moves format now content step p s s' m

    decided-Moves :
        (format : Format) (t : Turn) (step : Step) (content : String) (p : Progress) (s : Session S)
        → Moves w 1 s (decided w setup format t step content p s).1
    decided-Moves format t step content p s = elim (Bool-cases (step.tool == "finish")) [
      | inl e ↦ rw e (stay w 1)
      | inr e ↦ elim (Bool-cases (step.tool == "ask_user")) [
        | inl f ↦ rw (e, f) (stay w 1)
        | inr f ↦ elim (Bool-cases (is_repeat setup.words step p.scratchpad)) [
          | inl g ↦ rw (e, f, g) (stay w 1)
          | inr g ↦
              rw (e, f, g)
                (acted-Moves format t.now content p _ s _ (act-Moves t.reading step p.scratchpad s))
        ]
      ]
    ]

    pub thought-Moves :
        (format : Format) (t : Turn) (p : Progress) (o : Outcome (Step × String)) (s : Session S)
        → Moves w 1 s (thought w setup format t p (o, s)).1
    thought-Moves format t p (raises e) s = handled-Moves 1 t.now p e s s (stay w 1)
    thought-Moves format t p (done (step, content)) s = decided-Moves format t step content p s
