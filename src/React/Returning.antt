-- ===== src/React/Returning.antt =====
-- The loop of xibi/react.py has a result, unless something raises what it does not answer.
use xibi.Base.{
  leb, ◌+◌, ℕ, zero, suc, ◌≢◌, refl, ap, ◌∙◌, inl, inr, Option, none, some, String, List, ◌==◌,
  Bool-cases, Option-cases, ltb, ◌≡◌, false,
}
use mathlib.Core.Option.{none-ne-some}
use xibi.TrustGradient.{TrustRecord, transient, persistent}
use xibi.React.{
  Output, Input, fields, no_dict, Step, ExitReason, finish, ask_user, ReactResult, Raised, own,
  common, foreign, Outcome, done, raises, World, Session, Reading,
}
use xibi.React.Dispatching.{dispatch}
use xibi.React.Thinking.{Format, native, prompted, Message, think, succeed, fail}
use xibi.React.Writing.{AnswersPlain, holds_error, HasPlain, act-HasPlain}
use xibi.React.Acting.{
  append_native_tool_result, Setup, act, is_repeat, noted, call_tool, last_source,
}
use xibi.React.Taming.{IsMild, dispatch-IsMild}
use xibi.React.Manners.{
  IsUp, IsTame, Records, succeed-Records, fail-Records, HasFields, IsWell, Thinks, think-Thinks,
}
use xibi.React.Loop.{
  has_failed, told_back, Progress, Turn, Round, go_on, exit, crash, handled, repeated, counted,
  appended, after_success, acted, decided, thought, round, carried_on, rounds, after_failure,
  pseudo_exit,
}

module _ {S : Type 0} (w : World S) (tame : IsTame w) (setup : Setup) where
  noted-IsMild :
      (step : Step) (s : Session S) (o : Outcome Output) (s' : Session S)
      → IsMild w s (o, s')
      → IsMild w s (noted w setup step (o, s'))
  noted-IsMild step s (raises foreign) s' (ne, same) = absurd (ne refl)
  noted-IsMild step s (raises (own e)) s' (ne, same) = ((λ f. cc), same)
  noted-IsMild step s (raises (common e)) s' (ne, same) = ((λ f. cc), same)
  noted-IsMild step s (done output) s' (ne, same) = ((λ f. cc), same)

  call_tool-IsMild :
      (r : Reading) (step : Step) (input : Input) (source : Option String) (s : Session S)
      → HasFields w input
      → IsMild w s (call_tool w setup r step input source s)
  call_tool-IsMild r step no_dict source s h = absurd h
  call_tool-IsMild r step (fields input) source s h =
      let (o, s') = dispatch w r step.tool input source s in
      noted-IsMild step s o s' (dispatch-IsMild w tame r step.tool input source s)

  act-IsMild :
      (r : Reading) (step : Step) (scratchpad : List Step) (s : Session S)
      → HasFields w step.tool_input
      → IsMild w s (act w setup r step scratchpad s)
  unfolding act
  act-IsMild r step scratchpad s h = elim (Bool-cases (step.tool == "error")) [
    | inl e ↦ rw e ((λ f. cc), refl)
    | inr e ↦ rw e (call_tool-IsMild r step step.tool_input (last_source scratchpad) s h)
  ]

  -- The round is not left by an exception, and the database still raises nothing.
  abbrev IsAlive : Round × Session S → Type 0
  IsAlive o = (o.0 ≢ crash) × IsUp w o.1

  after_failure-IsAlive :
      (o : Round) (r : Option TrustRecord) (s : Session S)
      → o ≢ crash
      → Records w (r, s)
      → IsAlive (after_failure w setup o (r, s))
  after_failure-IsAlive o none s ne ((r, e), up) = absurd (none-ne-some r e)
  after_failure-IsAlive o (some r) s ne (h, up) = (ne, up)

  handled-IsAlive :
      (now : ℕ) (p : Progress) (e : Raised) (s : Session S)
      → e ≢ foreign
      → IsUp w s
      → IsAlive (handled w setup now p e s)
  handled-IsAlive now p foreign s ne up = absurd (ne refl)
  handled-IsAlive now p (own e) s ne up =
      let (r, s') = fail w now persistent s in
      after_failure-IsAlive _ r s' (λ f. cc) (fail-Records w now persistent s up)
  handled-IsAlive now p (common reason) s ne up =
      let (r, s') = fail w now transient s in
      after_failure-IsAlive _ r s' (λ f. cc) (fail-Records w now transient s up)

  repeated-ne-crash : (step : Step) (p : Progress) → repeated step p ≢ crash
  repeated-ne-crash step p = elim (Bool-cases (leb 3 (p.consecutive_errors + 1))) [
    | inl e ↦ rw e (λ f. cc)
    | inr e ↦ rw e (λ f. cc)
  ]

  counted-ne-crash : (step : Step) (p : Progress) → counted w setup step p ≢ crash
  counted-ne-crash step p = elim (Bool-cases (has_failed step)) [
    | inl f ↦ elim (Bool-cases (leb 3 (p.consecutive_errors + 1))) [
      | inl e ↦ rw (f, e) (λ g. cc)
      | inr e ↦ rw (f, e) (λ g. cc)
    ]
    | inr f ↦ rw f (λ g. cc)
  ]

  pseudo_exit-ne-crash :
      (k : String) (reason : ExitReason) (input : Input) (steps : List Step)
      → HasFields w input
      → pseudo_exit k reason input steps ≢ crash
  pseudo_exit-ne-crash k reason no_dict steps h = absurd h
  pseudo_exit-ne-crash k reason (fields input) steps h = λ e. cc

  after_success-IsAlive :
      (step : Step) (p : Progress) (r : Option TrustRecord) (s : Session S)
      → Records w (r, s)
      → IsAlive (after_success w setup step p (r, s))
  after_success-IsAlive step p none s ((r, e), up) = absurd (none-ne-some r e)
  after_success-IsAlive step p (some r) s (h, up) = (counted-ne-crash step (appended step p), up)

  -- A native conversation can be told of every answer without an error object, and there are no others.
  abbrev pub CanTell : Format → Type 0
  CanTell (prompted generate parse) = Unit
  CanTell (native generate) =
      AnswersPlain w × ((output : Output) → holds_error output ≡ false → setup.dumps output ≢ none)

  append-ne-none :
      (messages : List Message) (step : Step) (content : String)
      → setup.dumps step.tool_output ≢ none
      → append_native_tool_result setup messages step content ≢ none
  unfolding append_native_tool_result
  append-ne-none messages step content ne = elim (Option-cases (setup.dumps step.tool_output)) [
    | inl e ↦ absurd (ne e)
    | inr (written, e) ↦ rw (append_native_tool_result, e) (λ f. cc)
  ]

  told_back-IsAlive :
      (now : ℕ) (step : Step) (p : Progress) (messages : Option (List Message)) (s : Session S)
      → messages ≢ none
      → IsUp w s
      → IsAlive (told_back w setup now step p messages s)
  told_back-IsAlive now step p none s ne up = absurd (ne refl)
  told_back-IsAlive now step p (some messages) s ne up =
      let (r, s') = succeed w now s in
      after_success-IsAlive step _ r s' (succeed-Records w now s up)

  acted-IsAlive :
      (format : Format) (now : ℕ) (content : String) (p : Progress) (o : Outcome Step)
      (s s' : Session S)
      → CanTell format
      → (AnswersPlain w → HasPlain o)
      → IsUp w s
      → IsMild w s (o, s')
      → IsAlive (acted w setup format now content p (o, s'))
  acted-IsAlive format now content p (raises foreign) s s' can plain up (ne, same) =
      absurd (ne refl)
  acted-IsAlive format now content p (raises (own e)) s s' can plain up (ne, same) =
      handled-IsAlive now p (own e) s' (λ f. cc) (ap (λ t. t.faults) same ∙ up)
  acted-IsAlive format now content p (raises (common e)) s s' can plain up (ne, same) =
      handled-IsAlive now p (common e) s' (λ f. cc) (ap (λ t. t.faults) same ∙ up)
  acted-IsAlive (prompted generate parse) now content p (done step) s s' can plain up (ne, same) =
      (counted-ne-crash step (appended step p), ap (λ t. t.faults) same ∙ up)
  acted-IsAlive (native generate) now content p (done step) s s' can plain up (ne, same) =
      told_back-IsAlive now step p _ s'
        (append-ne-none p.messages step content (can.1 step.tool_output (plain can.0)))
        (ap (λ t. t.faults) same ∙ up)

  decided-IsAlive :
      (format : Format) (t : Turn) (step : Step) (content : String) (p : Progress) (s : Session S)
      → CanTell format
      → HasFields w step.tool_input
      → IsUp w s
      → IsAlive (decided w setup format t step content p s)
  decided-IsAlive format t step content p s can h up = elim (Bool-cases (step.tool == "finish")) [
    | inl e ↦ rw e (pseudo_exit-ne-crash "answer" finish step.tool_input p.scratchpad h, up)
    | inr e ↦ elim (Bool-cases (step.tool == "ask_user")) [
      | inl f ↦
          rw (e, f) (pseudo_exit-ne-crash "question" ask_user step.tool_input p.scratchpad h, up)
      | inr f ↦ elim (Bool-cases (is_repeat setup.words step p.scratchpad)) [
        | inl g ↦ rw (e, f, g) (repeated-ne-crash step p, up)
        | inr g ↦
            let (o, s') = act w setup t.reading step p.scratchpad s in
            rw (e, f, g)
              (acted-IsAlive format t.now content p o s s' can
                (λ plain. act-HasPlain w plain setup t.reading step p.scratchpad s) up
                (act-IsMild t.reading step p.scratchpad s h))
      ]
    ]
  ]

  thought-IsAlive :
      (format : Format) (t : Turn) (p : Progress) (o : Outcome (Step × String)) (s : Session S)
      → CanTell format
      → Thinks w (o, s)
      → IsAlive (thought w setup format t p (o, s))
  thought-IsAlive format t p (raises foreign) s can (fine, up) = absurd fine
  thought-IsAlive format t p (raises (own e)) s can (fine, up) =
      handled-IsAlive t.now p (own e) s (λ f. cc) up
  thought-IsAlive format t p (raises (common e)) s can (fine, up) =
      handled-IsAlive t.now p (common e) s (λ f. cc) up
  thought-IsAlive format t p (done (step, content)) s can (fine, up) =
      decided-IsAlive format t step content p s can fine up

  round-IsAlive :
      (format : Format) (max_secs n : ℕ) (t : Turn) (p : Progress) (s : Session S)
      → IsWell w format
      → CanTell format
      → IsUp w s
      → IsAlive (round w setup format max_secs n t p s)
  unfolding round
  round-IsAlive format max_secs n t p s well can up =
      let (o, s') = think w format t.now n p.messages p.scratchpad s in
      let (r, s'') = fail w t.now transient s in
      elim (Bool-cases (ltb max_secs t.elapsed)) [
        | inl e ↦
            rw e (after_failure-IsAlive _ r s'' (λ f. cc) (fail-Records w t.now transient s up))
        | inr e ↦ rw e (
            thought-IsAlive format t p o s' can
              (think-Thinks w format t.now n p.messages p.scratchpad s well up))
      ]

  carried_on-some :
      (next : Progress → Session S → Option ReactResult × Session S) (o : Round) (s : Session S)
      → IsAlive (o, s)
      → ((p : Progress) (s : Session S) → IsUp w s → (next p s).0 ≢ none)
      → (carried_on w setup next (o, s)).0 ≢ none
  carried_on-some next (go_on p) s (ne, up) rest = rest p s up
  carried_on-some next (exit r) s (ne, up) rest = λ e. cc
  carried_on-some next crash s (ne, up) rest = absurd (ne refl)

  -- The loop has a result: with a database of trust and an executor that raise nothing but what it
  -- answers, and a model that raises nothing else either and gives its inputs as dicts, it ends
  -- within its rounds with one of the exits, however the model, the parser and the tools fail; in a
  -- native conversation only if no answer of the executor holds an error object, and every answer
  -- without one has a JSON text.
  pub rounds-Returns :
      (format : Format) (max_secs : ℕ) (turn : ℕ → Turn) (left n : ℕ) (p : Progress) (s : Session S)
      → IsWell w format
      → CanTell format
      → IsUp w s
      → (rounds w setup format max_secs turn left n p s).0 ≢ none
  unfolding rounds
  rounds-Returns format max_secs turn zero n p s well can up = λ e. cc
  rounds-Returns format max_secs turn (suc left) n p s well can up =
      let (o, s') = round w setup format max_secs n (turn n) p s in
      carried_on-some (rounds w setup format max_secs turn left (suc n)) o s'
        (round-IsAlive format max_secs n (turn n) p s well can up)
        (λ p' s'' up'. rounds-Returns format max_secs turn left (suc n) p' s'' well can up')
