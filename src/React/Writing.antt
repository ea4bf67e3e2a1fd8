-- ===== src/React/Writing.antt =====
-- Which answers in xibi/react.py a message of a native conversation can hold: `json.dumps` has no form for
-- an error object, and only the executor's answers can have one.
use xibi.Base.{
  ◌==◌, ◌≡◌, refl, inl, inr, Bool, true, false, Option, none, some, String, List, [], ◌∷◌, arith,
  Dict, Bool-cases, if◌then◌else◌,
}
use xibi.Tools.{Value}
use xibi.Handles.{HandleStore}
use xibi.CommandLayer.{CommandResult}
use xibi.React.{
  Field, raised, Output, Input, fields, no_dict, Step, Outcome, done, raises, Layer, World, Session,
  Reading,
}
use xibi.React.Wrapping.{maybe_wrap_in_handle}
use xibi.React.Dispatching.{
  refusal, verdict_of, answered, through_layer, with_input, dispatch, run_tool, after_tool,
}
use xibi.React.Acting.{Setup, act, noted, call_tool, last_source}

abbrev is_error_object : Field → Bool
is_error_object (raised e s) = true
is_error_object _ = false

abbrev pub holds_error : Output → Bool
holds_error [] = false
holds_error ((k, f) ∷ d) = let rest = holds_error d in if is_error_object f then true else rest

abbrev IsPlain : Outcome Output → Type 0
IsPlain (raises e) = Unit
IsPlain (done output) = holds_error output ≡ false

-- The answer in a step, where there is one.
abbrev pub HasPlain : Outcome Step → Type 0
HasPlain (raises e) = Unit
HasPlain (done step) = holds_error step.tool_output ≡ false

module _ {S : Type 0} (w : World S) where
  -- The executor gives no answer with an error object.
  abbrev pub AnswersPlain : Type 0
  AnswersPlain =
      (execute : String → Dict Value → S → Outcome Output × S)
      → w.execute ≡ some execute
      → (tool : String) (input : Dict Value) (x : S) (output : Output)
      → (execute tool input x).0 ≡ done output
      → holds_error output ≡ false

  wrap-plain :
      (r : Reading) (tool : String) (output : Output) (handles : Option HandleStore)
      → holds_error output ≡ false
      → holds_error (maybe_wrap_in_handle w r tool output handles).0 ≡ false
  unfolding maybe_wrap_in_handle
  wrap-plain r tool output none h = h
  wrap-plain r tool output (some store) h = ground (arith, h)

  refusal-plain :
      (exn tool : String) (c : CommandResult) (output : Output)
      → refusal exn tool c ≡ some output
      → holds_error output ≡ false
  refusal-plain exn tool c output h = ground (arith, h)

  after_tool-IsPlain :
      (r : Reading) (c : CommandResult) (tool : String) (input : Dict Value) (s : Session S)
      (o : Outcome Output) (x : S)
      → IsPlain o
      → IsPlain (after_tool w r c tool input s (o, x)).0
  after_tool-IsPlain r c tool input s (raises e) x h = tt
  after_tool-IsPlain r c tool input s (done output) x h = wrap-plain r tool output s.handles h

  module _ (plain : AnswersPlain) where
    executed-IsPlain :
        (o : Outcome Output)
        → ((output : Output) → o ≡ done output → holds_error output ≡ false)
        → IsPlain o
    executed-IsPlain (raises e) h = tt
    executed-IsPlain (done output) h = h output refl

    run_tool-IsPlain :
        (execute : Option (String → Dict Value → S → Outcome Output × S)) (tool : String)
        (input : Dict Value) (x : S)
        → w.execute ≡ execute
        → IsPlain (run_tool w execute tool input x).0
    run_tool-IsPlain none tool input x e = refl
    run_tool-IsPlain (some execute) tool input x e =
        executed-IsPlain (execute tool input x).0 (plain execute e tool input x)

    answered-IsPlain :
        (r : Reading) (c : CommandResult) (tool : String) (input : Dict Value) (s : Session S)
        (o : Option Output)
        → ((output : Output) → o ≡ some output → holds_error output ≡ false)
        → IsPlain (answered w r c tool input s o).0
    answered-IsPlain r c tool input s (some output) h = h output refl
    answered-IsPlain r c tool input s none h =
        let (o, x) = run_tool w w.execute tool input s.executor in
        after_tool-IsPlain r c tool input s o x
          (run_tool-IsPlain w.execute tool input s.executor refl)

    through_layer-IsPlain :
        (layer : Option Layer) (r : Reading) (tool : String) (input : Dict Value)
        (source : Option String) (s : Session S)
        → IsPlain (through_layer w layer r tool input source s).0
    through_layer-IsPlain none r tool input source s = ground arith
    through_layer-IsPlain (some layer) r tool input source s =
        let c = verdict_of w layer r tool input source s.log in
        answered-IsPlain r c tool input s (refusal w.exception_text tool c)
          (refusal-plain w.exception_text tool c)

    with_input-IsPlain :
        (r : Reading) (tool : String) (source : Option String) (s : Session S)
        (input : Outcome (Dict Value))
        → IsPlain (with_input w r tool source s input).0
    with_input-IsPlain r tool source s (raises e) = tt
    with_input-IsPlain r tool source s (done input) =
        through_layer-IsPlain w.layer r tool input source s

    dispatch-IsPlain :
        (r : Reading) (tool : String) (input : Dict Value) (source : Option String) (s : Session S)
        → IsPlain (dispatch w r tool input source s).0
    unfolding dispatch
    dispatch-IsPlain r tool input source s = with_input-IsPlain r tool source s _

    noted-HasPlain :
        (setup : Setup) (step : Step) (o : Outcome Output) (s : Session S)
        → IsPlain o
        → HasPlain (noted w setup step (o, s)).0
    noted-HasPlain setup step (raises e) s h = tt
    noted-HasPlain setup step (done output) s h = h

    call_tool-HasPlain :
        (setup : Setup) (r : Reading) (step : Step) (input : Input) (source : Option String)
        (s : Session S)
        → HasPlain (call_tool w setup r step input source s).0
    call_tool-HasPlain setup r step no_dict source s = tt
    call_tool-HasPlain setup r step (fields input) source s =
        let (o, s') = dispatch w r step.tool input source s in
        noted-HasPlain setup step o s' (dispatch-IsPlain r step.tool input source s)

    pub act-HasPlain :
        (setup : Setup) (r : Reading) (step : Step) (scratchpad : List Step) (s : Session S)
        → HasPlain (act w setup r step scratchpad s).0
    unfolding act
    act-HasPlain setup r step scratchpad s = elim (Bool-cases (step.tool == "error")) [
      | inl e ↦ rw e refl
      | inr e ↦ rw e (call_tool-HasPlain setup r step step.tool_input (last_source scratchpad) s)
    ]
