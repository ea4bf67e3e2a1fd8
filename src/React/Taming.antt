-- ===== src/React/Taming.antt =====
-- What a call of a tool in xibi/react.py raises, when its executor raises nothing but what the loop answers.
use xibi.Base.{◌≡◌, ◌≢◌, refl, inl, inr, Option, none, some, String, [], ◌∷◌, Dict, Bool-cases}
use xibi.Tools.{Value}
use xibi.Handles.{Payload, HandleStore, Lookup, found, evicted, not_in_store, get}
use xibi.CommandLayer.{CommandResult}
use xibi.React.{Output, own, common, foreign, Outcome, done, raises, Layer, World, Session, Reading}
use xibi.React.Wrapping.{
  fetched, resolve_value, with_field, resolve_all, is_handle, resolve_handles_in_input,
}
use xibi.React.Dispatching.{
  refusal, verdict_of, answered, through_layer, with_input, dispatch, run_tool, after_tool,
}
use xibi.React.Manners.{IsTame}

module _ {S : Type 0} (w : World S) where
  -- Nothing is raised but what the loop answers, and trust is left alone.
  abbrev pub IsMild : {A : Type 0} → Session S → Outcome A × Session S → Type 0
  IsMild s o = (o.0 ≢ raises foreign) × (o.1.trust ≡ s.trust)

  fetched-ne-foreign :
      (inflated : Payload → Value) (id : String) (l : Lookup)
      → fetched inflated id l ≢ raises foreign
  fetched-ne-foreign inflated id (found p) = λ e. cc
  fetched-ne-foreign inflated id evicted = λ e. cc
  fetched-ne-foreign inflated id not_in_store = λ e. cc

  resolve_value-ne-foreign :
      (inflated : Payload → Value) (store : HandleStore) (v : Value)
      → resolve_value inflated store v ≢ raises foreign
  resolve_value-ne-foreign inflated store v = elim (Bool-cases (is_handle v)) [
    | inl e ↦ rw e (fetched-ne-foreign inflated v.text (get v.text store))
    | inr e ↦ rw e (λ f. cc)
  ]

  with_field-ne-foreign :
      (k : String) (v : Outcome Value) (rest : Outcome (Dict Value))
      → v ≢ raises foreign
      → rest ≢ raises foreign
      → with_field k v rest ≢ raises foreign
  with_field-ne-foreign k (raises foreign) rest ne more = absurd (ne refl)
  with_field-ne-foreign k (raises (own x)) rest ne more = λ e. cc
  with_field-ne-foreign k (raises (common x)) rest ne more = λ e. cc
  with_field-ne-foreign k (done v) (raises foreign) ne more = absurd (more refl)
  with_field-ne-foreign k (done v) (raises (own x)) ne more = λ e. cc
  with_field-ne-foreign k (done v) (raises (common x)) ne more = λ e. cc
  with_field-ne-foreign k (done v) (done d) ne more = λ e. cc

  resolve_all-ne-foreign :
      (inflated : Payload → Value) (store : HandleStore) (input : Dict Value)
      → resolve_all inflated store input ≢ raises foreign
  resolve_all-ne-foreign inflated store [] = λ e. cc
  resolve_all-ne-foreign inflated store ((k, v) ∷ d) =
      with_field-ne-foreign k (resolve_value inflated store v) (resolve_all inflated store d)
        (resolve_value-ne-foreign inflated store v) (resolve_all-ne-foreign inflated store d)

  resolve-ne-foreign :
      (store : Option HandleStore) (input : Dict Value)
      → resolve_handles_in_input w.inflated store input ≢ raises foreign
  unfolding resolve_handles_in_input
  resolve-ne-foreign none input = λ e. cc
  resolve-ne-foreign (some store) input = resolve_all-ne-foreign w.inflated store input

  module _ (tame : IsTame w) where
    after_tool-IsMild :
        (r : Reading) (c : CommandResult) (tool : String) (input : Dict Value) (s : Session S)
        (o : Outcome Output) (x : S)
        → o ≢ raises foreign
        → IsMild s (after_tool w r c tool input s (o, x))
    after_tool-IsMild r c tool input s (raises foreign) x ne = absurd (ne refl)
    after_tool-IsMild r c tool input s (raises (own e)) x ne = ((λ f. cc), refl)
    after_tool-IsMild r c tool input s (raises (common reason)) x ne = ((λ f. cc), refl)
    after_tool-IsMild r c tool input s (done output) x ne = ((λ f. cc), refl)

    run_tool-ne-foreign :
        (execute : Option (String → Dict Value → S → Outcome Output × S)) (tool : String)
        (input : Dict Value) (x : S)
        → w.execute ≡ execute
        → (run_tool w execute tool input x).0 ≢ raises foreign
    run_tool-ne-foreign none tool input x e = λ f. cc
    run_tool-ne-foreign (some execute) tool input x e = tame execute e tool input x

    answered-IsMild :
        (r : Reading) (c : CommandResult) (tool : String) (input : Dict Value) (s : Session S)
        (o : Option Output)
        → IsMild s (answered w r c tool input s o)
    answered-IsMild r c tool input s (some output) = ((λ e. cc), refl)
    answered-IsMild r c tool input s none =
        let (o, x) = run_tool w w.execute tool input s.executor in
        after_tool-IsMild r c tool input s o x
          (run_tool-ne-foreign w.execute tool input s.executor refl)

    through_layer-IsMild :
        (layer : Option Layer) (r : Reading) (tool : String) (input : Dict Value)
        (source : Option String) (s : Session S)
        → IsMild s (through_layer w layer r tool input source s)
    through_layer-IsMild none r tool input source s = ((λ e. cc), refl)
    through_layer-IsMild (some layer) r tool input source s =
        let c = verdict_of w layer r tool input source s.log in
        answered-IsMild r c tool input s (refusal w.exception_text tool c)

    with_input-IsMild :
        (r : Reading) (tool : String) (source : Option String) (s : Session S)
        (input : Outcome (Dict Value))
        → input ≢ raises foreign
        → IsMild s (with_input w r tool source s input)
    with_input-IsMild r tool source s (raises foreign) ne = absurd (ne refl)
    with_input-IsMild r tool source s (raises (own x)) ne = ((λ e. cc), refl)
    with_input-IsMild r tool source s (raises (common x)) ne = ((λ e. cc), refl)
    with_input-IsMild r tool source s (done input) ne =
        through_layer-IsMild w.layer r tool input source s

    pub dispatch-IsMild :
        (r : Reading) (tool : String) (input : Dict Value) (source : Option String) (s : Session S)
        → IsMild s (dispatch w r tool input source s)
    unfolding dispatch
    dispatch-IsMild r tool input source s =
        with_input-IsMild r tool source s _ (resolve-ne-foreign s.handles input)
