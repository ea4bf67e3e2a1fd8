-- ===== src/React/Guarding.antt =====
-- What xibi/react.py lets an executor do: every call that reaches it has passed the command layer.
use xibi.Base.{
  refl, ◌≡◌, Bool, true, Option, none, some, String, List, [], ◌∷◌, arith, ◌+◌, ◌≤◌, ℕ, Dict, suc,
  zero_add, suc_add, if◌then◌else◌,
}
use xibi.Tools.{PermissionTier, Value, SchemaError}
use xibi.CommandLayer.{Database, check, audit, with_tiers, CommandResult}
use xibi.React.{Layer, World, Reading, Outcome, Session, Output, done, raises, Raised}
use xibi.React.Wrapping.{resolve_handles_in_input}
use xibi.React.Dispatching.{
  refusal, verdict_of, after_tool, answered, run_tool, manifest_schema, tool_manifest,
  through_layer, with_input, dispatch,
}

-- A call that the gates do not allow is answered, and goes no further.
gate_refuses :
    (exn tool : String) (base t : Option PermissionTier) (errors : List SchemaError) (i s d : Bool)
    → refusal exn tool (with_tiers base t errors i s d) ≡ none
    → (with_tiers base t errors i s d).allowed ≡ true
gate_refuses exn tool none t errors i s d h = cc
gate_refuses exn tool (some b) none errors i s d h = cc
gate_refuses exn tool (some b) (some t) [] i s d h = ground arith
gate_refuses exn tool (some b) (some t) (e ∷ es) i s d h = cc

-- What the layer says of a call, asked with the schema of the call's manifest.
abbrev pub gates_say :
    {S : Type 0}
    → World S
    → Layer
    → Reading
    → String
    → Dict Value
    → Option String
    → Database
    → CommandResult
gates_say w layer r tool input source log =
    check layer.profile layer.interactive r.checked_at log tool input
      (manifest_schema (tool_manifest tool w.skill_registry)) source

-- The log after a call that went through.
abbrev log_after : Reading → CommandResult → String → Dict Value → Database → Database
log_after r c tool input log = if c.audit_required then audit r.audited_at tool input log else log

-- One call that has passed the layer: it answers, and is logged if it has to be; it raises; or there
-- is no executor to answer it.
pub data Call {S : Type 0} (w : World S) : S → Database → S → Database → Type 0 where
  answers :
      (layer : Layer) {execute : String → Dict Value → S → Outcome Output × S} (r : Reading)
      (tool : String) (input : Dict Value) (source : Option String) {x x' : S} {log : Database}
      {output : Output}
      → w.layer ≡ some layer
      → w.execute ≡ some execute
      → (gates_say w layer r tool input source log).allowed ≡ true
      → execute tool input x ≡ (done output, x')
      → Call w x log x' (log_after r (gates_say w layer r tool input source log) tool input log)
  breaks :
      (layer : Layer) {execute : String → Dict Value → S → Outcome Output × S} (r : Reading)
      (tool : String) (input : Dict Value) (source : Option String) {x x' : S} {log : Database}
      {e : Raised}
      → w.layer ≡ some layer
      → w.execute ≡ some execute
      → (gates_say w layer r tool input source log).allowed ≡ true
      → execute tool input x ≡ (raises e, x')
      → Call w x log x' log
  stands_in :
      (layer : Layer) (r : Reading) (tool : String) (input : Dict Value) (source : Option String)
      {x : S} {log : Database}
      → w.layer ≡ some layer
      → w.execute ≡ none
      → (gates_say w layer r tool input source log).allowed ≡ true
      → Call w x log x (log_after r (gates_say w layer r tool input source log) tool input log)

-- So many calls, one after the other.
pub data Calls {S : Type 0} (w : World S) : ℕ → S → Database → S → Database → Type 0 where
  no_calls : {x : S} {log : Database} → Calls w 0 x log x log
  first_call :
      {n : ℕ} {x x' x'' : S} {log log' log'' : Database}
      → Call w x log x' log'
      → Calls w n x' log' x'' log''
      → Calls w (suc n) x log x'' log''

module _ {S : Type 0} (w : World S) where
  -- From one state to the other by at most so many calls.
  abbrev pub Within : ℕ → S → Database → S → Database → Type 0
  Within k x log x' log' = (n : ℕ) × (n ≤ k) × Calls w n x log x' log'

  abbrev pub Moves : ℕ → Session S → Session S → Type 0
  Moves k s s' = Within k s.executor s.log s'.executor s'.log

  pub stay : (k : ℕ) {x : S} {log : Database} → Within k x log x log
  stay k = (0, omega arith, no_calls)

  pub one : {x x' : S} {log log' : Database} → Call w x log x' log' → Within 1 x log x' log'
  one c = (1, omega arith, first_call c no_calls)

  Calls-append :
      {m n : ℕ} {x x' x'' : S} {log log' log'' : Database}
      → Calls w m x log x' log'
      → Calls w n x' log' x'' log''
      → Calls w (m + n) x log x'' log''
  Calls-append no_calls later = rw zero_add later
  Calls-append (first_call c earlier) later = rw suc_add (first_call c (Calls-append earlier later))

  pub Within-le :
      {j k : ℕ} {x x' : S} {log log' : Database}
      → j ≤ k
      → Within j x log x' log'
      → Within k x log x' log'
  Within-le le (n, le', calls) = (n, omega arith, calls)

  pub Within-append :
      {j k : ℕ} {x x' x'' : S} {log log' log'' : Database}
      → Within j x log x' log'
      → Within k x' log' x'' log''
      → Within (j + k) x log x'' log''
  Within-append (m, le, earlier) (n, le', later) = (m + n, omega arith, Calls-append earlier later)

  pub verdict-allowed :
      (layer : Layer) (r : Reading) (tool : String) (input : Dict Value) (source : Option String)
      (log : Database)
      → refusal w.exception_text tool (verdict_of w layer r tool input source log) ≡ none
      → (verdict_of w layer r tool input source log).allowed ≡ true
  unfolding check
  verdict-allowed layer r tool input source log h = gate_refuses w.exception_text tool _ _ _ _ _ _ h

  module _ (layer : Layer) (r : Reading) (tool : String) (input : Dict Value)
      (source : Option String) (s : Session S) (given : w.layer ≡ some layer) where
    abbrev verdict_here : CommandResult
    verdict_here = verdict_of w layer r tool input source s.log

    settled :
        (execute : String → Dict Value → S → Outcome Output × S) (o : Outcome Output) (x' : S)
        → w.execute ≡ some execute
        → verdict_here.allowed ≡ true
        → execute tool input s.executor ≡ (o, x')
        → Moves 1 s (after_tool w r verdict_here tool input s (o, x')).1
    settled execute (raises e) x' has ok came =
        one (breaks layer r tool input source given has ok came)
    settled execute (done output) x' has ok came =
        rw ok (one (answers layer r tool input source given has ok came))

    ran :
        (execute : Option (String → Dict Value → S → Outcome Output × S))
        → w.execute ≡ execute
        → verdict_here.allowed ≡ true
        → Moves 1 s
            (after_tool w r verdict_here tool input s (run_tool w execute tool input s.executor)).1
    ran none has ok = rw ok (one (stands_in layer r tool input source given has ok))
    ran (some execute) has ok = settled execute _ _ has ok refl

    answered-Within :
        (o : Option Output)
        → refusal w.exception_text tool verdict_here ≡ o
        → Moves 1 s (answered w r verdict_here tool input s o).1
    answered-Within (some output) e = stay 1
    answered-Within none e = ran w.execute refl (verdict-allowed layer r tool input source s.log e)

  through_layer-Moves :
      (layer : Option Layer) (r : Reading) (tool : String) (input : Dict Value)
      (source : Option String) (s : Session S)
      → w.layer ≡ layer
      → Moves 1 s (through_layer w layer r tool input source s).1
  through_layer-Moves none r tool input source s given = stay 1
  through_layer-Moves (some layer) r tool input source s given =
      answered-Within layer r tool input source s given _ refl

  with_input-Moves :
      (r : Reading) (tool : String) (source : Option String) (s : Session S)
      (input : Outcome (Dict Value))
      → Moves 1 s (with_input w r tool source s input).1
  with_input-Moves r tool source s (raises e) = stay 1
  with_input-Moves r tool source s (done input) =
      through_layer-Moves w.layer r tool input source s refl

  pub dispatch-Moves :
      (r : Reading) (tool : String) (input : Dict Value) (source : Option String) (s : Session S)
      → Moves 1 s (dispatch w r tool input source s).1
  unfolding dispatch
  dispatch-Moves r tool input source s =
      with_input-Moves r tool source s (resolve_handles_in_input w.inflated s.handles input)
