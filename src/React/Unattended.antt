-- ===== src/React/Unattended.antt =====
-- Runs of xibi/react.py with nobody present: which calls its executor can see.
use xibi.Base.{ℕ, ◌≡◌, ap, ◌⊎◌, inl, inr, true, false, ◌&&◌, Option, some, String, List, [], Dict}
use mathlib.Core.Path.{subst}
use xibi.Tools.{Value, validate_schema, resolve_tier, is_write_tool}
use xibi.ContentScan.{has_sensitive_content}
use xibi.CommandLayer.{Database, check_dedup}
use xibi.CommandLayer.Gates.{IsMild, check_unattended}
use xibi.React.{Output, Outcome, Layer, World, Session, Reading}
use xibi.React.Dispatching.{manifest_schema, tool_manifest, verdict_of}
use xibi.React.Thinking.{Format, Message}
use xibi.React.Acting.{Setup}
use xibi.React.Loop.{Turn}
use xibi.React.Opening.{RoutingDecision, ShadowMatch, run_async}
use xibi.React.Guarding.{Call, answers, breaks, stands_in, Calls, no_calls, first_call, Within}
use xibi.React.Refining.{run_async-refines}

module _ {S : Type 0} (w : World S) where
  -- A call that may be made with nobody present: its parameters conform to the schema, it is no
  -- duplicate in the log, no write with sensitive content, and its tier is green or yellow.
  abbrev pub IsHarmless : Layer → ℕ → Database → String → Dict Value → Option String → Type 0
  IsHarmless layer at log tool input source =
      (validate_schema input (manifest_schema (tool_manifest tool w.skill_registry)) ≡ [])
      × (check_dedup layer.profile at log tool input ≡ false)
      × ((is_write_tool tool && has_sensitive_content input) ≡ false)
      × IsMild (resolve_tier tool layer.profile source)

  -- A property of the executor's state that every harmless call keeps.
  abbrev pub IsKept : (S → Type 0) → Type 0
  IsKept P =
      (layer : Layer) (execute : String → Dict Value → S → Outcome Output × S) (at : ℕ)
      (log : Database) (tool : String) (input : Dict Value) (source : Option String) (x : S)
      → w.layer ≡ some layer
      → w.execute ≡ some execute
      → IsHarmless layer at log tool input source
      → P x
      → P (execute tool input x).1

  abbrev pub IsUnattended : Type 0
  IsUnattended = (layer : Layer) → w.layer ≡ some layer → layer.interactive ≡ false

  pub allowed-IsHarmless :
      (layer : Layer) (r : Reading) (tool : String) (input : Dict Value) (source : Option String)
      (log : Database)
      → layer.interactive ≡ false
      → (verdict_of w layer r tool input source log).allowed ≡ true
      → IsHarmless layer r.checked_at log tool input source
  allowed-IsHarmless layer r tool input source log quiet ok =
      (check_unattended layer.profile r.checked_at log tool input _ source).0 (rw quiet at ok)

  module _ (P : S → Type 0) (kept : IsKept P) (quiet : IsUnattended) where
    call_keeps : {x x' : S} {log log' : Database} → Call w x log x' log' → P x → P x'
    call_keeps (answers layer r tool input source given has ok came) p =
        subst P (ap (λ q. q.1) came) (
          kept layer _ r.checked_at _ tool input source _ given has
            (allowed-IsHarmless layer r tool input source _ (quiet layer given) ok) p)
    call_keeps (breaks layer r tool input source given has ok came) p =
        subst P (ap (λ q. q.1) came) (
          kept layer _ r.checked_at _ tool input source _ given has
            (allowed-IsHarmless layer r tool input source _ (quiet layer given) ok) p)
    call_keeps (stands_in layer r tool input source given has ok) p = p

    calls_keep : {n : ℕ} {x x' : S} {log log' : Database} → Calls w n x log x' log' → P x → P x'
    calls_keep no_calls p = p
    calls_keep (first_call c cs) p = calls_keep cs (call_keeps c p)

    either_keeps :
        {k : ℕ} {x x' : S} {log log' : Database}
        → Within w 1 x log x' log' ⊎ Within w k x log x' log'
        → P x
        → P x'
    either_keeps (inl (n, le, cs)) = calls_keep cs
    either_keeps (inr (n, le, cs)) = calls_keep cs

    -- With nobody present, a property of the executor's state that is kept by every harmless call, with
    -- whatever time, log and source it is one, holds after every run from a state with the property,
    -- whatever the model answers. A harmless call conforms to its schema, is no duplicate in the log
    -- and no write with sensitive content, and its tier for the source is green or yellow.
    pub run_async-unattended :
        (setup : Setup) (decision : Option RoutingDecision) (shadow : Option ShadowMatch)
        (r : Reading) (format : Format) (max_secs : ℕ) (turn : ℕ → Turn) (steps : ℕ)
        (messages : List Message) (s : Session S)
        → P s.executor
        → P (run_async w setup decision shadow r format max_secs turn steps messages s).1.executor
    run_async-unattended setup decision shadow r format max_secs turn steps messages s =
        either_keeps
          (run_async-refines w setup decision shadow r format max_secs turn steps messages s)
