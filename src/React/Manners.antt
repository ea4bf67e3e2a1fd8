-- ===== src/React/Manners.antt =====
-- What the thought of a round of xibi/react.py comes to when the database of trust raises nothing and the
-- model keeps to its format.
use xibi.Base.{
  ℕ, ◌≡◌, ◌≢◌, refl, ap, ◌∙◌, inl, inr, Bool, true, false, Option, none, some, String, List, [],
  ◌∷◌, ◌==◌, Dict, Bool-cases,
}
use mathlib.Core.Option.{none-ne-some}
use xibi.Tools.{Value}
use xibi.TrustGradient.{
  TrustRecord, FailureType, persistent, record_success, record_failure, config_of, succeeded,
  failed,
}
use xibi.TrustGradient.Effects.{sound, revise-Returns}
use xibi.React.{
  Output, Input, fields, no_dict, Step, own, common, foreign, Outcome, done, raises, World, Session,
}
use xibi.React.Thinking.{
  act_on_content, act_on_reply, native_error, native_thought, with_content, native_step,
  failed_parse, recorded, give_up, recovered, second_answer, parsed_step, first_answer, Format,
  native, prompted, Message, Reply, Parsed, Thought, think, succeed, fail,
}

module _ {S : Type 0} (w : World S) where
  -- The database of trust raises nothing.
  abbrev pub IsUp : Session S → Type 0
  IsUp s = s.trust.faults ≡ []

  -- The executor raises nothing but what the loop answers.
  abbrev pub IsTame : Type 0
  IsTame =
      (execute : String → Dict Value → S → Outcome Output × S)
      → w.execute ≡ some execute
      → (tool : String) (input : Dict Value) (x : S) → (execute tool input x).0 ≢ raises foreign

  as_sound : (s : Session S) → IsUp s → s.trust ≡ sound s.trust.table
  as_sound s up = ap (λ faults. record { table = s.trust.table; faults = faults }) up

  -- Trust is recorded, and the database still raises nothing.
  abbrev pub Records : Option TrustRecord × Session S → Type 0
  Records o = ((r : TrustRecord) × (o.0 ≡ some r)) × IsUp o.1

  pub succeed-Records : (now : ℕ) (s : Session S) → IsUp s → Records (succeed w now s)
  unfolding record_success
  succeed-Records now s up =
      let (r, t, e) =
        revise-Returns w.gradient now (succeeded (config_of w.gradient "text" "fast") now) "text"
          "fast" s.trust.table in
      let whole = ap (record_success w.gradient now "text" "fast") (as_sound s up) ∙ e in
      ((r, ap (λ q. q.0) whole), ap (λ q. q.1.faults) whole)

  pub fail-Records :
      (now : ℕ) (type : FailureType) (s : Session S) → IsUp s → Records (fail w now type s)
  unfolding record_failure
  fail-Records now type s up =
      let (r, t, e) =
        revise-Returns w.gradient now (failed (config_of w.gradient "text" "fast") now type) "text"
          "fast" s.trust.table in
      let whole = ap (record_failure w.gradient now type "text" "fast") (as_sound s up) ∙ e in
      ((r, ap (λ q. q.0) whole), ap (λ q. q.1.faults) whole)

  abbrev pub HasFields : Input → Type 0
  HasFields (fields input) = Unit
  HasFields no_dict = ⊥

  abbrev AllFields : List (Option String × Option Input) → Type 0
  AllFields [] = Unit
  AllFields ((name, none) ∷ calls) = AllFields calls
  AllFields ((name, some input) ∷ calls) = HasFields input × AllFields calls

  -- The model raises nothing but what the loop answers, and the inputs that it gives are dicts.
  abbrev pub IsWell : Format → Type 0
  IsWell (native generate) =
      (n : ℕ) (messages : List Message) (reply : Reply)
      → generate n messages ≡ done reply
      → AllFields reply.tool_calls
  IsWell (prompted generate parse) =
      ((n : ℕ) (again : Bool) (scratchpad : List Step)
        → generate n again scratchpad ≢ raises foreign)
      × ((response : String) (p : Parsed) → parse response ≡ some p → HasFields p.tool_input)

  -- A thought whose step can be acted on, or an exception that is answered.
  abbrev IsFine : Outcome (Step × String) → Type 0
  IsFine (raises foreign) = ⊥
  IsFine (raises _) = Unit
  IsFine (done (step, content)) = HasFields step.tool_input

  abbrev pub Thinks : Thought S → Type 0
  Thinks o = IsFine o.0 × IsUp o.1

  failed_parse-Thinks :
      (n : ℕ) (r : Option TrustRecord) (s : Session S)
      → Records (r, s)
      → Thinks (failed_parse w n (r, s))
  failed_parse-Thinks n none s ((r, e), up) = absurd (none-ne-some r e)
  failed_parse-Thinks n (some r) s (h, up) = (tt, up)

  recorded-Thinks :
      (n : ℕ) (p : Parsed) (warning : Option String) (otherwise : Thought S)
      (r : Option TrustRecord) (s : Session S)
      → HasFields p.tool_input
      → Records (r, s)
      → Thinks (recorded w n p warning otherwise (r, s))
  recorded-Thinks n p warning otherwise none s good ((r, e), up) = absurd (none-ne-some r e)
  recorded-Thinks n p warning otherwise (some r) s good (h, up) = (good, up)

  give_up-Thinks : (now n : ℕ) (s : Session S) → IsUp s → Thinks (give_up w now n s)
  give_up-Thinks now n s up =
      let (r, s') = fail w now persistent s in
      failed_parse-Thinks n r s' (fail-Records now persistent s up)

  module _ (parse : String → Option Parsed)
      (dicts : (response : String) (p : Parsed)
        → parse response ≡ some p
        → HasFields p.tool_input) where
    recovered-Thinks :
        (now n : ℕ) (response : String) (p : Option Parsed) (s : Session S)
        → parse response ≡ p
        → IsUp s
        → Thinks (recovered w now n p s)
    recovered-Thinks now n response none s e up = give_up-Thinks now n s up
    recovered-Thinks now n response (some p) s e up =
        let (r, s') = succeed w now s in
        recorded-Thinks n p _ _ r s' (dicts response p e) (succeed-Records now s up)

    second_answer-Thinks :
        (now n : ℕ) (answer : Outcome String) (s : Session S)
        → IsUp s
        → Thinks (second_answer w parse now n answer s)
    second_answer-Thinks now n (raises e) s up = give_up-Thinks now n s up
    second_answer-Thinks now n (done response) s up =
        recovered-Thinks now n response (parse response) s refl up

    parsed_step-Thinks :
        (now n : ℕ) (response : String) (p : Option Parsed) (again : Outcome String) (s : Session S)
        → parse response ≡ p
        → IsUp s
        → Thinks (parsed_step w parse now n p again s)
    parsed_step-Thinks now n response none again s e up = second_answer-Thinks now n again s up
    parsed_step-Thinks now n response (some p) again s e up =
        let (r, s') = succeed w now s in
        recorded-Thinks n p _ _ r s' (dicts response p e) (succeed-Records now s up)

    first_answer-Thinks :
        (now n : ℕ) (answer again : Outcome String) (s : Session S)
        → answer ≢ raises foreign
        → IsUp s
        → Thinks (first_answer w parse now n answer again s)
    first_answer-Thinks now n (raises foreign) again s ne up = absurd (ne refl)
    first_answer-Thinks now n (raises (own e)) again s ne up = (tt, up)
    first_answer-Thinks now n (raises (common reason)) again s ne up = (tt, up)
    first_answer-Thinks now n (done response) again s ne up =
        parsed_step-Thinks now n response (parse response) again s refl up

  act_on_reply-HasFields :
      (r : Reply) (calls : List (Option String × Option Input))
      → AllFields calls
      → HasFields (act_on_reply r calls).1
  act_on_reply-HasFields r [] h = content_fields
    where
      content_fields : HasFields (act_on_content r).1
      content_fields = elim (Bool-cases (r.stripped == "")) [ inl e ↦ rw e tt | inr e ↦ rw e tt ]
  act_on_reply-HasFields r ((name, none) ∷ calls) h = tt
  act_on_reply-HasFields r ((name, some input) ∷ calls) h = h.0

  native_step-HasFields :
      (answer : Outcome Reply)
      → ((reply : Reply) → answer ≡ done reply → AllFields reply.tool_calls)
      → HasFields (native_step w.exception_text answer).1
  unfolding native_step
  native_step-HasFields (raises e) h = tt
  native_step-HasFields (done r) h = act_on_reply-HasFields r r.tool_calls (h r refl)

  native_error-IsFine :
      (n : ℕ) (tool content : String) (input : Input)
      → HasFields input
      → IsFine (with_content content (native_error n tool content input))
  native_error-IsFine n tool content no_dict h = absurd h
  native_error-IsFine n tool content (fields d) h = tt

  native_thought-IsFine :
      (n : ℕ) (tool : String) (input : Input) (content : String)
      → HasFields input
      → IsFine (with_content content (native_thought n (tool, input, content)))
  native_thought-IsFine n tool input content h = elim (Bool-cases (tool == "error")) [
    | inl e ↦ rw e (native_error-IsFine n tool content input h)
    | inr e ↦ rw e h
  ]

  pub think-Thinks :
      (format : Format) (now n : ℕ) (messages : List Message) (scratchpad : List Step)
      (s : Session S)
      → IsWell format
      → IsUp s
      → Thinks (think w format now n messages scratchpad s)
  unfolding think
  think-Thinks (native generate) now n messages scratchpad s well up =
      let (tool, input, content) = native_step w.exception_text (generate n messages) in
      (
        native_thought-IsFine n tool input content
            (native_step-HasFields (generate n messages) (well n messages)),
        up,
      )
  think-Thinks (prompted generate parse) now n messages scratchpad s (calm, dicts) up =
      first_answer-Thinks parse dicts now n (generate n false scratchpad)
        (generate n true scratchpad) s (calm n false scratchpad) up
