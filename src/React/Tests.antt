-- ===== src/React/Tests.antt =====
-- Concrete runs of xibi/react.py, and its theorems at them.
use xibi.Base.{
  ℕ, ◌≤◌, ◌≡◌, ◌≢◌, refl, ◌⊎◌, Bool, true, false, Option, none, some, String, List, [], ◌∷◌, arith,
  ◌==◌, if◌then◌else◌, Dict, length, codes,
}
use xibi.Tools.{Value, Profile, Kind}
use xibi.CommandLayer.{rows}
use xibi.TrustGate.{GateConfig, shadow}
use xibi.TrustGradient.{Gradient}
use xibi.React.{
  text, Output, fields, Step, error, nothing, ReactResult, Outcome, done, raises, Layer, World,
  Session, Reading, SkillManifest, no_dict,
}
use xibi.React.Thinking.{Format, prompted, Parsed, plain_step}
use xibi.React.Acting.{Setup}
use xibi.React.Loop.{ended, Progress, Turn, exit, round, rounds}
use xibi.React.Opening.{run_async}
use xibi.React.Refining.{run_async-refines}
use xibi.React.Guarding.{Within}
use xibi.React.Sourcing.{round-unattended, source_before}
use xibi.React.Unattended.{IsHarmless, run_async-unattended}
use xibi.React.Salvage.{IsHonest}
use xibi.React.Failing.{IsCalm}
use xibi.React.Ending.{run_async-IsCalm, run_async-IsHonest}
use mathlib.Core.Option.{some-injective}
use xibi.Tools.{resolve_tier, base_tier, override, red}
use xibi.CommandLayer.Gates.{IsMild}
use mathlib.Core.Path.{subst}
use xibi.TrustGradient.{record_success, upsert_record, succeeded, config_of, model_hash_of}
use xibi.React.Dispatching.{dispatch}
use xibi.React.Wrapping.{resolve_handles_in_input}
use xibi.CommandLayer.{check, check_dedup}
use xibi.Tools.{validate_schema, is_external, is_write_tool}
use xibi.Base.{sym, member, ap, eq_iff}
use xibi.React.{foreign}
use xibi.React.Unattended.{IsKept}
use xibi.React.Manners.{HasFields, IsTame}
use xibi.React.Returning.{rounds-Returns}
use xibi.Base.{same_codes}
use xibi.React.Parsing.{Object, Loaded, object, malformed, arguments_given, parse_xml_response}
use xibi.React.Parsing.Tags.{call_text, parse_xml_response-call_text}
use xibi.React.Unparsed.{unparsed_ends_without_answer}

-- The executor keeps the names of the tools that it has run.
abbrev serve : String → Dict Value → List String → Outcome Output × List String
serve tool input x = (done (("status", text "ok") ∷ ("content", text "two files") ∷ []), tool ∷ x)

abbrev profile : Profile
profile = record { tool_permissions = []; nudge_dedup_hours = none }

abbrev files : SkillManifest
files = record {
  skill_name = "files";
  tools = record { name = "list_files"; input_schema = none; server = none } ∷ [];
}

abbrev gradient : Gradient
gradient = record { configs = []; role_configs = none; digest = λ s. s }

abbrev layer_here : Layer
layer_here = record { profile = profile; interactive = false }

abbrev world : World (List String)
world = record {
  layer = some layer_here;
  skill_registry = files ∷ [];
  execute = some serve;
  str_of = λ output. [];
  json_size = λ output. 40;
  inflated = λ p. record { kind = Kind.dict; text = "{}"; items = none };
  exception_text = "no JSON";
  gradient = gradient;
}

abbrev gate : GateConfig
gate = record { enabled = true; sanitize = shadow }

abbrev setup : Setup
setup = record {
  words = λ input. [];
  dumps = λ output. some (codes "{}");
  gate = gate;
  sources = none;
}

abbrev session : Session (List String)
session = record {
  log = rows [];
  handles = none;
  executor = [];
  trust = record { table = []; faults = [] };
}

abbrev reading : Reading
reading = record {
  checked_at = 100;
  audited_at = 100;
  created_at = 100;
  offered = "h_a4f1" ∷ [];
  fallback = "h_a4f1bb";
}

abbrev turn : ℕ → Turn
turn n = record { elapsed = n; now = n; reading = reading }

-- A model that looks once, and then ends.
abbrev looks : ℕ → Bool → List Step → Outcome String
looks n again [] = done "look"
looks n again (s ∷ ss) = done "end"

abbrev parse : String → Option Parsed
parse response =
    if response == "look"
    then some (record { thought = "look"; tool = "list_files"; tool_input = fields [] })
    else if response == "end"
    then some (record { thought = "end"; tool = "finish"; tool_input = fields [] })
    else none

abbrev looking : Format
looking = prompted looks parse

run_async-refines_example :
    let s = (run_async world setup none none reading looking 120 turn 10 [] session).1 in
    Within world 1 [] (rows []) s.executor s.log ⊎ Within world 10 [] (rows []) s.executor s.log
run_async-refines_example =
    run_async-refines world setup none none reading looking 120 turn 10 [] session

parse-fields : (response : String) (p : Parsed) → parse response ≡ some p → p.tool_input ≡ fields []
parse-fields response p e = ground arith

parse-HasFields :
    (response : String) (p : Parsed) → parse response ≡ some p → HasFields world p.tool_input
parse-HasFields response p e = rw (parse-fields response p e) tt

looks-ne-foreign : (n : ℕ) (again : Bool) (ss : List Step) → looks n again ss ≢ raises foreign
looks-ne-foreign n again [] = λ e. cc
looks-ne-foreign n again (s ∷ ss) = λ e. cc

world-IsTame : IsTame world
world-IsTame execute e tool input x = rw (sym (some-injective serve execute e)) (λ f. cc)

abbrev begin : Progress
begin = record { scratchpad = []; consecutive_errors = 0; messages = [] }

rounds-Returns_example : (rounds world setup looking 120 turn 10 1 begin session).0 ≢ none
rounds-Returns_example =
    rounds-Returns world world-IsTame setup looking 120 turn 10 1 begin session
      (looks-ne-foreign, parse-HasFields) tt refl

send_email_red : (source : Option String) → resolve_tier "send_email" profile source ≡ some red
unfolding resolve_tier base_tier override
send_email_red source = ground arith

-- The tool that sends mail has not been run.
abbrev NotSent : List String → Type 0
NotSent names = member "send_email" names ≡ false

mild-ne-send_email :
    (tool : String) (source : Option String)
    → IsMild (resolve_tier tool profile source)
    → tool ≢ "send_email"
mild-ne-send_email tool source mild e = ground (arith, rw e at mild, send_email_red source)

NotSent-IsKept : IsKept world NotSent
NotSent-IsKept layer execute at log tool input source x e f harmless not_sent =
    let same = some-injective layer_here layer e in
    let mild = subst (λ l. IsMild (resolve_tier tool l.profile source)) (sym same) harmless.3 in
    let other = mild-ne-send_email tool source mild in
    rw (sym (some-injective serve execute f))
      (ground (arith, eq_iff tool "send_email", other, not_sent))

run_async-unattended_example :
    NotSent (run_async world setup none none reading looking 120 turn 10 [] session).1.executor
run_async-unattended_example =
    run_async-unattended world NotSent NotSent-IsKept
      (λ layer e. ap (λ l. l.interactive) (sym (some-injective layer_here layer e))) setup none none
      reading looking 120 turn 10 [] session refl

-- A model that always looks, after a step with mail from outside.
abbrev peering : Format
peering = prompted (λ n again steps. done "look") parse

abbrev stained : Progress
stained = record begin {
  scratchpad =
      record {
        step_num = 1;
        thought = "";
        tool = "read_mail";
        tool_input = no_dict;
        tool_output = [];
        parse_warning = none;
        error = none;
        source = "mcp:mail";
      }
      ∷ [];
}

round-unattended_example :
    let x' = (round world setup peering 120 2 (turn 2) stained session).1.executor in
    (x' ≡ [])
    ⊎ ((layer : Layer) × (execute : String
          → Dict Value
          → List String
          → Outcome Output × List String)
        × (tool : String) × (input : Dict Value) × (some layer_here ≡ some layer)
        × (some serve ≡ some execute)
        × IsHarmless world layer 100 (rows []) tool input (source_before stained.scratchpad)
        × (x' ≡ (execute tool input []).1))
round-unattended_example =
    round-unattended world setup peering 120 2 (turn 2) stained session
      (λ layer e. ap (λ l. l.interactive) (sym (some-injective layer_here layer e)))

abbrev outcome : Option ReactResult → ReactResult
outcome none = ended nothing error []
outcome (some r) = r

abbrev result : ReactResult
result = outcome (run_async world setup none none reading looking 120 turn 10 [] session).0

run_ends : (run_async world setup none none reading looking 120 turn 10 [] session).0 ≡ some result
unfolding run_async rounds record_success upsert_record dispatch resolve_handles_in_input check
    resolve_tier override validate_schema is_external base_tier is_write_tool check_dedup succeeded
    config_of model_hash_of
run_ends = refl

run_async-IsCalm_example : IsCalm result × (length result.steps ≤ 10)
run_async-IsCalm_example =
    run_async-IsCalm world setup none none reading looking 120 turn 10 [] session result run_ends

run_async-IsHonest_example : IsHonest world.str_of result
run_async-IsHonest_example =
    run_async-IsHonest world setup none none reading looking 120 turn 10 [] session result run_ends

-- A model that never keeps to the format.
abbrev rambles : ℕ → Bool → List Step → Outcome String
rambles n again scratchpad = done "hm"

abbrev unparsed : Step
unparsed =
    plain_step 1 (record { thought = "hm"; tool = "error"; tool_input = fields [] }) none none

abbrev after_two : Progress
after_two = record { scratchpad = unparsed ∷ unparsed ∷ []; consecutive_errors = 2; messages = [] }

unparsed_ends_without_answer_example :
    (r : ReactResult) × ((round world setup
        (prompted rambles parse)
        120
        3
        (turn 3)
        after_two
        session).0
      ≡ exit r)
    × (r.answer ≡ nothing)
    × (r.exit_reason ≡ error)
unparsed_ends_without_answer_example =
    unparsed_ends_without_answer world setup rambles parse 120 3 (turn 3) after_two session
      (λ again. ("hm", refl, refl)) refl (omega arith) refl refl refl

-- A library that reads one JSON text.
abbrev empty_object : Object
empty_object = record {
  thought = none;
  tool = none;
  tool_input = none;
  name = none;
  arguments = none;
  whole = [];
}

abbrev loads : List ℕ → Loaded
loads raw = if same_codes raw (codes "{}") then object empty_object else malformed

parse_xml_response-call_text_example :
    parse_xml_response loads
      (λ raw. [])
      (call_text (codes " I look.") (codes "list_files") (codes "{} "))
    ≡ some (record {
      thought = codes "I look.";
      tool = codes "list_files";
      given = arguments_given (fields []);
    })
parse_xml_response-call_text_example =
    parse_xml_response-call_text (codes " I look.") (codes "list_files") (codes "{} ") refl refl
      refl loads (λ raw. []) empty_object refl refl refl refl refl refl
