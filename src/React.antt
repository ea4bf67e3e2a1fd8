-- ===== src/React.antt =====
-- xibi/react.py and xibi/types.py: the agent's loop of thought, action and observation. This file has
-- its data and the words that name special tools; the children have the parts of the loop.
pub mod Rendering
pub mod Wrapping
pub mod Refusals
pub mod Dispatching
pub mod Thinking
pub mod Acting
pub mod Loop
pub mod Opening
pub mod Guarding
pub mod Keeping
pub mod Refining
pub mod Unattended
pub mod Sourcing
pub mod Salvage
pub mod Failing
pub mod Tracking
pub mod Ending
pub mod Manners
pub mod Taming
pub mod Writing
pub mod Returning
pub mod Unparsed
pub mod Parsing
mod Tests
use xibi.Base.{
  ℕ, Bool, true, false, Option, none, some, String, List, [], ◌∷◌, ◌==◌, Dict, lookup, member,
  append_text, codes, length, Store,
}
use xibi.Errors.{XibiError, user_message}
use xibi.Tools.{Value, Schema, Profile}
use xibi.CommandLayer.{Database}
use xibi.Handles.{Payload, HandleStore}
use xibi.TrustGradient.{Gradient, Table}

-- A part of a tool's answer: a value as far as the loop looks into it, with whether it is true and
-- its `str(...)` in code points.
pub record Scalar : Type 0 where
  pub truth : Bool
  pub rendered : List ℕ

-- An item of a list in an answer: a dict, or another value.
pub data Item : Type 0 where
  entry : Dict Scalar → Item
  plain : List ℕ → Item

-- A value of an answer: a text, a text that was put together from code points, a list with its
-- `str(...)`, an error, or another value.
pub data Field : Type 0 where
  text : String → Field
  long_text : List ℕ → Field
  listed : List Item → List ℕ → Field
  raised : XibiError → List ℕ → Field
  value : Scalar → Field

-- A tool's answer is a dict.
abbrev pub Output : Type 0
Output = Dict Field

-- What a tool is called with: a dict, or, from a model that does not keep to the format, another value.
pub data Input : Type 0 where
  fields : Dict Value → Input
  no_dict : Input

pub record Step : Type 0 where
  pub step_num : ℕ
  pub thought : String
  pub tool : String
  pub tool_input : Input
  pub tool_output : Output
  pub parse_warning : Option String
  pub error : Option XibiError
  pub source : String

pub data ExitReason : Type 0 where
  finish ask_user max_steps timeout error partial : ExitReason

-- The answer of a run: none, a value that the model gave, or a text that the loop puts together.
pub data Answer : Type 0 where
  nothing : Answer
  told : Value → Answer
  composed : List ℕ → Answer

pub record ReactResult : Type 0 where
  pub answer : Answer
  pub steps : List Step
  pub exit_reason : ExitReason
  pub error_summary : List XibiError
  pub degraded : Bool

abbrev last_error : List XibiError → Option XibiError
last_error [] = none
last_error (e ∷ []) = some e
last_error (e ∷ f ∷ es) = last_error (f ∷ es)

abbrev default_message : ExitReason → String
default_message timeout = "That took too long. Try a simpler request."
default_message max_steps =
    "I hit my reasoning limit without a clear answer. Try breaking the request into smaller parts."
default_message _ = "Something went wrong. Please try again."

user_facing_failure_message : ReactResult → String
user_facing_failure_message r = elim (last_error r.error_summary) [
  | none ↦ default_message r.exit_reason
  | some e ↦ user_message e
]

-- `output.get("status") == word`
abbrev is_text : String → Option Field → Bool
is_text word (some (text s)) = s == word
is_text word _ = false

abbrev pub has_status : String → Output → Bool
has_status word output = is_text word (lookup "status" output)

-- A tool of a skill's manifest, as far as the loop looks into it.
pub record ToolManifest : Type 0 where
  pub name : String
  pub input_schema : Option Schema
  pub server : Option String

pub record SkillManifest : Type 0 where
  pub skill_name : String
  pub tools : List ToolManifest

-- What a call can raise: one of the errors that the loop answers (`own` is `XibiError`, `common` an
-- `OSError`, a `ValueError` or another `RuntimeError`, by its text), or any other exception.
pub data Raised : Type 0 where
  own : XibiError → Raised
  common : List ℕ → Raised
  foreign : Raised

pub data Outcome (A : Type 0) : Type 0 where
  done : A → Outcome A
  raises : Raised → Outcome A

pub record Layer : Type 0 where
  pub profile : Profile
  pub interactive : Bool

-- What a run is given: the layer and the executor, which may be absent, the manifests, and what the
-- library makes of values: the `str(...)` and the size of the JSON text of an answer, a stored
-- payload as the command layer sees it, and the text of an exception in it.
pub record World (S : Type 0) : Type 0 where
  pub layer : Option Layer
  pub skill_registry : List SkillManifest
  pub execute : Option (String → Dict Value → S → Outcome Output × S)
  pub str_of : Output → List ℕ
  pub json_size : Output → ℕ
  pub inflated : Payload → Value
  pub exception_text : String
  pub gradient : Gradient

-- What a run changes: the log of the layer, the handles of the run, the executor's own state and the
-- table of trust.
pub record Session (S : Type 0) : Type 0 where
  pub log : Database
  pub handles : Option HandleStore
  pub executor : S
  pub trust : Store Table

-- The readings of the clock in one call, and the ids that a new handle is offered.
pub record Reading : Type 0 where
  pub checked_at : ℕ
  pub audited_at : ℕ
  pub created_at : ℕ
  pub offered : List String
  pub fallback : String
