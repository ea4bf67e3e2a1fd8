-- ===== src/Executor.antt =====
-- xibi/executor.py: `Executor.execute` with the breaker of each tool, and the lookup of local tools in
-- xibi/skills/registry.py. What a tool's code comes to and what an MCP server answers are parameters;
-- spans, messages and loading from files are left out.
pub mod Outages
mod Tests
use xibi.Base.{
  ℕ, Bool, true, false, not, ◌&&◌, Option, none, some, List, [], ◌∷◌, ◌++◌, String, ◌==◌, member,
  Dict, lookup, if◌then◌else◌, Store, is_some,
}
use xibi.CircuitBreaker.{Config, Table, persistent, is_open, record_success, record_failure}

pub record Skill : Type 0 where
  pub is_local : Bool
  pub tools : List String

abbrev find_local_skill_for_tool : String → Dict Skill → Option String
find_local_skill_for_tool tool [] = none
find_local_skill_for_tool tool ((name, skill) ∷ rest) =
    let later = find_local_skill_for_tool tool rest in
    if skill.is_local && member tool skill.tools then some name else later

-- A skill that has the tool's own name, or else one that has the tool.
abbrev skill_of : Option Skill → String → Dict Skill → Option String
skill_of none tool skills = find_local_skill_for_tool tool skills
skill_of (some skill) tool skills =
    if skill.is_local then some tool else find_local_skill_for_tool tool skills

-- What running a tool's code comes to: the first five end inside `_execute_inner`, which answers them
-- itself; a dict says whether its status is error and whether it has an `_xibi_error`.
pub data Outcome : Type 0 where
  file_missing no_spec no_function returned_other raised : Outcome
  returned : Bool → Bool → Outcome
  timed_out : Outcome
  failed_outside : Outcome

pub data ErrorCategory : Type 0 where
  tool_not_found circuit_open timeout unknown own : ErrorCategory

pub record ToolResult : Type 0 where
  pub is_error : Bool
  pub xibi_error : Option ErrorCategory
  pub circuit_open : Bool

abbrev pub failing : Option ErrorCategory → ToolResult
failing e = record { is_error = true; xibi_error = e; circuit_open = false }

-- `_execute_with_timeout`; `none` is an exception.
abbrev pub execute_with_timeout : Outcome → Option ToolResult
execute_with_timeout (returned is_error has_xibi_error) = some (record {
  is_error = is_error;
  xibi_error = if has_xibi_error then some own else none;
  circuit_open = false;
})
execute_with_timeout timed_out = some (failing (some timeout))
execute_with_timeout failed_outside = none
execute_with_timeout _ = some (failing none)

-- A result, whether the tool's code was run, and the breaker's row.
abbrev pub Executed : Type 0
Executed = (ToolResult × Bool) × Store Table

abbrev pub record_result : Config → ℕ → Option ToolResult → Store Table → Executed
record_result cfg now none s =
    ((failing (some unknown), true), (record_failure cfg now persistent s).1)
record_result cfg now (some result) s = (
  (result, true),
  if result.is_error && is_some result.xibi_error
      then (record_failure cfg now persistent s).1
      else (record_success cfg s).1,
)

abbrev pub circuit_open_result : ToolResult
circuit_open_result = record {
  is_error = true;
  xibi_error = some circuit_open;
  circuit_open = true;
}

abbrev pub unless_blocked : Config → ℕ → Outcome → Bool × Store Table → Executed
unless_blocked cfg end outcome (true, s) = ((circuit_open_result, false), s)
unless_blocked cfg end outcome (false, s) = record_result cfg end (execute_with_timeout outcome) s

-- A local tool, asked for at `start` and done at `end`.
unfoldable pub execute_local : Config → ℕ → ℕ → Outcome → Store Table → Executed
execute_local cfg start end outcome s = unless_blocked cfg end outcome (is_open cfg start s)

abbrev pseudo_tools : List String
pseudo_tools = "finish" ∷ "ask_user" ∷ "error" ∷ []

-- Without a local skill the tool goes to an MCP server, past every breaker, if one has it.
abbrev pub dispatch :
    Config → ℕ → ℕ → Outcome → Option ToolResult → Option String → Store Table → Executed
dispatch cfg start end outcome mcp (some skill) s = execute_local cfg start end outcome s
dispatch cfg start end outcome (some answer) none s = ((answer, true), s)
dispatch cfg start end outcome none none s = ((failing (some tool_not_found), false), s)

-- `execute`, over the row of the tool's own breaker.
unfoldable pub execute :
    Config → ℕ → ℕ → Dict Skill → Outcome → Option ToolResult → String → Store Table → Executed
unfolding execute_local
execute cfg start end skills outcome mcp tool s =
    if member tool pseudo_tools
    then ((failing none, false), s)
    else dispatch cfg start end outcome mcp (skill_of (lookup tool skills) tool skills) s
