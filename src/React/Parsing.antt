-- ===== src/React/Parsing.antt =====
-- `_parse_xml_response` and `_parse_json_response` of xibi/react.py, over code points. `json.loads` is
-- an argument, and so is what the pattern for pairs of keys and values finds.
pub mod Tags
use xibi.Base.{
  ℕ, zero, suc, Bool, true, false, not, Option, none, some, String, List, [], ◌∷◌, ◌++◌, eqb,
  if◌then◌else◌, Dict, insert, codes, length, drop, is_prefix, same_codes,
}
use xibi.Tools.{Value}
use xibi.TrustGate.Sanitizer.{is_space}
use xibi.React.{Input, fields, no_dict}

-- A JSON object, as far as the parsers look into it; an argument that is false is `none`.
pub record Object : Type 0 where
  pub thought : Option (List ℕ)
  pub tool : Option (List ℕ)
  pub tool_input : Option Input
  pub name : Option (List ℕ)
  pub arguments : Option Input
  pub whole : Dict Value

pub data Loaded : Type 0 where
  object : Object → Loaded
  another malformed : Loaded

-- The input of a parsed answer: what the tags of an answer or a question hold, or the arguments.
pub data Given : Type 0 where
  answer_text question_text : List ℕ → Given
  arguments_given : Input → Given

pub record Answered : Type 0 where
  pub thought : List ℕ
  pub tool : List ℕ
  pub given : Given

-- What follows the first occurrence of a text, and what precedes it.
abbrev pub after : List ℕ → List ℕ → Option (List ℕ)
after mark [] = none
after mark (c ∷ cs) =
    let rest = after mark cs in
    if is_prefix mark (c ∷ cs) then some (drop (length mark) (c ∷ cs)) else rest

abbrev with_first : ℕ → Option (List ℕ) → Option (List ℕ)
with_first c none = none
with_first c (some cs) = some (c ∷ cs)

abbrev pub before : List ℕ → List ℕ → Option (List ℕ)
before mark [] = none
before mark (c ∷ cs) =
    let rest = before mark cs in if is_prefix mark (c ∷ cs) then some [] else with_first c rest

abbrev pub lstrip : List ℕ → List ℕ
lstrip [] = []
lstrip (c ∷ cs) = let rest = lstrip cs in if is_space c then rest else c ∷ cs

abbrev unless_blank : ℕ → List ℕ → List ℕ
unless_blank c [] = if is_space c then [] else c ∷ []
unless_blank c (d ∷ ds) = c ∷ d ∷ ds

abbrev pub rstrip : List ℕ → List ℕ
rstrip [] = []
rstrip (c ∷ cs) = unless_blank c (rstrip cs)

-- `text.strip()`
abbrev pub strip : List ℕ → List ℕ
strip text = rstrip (lstrip text)

abbrev open_tag : List ℕ → List ℕ
open_tag tag = b'<' ∷ tag ++ (b'>' ∷ [])

abbrev close_tag : List ℕ → List ℕ
close_tag tag = b'<' ∷ b'/' ∷ tag ++ (b'>' ∷ [])

abbrev stripped : Option (List ℕ) → Option (List ℕ)
stripped none = none
stripped (some text) = some (strip text)

abbrev pub closed : List ℕ → Option (List ℕ) → Option (List ℕ)
closed tag none = none
closed tag (some rest) = stripped (before (close_tag tag) rest)

-- `_extract_tag`: if the first opening tag is never closed, no later one is.
unfoldable pub extract_tag : List ℕ → List ℕ → Option (List ℕ)
extract_tag tag text = closed tag (after (open_tag tag) text)

abbrev or_empty {ℓ} : {A : Type ℓ} → A → Option A → A
or_empty d none = d
or_empty d (some a) = a

-- The name of the tool with the arguments that come with it.
abbrev named_tool : List ℕ → Loaded → List ℕ × Input
named_tool raw malformed = (raw, fields [])
named_tool raw another = (raw, fields [])
named_tool raw (object o) = elim o.name [
  | none ↦ (raw, fields [])
  | some name ↦ (name, or_empty (fields []) o.arguments)
]

abbrev insert_all : Dict Value → Dict Value → Dict Value
insert_all [] d = d
insert_all ((k, v) ∷ ps) d = insert_all ps (insert k v d)

-- `tool_input[key] = value` for each pair; `none` is the `TypeError` of a value that is no dict.
abbrev with_pairs : Dict Value → Input → Option Input
with_pairs [] input = some input
with_pairs (p ∷ ps) no_dict = none
with_pairs (p ∷ ps) (fields d) = some (fields (insert_all (p ∷ ps) d))

abbrev pub is_nil : List ℕ → Bool
is_nil [] = true
is_nil (c ∷ cs) = false

module _ (loads : List ℕ → Loaded) (pairs : List ℕ → Dict Value) where
  abbrev read_input : List ℕ → Input → Loaded → Option Input
  read_input raw embedded (object o) = some (fields o.whole)
  read_input raw embedded another = some embedded
  read_input raw embedded malformed = with_pairs (pairs raw) embedded

  abbrev input_from : Option (List ℕ) → Input → Option Input
  input_from none embedded = some embedded
  input_from (some raw) embedded =
      if is_nil raw then some embedded else read_input raw embedded (loads raw)

  abbrev answered_with : List ℕ → List ℕ → Option Input → Option Answered
  answered_with thought tool none = none
  answered_with thought tool (some input) =
      some (record { thought = thought; tool = tool; given = arguments_given input })

  abbrev plain_call : List ℕ → List ℕ → List ℕ × Input → Option Answered
  plain_call text thought (tool, embedded) =
      answered_with thought tool (input_from (extract_tag (codes "tool_input") text) embedded)

  abbrev special :
      (List ℕ → Given) → List ℕ → List ℕ → Option (List ℕ) → Option Answered → Option Answered
  special make thought tool none otherwise = otherwise
  special make thought tool (some inner) otherwise =
      some (record { thought = thought; tool = tool; given = make inner })

  abbrev call_of : List ℕ → List ℕ → List ℕ × Input → Option Answered
  call_of text thought (tool, embedded) =
      let plain = plain_call text thought (tool, embedded) in
      if same_codes tool (codes "finish")
      then special answer_text thought tool (extract_tag (codes "answer") text) plain
      else if same_codes tool (codes "ask_user")
      then special question_text thought tool (extract_tag (codes "question") text) plain
      else plain

  abbrev with_tool : List ℕ → List ℕ → Option (List ℕ) → Option Answered
  with_tool text thought none = none
  with_tool text thought (some raw) =
      if is_nil raw then none else call_of text thought (named_tool raw (loads raw))

  -- `_parse_xml_response`; `none` is an exception.
  unfoldable pub parse_xml_response : List ℕ → Option Answered
  unfolding extract_tag
  parse_xml_response text =
      with_tool text (or_empty [] (extract_tag (codes "thought") text))
        (extract_tag (codes "tool") text)

-- The greedy match of an opening brace, anything, and a closing one.
abbrev to_last_brace : List ℕ → Option (List ℕ)
to_last_brace [] = none
to_last_brace (c ∷ cs) = elim (to_last_brace cs) [
  | some rest ↦ some (c ∷ rest)
  | none ↦ if eqb c b'}' then some (c ∷ []) else none
]

abbrev braces : List ℕ → Option (List ℕ)
braces [] = none
braces (c ∷ cs) =
    let rest = braces cs in
    if eqb c b'{'
    then (elim (to_last_brace cs) [ none ↦ rest | some inner ↦ some (c ∷ inner) ])
    else rest

abbrev object_of : Loaded → Option Object
object_of (object o) = some o
object_of _ = none

abbrev recovered_object : (List ℕ → Loaded) → Option (List ℕ) → Option Object
recovered_object loads none = none
recovered_object loads (some inner) = object_of (loads inner)

-- `_parse_json_response`
parse_json_response : (List ℕ → Loaded) → List ℕ → Option Object
parse_json_response loads text = elim (loads text) [
  | object o ↦ some o
  | _ ↦ recovered_object loads (braces text)
]
