-- ===== src/React/Parsing/Tags.antt =====
-- What the tags of an answer in xibi/react.py's XML format are read as.
use xibi.Base.{
  ℕ, ◌≡◌, refl, Bool, true, false, not, some, List, [], ◌∷◌, ◌++◌, arith, eqb, all, codes,
  is_prefix, same_codes, Dict,
}
use xibi.Tools.{Value}
use xibi.React.{fields}
use xibi.React.Parsing.{
  Object, Loaded, object, malformed, arguments_given, after, before, strip, extract_tag,
  parse_xml_response, is_nil,
}

abbrev has_no_angle : List ℕ → Bool
has_no_angle text = all (λ c. not (eqb c b'<')) text

after_skip :
    (mark text rest : List ℕ)
    → has_no_angle text ≡ true
    → after (b'<' ∷ mark) (text ++ rest) ≡ after (b'<' ∷ mark) rest
after_skip mark [] rest h = refl
after_skip mark (c ∷ text) rest h = ground (arith, after_skip mark text rest)

is_prefix-append : (mark rest : List ℕ) → is_prefix mark (mark ++ rest) ≡ true
is_prefix-append [] rest = refl
is_prefix-append (c ∷ mark) rest = ground (arith, is_prefix-append mark rest)

before_found :
    (mark text rest : List ℕ)
    → has_no_angle text ≡ true
    → before (b'<' ∷ mark) (text ++ (b'<' ∷ (mark ++ rest))) ≡ some text
before_found mark [] rest h = ground (arith, is_prefix-append mark rest)
before_found mark (c ∷ text) rest h = ground (arith, before_found mark text rest)

-- An answer that calls a tool, as the prompt asks for it.
abbrev pub call_text : List ℕ → List ℕ → List ℕ → List ℕ
call_text thought tool json =
    codes "<thought>"
    ++ (thought
        ++ (codes "</thought>\n<tool>"
            ++ (tool ++ (codes "</tool>\n<tool_input>" ++ (json ++ codes "</tool_input>")))))

module _ (thought tool json : List ℕ) (plain_thought : has_no_angle thought ≡ true)
    (plain_tool : has_no_angle tool ≡ true) (plain_json : has_no_angle json ≡ true) where
  thought_read : extract_tag (codes "thought") (call_text thought tool json) ≡ some (strip thought)
  unfolding extract_tag
  thought_read =
      rw
        (before_found (codes "/thought>") thought
          (codes "\n<tool>"
            ++ (tool ++ (codes "</tool>\n<tool_input>" ++ (json ++ codes "</tool_input>"))))
          plain_thought)
        refl

  tool_read : extract_tag (codes "tool") (call_text thought tool json) ≡ some (strip tool)
  unfolding extract_tag
  tool_read =
      rw
        (
          after_skip (codes "tool>") thought
              (codes "</thought>\n<tool>"
                ++ (tool ++ (codes "</tool>\n<tool_input>" ++ (json ++ codes "</tool_input>"))))
              plain_thought,
          before_found (codes "/tool>") tool
              (codes "\n<tool_input>" ++ (json ++ codes "</tool_input>")) plain_tool,
        )
        refl

  input_read : extract_tag (codes "tool_input") (call_text thought tool json) ≡ some (strip json)
  unfolding extract_tag
  input_read =
      rw
        (
          after_skip (codes "tool_input>") thought
              (codes "</thought>\n<tool>"
                ++ (tool ++ (codes "</tool>\n<tool_input>" ++ (json ++ codes "</tool_input>"))))
              plain_thought,
          after_skip (codes "tool_input>") tool
              (codes "</tool>\n<tool_input>" ++ (json ++ codes "</tool_input>")) plain_tool,
          before_found (codes "/tool_input>") json [] plain_json,
        )
        refl

  -- A call that is written as the prompt asks for it is read back: its thought and its tool without
  -- the white space around them, and the object that its input stands for, if none of the three has an
  -- angle bracket, the tool is neither empty, nor a JSON text, nor a special tool, and the input is the
  -- text of an object.
  pub parse_xml_response-call_text :
      (loads : List ℕ → Loaded) (pairs : List ℕ → Dict Value) (o : Object)
      → is_nil (strip tool) ≡ false
      → same_codes (strip tool) (codes "finish") ≡ false
      → same_codes (strip tool) (codes "ask_user") ≡ false
      → loads (strip tool) ≡ malformed
      → is_nil (strip json) ≡ false
      → loads (strip json) ≡ object o
      → parse_xml_response loads pairs (call_text thought tool json)
        ≡ some (record {
          thought = strip thought;
          tool = strip tool;
          given = arguments_given (fields o.whole);
        })
  unfolding parse_xml_response
  parse_xml_response-call_text loads pairs o named not_finish not_ask unread filled read =
      rw (thought_read, tool_read, named, unread, not_finish, not_ask, input_read, filled, read)
        refl
