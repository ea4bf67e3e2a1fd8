-- ===== src/React/Wrapping.antt =====
-- Handles on the way into and out of a tool call: `_resolve_handles_in_input` and
-- `_maybe_wrap_in_handle` of xibi/react.py.
use xibi.Base.{
  ℕ, ◌+◌, ◌&&◌, Bool, true, false, not, Option, none, some, String, List, [], ◌∷◌, ◌++◌, ltb, leb,
  eqb, if◌then◌else◌, Dict, lookup, codes, decimal, length, is_some, append_text,
}
use mathlib.Core.Bool.{◌||◌}
use xibi.Errors.{validation}
use xibi.Tools.{str, Value}
use xibi.Handles.{
  dict_of, Payload, ToolHandle, HandleStore, Lookup, found, evicted, not_in_store, get, create,
  is_large_collection,
}
use xibi.React.{
  Field, text, long_text, listed, value, Output, has_status, World, Reading, Raised, own, Outcome,
  done, raises,
}

abbrev is_hex : ℕ → Bool
is_hex c = (leb b'0' c && leb c b'9') || (leb b'a' c && leb c b'f')

-- The pattern `^h_[a-f0-9]{4,6}$`; its end may be followed by a line break.
abbrev hex_tail : ℕ → List ℕ → Bool
hex_tail n [] = leb 4 n && leb n 6
hex_tail n (c ∷ []) = if is_hex c then leb 3 n && leb n 5 else eqb c b'\n' && (leb 4 n && leb n 6)
hex_tail n (c ∷ d ∷ cs) = let rest = hex_tail (n + 1) (d ∷ cs) in is_hex c && rest

abbrev is_handle_text : List ℕ → Bool
is_handle_text (h ∷ u ∷ cs) = eqb h b'h' && (eqb u b'_' && hex_tail 0 cs)
is_handle_text _ = false

abbrev pub is_handle : Value → Bool
is_handle v = elim v.kind [ str ↦ is_handle_text (codes v.text) | _ ↦ false ]

abbrev handle_error : String → Raised
handle_error message = own (record {
  category = validation;
  message = message;
  component = "handle_store";
  detail = "";
  retryable = true;
})

abbrev pub fetched : (Payload → Value) → String → Lookup → Outcome Value
fetched inflated id (found p) = done (inflated p)
fetched inflated id evicted = raises (
    handle_error (append_text "Handle " (append_text id " has been evicted from this run's store")))
fetched inflated id not_in_store =
    raises (handle_error (append_text "Handle " (append_text id " not in store")))

abbrev pub resolve_value : (Payload → Value) → HandleStore → Value → Outcome Value
resolve_value inflated store v =
    if is_handle v then fetched inflated v.text (get v.text store) else done v

abbrev pub with_field : String → Outcome Value → Outcome (Dict Value) → Outcome (Dict Value)
with_field k (raises e) rest = raises e
with_field k (done v) (raises e) = raises e
with_field k (done v) (done d) = done ((k, v) ∷ d)

abbrev pub resolve_all : (Payload → Value) → HandleStore → Dict Value → Outcome (Dict Value)
resolve_all inflated store [] = done []
resolve_all inflated store ((k, v) ∷ d) =
    with_field k (resolve_value inflated store v) (resolve_all inflated store d)

-- `_resolve_handles_in_input`
unfoldable pub resolve_handles_in_input :
    (Payload → Value) → Option HandleStore → Dict Value → Outcome (Dict Value)
resolve_handles_in_input inflated none input = done input
resolve_handles_in_input inflated (some store) input = resolve_all inflated store input

abbrev list_size : Field → Option ℕ
list_size (listed items s) = some (length items)
list_size _ = none

abbrev sizes : Output → Dict (Option ℕ)
sizes [] = []
sizes ((k, f) ∷ d) = (k, list_size f) ∷ sizes d

module _ {S : Type 0} (w : World S) where
  abbrev payload_of : Output → Payload
  payload_of output = record {
    shape = dict_of (sizes output);
    json_size = w.json_size output;
    rendered = w.str_of output;
  }

  abbrev count_field : Option ℕ → Field
  count_field none = value (record { truth = false; rendered = codes "None" })
  count_field (some n) = value (record { truth = ltb 0 n; rendered = decimal n })

  -- `_get_schema_hint` of xibi/handles.py, for a dict.
  abbrev schema_hint : Option ℕ → List ℕ
  schema_hint none = codes "dict"
  schema_hint (some n) = codes "dict containing " ++ (decimal n ++ codes " items")

  -- The reference to a payload.
  abbrev reference : ToolHandle → Output
  reference h =
      ("status", text "ok")
      ∷ ("handle", text h.handle_id)
      ∷ ("schema", long_text (schema_hint h.item_count))
      ∷ ("summary", long_text h.summary)
      ∷ ("item_count", count_field h.item_count)
      ∷ []

  abbrev is_small : Output → Bool
  is_small output =
      ltb (w.json_size output) 2048 && not (is_large_collection (dict_of (sizes output)))

  abbrev is_left_alone : Output → Bool
  is_left_alone output =
      (has_status "error" output || (has_status "suppressed" output || has_status "blocked" output))
      || is_some (lookup "handle" output)

  -- `_maybe_wrap_in_handle`
  unfoldable pub maybe_wrap_in_handle :
      Reading → String → Output → Option HandleStore → Output × Option HandleStore
  unfolding create is_large_collection
  maybe_wrap_in_handle r tool output none = (output, none)
  maybe_wrap_in_handle r tool output (some store) =
      let (h, store') = create r.offered r.fallback tool (payload_of output) r.created_at store in
      if is_left_alone output || is_small output
      then (output, some store)
      else (reference h, some store')
