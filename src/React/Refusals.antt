-- ===== src/React/Refusals.antt =====
-- The texts with which xibi/tools.py and xibi/command_layer.py refuse a call.
use xibi.Base.{String, List, [], ◌∷◌, append_text}
use xibi.Tools.{
  Kind, null, bool, int, float, str, list, dict, SchemaError, missing, bool_for_integer, wrong_type,
  validator_error,
}
use xibi.CommandLayer.{
  BlockReason, not_blocked, needs_confirmation, sensitive_content, duplicate, internal_error,
  validation_failed,
}

-- The names that `type_map` has, and those that `type(value).__name__` gives.
abbrev schema_name : Kind → String
schema_name int = "integer"
schema_name str = "string"
schema_name bool = "boolean"
schema_name list = "array"
schema_name _ = "object"

abbrev type_name : Kind → String
type_name null = "NoneType"
type_name bool = "bool"
type_name int = "int"
type_name float = "float"
type_name str = "str"
type_name list = "list"
type_name dict = "dict"

abbrev ◌⧺◌ : String → String → String
◌⧺◌ = append_text

infixr 30 ◌⧺◌
-- The texts of `validate_schema`; `exn` is that of an exception.
abbrev error_text : String → SchemaError → String
error_text exn (missing field) = "Missing required field: " ⧺ field
error_text exn (bool_for_integer field) = "Field '" ⧺ field ⧺ "' expected integer, got boolean"
error_text exn (wrong_type field expected actual) =
    "Field '" ⧺ field ⧺ "' expected " ⧺ schema_name expected ⧺ ", got " ⧺ type_name actual
error_text exn validator_error = "schema validator internal error: " ⧺ exn

abbrev joined : String → List SchemaError → String
joined exn [] = ""
joined exn (e ∷ []) = error_text exn e
joined exn (e ∷ f ∷ es) = error_text exn e ⧺ ", " ⧺ joined exn (f ∷ es)

-- `retry_hint` and `block_reason` of xibi/command_layer.py.
abbrev pub retry_hint : String → String → List SchemaError → String
retry_hint exn tool errors =
    "Schema validation failed for "
    ⧺ tool
    ⧺ ": "
    ⧺ joined exn errors
    ⧺ ". Please fix the parameters and try again."

abbrev pub block_reason : String → String → BlockReason → String
block_reason exn tool not_blocked = ""
block_reason exn tool needs_confirmation =
    "Tool '" ⧺ tool ⧺ "' requires user confirmation and cannot be run in non-interactive mode."
block_reason exn tool sensitive_content =
    "Tool '" ⧺ tool
    ⧺ "' contains sensitive content and requires user confirmation, but cannot be run in non-interactive mode."
block_reason exn tool duplicate = "Duplicate action suppressed"
block_reason exn tool internal_error = "CommandLayer internal error: " ⧺ exn
block_reason exn tool (validation_failed errors) = "Validation failed: " ⧺ joined exn errors
