-- ===== src/Tools/Tests.antt =====
-- xibi/tools.py on concrete calls, and its theorems at concrete inputs.
use xibi.Base.{◌≡◌, refl, true, false, none, some, String, [], ◌∷◌, Dict}
use xibi.Tools.{
  yellow, Value, str, Profile, Schema, named, base_tier, tier_named, override, is_write_tool,
  is_external, resolve_tier, validate_schema,
}

abbrev text : String → Value
text s = record { kind = str; text = s; items = some [] }

-- {"tool_permissions": {"send_email": "Yellow"}}
abbrev profile : Profile
profile = record { tool_permissions = ("send_email", text "Yellow") ∷ []; nudge_dedup_hours = none }

nudge_writes : is_write_tool "nudge" ≡ true
unfolding is_write_tool
nudge_writes = refl

send_email_relaxed : resolve_tier "send_email" profile none ≡ some yellow
unfolding resolve_tier override base_tier tier_named is_external
send_email_relaxed = refl

from_mcp : is_external (some "mcp:web") ≡ true
unfolding is_external
from_mcp = refl

abbrev schema : Schema
schema = record {
  properties =
      ("to", some (record { type_name = named "string"; has_default = false }))
      ∷ ("limit", some (record { type_name = named "integer"; has_default = true }))
      ∷ [];
  required = "to" ∷ [];
}

abbrev input : Dict Value
input = ("to", text "ann") ∷ []

input-valid : validate_schema input (some schema) ≡ []
unfolding validate_schema
input-valid = refl
