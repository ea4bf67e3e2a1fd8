-- ===== src/Tools.antt =====
-- xibi/tools.py: permission tiers, the tables of tools, and the checks of a call's parameters.
pub mod Tiers
pub mod Validation
mod Tests
use text.Mathlib.Text.{starts_with}
use xibi.Base.{
  Bool, true, false, not, ◌&&◌, ◌||◌, Option, none, some, String, List, [], ◌∷◌, ◌++◌, ◌==◌, ltb, ℕ,
  if◌then◌else◌, member, lookup, Dict, codes, lowered, same_codes, is_some,
}

pub data PermissionTier : Type 0 where
  green yellow red : PermissionTier

abbrev default_tier : PermissionTier
default_tier = green

abbrev pub write_tools : List String
write_tools =
    "create_draft" ∷ "draft_email" ∷ "confirm_draft" ∷ "discard_draft" ∷ "send_email"
    ∷ "reply_email" ∷ "send_message" ∷ "delete_email" ∷ "delete_event" ∷ "create_task"
    ∷ "update_belief" ∷ "nudge" ∷ "send_document" ∷ "log_signal" ∷ "update_checklist_item"
    ∷ "create_checklist_template" ∷ "create_reminder" ∷ "cancel_reminder" ∷ "delete_reminder"
    ∷ "spawn_subagent" ∷ "connect_account" ∷ "disconnect_account" ∷ "backfill_email_alias"
    ∷ "backfill_signals_provenance" ∷ "backfill_contacts_origin" ∷ []

abbrev tool_tiers : Dict PermissionTier
tool_tiers =
    ("list_emails", green)
    ∷ ("triage_email", green)
    ∷ ("list_events", green)
    ∷ ("search_files", green)
    ∷ ("recall", green)
    ∷ ("lookup_contact", green)
    ∷ ("create_draft", yellow)
    ∷ ("draft_email", yellow)
    ∷ ("confirm_draft", yellow)
    ∷ ("discard_draft", yellow)
    ∷ ("update_belief", yellow)
    ∷ ("create_task", yellow)
    ∷ ("nudge", yellow)
    ∷ ("send_document", yellow)
    ∷ ("log_signal", yellow)
    ∷ ("update_checklist_item", yellow)
    ∷ ("create_checklist_template", yellow)
    ∷ ("list_checklists", green)
    ∷ ("get_checklist", green)
    ∷ ("list_reminders", green)
    ∷ ("create_reminder", yellow)
    ∷ ("cancel_reminder", yellow)
    ∷ ("delete_reminder", red)
    ∷ ("spawn_subagent", yellow)
    ∷ ("list_accounts", green)
    ∷ ("connect_account", yellow)
    ∷ ("disconnect_account", yellow)
    ∷ ("backfill_email_alias", yellow)
    ∷ ("backfill_signals_provenance", yellow)
    ∷ ("backfill_contacts_origin", yellow)
    ∷ ("list_sent_emails", green)
    ∷ ("send_email", red)
    ∷ ("reply_email", red)
    ∷ ("send_message", red)
    ∷ ("delete_email", red)
    ∷ ("delete_event", red)
    ∷ []

-- A Python value as the checks see it: its type, its `str(...)`, and what iterating over it gives,
-- each element by its text (`none` if it cannot be iterated, or holds what no set can hold).
pub data Kind : Type 0 where
  null bool int float str list dict : Kind

pub record Value : Type 0 where
  pub kind : Kind
  pub text : String
  pub items : Option (List String)

-- The merged profile, where the checks read it.
pub record Profile : Type 0 where
  pub tool_permissions : Dict Value
  pub nudge_dedup_hours : Option ℕ

abbrev pub get_or {ℓ} : {A : Type ℓ} → Option A → A → A
get_or none d = d
get_or (some a) d = a

unfoldable pub base_tier : String → PermissionTier
base_tier tool = get_or (lookup tool tool_tiers) default_tier

-- `PermissionTier(text.lower())`; `none` is its `ValueError`.
unfoldable pub tier_named : String → Option PermissionTier
tier_named text =
    if same_codes (lowered (codes text)) (codes "green")
    then some green
    else if same_codes (lowered (codes text)) (codes "yellow")
    then some yellow
    else if same_codes (lowered (codes text)) (codes "red")
    then some red
    else none

abbrev pub rank : PermissionTier → ℕ
rank green = 0
rank yellow = 1
rank red = 2

abbrev relax : PermissionTier → Option PermissionTier → PermissionTier
relax base none = base
relax base (some override) = if ltb (rank override) (rank base) then override else base

-- The profile's override of a tool; `none` is the `AttributeError` of `.lower()` on a value that
-- is no text.
unfoldable pub override : PermissionTier → Option Value → Option PermissionTier
unfolding tier_named
override base none = some base
override base (some v) = elim v.kind [ str ↦ some (relax base (tier_named v.text)) | _ ↦ none ]

unfoldable pub is_external : Option String → Bool
is_external none = false
is_external (some source) = starts_with source "mcp:"

abbrev pub bump : PermissionTier → PermissionTier
bump green = yellow
bump yellow = red
bump red = red

-- `tool_name in WRITE_TOOLS`
unfoldable pub is_write_tool : String → Bool
is_write_tool tool = member tool write_tools

unfoldable pub resolve_tier : String → Profile → Option String → Option PermissionTier
resolve_tier tool profile prev_step_source =
    elim (override (base_tier tool) (lookup tool profile.tool_permissions)) [
      | none ↦ none
      | some tier ↦
          some (if is_external prev_step_source && is_write_tool tool then bump tier else tier)
    ]

-- The `type` of a field's declaration: left out, a text, or a list of texts, which no dict can be
-- asked for (`TypeError`).
pub data TypeName : Type 0 where
  untyped : TypeName
  named : String → TypeName
  union : TypeName

pub record FieldSchema : Type 0 where
  pub type_name : TypeName
  pub has_default : Bool

-- A declaration among the `properties` that is no dict is `none`.
pub record Schema : Type 0 where
  pub properties : Dict (Option FieldSchema)
  pub required : List String

pub data SchemaError : Type 0 where
  missing : String → SchemaError
  bool_for_integer : String → SchemaError
  wrong_type : String → Kind → Kind → SchemaError
  validator_error : SchemaError

abbrev pub missing_in : Dict Value → List String → String → Option FieldSchema → List SchemaError
missing_in input required field none = []
missing_in input required field (some props) =
    if member field required && not props.has_default && not (is_some (lookup field input))
    then missing field ∷ []
    else []

missing_fields : Dict (Option FieldSchema) → List String → Dict Value → List SchemaError
missing_fields [] required input = []
missing_fields ((field, props) ∷ rest) required input =
    missing_in input required field props ++ missing_fields rest required input

-- `type_map`; `none` for a type name that the map lacks.
abbrev pub expected_kind : String → Option Kind
expected_kind name =
    if name == "integer"
    then some int
    else if name == "string"
    then some str
    else if name == "boolean"
    then some bool
    else if name == "array"
    then some list
    else if name == "object"
    then some dict
    else none

-- `isinstance`, for the types of `type_map`, but for a bool where an int is expected.
abbrev pub same_kind : Kind → Kind → Bool
same_kind null null = true
same_kind bool bool = true
same_kind int int = true
same_kind float float = true
same_kind str str = true
same_kind list list = true
same_kind dict dict = true
same_kind _ _ = false

abbrev is_bool_for_integer : Kind → Kind → Bool
is_bool_for_integer int bool = true
is_bool_for_integer _ _ = false

abbrev pub kind_errors : String → Kind → Option Kind → List SchemaError
kind_errors field actual none = []
kind_errors field actual (some expected) =
    if is_bool_for_integer expected actual
    then bool_for_integer field ∷ []
    else if same_kind expected actual
    then []
    else wrong_type field expected actual ∷ []

-- `none` is the `TypeError`.
abbrev pub declared_errors : String → Kind → TypeName → Option (List SchemaError)
declared_errors field actual untyped = some []
declared_errors field actual (named name) = some (kind_errors field actual (expected_kind name))
declared_errors field actual union = none

abbrev pub type_errors : String → Kind → Option (Option FieldSchema) → Option (List SchemaError)
type_errors field actual none = some []
type_errors field actual (some none) = some []
type_errors field actual (some (some props)) = declared_errors field actual props.type_name

abbrev pub both : Option (List SchemaError) → Option (List SchemaError) → Option (List SchemaError)
both (some es) (some fs) = some (es ++ fs)
both _ _ = none

wrong_types : Dict (Option FieldSchema) → Dict Value → Option (List SchemaError)
wrong_types properties [] = some []
wrong_types properties ((field, v) ∷ rest) =
    both (type_errors field v.kind (lookup field properties)) (wrong_types properties rest)

abbrev pub all_errors : List SchemaError → Option (List SchemaError) → List SchemaError
all_errors absent none = validator_error ∷ []
all_errors absent (some wrong) = absent ++ wrong

-- An absent or empty schema, or one that is no dict, is `none`.
unfoldable pub validate_schema : Dict Value → Option Schema → List SchemaError
unfolding missing_fields wrong_types
validate_schema input none = []
validate_schema input (some schema) =
    all_errors (missing_fields schema.properties schema.required input)
      (wrong_types schema.properties input)
