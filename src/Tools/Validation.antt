-- ===== src/Tools/Validation.antt =====
-- `validate_schema` of xibi/tools.py accepts exactly the inputs that conform to the schema.
use xibi.Base.{
  ◌≡◌, ◌≢◌, true, false, Option, none, some, String, List, [], ◌∷◌, member, lookup, Dict,
}
use xibi.Tools.{Kind, Value, TypeName, untyped, named, union, FieldSchema, Schema, expected_kind}

abbrev AcceptsKind : Option Kind → Kind → Type 0
AcceptsKind none actual = Unit
AcceptsKind (some expected) actual = expected ≡ actual

-- A type that the validator knows is met exactly; one that it does not know is met by any value.
abbrev Accepts : TypeName → Kind → Type 0
Accepts untyped actual = Unit
Accepts (named name) actual = AcceptsKind (expected_kind name) actual
Accepts union actual = ⊥

abbrev FieldTyped : Option (Option FieldSchema) → Kind → Type 0
FieldTyped (some (some props)) actual = Accepts props.type_name actual
FieldTyped _ actual = Unit

abbrev AllTyped : Dict (Option FieldSchema) → Dict Value → Type 0
AllTyped properties [] = Unit
AllTyped properties ((field, v) ∷ rest) =
    FieldTyped (lookup field properties) v.kind × AllTyped properties rest

-- A required field with no default is there.
abbrev FieldPresent : Dict Value → List String → String → Option FieldSchema → Type 0
FieldPresent input required field none = Unit
FieldPresent input required field (some props) =
    member field required ≡ true → props.has_default ≡ false → lookup field input ≢ none

abbrev AllPresent : Dict (Option FieldSchema) → List String → Dict Value → Type 0
AllPresent [] required input = Unit
AllPresent ((field, props) ∷ rest) required input =
    FieldPresent input required field props × AllPresent rest required input

abbrev pub Conforms : Dict Value → Schema → Type 0
Conforms input schema =
    AllPresent schema.properties schema.required input × AllTyped schema.properties input
