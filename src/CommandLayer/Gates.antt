-- ===== src/CommandLayer/Gates.antt =====
-- What `CommandLayer.check` of xibi/command_layer.py lets through.
use xibi.Base.{
  ℕ, ◌≡◌, refl, ◌≢◌, ◌↔◌, ◌⊎◌, Bool, true, false, ◌&&◌, Option, none, some, String, List, [], ◌∷◌,
  arith, Dict, lookup,
}
use xibi.Tools.{
  PermissionTier, green, yellow, red, Value, Profile, Schema, SchemaError, resolve_tier, override,
  base_tier, validate_schema, is_write_tool,
}
use xibi.Tools.Tiers.{write_tools_not_green}
use xibi.ContentScan.{has_sensitive_content}
use xibi.CommandLayer.{Database, check, check_dedup, with_tiers}

-- The two tiers at which a call may run with nobody present.
abbrev pub IsMild : Option PermissionTier → Type 0
IsMild t = (t ≡ some green) ⊎ (t ≡ some yellow)

gate_unattended :
    (base t : Option PermissionTier) (errors : List SchemaError) (s d : Bool)
    → ((with_tiers base t errors false s d).allowed ≡ true)
      ↔ ((base ≢ none) × (errors ≡ []) × (d ≡ false) × (s ≡ false) × IsMild t)
gate_unattended none t errors s d = ground arith
gate_unattended (some b) none errors s d = ground arith
gate_unattended (some b) (some t) [] s d = ground arith
gate_unattended (some b) (some t) (e ∷ es) s d = ground arith

resolve_tier-base :
    (tool : String) (profile : Profile) (source : Option String)
    → resolve_tier tool profile source ≢ none
    → resolve_tier tool profile none ≢ none
unfolding resolve_tier
resolve_tier-base tool profile source h = ground arith

-- With nobody present a call is allowed exactly if its parameters conform to the schema, it is no
-- duplicate, it is no write that holds sensitive content, and its tier, raised for its source, is
-- green or yellow.
pub check_unattended :
    (profile : Profile) (now : ℕ) (db : Database) (tool : String) (input : Dict Value)
    (schema : Option Schema) (source : Option String)
    → ((check profile false now db tool input schema source).allowed ≡ true) ↔ (
        (validate_schema input schema ≡ [])
        × (check_dedup profile now db tool input ≡ false)
        × ((is_write_tool tool && has_sensitive_content input) ≡ false)
        × IsMild (resolve_tier tool profile source))
unfolding check
check_unattended profile now db tool input schema source =
    let gate =
      gate_unattended (resolve_tier tool profile none) (resolve_tier tool profile source)
        (validate_schema input schema) (is_write_tool tool && has_sensitive_content input)
        (check_dedup profile now db tool input) in
    (
      (λ e. let parts = gate.0 e in (parts.1, parts.2, parts.3, parts.4)),
      (λ h. gate.1 (resolve_tier-base tool profile source (mild h.3), h.0, h.1, h.2, h.3)),
    )
  where
    mild : IsMild (resolve_tier tool profile source) → resolve_tier tool profile source ≢ none
    mild h = ground arith

gate_write :
    (base t : Option PermissionTier) (errors : List SchemaError) (interactive s d : Bool)
    → t ≢ some green
    → (with_tiers base t errors interactive s d).allowed ≡ true
    → let r = with_tiers base t errors interactive s d in
      (r.audit_required ≡ true) ⊎ ((r.tier ≡ red) × (interactive ≡ true))
gate_write none t errors interactive s d ne h = cc
gate_write (some b) none errors interactive s d ne h = cc
gate_write (some b) (some t) [] interactive s d ne h = ground arith
gate_write (some b) (some t) (e ∷ es) interactive s d ne h = cc

plain_write-ne-green :
    (tool : String) (profile : Profile) (source : Option String)
    → is_write_tool tool ≡ true
    → lookup tool profile.tool_permissions ≡ none
    → resolve_tier tool profile source ≢ some green
unfolding resolve_tier override
plain_write-ne-green tool profile source w o h = ground (arith, write_tools_not_green tool w)

-- A call of a tool that writes, for which the profile has no override, is never let through
-- unseen: if it is allowed, then it has to be logged, or its tier is red and the user is present.
allowed_write_leaves_trace :
    (profile : Profile) (interactive : Bool) (now : ℕ) (db : Database) (tool : String)
    (input : Dict Value) (schema : Option Schema) (source : Option String)
    → is_write_tool tool ≡ true
    → lookup tool profile.tool_permissions ≡ none
    → let r = check profile interactive now db tool input schema source in
      r.allowed ≡ true → (r.audit_required ≡ true) ⊎ ((r.tier ≡ red) × (interactive ≡ true))
unfolding check
allowed_write_leaves_trace profile interactive now db tool input schema source w o h =
    gate_write (resolve_tier tool profile none) (resolve_tier tool profile source)
      (validate_schema input schema) interactive (is_write_tool tool && has_sensitive_content input)
      (check_dedup profile now db tool input) (plain_write-ne-green tool profile source w o) h

gate_fails_closed :
    (base t : Option PermissionTier) (errors : List SchemaError) (interactive s d : Bool)
    → t ≡ none
    → (with_tiers base t errors interactive s d).allowed ≡ false
gate_fails_closed none t errors interactive s d e = refl
gate_fails_closed (some b) t errors interactive s d e = rw e

override-none :
    (tool : String) (profile : Profile) (source : Option String)
    → override (base_tier tool) (lookup tool profile.tool_permissions) ≡ none
    → resolve_tier tool profile source ≡ none
unfolding resolve_tier
override-none tool profile source e = rw (e, resolve_tier)

-- If the profile's override of a tool cannot be read, no call of the tool is allowed, whether or
-- not the user is present.
unreadable_override_blocks :
    (profile : Profile) (interactive : Bool) (now : ℕ) (db : Database) (tool : String)
    (input : Dict Value) (schema : Option Schema) (source : Option String)
    → override (base_tier tool) (lookup tool profile.tool_permissions) ≡ none
    → (check profile interactive now db tool input schema source).allowed ≡ false
unfolding check
unreadable_override_blocks profile interactive now db tool input schema source e =
    gate_fails_closed (resolve_tier tool profile none) (resolve_tier tool profile source)
      (validate_schema input schema) interactive (is_write_tool tool && has_sensitive_content input)
      (check_dedup profile now db tool input) (override-none tool profile source e)
