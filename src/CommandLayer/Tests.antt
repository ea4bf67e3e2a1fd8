-- ===== src/CommandLayer/Tests.antt =====
-- xibi/command_layer.py on concrete calls, and its theorems at concrete inputs.
use xibi.Base.{
  ◌≡◌, refl, ◌↔◌, ◌&&◌, true, false, none, some, String, [], ◌∷◌, arith, Dict, lookup, any,
}
use xibi.Tools.{
  Value, Kind, str, list, Profile, base_tier, override, is_write_tool, is_external, resolve_tier,
  validate_schema,
}
use xibi.ContentScan.{has_sensitive_content}
use xibi.CommandLayer.{rows, check, check_dedup, dedup_window, empty_text, audit, audit_row}
use xibi.CommandLayer.Gates.{IsMild, check_unattended}
use xibi.CommandLayer.Dedup.{covers, check_dedup-eq-any, audited_then_suppressed}

abbrev no_overrides : Profile
no_overrides = record { tool_permissions = []; nudge_dedup_hours = none }

abbrev text : String → Value
text s = record { kind = str; text = s; items = some [] }

abbrev nudge_input : Dict Value
nudge_input =
    ("thread_id", text "t1")
    ∷ ("refs", record { kind = list; text = "['e1']"; items = some ("e1" ∷ []) })
    ∷ []

check_unattended_example :
    ((check no_overrides false 100 (rows []) "nudge" nudge_input none none).allowed ≡ true) ↔ (
      (validate_schema nudge_input none ≡ [])
      × (check_dedup no_overrides 100 (rows []) "nudge" nudge_input ≡ false)
      × ((is_write_tool "nudge" && has_sensitive_content nudge_input) ≡ false)
      × IsMild (resolve_tier "nudge" no_overrides none))
check_unattended_example = check_unattended no_overrides 100 (rows []) "nudge" nudge_input none none

nudge_writes : is_write_tool "nudge" ≡ true
unfolding is_write_tool
nudge_writes = refl

nudge_allowed :
    (check no_overrides false 100 (rows []) "nudge" nudge_input none none).allowed ≡ true
unfolding check resolve_tier override base_tier is_external validate_schema is_write_tool
    has_sensitive_content check_dedup
nudge_allowed = refl

-- {"tool_permissions": {"send_email": null}}
abbrev broken : Profile
broken = record {
  tool_permissions = ("send_email", record { kind = Kind.null; text = "None"; items = none }) ∷ [];
  nudge_dedup_hours = none;
}

send_email_unreadable :
    override (base_tier "send_email") (lookup "send_email" broken.tool_permissions) ≡ none
unfolding override
send_email_unreadable = refl

check_dedup-eq-any_example :
    check_dedup no_overrides 100 (rows (audit_row 90 "nudge" nudge_input ∷ [])) "nudge" nudge_input
    ≡ any
        (covers "tool:nudge" 100 (dedup_window no_overrides) (text "t1") empty_text ("e1" ∷ []))
        (audit_row 90 "nudge" nudge_input ∷ [])
check_dedup-eq-any_example =
    check_dedup-eq-any no_overrides 100 (audit_row 90 "nudge" nudge_input ∷ []) nudge_input
      ("e1" ∷ []) (tt, tt) refl

audited_then_suppressed_example :
    check_dedup no_overrides 100 (audit 90 "nudge" nudge_input (rows [])) "nudge" nudge_input ≡ true
audited_then_suppressed_example =
    audited_then_suppressed no_overrides 90 100 [] nudge_input ("e1" ∷ []) tt refl (omega arith)
