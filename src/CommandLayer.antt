-- ===== src/CommandLayer.antt =====
-- xibi/command_layer.py: the gates of a tool call (`CommandLayer.check`), the log of the calls
-- (`audit`), the search for duplicates in it (`_check_dedup`) and `resolve_thread`. Times are whole
-- seconds, as in the table's texts.
pub mod Gates
pub mod Dedup
pub mod Threads
mod Tests
use xibi.Base.{
  ℕ, ◌+◌, ◌*◌, Bool, true, false, not, ◌&&◌, Option, none, some, String, List, [], ◌∷◌, ◌++◌, ◌==◌,
  ltb, if◌then◌else◌, Dict, lookup, all, member, Store, open_db, insert,
}
use xibi.Tools.{
  PermissionTier, green, yellow, red, Kind, Value, str, Profile, Schema, SchemaError, get_or,
  same_kind, resolve_tier, validate_schema, is_write_tool,
}
use xibi.ContentScan.{has_sensitive_content}
use Prim.Native.String
use mathlib.Core.Bool.{◌||◌}

-- Why a call is blocked.
pub data BlockReason : Type 0 where
  not_blocked needs_confirmation sensitive_content duplicate internal_error : BlockReason
  validation_failed : List SchemaError → BlockReason

-- The two texts of the source, `block_reason` and `retry_hint`, are one value of `BlockReason`:
-- the hint is the text of `validation_failed`.
pub record CommandResult : Type 0 where
  pub allowed : Bool
  pub tier : PermissionTier
  pub validation_errors : List SchemaError
  pub dedup_suppressed : Bool
  pub audit_required : Bool
  pub block_reason : BlockReason
  pub source_bumped : Bool

-- What a row of `access_log` holds as its JSON text: text that does not parse, a value that is no
-- dict, or the payload that `audit` writes.
pub data Payload : Type 0 where
  bad_json not_dict : Payload
  details : Value → Value → Value → Payload

pub record LogRow : Type 0 where
  pub chat_id : String
  pub timestamp : ℕ
  pub user_name : Payload

-- The database of a layer: none is configured, it raises when it is read, or its rows, in the order
-- of the query.
pub data Database : Type 0 where
  unset failing : Database
  rows : List LogRow → Database

abbrev pub empty_text : Value
empty_text = record { kind = str; text = ""; items = some [] }

abbrev pub empty_list : Value
empty_list = record { kind = Kind.list; text = "[]"; items = some [] }

abbrev pub field_or : String → Value → Dict Value → Value
field_or name default input = get_or (lookup name input) default

-- `==` on two values, which for the texts that name threads and categories is that of the texts.
abbrev pub same_value : Value → Value → Bool
same_value a b = same_kind a.kind b.kind && a.text == b.text

abbrev pub is_subset : List String → List String → Bool
is_subset new stored = all (λ r. member r stored) new

-- What one row says of a call: nothing, that it is a duplicate, or an exception that ends the loop.
pub data Verdict : Type 0 where
  go_on covered stop : Verdict

abbrev subset_verdict : List String → Option (List String) → Verdict
subset_verdict new none = go_on
subset_verdict new (some stored) = if is_subset new stored then covered else go_on

abbrev pub verdict : Value → Value → List String → Payload → Verdict
verdict thread category new bad_json = go_on
verdict thread category new not_dict = stop
verdict thread category new (details t c refs) =
    if same_value t thread && same_value c category then subset_verdict new refs.items else go_on

unfoldable pub scan : Value → Value → List String → List Payload → Bool
scan thread category new [] = false
scan thread category new (p ∷ ps) = elim (verdict thread category new p) [
  | go_on ↦ scan thread category new ps
  | covered ↦ true
  | stop ↦ false
]

-- SELECT user_name FROM access_log WHERE chat_id = ? AND timestamp > ?, with the second parameter
-- `now` less the window.
unfoldable pub recent : String → ℕ → ℕ → List LogRow → List Payload
recent chat now window [] = []
recent chat now window (r ∷ rs) =
    let rest = recent chat now window rs in
    if r.chat_id == chat && ltb now (r.timestamp + window) then r.user_name ∷ rest else rest

abbrev pub dedup_window : Profile → ℕ
dedup_window profile = 3600 * get_or profile.nudge_dedup_hours 4

abbrev dedup_rows : Profile → ℕ → Dict Value → Option (List String) → Database → Bool
dedup_rows profile now input none db = false
dedup_rows profile now input (some new) unset = false
dedup_rows profile now input (some new) failing = false
dedup_rows profile now input (some new) (rows log) =
    scan (field_or "thread_id" empty_text input) (field_or "category" empty_text input) new
      (recent "tool:nudge" now (dedup_window profile) log)

-- `_check_dedup`: true if the call is a duplicate.
unfoldable pub check_dedup : Profile → ℕ → Database → String → Dict Value → Bool
unfolding scan recent
check_dedup profile now db tool input =
    if tool == "nudge"
    then dedup_rows profile now input (field_or "refs" empty_list input).items db
    else false

abbrev blocked : PermissionTier → BlockReason → Bool → CommandResult
blocked tier reason bumped = record {
  allowed = false;
  tier = tier;
  validation_errors = [];
  dedup_suppressed = false;
  audit_required = false;
  block_reason = reason;
  source_bumped = bumped;
}

abbrev is_red : PermissionTier → Bool
is_red red = true
is_red _ = false

abbrev is_yellow : PermissionTier → Bool
is_yellow yellow = true
is_yellow _ = false

abbrev same_tier : PermissionTier → PermissionTier → Bool
same_tier green green = true
same_tier yellow yellow = true
same_tier red red = true
same_tier _ _ = false

-- Gates 3 and 4.
abbrev after_tier : Bool → PermissionTier → Bool → CommandResult
after_tier is_duplicate tier bumped =
    if is_duplicate
    then record (blocked tier duplicate false) { dedup_suppressed = true }
    else record {
      allowed = true;
      tier = tier;
      validation_errors = [];
      dedup_suppressed = false;
      audit_required = is_yellow tier;
      block_reason = not_blocked;
      source_bumped = bumped;
    }

-- Gates 2 and 2.5.
abbrev after_schema : Bool → Bool → Bool → PermissionTier → Bool → CommandResult
after_schema interactive is_sensitive is_duplicate tier bumped =
    if is_red tier && not interactive
    then blocked tier needs_confirmation bumped
    else if not (is_red tier) && is_sensitive
    then if not interactive
      then blocked red sensitive_content true
      else after_tier is_duplicate red true
    else after_tier is_duplicate tier bumped

abbrev after_errors : List SchemaError → Bool → Bool → Bool → PermissionTier → Bool → CommandResult
after_errors [] interactive is_sensitive is_duplicate tier bumped =
    after_schema interactive is_sensitive is_duplicate tier bumped
after_errors (e ∷ es) interactive is_sensitive is_duplicate tier bumped =
    record (blocked tier (validation_failed (e ∷ es)) false) { validation_errors = e ∷ es }

abbrev pub with_tiers :
    Option PermissionTier
    → Option PermissionTier
    → List SchemaError
    → Bool
    → Bool
    → Bool
    → CommandResult
with_tiers (some base) (some tier) errors interactive is_sensitive is_duplicate =
    after_errors errors interactive is_sensitive is_duplicate tier (not (same_tier tier base))
with_tiers _ _ errors interactive is_sensitive is_duplicate = blocked red internal_error false

-- `CommandLayer.check`: all gates, in order. Each argument of `with_tiers` is one gate's question.
unfoldable pub check :
    Profile
    → Bool
    → ℕ
    → Database
    → String
    → Dict Value
    → Option Schema
    → Option String
    → CommandResult
check profile interactive now db tool input schema prev_step_source =
    with_tiers (resolve_tier tool profile none) (resolve_tier tool profile prev_step_source)
      (validate_schema input schema) interactive (is_write_tool tool && has_sensitive_content input)
      (check_dedup profile now db tool input)

-- `CommandLayer.audit`: the row that a call adds, read back through the JSON text.
abbrev pub audit_row : ℕ → String → Dict Value → LogRow
audit_row now tool input = record {
  chat_id = String.◌++◌ "tool:" tool;
  timestamp = now;
  user_name =
      details (field_or "thread_id" empty_text input) (field_or "category" empty_text input)
        (field_or "refs" empty_list input);
}

unfoldable pub audit : ℕ → String → Dict Value → Database → Database
audit now tool input unset = unset
audit now tool input failing = failing
audit now tool input (rows log) = rows (log ++ audit_row now tool input ∷ [])

pub record Thread : Type 0 where
  pub name : String
  pub status : String

pub data Reply : Type 0 where
  no_database not_found failed : Reply
  already_resolved marked_resolved : String → Reply

abbrev pub mark : String → Dict Thread → Option Thread → Reply × Dict Thread
mark id threads none = (not_found, threads)
mark id threads (some t) =
    if t.status == "resolved"
    then (already_resolved t.name, threads)
    else (marked_resolved t.name, insert id (record t { status = "resolved" }) threads)

abbrev pub reply_of : Option Reply × Store (Dict Thread) → Reply × Store (Dict Thread)
reply_of (reply, s) = (get_or reply failed, s)

-- `resolve_thread` over the table `threads`.
unfoldable pub resolve_in : String → Store (Dict Thread) → Reply × Store (Dict Thread)
resolve_in id s =
    reply_of (open_db (λ threads. mark id threads (lookup id threads)) s.faults s.table)

abbrev attached : Reply × Store (Dict Thread) → Reply × Option (Store (Dict Thread))
attached (reply, s) = (reply, some s)

-- A layer with no database is `none`.
unfoldable resolve_thread :
    String → Option (Store (Dict Thread)) → Reply × Option (Store (Dict Thread))
resolve_thread id none = (no_database, none)
resolve_thread id (some s) = attached (resolve_in id s)
