-- ===== src/Errors.antt =====
-- xibi/errors.py: the error that the program's parts raise, and the text of it that a user sees. The
-- time stamp, and the form for logs, are left out.
use xibi.Base.{Bool, String, append_text}

pub data ErrorCategory : Type 0 where
  timeout tool_not_found parse_failure provider_down validation circuit_open permission
        precondition_missing ambiguous_calendar unknown :
      ErrorCategory

pub record XibiError : Type 0 where
  pub category : ErrorCategory
  pub message : String
  pub component : String
  pub detail : String
  pub retryable : Bool

unfoldable pub user_message : XibiError → String
user_message e = elim e.category [
  | timeout ↦ append_text "That took too long — " (append_text e.message ". Please try again.")
  | tool_not_found ↦ append_text "I don't have a tool for that: " e.message
  | provider_down ↦ "I'm having trouble reaching my AI provider. Trying a fallback."
  | circuit_open ↦
      append_text "I'm temporarily pausing calls to "
        (append_text e.component " — too many recent failures.")
  | parse_failure ↦ "I had trouble understanding the response. Retrying."
  | _ ↦ "Something went wrong. Please try again."
]
