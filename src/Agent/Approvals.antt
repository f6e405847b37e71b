-- ===== src/Agent/Approvals.antt =====
-- feishu/agent/approval.py: the statuses, what a decision meets outside, and the methods of
-- `DefaultApprovalEngine` below `on_decision`.
pub mod Action
pub mod Consent
pub mod Running
pub mod Decision
pub mod Ends
pub mod Branches
pub mod Claims
pub mod Invariant
pub mod Once
pub mod Preserve
pub mod Replay
pub mod Settled
pub mod Tests
use open_feishu.Common.{
  ℕ, String, Bool, true, false, ◌&&◌, ◌||◌, not, Option, none, some, List, ◌==◌, string_eq,
  if◌then◌else◌,
}
use open_feishu.Dict
use open_feishu.Dict.{Dict}
use open_feishu.Json.{Json, null, text}
use open_feishu.Agent.Pending.{PendingApproval, Approvals}

pub data ApprovalStatus : Type 0 where
  executed replayed rejected tampered already_decided superseded frozen expired missing failed :
      ApprovalStatus

abbrev pub status_value : ApprovalStatus → String
status_value executed = "executed"
status_value replayed = "replayed"
status_value rejected = "rejected"
status_value tampered = "tampered"
status_value already_decided = "already_decided"
status_value superseded = "superseded"
status_value frozen = "frozen"
status_value expired = "expired"
status_value missing = "missing"
status_value failed = "failed"

-- `_DEFAULT_STATUS_TEXT`.
abbrev pub default_status_text : ApprovalStatus → String
default_status_text executed = "Action executed."
default_status_text replayed = "Action already executed; returning the prior result."
default_status_text rejected = "User rejected this action."
default_status_text tampered = "Confirmation did not match the original request; execution refused."
default_status_text already_decided = "This action was already confirmed or is being executed."
default_status_text superseded = "This request was superseded by a newer one."
default_status_text frozen =
    "Action was submitted but its result is unknown; manual review required."
default_status_text expired = "This confirmation request has expired."
default_status_text missing = "No such approval request; it may have expired."
default_status_text failed = "The action did not succeed and was not recorded as done."

pub record ApprovalOutcome : Type 0 where
  pub status : ApprovalStatus
  pub content : Json
  pub is_error : Bool
  pub authorize_url : Option String
  pub auth_scopes : List String

-- feishu/agent/result.py.
pub data ToolOutcome : Type 0 where
  completed tool_failed blocked needs_user_auth cancelled informational : ToolOutcome

pub record ToolResult : Type 0 where
  pub outcome : ToolOutcome
  pub content : Json
  pub authorize_url : Option String
  pub auth_scopes : List String
  pub is_error : Bool

-- What an ExecutionResultStore keeps under a key.
pub record Execution : Type 0 where
  pub payload_sha256 : Option String
  pub result : Json

-- The engine's fields. `lookup_key` and `derive_key` are the hashes of `_execution_lookup_key` and of
-- `derive_idempotency_key`.
pub record Engine : Type 0 where
  pub outcome_status : Dict String String
  pub has_audit : Bool
  pub lookup_key : Option String → String → String
  pub derive_key : PendingApproval → String

-- A row that `_record` appends, and a call of `dispatch`.
pub record AuditRow : Type 0 where
  pub event_type : String
  pub key : String
  pub error : Bool

pub record Dispatch : Type 0 where
  pub approval_id : String
  pub tool_name : String
  pub arguments : Json

-- The two stores, and the calls that were made. `execution_started` is the local variable of
-- `on_decision`.
pub record World : Type 0 where
  pub approvals : Approvals
  pub executions : Option (Dict String Execution)
  pub audit : List AuditRow
  pub dispatched : List Dispatch
  pub execution_started : Bool

-- How the calls outside end; a task may be cancelled while it waits for one.
pub data Answer : Type 0 where
  done raises is_cancelled : Answer

-- A KeyError or ToolValidationError with its text, before the tool runs; another exception with its
-- text; a result.
pub data DispatchAnswer : Type 0 where
  refuses : String → DispatchAnswer
  dispatch_cancelled : DispatchAnswer
  tool_raises : String → DispatchAnswer
  gives : ToolResult → DispatchAnswer

pub record Outside : Type 0 where
  pub now : ℕ
  pub lookup : Answer
  pub dispatch : DispatchAnswer
  pub store : Answer
  pub audit_cancelled : String → Bool

-- `_text`.
unfoldable pub text_of : Engine → ApprovalStatus → String
text_of engine status = elim (Dict.get (status_value status) engine.outcome_status) [
  | none ↦ default_status_text status
  | some t ↦ if t == "" then default_status_text status else t
]

abbrev pub outcome_of : ApprovalStatus → Json → Bool → ApprovalOutcome
outcome_of status content is_error = record {
  status = status;
  content = content;
  is_error = is_error;
  authorize_url = none;
  auth_scopes = List.[];
}

-- `ApprovalOutcome(status, content=self._text(status), is_error=True)`.
abbrev pub says : Engine → ApprovalStatus → ApprovalOutcome
says engine status = outcome_of status (text (text_of engine status)) true
