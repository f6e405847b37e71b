-- ===== src/Agent/Approvals/Running.antt =====
-- feishu/agent/approval.py: `_on_claimed_decision` of `DefaultApprovalEngine`, and what it calls.
use open_feishu.Common.{
  String, Bool, true, false, ◌&&◌, ◌||◌, not, Option, none, some, ok, [], ◌∷◌, ◌++◌, ◌==◌,
  string_eq, if◌then◌else◌,
}
use open_feishu.Dict
use open_feishu.Dict.{Dict}
use open_feishu.Json.{Json, text}
use open_feishu.Agent.Pending.{PendingApproval, is_given}
use open_feishu.Agent.Approvals.{
  executed, replayed, frozen, failed, ApprovalOutcome, ToolOutcome, completed, informational,
  Execution, Engine, Answer, done, raises, is_cancelled, DispatchAnswer, refuses, tool_raises,
  dispatch_cancelled, gives, Outside, outcome_of, says,
}
use open_feishu.Agent.Approvals.Action.{Action, pure, cancel, ◌>>=◌, completes, records}

-- `approval.idempotency_key` as a test.
abbrev pub has_text : Option String → Bool
has_text none = false
has_text (some t) = not (t == "")

abbrev pub same_hash : Option String → Option String → Bool
same_hash none none = true
same_hash (some a) (some b) = a == b
same_hash _ _ = false

-- `self.executions`, where the tests before `get` and before `put` pass.
abbrev pub if_used : Bool → Option (Dict String Execution) → Option (Dict String Execution)
if_used true d = d
if_used false d = none

abbrev pub key_of : Engine → PendingApproval → String
key_of engine approval = engine.lookup_key approval.idempotency_key approval.tool_name

-- The approval is completed and the event recorded, which ends a branch.
unfoldable pub conclude :
    {A : Type 0} → Engine → Outside → PendingApproval → String → String → Bool → A → Action A
conclude engine out approval outcome event_type error v = do
  _ ← completes approval.approval_id outcome
  _ ← records engine out event_type approval error
  pure v

-- What is found for the approval: a row with its hash is replayed.
unfoldable pub hit :
    Engine → Outside → PendingApproval → Option Execution → Action (Option ApprovalOutcome)
hit engine out approval none = pure none
hit engine out approval (some row) =
    if same_hash row.payload_sha256 approval.payload_sha256
    then conclude engine out approval "replayed" "replay" false
        (some (outcome_of replayed row.result false))
    else pure none

unfoldable pub look_up :
    Engine
    → Outside
    → PendingApproval
    → Answer
    → Dict String Execution
    → Action (Option ApprovalOutcome)
look_up engine out approval is_cancelled rows = cancel
look_up engine out approval raises rows =
    conclude engine out approval "failed" "execute_failed" true (some (says engine failed))
look_up engine out approval done rows =
    hit engine out approval (Dict.get (key_of engine approval) rows)

-- The part of `_on_claimed_decision` before the tool.
unfoldable pub replay : Engine → Outside → PendingApproval → Action (Option ApprovalOutcome)
replay engine out approval w =
    elim (if_used (has_text approval.idempotency_key && is_given approval.payload_sha256)
      w.executions) [
        | none ↦ (ok none, w)
        | some rows ↦ look_up engine out approval out.lookup rows w
      ]

-- `tracked_dispatch`, up to the wait.
unfoldable pub dispatches : PendingApproval → Action Unit
dispatches approval w = (
  ok tt,
  record w {
    dispatched =
        w.dispatched
        ++ record {
          approval_id = approval.approval_id;
          tool_name = approval.tool_name;
          arguments = approval.arguments;
        }
          ∷ [];
    execution_started = true;
  },
)

abbrev pub succeeds : ToolOutcome → Bool
succeeds completed = true
succeeds informational = true
succeeds _ = false

unfoldable pub finish : Engine → Outside → PendingApproval → Json → Action ApprovalOutcome
finish engine out approval content =
    conclude engine out approval "executed" "execute" false (outcome_of executed content false)

-- `self.executions.put`.
unfoldable pub store_result : Engine → PendingApproval → Json → Dict String Execution → Action Unit
store_result engine approval content rows w = (
  ok tt,
  record w {
    executions = some (
        Dict.put (key_of engine approval)
          (record { payload_sha256 = approval.payload_sha256; result = content }) rows);
  },
)

unfoldable pub store_with :
    Engine
    → Outside
    → PendingApproval
    → Json
    → Answer
    → Dict String Execution
    → Action ApprovalOutcome
store_with engine out approval content is_cancelled rows = cancel
store_with engine out approval content raises rows =
    conclude engine out approval "frozen" "execute_unknown" true (says engine frozen)
store_with engine out approval content done rows = do
  _ ← store_result engine approval content rows
  finish engine out approval content

-- The result of a tool that succeeded is kept before the approval is completed.
unfoldable pub keep : Engine → Outside → PendingApproval → Json → Action ApprovalOutcome
keep engine out approval content w =
    elim (if_used (has_text approval.idempotency_key) w.executions) [
      | none ↦ finish engine out approval content w
      | some rows ↦ store_with engine out approval content out.store rows w
    ]

-- What follows `dispatch`.
unfoldable pub after_dispatch :
    Engine → Outside → PendingApproval → DispatchAnswer → Action ApprovalOutcome
after_dispatch engine out approval dispatch_cancelled = cancel
after_dispatch engine out approval (refuses t) =
    conclude engine out approval "failed" "execute_failed" (not (t == ""))
      (outcome_of failed (text t) true)
after_dispatch engine out approval (tool_raises t) =
    conclude engine out approval "frozen" "execute_unknown" (not (t == "")) (says engine frozen)
after_dispatch engine out approval (gives result) =
    if result.is_error || not (succeeds result.outcome)
    then (conclude engine out approval "failed" "execute_failed" true (record {
      status = failed;
      content = result.content;
      is_error = true;
      authorize_url = result.authorize_url;
      auth_scopes = result.auth_scopes;
    }))
    else keep engine out approval result.content

unfoldable pub run_tool : Engine → Outside → PendingApproval → Action ApprovalOutcome
run_tool engine out approval = do
  _ ← records engine out "confirm" approval false
  _ ← dispatches approval
  after_dispatch engine out approval out.dispatch

abbrev pub or_run :
    Engine → Outside → PendingApproval → Option ApprovalOutcome → Action ApprovalOutcome
or_run engine out approval (some outcome) = pure outcome
or_run engine out approval none = run_tool engine out approval

-- `_on_claimed_decision`.
unfoldable pub on_claimed_decision : Engine → Outside → PendingApproval → Action ApprovalOutcome
on_claimed_decision engine out approval = do
  r ← replay engine out approval
  or_run engine out approval r
