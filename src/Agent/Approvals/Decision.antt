-- ===== src/Agent/Approvals/Decision.antt =====
-- feishu/agent/approval.py: `on_decision`, `on_cancel` and `on_request` of `DefaultApprovalEngine`.
use open_feishu.Common.{
  String, Bool, true, false, ◌&&◌, Option, none, some, Outcome, ok, err, string_eq, if◌then◌else◌,
}
use open_feishu.Agent.Pending.{
  PendingState, executing, PendingApproval, Approvals, ClaimResult, claimed, already_claimed,
  claim_expired, claim, put, get,
}
use open_feishu.Agent.Approvals.{
  ApprovalStatus, rejected, tampered, already_decided, superseded, expired, missing,
  ApprovalOutcome, Engine, World, Outside, says,
}
use open_feishu.Agent.Approvals.Action.{Cancelled, Action, completes, records}
use open_feishu.Agent.Approvals.Running.{has_text, conclude, on_claimed_decision}

pub data Decision : Type 0 where
  approve reject : Decision

abbrev pub is_executing : PendingState → Bool
is_executing executing = true
is_executing _ = false

-- `_settle_cancelled_decision`, for an approval in execution by whether the tool has been called.
abbrev pub settle : Engine → Outside → PendingApproval → Bool → World → World
settle engine out approval true w =
    (records engine out "execute_unknown" approval true
      (completes approval.approval_id "frozen" w).1).1
settle engine out approval false w = (completes approval.approval_id "retry" w).1

unfoldable pub settle_cancelled : Engine → Outside → PendingApproval → World → World
settle_cancelled engine out approval w = elim (get approval.approval_id w.approvals) [
  | none ↦ w
  | some current ↦
      if is_executing current.state then settle engine out approval w.execution_started w else w
]

abbrev pub caught :
    Engine
    → Outside
    → PendingApproval
    → Outcome Cancelled ApprovalOutcome × World
    → Outcome Cancelled ApprovalOutcome × World
caught engine out approval (ok outcome, w) = (ok outcome, w)
caught engine out approval (err x, w) = (err x, settle_cancelled engine out approval w)

-- The approved decision with its handler of a cancellation.
unfoldable pub run_claimed : Engine → Outside → PendingApproval → Action ApprovalOutcome
run_claimed engine out approval w =
    caught engine out approval
      (on_claimed_decision engine out approval (record w { execution_started = false }))

-- `on_decision` from the claim that succeeded.
unfoldable pub decide : Engine → Outside → Decision → PendingApproval → Action ApprovalOutcome
decide engine out reject approval =
    conclude engine out approval "cancelled" "cancel" false (says engine rejected)
decide engine out approve approval = run_claimed engine out approval

-- `_claim_failure`.
abbrev pub claim_failure : ClaimResult → ApprovalStatus
claim_failure ClaimResult.tampered = tampered
claim_failure already_claimed = already_decided
claim_failure ClaimResult.superseded = superseded
claim_failure claim_expired = expired
claim_failure ClaimResult.missing = missing
claim_failure claimed = missing

-- What follows a claim: its answer, and the action if it succeeded.
abbrev pub if_claimed :
    {A : Type 0} → (ClaimResult → A) → Action A → Approvals × ClaimResult → Action A
if_claimed refuse act (s, claimed) w = act (record w { approvals = s })
if_claimed refuse act (s, c) w = (ok (refuse c), record w { approvals = s })

unfoldable pub on_decision :
    Engine → Outside → String → Decision → Option String → Action ApprovalOutcome
on_decision engine out id decision expected w = elim (get id w.approvals) [
  | none ↦ (ok (says engine missing), w)
  | some approval ↦
      if_claimed (λ c. says engine (claim_failure c)) (decide engine out decision approval)
        (claim out.now id expected w.approvals) w
]

unfoldable pub cancels : Engine → Outside → PendingApproval → Action Bool
cancels engine out approval = conclude engine out approval "cancelled" "cancel" false true

unfoldable pub on_cancel : Engine → Outside → String → Action Bool
on_cancel engine out id w = elim (get id w.approvals) [
  | none ↦ (ok false, w)
  | some approval ↦
      if_claimed (λ c. false) (cancels engine out approval)
        (claim out.now id approval.payload_sha256 w.approvals) w
]

abbrev pub is_none : Option String → Bool
is_none none = true
is_none (some _) = false

-- The approval with the key that `on_request` derives.
unfoldable pub with_key : Engine → PendingApproval → PendingApproval
with_key engine approval =
    if is_none approval.idempotency_key
      && (has_text approval.created_message_id && has_text approval.payload_sha256)
    then record approval { idempotency_key = some (engine.derive_key approval) }
    else approval

unfoldable pub on_request : Engine → Outside → PendingApproval → Action Unit
on_request engine out approval w =
    records engine out "write_request" (with_key engine approval) false
      (record w { approvals = put (with_key engine approval) w.approvals })
