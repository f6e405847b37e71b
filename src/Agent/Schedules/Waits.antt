-- ===== src/Agent/Schedules/Waits.antt =====
-- feishu/agent/scheduled.py: the runs that wait for an approval or an authorization, and those whose
-- outcome is not known, in `ScheduledTaskStore`.
use Prim.Native.String.{count}
use open_feishu.Common.{
  ℕ, ◌+◌, String, Bool, true, false, ◌&&◌, ◌||◌, not, Option, none, some, List, Outcome, ok, err,
  ltb, ◌==◌, string_eq, nat_eq, if◌then◌else◌, map,
}
use open_feishu.Dict
use open_feishu.Dict.{Dict}
use open_feishu.Texts.{has_text, is_tenant}
use open_feishu.Agent.Schedules.Calendar.{Failure, value_error, permission_error, run_conflict}
use open_feishu.Agent.Schedules.Tables.{insert, update_key, holds, meets_key, select}
use open_feishu.Agent.Schedules.Rows.{
  active, completed, TaskRow, RunStatus, running, awaiting_authorization, awaiting_confirmation,
  succeeded, failed, WaitKind, approval, authorization, RunRow, ScheduledRun, Reconciliation, Store,
  Transaction, is_due, is_text, is_unknown, run_of,
}
use open_feishu.Agent.Schedules.Runs.{with_runs, leases, read_back, order_by, same_status}

abbrev pub is_kind : Option WaitKind → WaitKind → Bool
is_kind (some approval) approval = true
is_kind (some authorization) authorization = true
is_kind _ _ = false

-- The kind of wait of a status, which no other status has.
abbrev pub wait_of : RunStatus → Option WaitKind
wait_of awaiting_confirmation = some approval
wait_of awaiting_authorization = some authorization
wait_of _ = none

-- The task may go on: its state is "active" or "completed", and it has a tenant.
unfoldable pub goes_on : TaskRow → Bool
goes_on task = elim task.state [
  | active ↦ not (task.tenant_key == "")
  | completed ↦ not (task.tenant_key == "")
  | _ ↦ false
]

-- The WHERE clause of `claim_resume`.
unfoldable pub may_resume : Dict String TaskRow → RunStatus → WaitKind → String → RunRow → Bool
may_resume tasks expected_status kind wait_id r =
    same_status r.status expected_status
    && (is_text r.wait_id wait_id
        && (is_kind r.wait_kind kind && holds goes_on (Dict.get r.task_id tasks)))

unfoldable pub resumed_row : String → ℕ → RunRow → RunRow
resumed_row token until r = record r {
  status = running;
  lease_token = some token;
  lease_until = some until;
}

unfoldable pub resume_kind :
    String
    → String
    → RunStatus
    → Option WaitKind
    → ℕ
    → ℕ
    → String
    → Store
    → Transaction ScheduledRun
resume_kind id wait_id expected_status none now lease_seconds token s = err value_error
resume_kind id wait_id expected_status (some kind) now lease_seconds token s =
    if (wait_id == "") || (lease_seconds == 0)
    then err value_error
    else if meets_key id (may_resume s.tasks expected_status kind wait_id) s.runs
    then read_back id (
        with_runs
          (update_key id (may_resume s.tasks expected_status kind wait_id)
            (resumed_row token (now + lease_seconds)) s.runs)
          s)
    else err run_conflict

-- `token` is the new lease's.
unfoldable pub claim_resume :
    String → String → RunStatus → ℕ → ℕ → String → Store → Transaction ScheduledRun
claim_resume id wait_id expected_status now lease_seconds token s =
    resume_kind id wait_id expected_status (wait_of expected_status) now lease_seconds token s

unfoldable pub waiting_row : Option WaitKind → Option String → Option ℕ → RunRow → RunRow
waiting_row kind wait_id deadline r = record r {
  wait_kind = kind;
  wait_id = wait_id;
  wait_deadline = deadline;
}

unfoldable pub record_wait :
    String → WaitKind → String → ℕ → String → ℕ → Store → Transaction ScheduledRun
record_wait id kind wait_id deadline expected_token now s =
    if wait_id == ""
    then err value_error
    else if expected_token == ""
    then err value_error
    else if meets_key id (leases expected_token now) s.runs
    then read_back id (
        with_runs
          (update_key id (leases expected_token now)
            (waiting_row (some kind) (some wait_id) (some deadline)) s.runs)
          s)
    else err run_conflict

abbrev pub waits_under : String → String → ℕ → RunRow → Bool
waits_under wait_id token now r = is_text r.wait_id wait_id && leases token now r

unfoldable pub clear_wait : String → String → String → ℕ → Store → Transaction (Unit {0})
clear_wait id wait_id expected_token now s =
    if meets_key id (waits_under wait_id expected_token now) s.runs
    then ok (
      with_runs
          (update_key id (waits_under wait_id expected_token now) (waiting_row none none none)
            s.runs)
          s,
      tt,
    )
    else err run_conflict

abbrev waits_for : RunRow → Bool
waits_for r =
    same_status r.status awaiting_confirmation && is_kind r.wait_kind approval
    || same_status r.status awaiting_authorization && is_kind r.wait_kind authorization

abbrev deadline_of : Option ℕ → ℕ
deadline_of none = 0
deadline_of (some t) = t

unfoldable pub expired_waits : ℕ → Store → List ScheduledRun
expired_waits now s = map run_of (
    order_by (λ r. deadline_of r.wait_deadline)
      (select (λ r. waits_for r && is_due r.wait_deadline now) s.runs))

-- The task of the run has this tenant.
abbrev pub in_tenant : Dict String TaskRow → String → RunRow → Bool
in_tenant tasks tenant_key r =
    holds (λ task. task.tenant_key == tenant_key) (Dict.get r.task_id tasks)

unfoldable pub unknown_runs : String → Store → Outcome Failure (List ScheduledRun)
unknown_runs tenant_key s =
    if is_tenant tenant_key
    then ok (
        map run_of (
          order_by (λ r. r.scheduled_for)
            (select (λ r. is_unknown r.status && in_tenant s.tasks tenant_key r) s.runs)))
    else err value_error

unfoldable pub is_decision : String → Bool
is_decision decision =
    decision == "confirmed_succeeded" || (decision == "confirmed_failed" || decision == "abandoned")

unfoldable pub reconciled_row : RunStatus → ℕ → RunRow → RunRow
reconciled_row status now r = record r {
  status = status;
  finished_at = some now;
  lease_token = none;
  lease_until = none;
  wait_kind = none;
  wait_id = none;
  wait_deadline = none;
}

abbrev pub settle_as : String → RunStatus
settle_as decision = if decision == "confirmed_succeeded" then succeeded else failed

abbrev pub settle :
    String
    → String
    → ℕ
    → Store
    → Outcome Failure (Dict String Reconciliation)
    → Transaction ScheduledRun
settle id decision now s (err e) = err e
settle id decision now s (ok reconciliations) = read_back id (record s {
  reconciliations = reconciliations;
  runs = update_key id (λ r. is_unknown r.status) (reconciled_row (settle_as decision) now) s.runs;
})

unfoldable pub reconcile_row :
    String
    → String
    → String
    → String
    → String
    → ℕ
    → Store
    → Option RunRow
    → Transaction ScheduledRun
reconcile_row id tenant_key actor decision reason now s none = err permission_error
reconcile_row id tenant_key actor decision reason now s (some r) =
    if not (in_tenant s.tasks tenant_key r)
    then err permission_error
    else if not (is_unknown r.status)
    then err run_conflict
    else settle id decision now s (
        insert id
          (record {
            tenant_key = tenant_key;
            actor = actor;
            decision = decision;
            reason = reason;
            reconciled_at = now;
          })
          s.reconciliations)

unfoldable pub reconcile_unknown :
    String → String → String → String → String → ℕ → Store → Transaction ScheduledRun
reconcile_unknown id tenant_key actor decision reason now s =
    if not (is_tenant tenant_key)
    then err value_error
    else if not (has_text actor)
        || (not (has_text reason) || (ltb 2000 (count reason) || not (is_decision decision)))
    then err value_error
    else reconcile_row id tenant_key actor decision reason now s (Dict.get id s.runs)
