-- ===== src/Agent/Schedules/Lifecycle/Calls.antt =====
-- Each call of the store, and each sequence of calls, follows the life of a run.
use open_feishu.Common.{String}
use open_feishu.Agent.Schedules.Calendar.{Zones}
use open_feishu.Agent.Schedules.Rows.{Payload, Store}
use open_feishu.Agent.Schedules.Calls.{
  Call, creates, confirms, sets, refreshes, claims_due, finishes, renews, expires, resumes,
  records_wait, clears_wait, reconciles, claims_notice, expires_notices, records_notice, perform,
}
use open_feishu.Agent.Schedules.Lifecycle.{Change}
use open_feishu.Agent.Schedules.Lifecycle.Runs.{
  finish_run-Change, renew_lease-Change, expire_runs-Change, claim_resume-Change,
  record_wait-Change, clear_wait-Change,
}
use open_feishu.Agent.Schedules.Lifecycle.Notices.{
  reconcile_unknown-Change, claim_delivery-Change, expire_deliveries-Change, record_delivery-Change,
}
use open_feishu.Agent.Schedules.Lifecycle.Tasks.{claim_due-Change, set_state-Change}
use open_feishu.Agent.Schedules.Lifecycle.Drafts.{
  create_draft-Change, confirm_draft-Change, refresh_timezones-Change,
}

-- Every call of the store that writes changes the table of runs as the life of a run allows: either
-- each run makes one move and none is lost or new, or one run is added under a new identifier, and
-- one that is open only where no run of its task is.
pub perform-Change :
    (zones : Zones) (digest : Payload → String) (c : Call) (s : Store)
    → Change s.runs (perform zones digest c s).runs
unfolding perform
perform-Change zones digest (creates id now ttl p) s =
    create_draft-Change zones digest id now ttl p s
perform-Change zones digest (confirms draft_id task_id keys hash tenant now) s =
    confirm_draft-Change zones digest draft_id task_id tenant now s keys hash
perform-Change zones digest (sets id run_id keys state tenant revision now) s =
    set_state-Change zones id run_id state revision now s keys tenant
perform-Change zones digest (refreshes timezone_for now ids) s =
    refresh_timezones-Change zones timezone_for now ids s
perform-Change zones digest (claims_due timezone_for now grace lease run_id token) s =
    claim_due-Change zones timezone_for now grace lease run_id token s
perform-Change zones digest (finishes id status now summary expected token reset) s =
    finish_run-Change id status now summary expected token reset s
perform-Change zones digest (renews id token now lease) s = renew_lease-Change id token now lease s
perform-Change zones digest (expires now) s = expire_runs-Change now s
perform-Change zones digest (resumes id wait_id expected now lease token) s =
    claim_resume-Change id wait_id expected now lease token s
perform-Change zones digest (records_wait id kind wait_id deadline token now) s =
    record_wait-Change id kind wait_id deadline token now s
perform-Change zones digest (clears_wait id wait_id token now) s =
    clear_wait-Change id wait_id token now s
perform-Change zones digest (reconciles id tenant actor decision reason now) s =
    reconcile_unknown-Change id tenant actor decision reason now s
perform-Change zones digest (claims_notice id now lease token) s =
    claim_delivery-Change id now lease token s
perform-Change zones digest (expires_notices now) s = expire_deliveries-Change now s
perform-Change zones digest (records_notice id status token now) s =
    record_delivery-Change id status token now s
