-- ===== src/Agent/Schedules/Calls.antt =====
-- feishu/agent/scheduled.py: the calls of `ScheduledTaskStore` that write, and the store after one.
use open_feishu.Common.{ℕ, String, Bool, Option, none, some, List, [], ◌∷◌, Outcome, ok, err}
use open_feishu.Agent.Schedules.Calendar.{Failure, Zones}
use open_feishu.Agent.Schedules.Rows.{
  Payload, TaskState, ScheduledTask, RunStatus, DeliveryStatus, WaitKind, Store, Transaction,
}
use open_feishu.Agent.Schedules.Runs.{finish_run, renew_lease, expire_runs}
use open_feishu.Agent.Schedules.Waits.{claim_resume, record_wait, clear_wait, reconcile_unknown}
use open_feishu.Agent.Schedules.Deliveries.{claim_delivery, expire_deliveries, record_delivery}
use open_feishu.Agent.Schedules.Drafts.{create_draft, confirm_draft}
use open_feishu.Agent.Schedules.Manage.{set_state}
use open_feishu.Agent.Schedules.Listing.{refresh_timezones}
use open_feishu.Agent.Schedules.Due.{claim_due}

-- The arguments of the methods, and the new identifiers that `uuid4` gives.
pub data Call : Type 0 where
  creates : (id : String) (now ttl : ℕ) (p : Payload) → Call
  confirms :
      (draft_id task_id : String) (keys : List String) (payload_hash tenant_key : String) (now : ℕ)
      → Call
  sets :
      (id run_id : String) (keys : List String) (state : TaskState) (tenant_key : String)
      (expected_revision now : ℕ)
      → Call
  refreshes :
      (timezone_for : ScheduledTask → Option String) (now : ℕ) (ids : Option (List String)) → Call
  claims_due :
      (timezone_for : Option (ScheduledTask → Option String)) (now grace_seconds lease_seconds : ℕ)
      (run_id token : String)
      → Call
  finishes :
      (id : String) (status : RunStatus) (now : ℕ) (summary : Option String)
      (expected_status : Option RunStatus) (expected_token : Option String) (reset : Bool)
      → Call
  renews : (id : String) (token : Option String) (now lease_seconds : ℕ) → Call
  expires : (now : ℕ) → Call
  resumes :
      (id wait_id : String) (expected_status : RunStatus) (now lease_seconds : ℕ) (token : String)
      → Call
  records_wait :
      (id : String) (kind : WaitKind) (wait_id : String) (deadline : ℕ) (token : String) (now : ℕ)
      → Call
  clears_wait : (id wait_id token : String) (now : ℕ) → Call
  reconciles : (id tenant_key actor decision reason : String) (now : ℕ) → Call
  claims_notice : (id : String) (now lease_seconds : ℕ) (token : String) → Call
  expires_notices : (now : ℕ) → Call
  records_notice : (id : String) (status : DeliveryStatus) (token : String) (now : ℕ) → Call

-- The store after a transaction, which an exception leaves as it was.
abbrev pub after : {A : Type 0} → Transaction A → Store → Store
after (err e) s = s
after (ok (s', v)) s = s'

abbrev pub after_refresh : Outcome Failure Store → Store → Store
after_refresh (err e) s = s
after_refresh (ok s') s = s'

abbrev pub after_claim : {A : Type 0} → Option (Transaction A) → Store → Store
after_claim none s = s
after_claim (some t) s = after t s

module _ (zones : Zones) (digest : Payload → String) where
  unfoldable pub perform : Call → Store → Store
  perform (creates id now ttl p) s = after (create_draft zones digest id now ttl p s) s
  perform (confirms draft_id task_id keys hash tenant now) s =
      after (confirm_draft zones digest draft_id task_id keys hash tenant now s) s
  perform (sets id run_id keys state tenant revision now) s =
      after (set_state zones id run_id keys state tenant revision now s) s
  perform (refreshes timezone_for now ids) s =
      after_refresh (refresh_timezones zones timezone_for now ids s) s
  perform (claims_due timezone_for now grace lease run_id token) s =
      after_claim (claim_due zones timezone_for now grace lease run_id token s) s
  perform (finishes id status now summary expected_status expected_token reset) s =
      after (finish_run id status now summary expected_status expected_token reset s) s
  perform (renews id token now lease) s = after (renew_lease id token now lease s) s
  perform (expires now) s = (expire_runs now s).0
  perform (resumes id wait_id expected_status now lease token) s =
      after (claim_resume id wait_id expected_status now lease token s) s
  perform (records_wait id kind wait_id deadline token now) s =
      after (record_wait id kind wait_id deadline token now s) s
  perform (clears_wait id wait_id token now) s = after (clear_wait id wait_id token now s) s
  perform (reconciles id tenant actor decision reason now) s =
      after (reconcile_unknown id tenant actor decision reason now s) s
  perform (claims_notice id now lease token) s = after (claim_delivery id now lease token s) s
  perform (expires_notices now) s = expire_deliveries now s
  perform (records_notice id status token now) s = after (record_delivery id status token now s) s

  -- The store after a sequence of calls, in the order in which their transactions are made.
  unfoldable pub perform_all : List Call → Store → Store
  perform_all [] s = s
  perform_all (c ∷ calls) s = perform_all calls (perform c s)
