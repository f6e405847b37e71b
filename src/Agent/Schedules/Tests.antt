-- ===== src/Agent/Schedules/Tests.antt =====
-- A task that runs each hour, and its runs.
use open_feishu.Common.{
  ℕ, ◌+◌, ◌*◌, ◌≤◌, ◌≡◌, refl, String, true, false, Option, none, some, List, [], ◌∷◌, ok, err, ltb,
  ◌-◌, if◌then◌else◌, string_eq, nat_eq, nats_eq, nats_eqb,
}
use open_feishu.Dict
use open_feishu.Dict.{Dict}
use open_feishu.Http.Retry.{codes}
use open_feishu.Auth.Identity.{
  keys_of, user_identity_keys, add_kind, add_key, add_keys, user_from_identity_keys,
}
use open_feishu.Texts.{
  is_space, lstrip, rstrip, strip, has_text, insert as insert_text, sorted_set, with_text,
  texts_eqb, is_tenant,
}
use open_feishu.Agent.Schedules.Owners.{owner_keys_of, meets, is_owner}
use open_feishu.Agent.Schedules.Calendar.{
  run_conflict, Zone, Zones, Schedule, are_weekdays, post_init, made, once, interval, has_day,
  insert_day, sorted_days, calendar, first_valid, calendar_instant, next_day, next_once,
  rounds_after, next_interval, next_calendar, next_in, next_after,
}
use open_feishu.Agent.Schedules.Next.{IsAnswer, next_after-IsAnswer}
use open_feishu.Agent.Schedules.Tables.{
  insert, update_where, update_key, meets_key, exists_row, select,
}
use open_feishu.Agent.Schedules.Rows.{
  Payload, running, awaiting_confirmation, succeeded, failed, skipped_overlap, delivered, approval,
  RunRow, ScheduledRun, Store, Transaction, task_of, run_of,
}
use open_feishu.Agent.Schedules.Runs.{
  fits, may_finish, finished_row, reset_attempt, finish_row, finish_run, renew_lease, lost_row,
  drop_attempts, rows_where, expire_runs, validate_lease,
}
use open_feishu.Agent.Schedules.Waits.{
  goes_on, may_resume, resumed_row, resume_kind, claim_resume, waiting_row, record_wait,
  is_decision, reconciled_row, reconcile_row, reconcile_unknown,
}
use open_feishu.Agent.Schedules.Deliveries.{
  sending_row, claim_delivery, stale_row, expire_deliveries, recorded_row, record_delivery,
}
use open_feishu.Agent.Schedules.Drafts.{
  is_policy, draft_payload, draft_owned, create_draft, authorize, store_task, confirm_at,
  confirm_owned, confirm_row, confirm_draft,
}
use open_feishu.Agent.Schedules.Manage.{
  insert_run, advanced, set_task, set_allowed, set_row, set_state,
}
use open_feishu.Agent.Schedules.Due.{
  first_due, claimed_run, claim_status, start_run, quarantine_due, next_for, try_next, claim_loop,
  claim_due,
}
use open_feishu.Agent.Schedules.Claiming.{IsOutcome, claim_due-IsOutcome}
use open_feishu.Agent.Schedules.Calls.{
  Call, creates, confirms, claims_due, finishes, expires, records_wait, resumes, claims_notice,
  records_notice, perform, perform_all,
}
use open_feishu.Agent.Schedules.Lifecycle.{Change, identity}
use open_feishu.Agent.Schedules.Lifecycle.Calls.{perform-Change}
use open_feishu.Agent.Schedules.Overlap.{AtMostOneOpen, perform_all-AtMostOneOpen}
use open_feishu.Agent.Schedules.Finished.{sends_all, perform_all-once}

schedules : Unit {0}
unfolding codes keys_of user_identity_keys add_kind add_key add_keys user_from_identity_keys
    is_space lstrip rstrip strip has_text insert_text sorted_set with_text texts_eqb owner_keys_of
    is_tenant meets is_owner are_weekdays post_init made once interval has_day insert_day
    sorted_days calendar first_valid calendar_instant next_day next_once rounds_after next_interval
    next_calendar next_in next_after insert update_where update_key meets_key exists_row select
    task_of run_of fits may_finish finished_row reset_attempt finish_row finish_run renew_lease
    lost_row drop_attempts rows_where expire_runs validate_lease goes_on may_resume resumed_row
    resume_kind claim_resume waiting_row record_wait is_decision reconciled_row reconcile_row
    reconcile_unknown sending_row claim_delivery stale_row expire_deliveries recorded_row
    record_delivery is_policy draft_payload draft_owned create_draft authorize store_task confirm_at
    confirm_owned confirm_row confirm_draft insert_run advanced set_task set_allowed set_row
    set_state first_due claimed_run claim_status start_run quarantine_due next_for try_next
    claim_loop claim_due perform perform_all sends_all Dict.get Dict.put Dict.del Dict.has
    Dict.modify nats_eqb
schedules = tt

abbrev plain : Zone
plain = record { to_utc = λ t. t; to_local = λ t. t }

-- The clocks skip the hour after 02:00 of day 10.
abbrev gap : ℕ
gap = 10 * 86400 + 7200

abbrev summer : Zone
summer = record {
  to_utc = λ t. if ltb t (gap + 3600) then t else t - 3600;
  to_local = λ t. if ltb t gap then t else t + 3600;
}

abbrev zones : Zones
zones name = some plain

abbrev hourly : Schedule
hourly = record {
  kind = "interval";
  run_at = none;
  seconds = some 3600;
  anchor_at = some 1000;
  hour = none;
  minute = none;
  weekdays = [];
}

-- 09:30 on Mondays.
abbrev mondays : Schedule
mondays = record {
  kind = "calendar";
  run_at = none;
  seconds = none;
  anchor_at = none;
  hour = some 9;
  minute = some 30;
  weekdays = 0 ∷ [];
}

-- 02:30 does not exist on that day: the first minute that does is 03:00.
first_after_gap : calendar_instant summer 10 2 30 ≡ ok gap
unfolding schedules
first_after_gap = refl

made_hourly : interval 3600 1000 ≡ some hourly
unfolding schedules
made_hourly = refl

too_often : interval 59 1000 ≡ none
unfolding schedules
too_often = refl

next_hour : next_after zones hourly 4600 "UTC" ≡ ok (some 8200)
unfolding schedules
next_hour = refl

-- 1970-01-05 is a Monday.
next_monday : next_after zones mondays 0 "UTC" ≡ ok (some (4 * 86400 + 34200))
unfolding schedules
next_monday = refl

week_later : next_after zones mondays (4 * 86400 + 34200) "UTC" ≡ ok (some (11 * 86400 + 34200))
unfolding schedules
week_later = refl

next_after-IsAnswer_example :
    (zone : Zone) × (zones "UTC" ≡ some zone) × IsAnswer zone mondays 0 (some (4 * 86400 + 34200))
unfolding schedules
next_after-IsAnswer_example =
    next_after-IsAnswer zones mondays 0 "UTC" (some (4 * 86400 + 34200)) refl next_monday

abbrev digest : Payload → String
digest p = p.instruction

abbrev payload : Payload
payload = record {
  owner_keys = "open_id:ou_1" ∷ [];
  tenant_key = "t_1";
  chat_id = "oc_1";
  instruction = "report";
  schedule = hourly;
  policy = "read_only";
  timezone = "UTC";
}

abbrev no_rows : Store
no_rows = record { drafts = []; tasks = []; runs = []; reconciliations = []; attempts = [] }

abbrev begins : List Call
begins =
    creates "d" 100 1800 payload
    ∷ confirms "d" "k" ("open_id:ou_1" ∷ []) "report" "t_1" 200
    ∷ claims_due none 1010 60 60 "r1" "lease-1"
    ∷ []

-- The store with a task and its first run.
abbrev begun : Store
unfolding schedules
begun = perform_all zones digest begins no_rows

run_r1 : Dict.get "r1" begun.runs ≡ some (claimed_run "r1" "lease-1" "k" 1000 running 1010 60)
unfolding schedules
run_r1 = refl

-- The draft is read back from its owner, and the task is to run again at 4600.
not_again : claim_due zones none 1010 60 60 "r2" "lease-2" begun ≡ some (ok (begun, none))
unfolding schedules
not_again = refl

abbrev overlapping : Store
unfolding schedules
overlapping = perform zones digest (claims_due none 4610 60 60 "r2" "lease-2") begun

skips :
    Dict.get "r2" overlapping.runs
    ≡ some (claimed_run "r2" "lease-2" "k" 4600 skipped_overlap 4610 60)
unfolding schedules
skips = refl

wrong_lease :
    finish_run "r1" succeeded 1020 none none (some "lease-9") false begun ≡ err run_conflict
unfolding schedules
wrong_lease = refl

-- The run waits for an approval, goes on, and ends.
abbrev goes_on_calls : List Call
goes_on_calls =
    records_wait "r1" approval "a1" 2000 "lease-1" 1020
    ∷ finishes "r1" awaiting_confirmation 1021 none none (some "lease-1") false
    ∷ resumes "r1" "a1" awaiting_confirmation 1500 60 "lease-3"
    ∷ finishes "r1" succeeded 1510 none none (some "lease-3") true
    ∷ []

abbrev over : Store
unfolding schedules
over = perform_all zones digest goes_on_calls begun

abbrev ended_run : RunRow
ended_run = record (claimed_run "r1" "lease-1" "k" 1000 running 1010 60) {
  status = succeeded;
  finished_at = some 1510;
  wait_kind = some approval;
  wait_id = some "a1";
  wait_deadline = some 2000;
  lease_token = some "lease-3";
  lease_until = none;
}

run_ended : Dict.get "r1" over.runs ≡ some ended_run
unfolding schedules
run_ended = refl

abbrev notices : List Call
notices =
    claims_notice "r1" 1520 60 "n1"
    ∷ claims_notice "r1" 1521 60 "n2"
    ∷ expires 1522
    ∷ finishes "r1" failed 1523 none none none true
    ∷ records_notice "r1" delivered "n1" 1524
    ∷ claims_notice "r1" 1525 60 "n3"
    ∷ []

one_notice : sends_all zones digest "r1" notices over ≡ 1
unfolding schedules
one_notice = refl

perform-Change_example :
    Change begun.runs (perform zones digest (claims_due none 4610 60 60 "r2" "lease-2") begun).runs
perform-Change_example =
    perform-Change zones digest (claims_due none 4610 60 60 "r2" "lease-2") begun

no_rows-AtMostOneOpen : AtMostOneOpen no_rows.runs
unfolding Dict.get
no_rows-AtMostOneOpen i j q r e f t oq or = cc

perform_all-AtMostOneOpen_example : AtMostOneOpen (perform_all zones digest begins no_rows).runs
perform_all-AtMostOneOpen_example =
    perform_all-AtMostOneOpen zones digest begins no_rows no_rows-AtMostOneOpen

perform_all-once_example :
    (q : RunRow) × (Dict.get "r1" (perform_all zones digest notices over).runs ≡ some q)
    × (identity q ≡ identity ended_run)
    × (q.status ≡ ended_run.status)
    × (sends_all zones digest "r1" notices over ≤ 1)
perform_all-once_example = perform_all-once zones digest "r1" notices over ended_run refl run_ended

claim_due-IsOutcome_example :
    (t : Transaction (Option ScheduledRun)) × (claim_due zones none 4610 60 60 "r2" "lease-2" begun
      ≡ some t)
    × IsOutcome 4610 "r2" t
claim_due-IsOutcome_example = claim_due-IsOutcome zones none 4610 60 60 "r2" "lease-2" begun
