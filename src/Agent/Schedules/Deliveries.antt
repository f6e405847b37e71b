-- ===== src/Agent/Schedules/Deliveries.antt =====
-- feishu/agent/scheduled.py: the notices about runs, in `ScheduledTaskStore`.
use open_feishu.Common.{
  ℕ, ◌+◌, String, Bool, true, false, ◌&&◌, not, Option, none, some, List, Outcome, ok, err, leb,
  ◌==◌, string_eq, nat_eq, if◌then◌else◌, map, take,
}
use open_feishu.Dict
use open_feishu.Dict.{Dict}
use open_feishu.Agent.Schedules.Calendar.{Failure, value_error}
use open_feishu.Agent.Schedules.Tables.{insert, update_where, update_key, meets_key, select}
use open_feishu.Agent.Schedules.Rows.{
  DeliveryStatus, pending, sending, delivered, delivery_unknown, RunRow, ScheduledRun, Attempt,
  Store, Transaction, is_due, is_text, is_running, run_of,
}
use open_feishu.Agent.Schedules.Runs.{is_sending, drop_attempts, order_by, read_back}

abbrev pub is_pending : DeliveryStatus → Bool
is_pending pending = true
is_pending _ = false

-- The run has a notice that no one has begun to send.
abbrev pub may_notify : RunRow → Bool
may_notify r = not (is_running r.status) && is_pending r.delivery_status

unfoldable pub sending_row : String → ℕ → RunRow → RunRow
sending_row token deadline r = record r {
  delivery_status = sending;
  delivery_deadline = some deadline;
  delivery_token = some token;
}

abbrev pub sent :
    String
    → ℕ
    → String
    → Store
    → Outcome Failure (Dict String Attempt)
    → Transaction (Option String)
sent id deadline token s (err e) = err e
sent id deadline token s (ok attempts) = ok (
  record s {
    runs = update_key id may_notify (sending_row token deadline) s.runs;
    attempts = attempts;
  },
  some token,
)

-- `token` is the new one.
unfoldable pub claim_delivery : String → ℕ → ℕ → String → Store → Transaction (Option String)
claim_delivery id now lease_seconds token s =
    if lease_seconds == 0
    then err value_error
    else if meets_key id may_notify s.runs
    then sent id (now + lease_seconds) token s (
        insert token
          (record { run_id = id; status = sending; started_at = now; finished_at = none })
          s.attempts)
    else ok (s, none)

-- A notice whose sending took too long.
abbrev pub is_stale : ℕ → RunRow → Bool
is_stale now r = is_sending r.delivery_status && is_due r.delivery_deadline now

unfoldable pub stale_row : RunRow → RunRow
stale_row r = record r { delivery_status = delivery_unknown }

unfoldable pub expire_deliveries : ℕ → Store → Store
expire_deliveries now s = record s {
  attempts = drop_attempts (is_stale now) now s.runs s.attempts;
  runs = update_where (is_stale now) stale_row s.runs;
}

abbrev pub is_outcome : DeliveryStatus → Bool
is_outcome delivered = true
is_outcome delivery_unknown = true
is_outcome _ = false

-- The run's notice is being sent under this token.
abbrev pub sends_under : String → RunRow → Bool
sends_under token r = is_sending r.delivery_status && is_text r.delivery_token token

unfoldable pub recorded_row : DeliveryStatus → RunRow → RunRow
recorded_row status r = record r {
  delivery_status = status;
  delivery_deadline = none;
  delivery_token = none;
}

unfoldable pub record_delivery :
    String → DeliveryStatus → String → ℕ → Store → Transaction ScheduledRun
record_delivery id status token now s =
    if not (is_outcome status)
    then err value_error
    else if meets_key id (sends_under token) s.runs
    then read_back id (record s {
      runs = update_key id (sends_under token) (recorded_row status) s.runs;
      attempts =
          Dict.modify token (λ a. record a { status = status; finished_at = some now }) s.attempts;
    })
    else err value_error

unfoldable pub pending_deliveries : ℕ → Store → Outcome Failure (List ScheduledRun)
pending_deliveries limit s =
    if leb 1 limit && leb limit 1024
    then ok (map run_of (take limit (order_by (λ r. r.scheduled_for) (select may_notify s.runs))))
    else err value_error
