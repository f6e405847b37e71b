-- ===== src/Agent/Schedules/Rows.antt =====
-- feishu/agent/scheduled.py: the tables of `ScheduledTaskStore`, each a dict from the primary key to
-- the row, and the values that `_task` and `_run` make of rows.
use open_feishu.Common.{
  ℕ, String, Bool, true, false, not, Option, none, some, List, Outcome, ltb, leb, ◌==◌, string_eq,
  nat_eq, if◌then◌else◌,
}
use open_feishu.Dict.{Dict}
use open_feishu.Agent.Schedules.Calendar.{Failure, Schedule, post_init}

-- The column `payload` of a draft, which is stored as JSON.
pub record Payload : Type 0 where
  pub owner_keys : List String
  pub tenant_key : String
  pub chat_id : String
  pub instruction : String
  pub schedule : Schedule
  pub policy : String
  pub timezone : String

pub record DraftRow : Type 0 where
  pub payload : Payload
  pub payload_hash : String
  pub expires_at : ℕ

pub record ScheduledDraft : Type 0 where
  pub draft_id : String
  pub payload_hash : String
  pub expires_at : ℕ

pub data TaskState : Type 0 where
  active paused completed deleted error : TaskState

pub record TaskRow : Type 0 where
  pub task_id : String
  pub tenant_key : String
  pub owner_keys : List String
  pub chat_id : String
  pub instruction : String
  pub schedule : Schedule
  pub policy : String
  pub timezone : String
  pub state : TaskState
  pub next_run_at : Option ℕ
  pub revision : ℕ
  pub created_at : ℕ
  pub updated_at : ℕ

pub record ScheduledTask : Type 0 where
  pub task_id : String
  pub tenant_key : String
  pub owner_keys : List String
  pub chat_id : String
  pub instruction : String
  pub schedule : Schedule
  pub policy : String
  pub timezone : String
  pub state : TaskState
  pub next_run_at : Option ℕ
  pub revision : ℕ

pub data RunStatus : Type 0 where
  running awaiting_authorization awaiting_confirmation unknown succeeded failed : RunStatus
  delivery_failed missed skipped_overlap : RunStatus

pub data DeliveryStatus : Type 0 where
  pending sending delivered delivery_unknown : DeliveryStatus

-- The texts "approval" and "authorization".
pub data WaitKind : Type 0 where
  approval authorization : WaitKind

pub record RunRow : Type 0 where
  pub run_id : String
  pub task_id : String
  pub scheduled_for : ℕ
  pub status : RunStatus
  pub session_id : String
  pub started_at : Option ℕ
  pub finished_at : Option ℕ
  pub summary : Option String
  pub delivery_status : DeliveryStatus
  pub delivery_deadline : Option ℕ
  pub delivery_token : Option String
  pub wait_kind : Option WaitKind
  pub wait_id : Option String
  pub wait_deadline : Option ℕ
  pub lease_token : Option String
  pub lease_until : Option ℕ

pub record ScheduledRun : Type 0 where
  pub run_id : String
  pub task_id : String
  pub scheduled_for : ℕ
  pub status : RunStatus
  pub session_id : String
  pub started_at : Option ℕ
  pub finished_at : Option ℕ
  pub summary : Option String
  pub delivery_status : DeliveryStatus
  pub delivery_deadline : Option ℕ
  pub wait_kind : Option WaitKind
  pub wait_id : Option String
  pub wait_deadline : Option ℕ
  pub lease_token : Option String
  pub lease_until : Option ℕ

pub record Reconciliation : Type 0 where
  pub tenant_key : String
  pub actor : String
  pub decision : String
  pub reason : String
  pub reconciled_at : ℕ

pub record Attempt : Type 0 where
  pub run_id : String
  pub status : DeliveryStatus
  pub started_at : ℕ
  pub finished_at : Option ℕ

pub record Store : Type 0 where
  pub drafts : Dict String DraftRow
  pub tasks : Dict String TaskRow
  pub runs : Dict String RunRow
  pub reconciliations : Dict String Reconciliation
  pub attempts : Dict String Attempt

-- A transaction: an exception rolls it back.
abbrev pub Transaction : Type 0 → Type 0
Transaction A = Outcome Failure (Store × A)

-- SQL's tests of a column that may be NULL.
abbrev pub is_after : Option ℕ → ℕ → Bool
is_after none now = false
is_after (some t) now = ltb now t

abbrev pub is_due : Option ℕ → ℕ → Bool
is_due none now = false
is_due (some t) now = leb t now

abbrev pub is_text : Option String → String → Bool
is_text none text = false
is_text (some s) text = s == text

-- `if token`, for a token that may be None or "".
abbrev pub is_given : Option String → Bool
is_given none = false
is_given (some s) = not (s == "")

abbrev pub is_running : RunStatus → Bool
is_running running = true
is_running _ = false

abbrev pub is_unknown : RunStatus → Bool
is_unknown unknown = true
is_unknown _ = false

-- `_ACTIVE_RUNS`
abbrev pub is_open : RunStatus → Bool
is_open running = true
is_open awaiting_authorization = true
is_open awaiting_confirmation = true
is_open unknown = true
is_open _ = false

-- `_FINAL_RUNS`
abbrev pub is_final : RunStatus → Bool
is_final running = false
is_final missed = false
is_final skipped_overlap = false
is_final _ = true

abbrev pub is_active : TaskState → Bool
is_active active = true
is_active _ = false

abbrev pub as_task : TaskRow → ScheduledTask
as_task row = record {
  task_id = row.task_id;
  tenant_key = row.tenant_key;
  owner_keys = row.owner_keys;
  chat_id = row.chat_id;
  instruction = row.instruction;
  schedule = row.schedule;
  policy = row.policy;
  timezone = row.timezone;
  state = row.state;
  next_run_at = row.next_run_at;
  revision = row.revision;
}

-- `_task`, with no value where `Schedule` refuses what is stored.
unfoldable pub task_of : TaskRow → Option ScheduledTask
task_of row = if post_init row.schedule then some (as_task row) else none

unfoldable pub run_of : RunRow → ScheduledRun
run_of row = record {
  run_id = row.run_id;
  task_id = row.task_id;
  scheduled_for = row.scheduled_for;
  status = row.status;
  session_id = row.session_id;
  started_at = row.started_at;
  finished_at = row.finished_at;
  summary = row.summary;
  delivery_status = row.delivery_status;
  delivery_deadline = row.delivery_deadline;
  wait_kind = row.wait_kind;
  wait_id = row.wait_id;
  wait_deadline = row.wait_deadline;
  lease_token = row.lease_token;
  lease_until = row.lease_until;
}
