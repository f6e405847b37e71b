-- ===== src/Events/Job.antt =====
-- feishu/events/jobs.py: the record of an event in the inbox, and its states. Times and durations
-- are numbers of ticks of the clock.
use open_feishu.Common.{Outcome, ℕ, String, Bool, true, false, Option}

pub data EventJobStatus : Type 0 where
  queued running retry_wait completed failed unknown : EventJobStatus

pub record EventJob (P : Type 0) : Type 0 where
  pub job_id : String
  pub event_id : String
  pub payload : P
  pub partition_key : String
  pub status : EventJobStatus
  pub attempt : ℕ
  pub created_at : ℕ
  pub updated_at : ℕ
  pub available_at : ℕ
  pub worker_id : Option String
  pub lease_until : Option ℕ
  pub side_effect_started : Bool
  pub error_type : Option String
  pub lease_token : Option String
  pub private_message : Bool

-- `job.status is EventJobStatus.COMPLETED`, and so for the other states.
abbrev pub is_completed : EventJobStatus → Bool
is_completed completed = true
is_completed _ = false

abbrev pub is_running : EventJobStatus → Bool
is_running running = true
is_running _ = false

abbrev pub is_unknown : EventJobStatus → Bool
is_unknown unknown = true
is_unknown _ = false

abbrev pub is_failed : EventJobStatus → Bool
is_failed failed = true
is_failed _ = false

-- `job.status in (EventJobStatus.QUEUED, EventJobStatus.RETRY_WAIT)`.
abbrev pub is_waiting : EventJobStatus → Bool
is_waiting queued = true
is_waiting retry_wait = true
is_waiting _ = false

-- EventJobLeaseError, the other EventJobStoreErrors, and ValueError.
pub data JobError : Type 0 where
  lease_error store_error value_error : JobError

abbrev pub Result {ℓ} : Type ℓ → Type ℓ
Result A = Outcome JobError A

-- `_COMPLETED_TTL_SECONDS` and `_UNKNOWN_TTL_SECONDS`, in ticks, at `second` ticks to a second.
abbrev pub completed_ttl_seconds : ℕ
completed_ttl_seconds = 604800

abbrev pub unknown_ttl_seconds : ℕ
unknown_ttl_seconds = 2592000
