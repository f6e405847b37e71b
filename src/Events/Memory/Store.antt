-- ===== src/Events/Memory/Store.antt =====
-- feishu/events/jobs.py: the state of `InMemoryEventJobStore`, its sweeps, and `enqueue`.
use open_feishu.Common.{
  ℕ, ◌+◌, String, Bool, true, false, ◌&&◌, ◌||◌, none, some, [], ◌∷◌, leb, ltb, string_eq,
  if◌then◌else◌, ok, err,
}
use open_feishu.Dict
use open_feishu.Dict.{Dict}
use open_feishu.Events.Job.{
  EventJobStatus, EventJob, queued, retry_wait, failed, unknown, is_completed, is_running,
  is_unknown, Result, value_error, completed_ttl_seconds, unknown_ttl_seconds,
}

pub record Store (P : Type 0) : Type 0 where
  pub max_attempts : ℕ
  pub jobs : Dict String (EventJob P)

unfoldable pub init : {P : Type 0} → ℕ → Result (Store P)
init max_attempts =
    if ltb max_attempts 1
    then err value_error
    else ok (record { max_attempts = max_attempts; jobs = [] })

module _ {P : Type 0} where
  -- The test of `_purge`.
  unfoldable pub expired : ℕ → EventJob P → Bool
  expired now job =
      is_completed job.status && leb (job.updated_at + completed_ttl_seconds) now
      || is_unknown job.status && leb (job.updated_at + unknown_ttl_seconds) now

  -- `_purge`: the jobs that stay.
  unfoldable pub purge : ℕ → Dict String (EventJob P) → Dict String (EventJob P)
  purge now [] = []
  purge now ((k, job) ∷ d) =
      let rest = purge now d in if expired now job then rest else (k, job) ∷ rest

  -- The state of a failed attempt: another one, or none left.
  abbrev pub after_attempt : ℕ → EventJob P → EventJobStatus
  after_attempt max_attempts job = if ltb job.attempt max_attempts then retry_wait else failed

  abbrev pub lapsed : ℕ → EventJob P → Bool
  lapsed now job = elim job.lease_until [ none ↦ false | some t ↦ leb t now ]

  -- One round of `_recover_expired`.
  unfoldable pub recover : ℕ → ℕ → EventJob P → EventJob P
  recover max_attempts now job =
      if is_running job.status && lapsed now job
      then (if job.side_effect_started
          then record job {
            worker_id = none;
            lease_until = none;
            updated_at = now;
            status = unknown;
            error_type = some "LeaseExpiredAfterSideEffect";
          }
          else record job {
            worker_id = none;
            lease_until = none;
            updated_at = now;
            status = after_attempt max_attempts job;
            available_at = now;
            error_type = some "LeaseExpired";
          })
      else job

  unfoldable pub recover_expired : ℕ → ℕ → Dict String (EventJob P) → Dict String (EventJob P)
  recover_expired max_attempts now [] = []
  recover_expired max_attempts now ((k, job) ∷ d) =
      (k, recover max_attempts now job) ∷ recover_expired max_attempts now d

  abbrev pub new_job : String → P → String → ℕ → EventJob P
  new_job event_id payload partition_key created = record {
    job_id = event_id;
    event_id = event_id;
    payload = payload;
    partition_key = partition_key;
    status = queued;
    attempt = 0;
    created_at = created;
    updated_at = created;
    available_at = created;
    worker_id = none;
    lease_until = none;
    side_effect_started = false;
    error_type = none;
    lease_token = none;
    private_message = false;
  }

  unfoldable pub enqueue : String → P → String → ℕ → Store P → Store P × Bool
  enqueue event_id payload partition_key now s =
      let jobs = purge now s.jobs in
      if Dict.has event_id jobs then (record s { jobs = jobs }, false) else (
        record s { jobs = Dict.put event_id (new_job event_id payload partition_key now) jobs },
        true,
      )
