-- ===== src/Events/Memory/Settle.antt =====
-- feishu/events/jobs.py: what a worker and an operator do to a job of `InMemoryEventJobStore`.
use open_feishu.Common.{
  ℕ, ◌+◌, String, Bool, true, false, ◌&&◌, none, some, leb, ◌==◌, string_eq, if◌then◌else◌, ok,
  ◌>>=◌, err,
}
use open_feishu.Dict
use open_feishu.Dict.{Dict}
use open_feishu.Events.Job.{
  EventJobStatus, EventJob, queued, completed, unknown, is_running, is_unknown, is_failed, Result,
  lease_error, store_error, value_error,
}
use open_feishu.Events.Memory.Store.{Store, after_attempt}

module _ {P : Type 0} where
  abbrev pub owner_is : String → EventJob P → Bool
  owner_is worker job = elim job.worker_id [ none ↦ false | some w ↦ w == worker ]

  -- `_owned`.
  unfoldable pub owned : String → String → Store P → Result (EventJob P)
  owned id worker s = elim (Dict.get id s.jobs) [
    | none ↦ err lease_error
    | some job ↦ if is_running job.status && owner_is worker job then ok job else err lease_error
  ]

  abbrev pub change : String → (EventJob P → EventJob P) → Store P → Store P
  change id f s = record s { jobs = Dict.modify id f s.jobs }

  unfoldable pub renewed : ℕ → ℕ → EventJob P → EventJob P
  renewed now lease j = record j { lease_until = some (now + lease); updated_at = now }

  unfoldable pub renew : String → String → ℕ → ℕ → Store P → Result (Store P)
  renew id worker now lease s =
      if leb lease 0
      then err value_error
      else do _ ← owned id worker s; ok (change id (renewed now lease) s)

  unfoldable pub marked : EventJob P → EventJob P
  marked j = record j { side_effect_started = true }

  unfoldable pub mark_side_effect_started : String → String → Store P → Result (Store P)
  mark_side_effect_started id worker s = do _ ← owned id worker s; ok (change id marked s)

  unfoldable pub finished : ℕ → EventJob P → EventJob P
  finished now j = record j {
    status = completed;
    worker_id = none;
    lease_until = none;
    updated_at = now;
  }

  unfoldable pub complete : String → String → ℕ → Store P → Result (Store P)
  complete id worker now s = do _ ← owned id worker s; ok (change id (finished now) s)

  unfoldable pub put_back : ℕ → ℕ → String → ℕ → EventJob P → EventJob P
  put_back max_attempts available_at error_type now j = record j {
    status = after_attempt max_attempts j;
    available_at = available_at;
    worker_id = none;
    lease_until = none;
    updated_at = now;
    error_type = some error_type;
  }

  unfoldable pub retry : String → String → ℕ → String → ℕ → Store P → Result (Store P)
  retry id worker available_at error_type now s = do
    job ← owned id worker s
    if job.side_effect_started
        then err store_error
        else ok (change id (put_back s.max_attempts available_at error_type now) s)

  unfoldable pub frozen : String → ℕ → EventJob P → EventJob P
  frozen error_type now j = record j {
    status = unknown;
    worker_id = none;
    lease_until = none;
    updated_at = now;
    error_type = some error_type;
  }

  unfoldable pub mark_unknown : String → String → String → ℕ → Store P → Result (Store P)
  mark_unknown id worker error_type now s = do
    _ ← owned id worker s
    ok (change id (frozen error_type now) s)

  -- `job is None or job.status is not …` of the two requeue methods.
  unfoldable pub present : (EventJobStatus → Bool) → String → Store P → Result (EventJob P)
  present test id s = elim (Dict.get id s.jobs) [
    | none ↦ err store_error
    | some job ↦ if test job.status then ok job else err store_error
  ]

  unfoldable pub reconciled : ℕ → EventJob P → EventJob P
  reconciled now j = record j {
    status = queued;
    available_at = now;
    attempt = 0;
    side_effect_started = false;
    updated_at = now;
    error_type = none;
  }

  unfoldable pub requeue_unknown : String → ℕ → Store P → Result (Store P)
  requeue_unknown id now s = do _ ← present is_unknown id s; ok (change id (reconciled now) s)

  unfoldable pub renewed_budget : ℕ → EventJob P → EventJob P
  renewed_budget now j = record j {
    status = queued;
    attempt = 0;
    available_at = now;
    updated_at = now;
    error_type = none;
  }

  unfoldable pub requeue_failed : String → ℕ → Store P → Result (Store P)
  requeue_failed id now s = do _ ← present is_failed id s; ok (change id (renewed_budget now) s)
