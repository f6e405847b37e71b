-- ===== src/Events/Memory/Claim.antt =====
-- feishu/events/jobs.py: `claim_next` of `InMemoryEventJobStore`.
use open_feishu.Common.{
  ℕ, ◌+◌, String, Bool, false, ◌&&◌, Option, none, some, List, [], ◌∷◌, leb, ◌==◌, string_eq,
  if◌then◌else◌, ok, err,
}
use open_feishu.Dict
use open_feishu.Dict.{Dict}
use open_feishu.Events.Job.{EventJob, running, is_completed, is_waiting, Result, value_error}
use open_feishu.Events.Memory.Store.{Store, purge, recover_expired}

module _ {P : Type 0} where
  -- The loop that fills `first_unresolved`.
  unfoldable pub collect_unresolved :
      Dict String (EventJob P) → Dict String (EventJob P) → Dict String (EventJob P)
  collect_unresolved first [] = first
  collect_unresolved first ((k, job) ∷ d) =
      collect_unresolved
        (if is_completed job.status then first else Dict.setdefault job.partition_key job first) d

  unfoldable pub is_first : Dict String (EventJob P) → EventJob P → Bool
  is_first first job = elim (Dict.get job.partition_key first) [
    | none ↦ false
    | some f ↦ f.job_id == job.job_id
  ]

  -- The test of the list `candidates`.
  unfoldable pub eligible : Dict String (EventJob P) → ℕ → EventJob P → Bool
  eligible first horizon job =
      is_waiting job.status && (leb job.available_at horizon && is_first first job)

  unfoldable pub candidates :
      Dict String (EventJob P) → ℕ → Dict String (EventJob P) → List (String × EventJob P)
  candidates first horizon [] = []
  candidates first horizon ((k, job) ∷ d) =
      let rest = candidates first horizon d in
      if eligible first horizon job then (k, job) ∷ rest else rest

  unfoldable pub start : String → ℕ → ℕ → EventJob P → EventJob P
  start worker now lease job = record job {
    status = running;
    attempt = job.attempt + 1;
    worker_id = some worker;
    lease_until = some (now + lease);
    updated_at = now;
    error_type = none;
  }

  -- The store after the sweeps with which `claim_next` begins.
  unfoldable pub sweep : ℕ → Store P → Dict String (EventJob P)
  sweep now s = recover_expired s.max_attempts now (purge now s.jobs)

  unfoldable pub choose :
      String
      → ℕ
      → ℕ
      → Dict String (EventJob P)
      → List (String × EventJob P)
      → Dict String (EventJob P) × Option (EventJob P)
  choose worker now lease jobs [] = (jobs, none)
  choose worker now lease jobs ((k, job) ∷ _) =
      (Dict.modify k (start worker now lease) jobs, some (start worker now lease job))

  unfoldable pub claim_next : String → ℕ → ℕ → ℕ → Store P → Result (Store P × Option (EventJob P))
  claim_next worker now lease tolerance s =
      if worker == ""
      then err value_error
      else if leb lease 0
      then err value_error
      else let jobs = sweep now s in
        let picked =
          choose worker now lease jobs
            (candidates (collect_unresolved [] jobs) (now + tolerance) jobs) in
        ok (record s { jobs = picked.0 }, picked.1)
