-- ===== src/Events/Runner/Settles.antt =====
-- What a run of a job leaves of it in the inbox.
use open_feishu.Common.{ℕ, ◌<◌, ◌≤◌, ◌≡◌, String, true, false, none, some, ◌⊎◌, ok, err, string_eq}
use open_feishu.Dict
use open_feishu.Dict.{Dict, beq_self, get-modify}
use open_feishu.Events.Job.{EventJob, retry_wait, completed, failed, unknown}
use open_feishu.Events.Memory.Store.{Store}
use open_feishu.Events.Runner.{Runner, Ending, returns, raises, is_cancelled, cancelled_error, Ran}
use open_feishu.Events.Runner.Holds.{Holds}

module _ {P : Type 0} where
  -- After a failure: unknown where an effect has begun; else it waits for another attempt, or it has
  -- had all of them.
  abbrev pub Failed : ℕ → ℕ → ℕ → String → EventJob P → Type 0
  Failed m n at_ error_type j =
      (j.worker_id ≡ none)
      × (j.error_type ≡ some error_type)
      × (((j.side_effect_started ≡ true) × (j.status ≡ unknown))
          ⊎ ((j.side_effect_started ≡ false)
              × (j.available_at ≡ at_)
              × (((n < m) × (j.status ≡ retry_wait)) ⊎ ((m ≤ n) × (j.status ≡ failed)))))

  -- What the job's record is in the end, and the answer.
  abbrev pub Settled : ℕ → ℕ → ℕ → Ending → EventJob P → Ran P → Type 0
  Settled m n at_ returns j r = (j.status ≡ completed) × (r.1 ≡ ok (some j))
  Settled m n at_ (raises error_type) j r = Failed m n at_ error_type j × (r.1 ≡ ok (some j))
  Settled m n at_ is_cancelled j r = Failed m n at_ "CancelledError" j × (r.1 ≡ err cancelled_error)
