-- ===== src/Events/Memory/Wakeup.antt =====
-- feishu/events/jobs.py: the reads of `InMemoryEventJobStore`.
use open_feishu.Common.{ℕ, String, Option, none, some, List, [], ◌∷◌, leb, string_eq, if◌then◌else◌}
use open_feishu.Dict
use open_feishu.Dict.{Dict}
use open_feishu.Events.Job.{EventJob, is_running, is_waiting}
use open_feishu.Events.Memory.Store.{Store}
use open_feishu.Events.Memory.Claim.{collect_unresolved}

unfoldable pub least : List ℕ → Option ℕ
least [] = none
least (t ∷ ts) = elim (least ts) [ none ↦ some t | some u ↦ some (if leb t u then t else u) ]

module _ {P : Type 0} where
  -- The times of the loop of `next_wakeup`.
  unfoldable pub wakeup_times : Dict String (EventJob P) → List ℕ
  wakeup_times [] = []
  wakeup_times ((k, job) ∷ d) =
      let rest = wakeup_times d in
      if is_waiting job.status
      then job.available_at ∷ rest
      else if is_running job.status
      then elim job.lease_until [ none ↦ rest | some t ↦ t ∷ rest ]
      else rest

  unfoldable pub next_wakeup : Store P → Option ℕ
  next_wakeup s = least (wakeup_times (collect_unresolved [] s.jobs))

  unfoldable pub get : String → Store P → Option (EventJob P)
  get id s = Dict.get id s.jobs
