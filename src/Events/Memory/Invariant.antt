-- ===== src/Events/Memory/Invariant.antt =====
-- The well-formedness of the in-memory inbox: what holds of a job in each state, of the keys, and
-- of the order of the jobs in a partition.
pub mod Keep
pub mod Sweep
pub mod Claim
pub mod Preserve
pub mod Settle
use open_feishu.Common.{
  ℕ, ◌+◌, ◌≤◌, ◌<◌, ◌≡◌, ◌≢◌, String, Bool, true, false, Option, none, some, [], ◌∷◌, All, refl,
  arith,
}
use open_feishu.Dict.{Dict}
use open_feishu.Events.Job.{
  EventJobStatus, EventJob, queued, running, retry_wait, completed, failed, unknown, is_completed,
  is_running,
}
use open_feishu.Events.Memory.Store.{Store}

module _ {P : Type 0} where
  -- Nobody holds the job.
  abbrev pub IsFree : EventJob P → Type 0
  IsFree j = (j.worker_id ≡ none) × (j.lease_until ≡ none)

  -- What holds of a job in each state. Only a running job is held; only a job whose effect has not
  -- begun waits or has failed; a waiting job has an attempt left, and a failed one has none.
  abbrev pub Phase : ℕ → EventJobStatus → EventJob P → Type 0
  Phase m queued j = (j.attempt ≡ 0) × (j.side_effect_started ≡ false) × IsFree j
  Phase m running j =
      (1 ≤ j.attempt) × (j.attempt ≤ m) × (j.worker_id ≢ none) × (j.lease_until ≢ none)
  Phase m retry_wait j = (j.attempt < m) × (j.side_effect_started ≡ false) × IsFree j
  Phase m failed j = (j.attempt ≡ m) × (j.side_effect_started ≡ false) × IsFree j
  Phase m completed j = (j.attempt ≤ m) × IsFree j
  Phase m unknown j = (j.attempt ≤ m) × IsFree j

  -- Keys are the jobs' identifiers, and no key stands twice.
  abbrev pub Fresh : String → Dict String (EventJob P) → Type 0
  Fresh k d = All (λ e. e.0 ≢ k) d

  abbrev pub Keyed : Dict String (EventJob P) → Type 0
  Keyed [] = Unit
  Keyed ((k, j) ∷ d) = (j.job_id ≡ k) × Fresh k d × Keyed d

  -- No job of the partition runs.
  abbrev pub Quiet : String → Dict String (EventJob P) → Type 0
  Quiet p d = All (λ e. e.1.partition_key ≡ p → is_running e.1.status ≡ false) d

  -- Behind an unresolved job no job of its partition runs.
  abbrev pub Ordered : Dict String (EventJob P) → Type 0
  Ordered [] = Unit
  Ordered ((k, j) ∷ d) = (is_completed j.status ≡ false → Quiet j.partition_key d) × Ordered d

  abbrev pub Phases : ℕ → Dict String (EventJob P) → Type 0
  Phases m d = All (λ e. Phase m e.1.status e.1) d

pub record IsValid {P : Type 0} (s : Store P) : Type 0 where
  pub positive : 1 ≤ s.max_attempts
  pub keyed : Keyed s.jobs
  pub phases : Phases s.max_attempts s.jobs
  pub ordered : Ordered s.jobs
