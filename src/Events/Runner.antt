-- ===== src/Events/Runner.antt =====
-- feishu/events/job_runner.py: `EventJobRunner` over `InMemoryEventJobStore`.
pub mod Holds
pub mod Settles
pub mod Reaches
pub mod Left
pub mod Drains
pub mod Tests
use open_feishu.Common.{
  ℕ, zero, suc, ◌+◌, ◌*◌, ◌-◌, ◌^◌, min, String, Bool, true, false, ◌||◌, Option, none, some, List,
  [], ◌∷◌, ◌++◌, Outcome, ok, err, if◌then◌else◌, ◌==◌, string_eq,
}
use open_feishu.Dict
use open_feishu.Events.Job.{EventJob, JobError, value_error, Result}
use open_feishu.Events.Memory.Store.{Store}
use open_feishu.Events.Memory.Claim.{claim_next}
use open_feishu.Events.Memory.Settle.{
  renew, mark_side_effect_started, complete, retry, mark_unknown,
}
use open_feishu.Events.Memory.Wakeup.{get}

pub record Runner : Type 0 where
  pub worker_id : String
  pub lease_seconds : ℕ
  pub backoff_base_seconds : ℕ
  pub backoff_max_seconds : ℕ
  pub protected : Bool

-- What happens while the handler runs: a heartbeat at a time, `mark_side_effect_started` of the
-- handler's context, and what other tasks do to the store.
pub data Act (P : Type 0) : Type 0 where
  beats : ℕ → Act P
  marks : Act P
  others : (Store P → Store P) → Act P

-- How the handler ends.
pub data Ending : Type 0 where
  returns is_cancelled : Ending
  raises : String → Ending

-- The store, `context.side_effect_started`, and whether the heartbeat has failed.
pub record Progress (P : Type 0) : Type 0 where
  pub store : Store P
  pub started : Bool
  pub lost : Bool

pub data RunError : Type 0 where
  store_raises : JobError → RunError
  cancelled_error : RunError

unfoldable pub delay : Runner → ℕ → ℕ
delay runner attempt =
    min runner.backoff_max_seconds (runner.backoff_base_seconds * 2 ^ (attempt - 1))

-- What run_once leaves, and what it answers.
abbrev pub Ran : Type 0 → Type 0
Ran P = Store P × Outcome RunError (Option (EventJob P))

-- What a call of run_once meets.
pub record Round (P : Type 0) : Type 0 where
  pub current : ℕ
  pub acts : List (Act P)
  pub now : ℕ
  pub ending : Ending

abbrev pub Drained : Type 0 → Type 0
Drained P = Store P × Outcome RunError (List (EventJob P))

module _ {P : Type 0} where
  abbrev pub after_beat : Progress P → Result (Store P) → Progress P
  after_beat p (ok s) = record p { store = s }
  after_beat p (err e) = record p { lost = true }

  abbrev pub after_mark : Progress P → Result (Store P) → Progress P
  after_mark p (ok s) = record p { store = s; started = true }
  after_mark p (err e) = p

  unfoldable pub perform : Runner → String → Act P → Progress P → Progress P
  perform runner id (beats now) p =
      after_beat p (renew id runner.worker_id now runner.lease_seconds p.store)
  perform runner id marks p =
      if p.started then p else after_mark p (mark_side_effect_started id runner.worker_id p.store)
  perform runner id (others f) p = record p { store = f p.store }

  -- The handler is cancelled when the heartbeat fails.
  unfoldable pub handle : Runner → String → List (Act P) → Progress P → Progress P
  handle runner id [] p = p
  handle runner id (a ∷ acts) p =
      let rest = handle runner id acts (perform runner id a p) in if p.lost then p else rest

  -- `_settle_failure`.
  unfoldable pub settle_failure : Runner → EventJob P → String → ℕ → Progress P → Result (Store P)
  settle_failure runner job error_type now p =
      if p.started
      then mark_unknown job.job_id runner.worker_id error_type now p.store
      else retry job.job_id runner.worker_id (now + delay runner job.attempt) error_type now p.store

  abbrev pub answer : EventJob P → Store P → Result (Store P) → Ran P
  answer job s (ok s') = (s', ok (get job.job_id s'))
  answer job s (err e) = (s, err (store_raises e))

  abbrev pub answer_cancelled : Store P → Result (Store P) → Ran P
  answer_cancelled s (ok s') = (s', err cancelled_error)
  answer_cancelled s (err e) = (s, err (store_raises e))

  unfoldable pub conclude : Runner → EventJob P → ℕ → Ending → Progress P → Ran P
  conclude runner job now ending p =
      if p.lost
      then answer job p.store (settle_failure runner job "EventJobLeaseError" now p)
      else elim ending [
        | returns ↦ answer job p.store (complete job.job_id runner.worker_id now p.store)
        | raises error_type ↦ answer job p.store (settle_failure runner job error_type now p)
        | is_cancelled ↦ answer_cancelled p.store (settle_failure runner job "CancelledError" now p)
      ]

  -- What follows the claim. A protected job wants a store with fences, which this one has not.
  unfoldable pub process : Runner → List (Act P) → ℕ → Ending → EventJob P → Store P → Ran P
  process runner acts now ending job s =
      if runner.protected || job.private_message
      then (s, err (store_raises value_error))
      else conclude runner job now ending (
          handle runner job.job_id acts
            (record { store = s; started = job.side_effect_started; lost = false }))

  abbrev pub after_claim :
      Runner → List (Act P) → ℕ → Ending → Store P → Result (Store P × Option (EventJob P)) → Ran P
  after_claim runner acts now ending s (err e) = (s, err (store_raises e))
  after_claim runner acts now ending s (ok (s', none)) = (s', ok none)
  after_claim runner acts now ending s (ok (s', some job)) = process runner acts now ending job s'

  -- `current` is when the job is claimed, and `now` when it is settled.
  unfoldable pub run_once : Runner → ℕ → List (Act P) → ℕ → Ending → Store P → Ran P
  run_once runner current acts now ending s =
      after_claim runner acts now ending s
        (claim_next runner.worker_id current runner.lease_seconds 0 s)

  abbrev pub add : EventJob P → Drained P → Drained P
  add job (s, err e) = (s, err e)
  add job (s, ok jobs) = (s, ok (job ∷ jobs))

  -- The loop goes on after a job.
  abbrev pub go_on : (Store P → Drained P) → Ran P → Drained P
  go_on rest (s, err e) = (s, err e)
  go_on rest (s, ok none) = (s, ok [])
  go_on rest (s, ok (some job)) = add job (rest s)

  -- `drain`, over as many rounds as its limit.
  unfoldable pub drain : Runner → List (Round P) → Store P → Drained P
  drain runner [] s = (s, ok [])
  drain runner (r ∷ rs) s =
      go_on (drain runner rs) (run_once runner r.current r.acts r.now r.ending s)
