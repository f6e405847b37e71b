-- ===== src/Events/Runner/Reaches.antt =====
-- Runs of jobs keep the inbox among the states that its calls reach, however they end.
use open_feishu.Common.{
  ℕ, ◌+◌, ◌≡◌, refl, String, ◌||◌, Bool-cases, none, some, List, [], ◌∷◌, All, ok, err, ◌⊎◌, inl,
  inr,
}
use open_feishu.Events.Job.{EventJob, Result, JobError}
use open_feishu.Events.Memory.Store.{Store}
use open_feishu.Events.Memory.Claim.{claim_next}
use open_feishu.Events.Memory.Settle.{renew, mark_side_effect_started}
use open_feishu.Events.Memory.History.{
  claims, renews, marks, completes, retries, freezes, Step, Reach, after,
}
use open_feishu.Events.Runner.{
  Runner, Act, beats, others, Ending, returns, raises, is_cancelled, Progress, perform, handle,
  delay, settle_failure, Ran, answer, answer_cancelled, conclude, process, run_once, Round, Drained,
  add, go_on, drain,
}

-- The inbox after some calls that succeed.
pub data Steps {P : Type 0} (s : Store P) : Store P → Type 0 where
  stays : Steps s s
  goes_on : {u v : Store P} → Steps s u → Step u v → Steps s v

Steps-Reach : {P : Type 0} {m : ℕ} {s v : Store P} → Reach m s → Steps s v → Reach m v
Steps-Reach r stays = r
Steps-Reach r (goes_on calls st) = after (Steps-Reach r calls) st

-- Other tasks call the methods of the inbox.
abbrev pub Calls : {P : Type 0} → Act P → Type 0
Calls (others f) = (s : Store _) → Steps s (f s)
Calls _ = Unit

pub Result-cases :
    {A : Type 0} (r : Result A) → ((a : A) × (r ≡ ok a)) ⊎ ((e : JobError) × (r ≡ err e))
Result-cases (ok a) = inl (a, refl)
Result-cases (err e) = inr (e, refl)

-- A call that settles is a step.
abbrev Settles : {P : Type 0} → ℕ → Result (Store P) → Type 0
Settles m r = (s' : Store _) → r ≡ ok s' → Reach m s'

module _ {P : Type 0} {m : ℕ} where
  perform-Reach :
      (runner : Runner) (id : String) (a : Act P) (p : Progress P)
      → Calls a
      → Reach m p.store
      → Reach m (perform runner id a p).store
  unfolding perform
  perform-Reach runner id (beats now) p c h =
      elim (Result-cases (renew id runner.worker_id now runner.lease_seconds p.store)) [
        | inl (s, e) ↦ rw e (after h (renews id runner.worker_id now runner.lease_seconds e))
        | inr (x, e) ↦ rw e h
      ]
  perform-Reach runner id Act.marks p c h = elim (Bool-cases p.started) [
    | inl t ↦ simp t h
    | inr t ↦ simp t (elim (Result-cases (mark_side_effect_started id runner.worker_id p.store)) [
      | inl (s, e) ↦ rw e (after h (marks id runner.worker_id e))
      | inr (x, e) ↦ rw e h
    ])
  ]
  perform-Reach runner id (others f) p c h = Steps-Reach h (c p.store)

  handle-Reach :
      (runner : Runner) (id : String) (acts : List (Act P)) (p : Progress P)
      → All Calls acts
      → Reach m p.store
      → Reach m (handle runner id acts p).store
  unfolding handle
  handle-Reach runner id [] p c h = h
  handle-Reach runner id (a ∷ acts) p (c, cs) h = elim (Bool-cases p.lost) [
    | inl t ↦ simp t h
    | inr t ↦ simp t (handle-Reach runner id acts _ cs (perform-Reach runner id a p c h))
  ]

  settle_failure-Settles :
      (runner : Runner) (job : EventJob P) (error_type : String) (now : ℕ) (p : Progress P)
      → Reach m p.store
      → Settles m (settle_failure runner job error_type now p)
  unfolding settle_failure
  settle_failure-Settles runner job error_type now p h s' e = elim (Bool-cases p.started) [
    | inl t ↦ after h (freezes job.job_id runner.worker_id error_type now (simp t at e))
    | inr t ↦ after h (
        retries job.job_id runner.worker_id (now + delay runner job.attempt) error_type now
          (simp t at e))
  ]

  answer-Reach :
      (job : EventJob P) (s : Store P) (r : Result (Store P))
      → Reach m s
      → Settles m r
      → Reach m (answer job s r).0
  answer-Reach job s (ok s') h c = c s' refl
  answer-Reach job s (err e) h c = h

  answer_cancelled-Reach :
      (s : Store P) (r : Result (Store P))
      → Reach m s
      → Settles m r
      → Reach m (answer_cancelled s r).0
  answer_cancelled-Reach s (ok s') h c = c s' refl
  answer_cancelled-Reach s (err e) h c = h

  conclude-Reach :
      (runner : Runner) (job : EventJob P) (now : ℕ) (ending : Ending) (p : Progress P)
      → Reach m p.store
      → Reach m (conclude runner job now ending p).0
  unfolding conclude
  conclude-Reach runner job now ending p h = elim (Bool-cases p.lost) [
    | inl t ↦ simp t (
        answer-Reach job p.store _ h
          (settle_failure-Settles runner job "EventJobLeaseError" now p h))
    | inr t ↦ elim ending as (λ ending. Reach m (conclude runner job now ending p).0) [
      | returns ↦ simp t (
          answer-Reach job p.store _ h
            (λ s' e. after h (completes job.job_id runner.worker_id now e)))
      | raises x ↦
          simp t (answer-Reach job p.store _ h (settle_failure-Settles runner job x now p h))
      | is_cancelled ↦ simp t (
          answer_cancelled-Reach p.store _ h
            (settle_failure-Settles runner job "CancelledError" now p h))
    ]
  ]

  pub run_once-Reach :
      (runner : Runner) (current now : ℕ) (acts : List (Act P)) (ending : Ending) (s : Store P)
      → All Calls acts
      → Reach m s
      → Reach m (run_once runner current acts now ending s).0
  unfolding run_once process
  run_once-Reach runner current now acts ending s c h =
      elim (Result-cases (claim_next runner.worker_id current runner.lease_seconds 0 s)) [
        | inr (x, e) ↦ rw (run_once, e) h
        | inl ((s', none), e) ↦
            rw (run_once, e)
              (after h (claims runner.worker_id current runner.lease_seconds 0 none e))
        | inl ((s', some job), e) ↦
            let h' =
              after h (claims runner.worker_id current runner.lease_seconds 0 (some job) e) in
            rw (run_once, e)
              (elim (Bool-cases (runner.protected || job.private_message)) [
                | inl t ↦ simp t h'
                | inr t ↦ simp t (
                    conclude-Reach runner job now ending _
                      (handle-Reach runner job.job_id acts _ c h'))
              ])
      ]

  add-Reach : (job : EventJob P) (r : Drained P) → Reach m r.0 → Reach m (add job r).0
  add-Reach job (s, ok jobs) h = h
  add-Reach job (s, err e) h = h

  go_on-Reach :
      (rest : Store P → Drained P) (r : Ran P)
      → ((s : Store P) → Reach m s → Reach m (rest s).0)
      → Reach m r.0
      → Reach m (go_on rest r).0
  go_on-Reach rest (s, err e) k h = h
  go_on-Reach rest (s, ok none) k h = h
  go_on-Reach rest (s, ok (some job)) k h = add-Reach job (rest s) (k s h)

  -- Also where `drain` raises.
  pub drain-Reach :
      (runner : Runner) (rounds : List (Round P)) (s : Store P)
      → All (λ (r : Round P). All Calls r.acts) rounds
      → Reach m s
      → Reach m (drain runner rounds s).0
  unfolding drain
  drain-Reach runner [] s c h = h
  drain-Reach runner (r ∷ rs) s (c, cs) h =
      go_on-Reach (drain runner rs) _ (λ s h. drain-Reach runner rs s cs h)
        (run_once-Reach runner r.current r.now r.acts r.ending s c h)
