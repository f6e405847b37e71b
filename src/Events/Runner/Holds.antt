-- ===== src/Events/Runner/Holds.antt =====
-- While a handler runs its worker keeps the job, and the context knows whether an effect has begun.
use open_feishu.Common.{
  ℕ, ◌≡◌, refl, sym, ap, ◌∙◌, subst, String, true, false, Bool-cases, none, some, inl, inr, List,
  [], ◌∷◌, All, ok, ◌==◌, string_eq, leb,
}
use open_feishu.Dict
use open_feishu.Dict.{Dict, beq_self, get-modify}
use open_feishu.Events.Job.{EventJob, is_running}
use open_feishu.Events.Memory.Store.{Store}
use open_feishu.Events.Memory.Settle.{
  owner_is, owned, change, renewed, renew, marked, mark_side_effect_started,
}
use open_feishu.Events.Runner.{
  Runner, Act, beats, marks, others, Progress, perform, handle, after_beat, after_mark,
}

module _ {P : Type 0} where
  -- Other tasks leave the job as it is.
  abbrev pub Keeps : String → Act P → Type 0
  Keeps id (others f) =
      (s : Store P)
      → (Dict.get id (f s).jobs ≡ Dict.get id s.jobs) × ((f s).max_attempts ≡ s.max_attempts)
  Keeps id _ = Unit

  -- The worker has the job, and the context knows whether an effect has begun.
  pub record Holds (worker id : String) (m n : ℕ) (p : Progress P) : Type 0 where
    pub job : EventJob P
    pub stored : Dict.get id p.store.jobs ≡ some job
    pub runs : is_running job.status ≡ true
    pub owner : job.worker_id ≡ some worker
    pub attempts : job.attempt ≡ n
    pub flag : job.side_effect_started ≡ p.started
    pub limit : p.store.max_attempts ≡ m
    pub beating : p.lost ≡ false

  pub owned-held :
      (id worker : String) (s : Store P) (j : EventJob P)
      → Dict.get id s.jobs ≡ some j
      → is_running j.status ≡ true
      → j.worker_id ≡ some worker
      → owned id worker s ≡ ok j
  unfolding owned
  owned-held id worker s j g r o =
      let t : owner_is worker j ≡ true =
        ap (λ w. elim w [ none ↦ false | some v ↦ v == worker ]) o ∙ beq_self worker in
      rw (owned, g) (simp (r, t))

  pub get-change :
      (id : String) (f : EventJob P → EventJob P) (s : Store P) (j : EventJob P)
      → Dict.get id s.jobs ≡ some j
      → Dict.get id (change id f s).jobs ≡ some (f j)
  get-change id f s j g = get-modify id id f s.jobs ∙ simp (beq_self id, g)

  perform-Holds :
      (runner : Runner) (id : String) (m n : ℕ) (a : Act P) (p : Progress P)
      → leb runner.lease_seconds 0 ≡ false
      → Keeps id a
      → Holds runner.worker_id id m n p
      → Holds runner.worker_id id m n (perform runner id a p)
  unfolding perform renew mark_side_effect_started renewed marked
  perform-Holds runner id m n (beats now) p l k h =
      let e = owned-held id runner.worker_id p.store h.job h.stored h.runs h.owner in
      let r : renew id runner.worker_id now runner.lease_seconds p.store
          ≡ ok (change id (renewed now runner.lease_seconds) p.store) =
        rw (renew, e) (simp l) in
      subst (λ r. Holds runner.worker_id id m n (after_beat p r)) (sym r)
        (record {
          job = renewed now runner.lease_seconds h.job;
          stored = get-change id (renewed now runner.lease_seconds) p.store h.job h.stored;
          runs = h.runs;
          owner = h.owner;
          attempts = h.attempts;
          flag = h.flag;
          limit = h.limit;
          beating = h.beating;
        })
  perform-Holds runner id m n marks p l k h = elim (Bool-cases p.started) [
    | inl t ↦ simp t h
    | inr t ↦
        let e = owned-held id runner.worker_id p.store h.job h.stored h.runs h.owner in
        let r : mark_side_effect_started id runner.worker_id p.store
            ≡ ok (change id marked p.store) =
          rw (mark_side_effect_started, e) refl in
        simp t (
          subst (λ r. Holds runner.worker_id id m n (after_mark p r)) (sym r)
            (record {
              job = marked h.job;
              stored = get-change id marked p.store h.job h.stored;
              runs = h.runs;
              owner = h.owner;
              attempts = h.attempts;
              flag = refl;
              limit = h.limit;
              beating = h.beating;
            }))
  ]
  perform-Holds runner id m n (others f) p l k h = record {
    job = h.job;
    stored = (k p.store).0 ∙ h.stored;
    runs = h.runs;
    owner = h.owner;
    attempts = h.attempts;
    flag = h.flag;
    limit = (k p.store).1 ∙ h.limit;
    beating = h.beating;
  }

  pub handle-Holds :
      (runner : Runner) (id : String) (m n : ℕ) (acts : List (Act P)) (p : Progress P)
      → leb runner.lease_seconds 0 ≡ false
      → All (Keeps id) acts
      → Holds runner.worker_id id m n p
      → Holds runner.worker_id id m n (handle runner id acts p)
  unfolding handle
  handle-Holds runner id m n [] p l k h = h
  handle-Holds runner id m n (a ∷ acts) p l (k, ks) h =
      let rest = handle-Holds runner id m n acts _ l ks (perform-Holds runner id m n a p l k h) in
      simp h.beating rest
