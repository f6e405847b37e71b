-- ===== src/Events/Runner/Left.antt =====
-- How the calls that settle a job leave it, and whether an effect was announced.
use open_feishu.Common.{
  ℕ, ◌≡◌, refl, sym, ap, ◌∙◌, String, Bool, true, false, ◌||◌, ◌&&◌, Bool-cases, Option-cases, none,
  some, List, [], ◌∷◌, ok, ◌⊎◌, inl, inr, arith, string_eq, ltb,
}
use open_feishu.Dict
use open_feishu.Dict.{Dict}
use open_feishu.Events.Job.{EventJob, retry_wait, completed, failed, unknown, is_running}
use open_feishu.Events.Memory.Store.{Store, after_attempt}
use open_feishu.Events.Memory.Settle.{
  owner_is, owned, change, renew, finished, complete, put_back, retry, frozen, mark_unknown,
}
use open_feishu.Events.Runner.{
  Runner, Act, beats, marks, others, Ending, returns, Progress, perform, handle, Round,
}
use open_feishu.Events.Runner.Holds.{get-change}
use open_feishu.Events.Runner.Reaches.{Result-cases}

module _ {P : Type 0} where
  -- The handler calls `mark_side_effect_started`.
  abbrev pub has_marks : List (Act P) → Bool
  has_marks [] = false
  has_marks (marks ∷ acts) = true
  has_marks (beats now ∷ acts) = has_marks acts
  has_marks (others f ∷ acts) = has_marks acts

  -- How a job is left: nobody holds it, and it is completed where its handler returned, unknown where
  -- the handler had announced an effect, or put back where no effect had begun.
  abbrev pub Left : Ending → List (Act P) → EventJob P → Type 0
  Left ending acts j =
      (j.worker_id ≡ none)
      × (((j.status ≡ completed) × (ending ≡ returns))
          ⊎ ((j.status ≡ unknown) × (has_marks acts ≡ true))
          ⊎ (((j.status ≡ retry_wait) ⊎ (j.status ≡ failed)) × (j.side_effect_started ≡ false)))

  -- The jobs are those of the first rounds, in their order.
  abbrev pub AreLeft : List (Round P) → List (EventJob P) → Type 0
  AreLeft rounds [] = Unit
  AreLeft [] (j ∷ jobs) = false ≡ true
  AreLeft (r ∷ rounds) (j ∷ jobs) = Left r.ending r.acts j × AreLeft rounds jobs

  perform-started :
      (runner : Runner) (id : String) (a : Act P) (acts : List (Act P)) (p : Progress P)
      → ((perform runner id a p).started || has_marks acts) ≡ true
      → (p.started || has_marks (a ∷ acts)) ≡ true
  unfolding perform
  perform-started runner id marks acts p h = ground arith
  perform-started runner id (others f) acts p h = h
  perform-started runner id (beats now) acts p h =
      elim (Result-cases (renew id runner.worker_id now runner.lease_seconds p.store)) [
        | inl (s, e) ↦ rw e at h
        | inr (x, e) ↦ rw e at h
      ]

  pub handle-started :
      (runner : Runner) (id : String) (acts : List (Act P)) (p : Progress P)
      → (handle runner id acts p).started ≡ true
      → (p.started || has_marks acts) ≡ true
  unfolding handle
  handle-started runner id [] p h = ground (arith, h)
  handle-started runner id (a ∷ acts) p h = elim (Bool-cases p.lost) [
    | inl t ↦ let q : p.started ≡ true = simp t at h in rw q refl
    | inr t ↦
        perform-started runner id a acts p
          (handle-started runner id acts (perform runner id a p) (simp t at h))
  ]

  owned-ok :
      (id worker : String) (s : Store P) (j : EventJob P)
      → owned id worker s ≡ ok j
      → Dict.get id s.jobs ≡ some j
  unfolding owned
  owned-ok id worker s j h = elim (Option-cases (Dict.get id s.jobs)) [
    | inl e ↦ cc (rw (owned, e) at h)
    | inr (k, e) ↦
        let q = rw (owned, e) at h in
        elim (Bool-cases (is_running k.status && owner_is worker k)) [
          | inl t ↦ let same : k ≡ j = (let r = simp t at q in cc) in e ∙ ap some same
          | inr t ↦ let r = simp t at q in cc
        ]
  ]

  -- The record after a change of a job that is there.
  changed :
      (id worker : String) (f : EventJob P → EventJob P) (s : Store P) (k j : EventJob P)
      → owned id worker s ≡ ok k
      → Dict.get id (change id f s).jobs ≡ some j
      → f k ≡ j
  changed id worker f s k j o g =
      let q = sym (get-change id f s k (owned-ok id worker s k o)) ∙ g in cc

  module _ (worker id : String) (now : ℕ) (s s' : Store P) (j : EventJob P)
      (g : Dict.get id s'.jobs ≡ some j) where
    pub complete-Left :
        (acts : List (Act P)) → complete id worker now s ≡ ok s' → Left returns acts j
    unfolding complete finished
    complete-Left acts h = elim (Result-cases (owned id worker s)) [
      | inr (x, e) ↦ cc (rw e at h)
      | inl (k, e) ↦
          let same : change id (finished now) s ≡ s' = (let q = rw e at h in cc) in
          let became =
            changed id worker (finished now) s k j e
              (ap (λ (s : Store P). Dict.get id s.jobs) same ∙ g) in
          rw⁻¹ became (refl, inl (refl, refl))
    ]

    pub mark_unknown-Left :
        (error_type : String) (ending : Ending) (acts : List (Act P))
        → has_marks acts ≡ true
        → mark_unknown id worker error_type now s ≡ ok s'
        → Left ending acts j
    unfolding mark_unknown frozen
    mark_unknown-Left error_type ending acts m h = elim (Result-cases (owned id worker s)) [
      | inr (x, e) ↦ cc (rw e at h)
      | inl (k, e) ↦
          let same : change id (frozen error_type now) s ≡ s' = (let q = rw e at h in cc) in
          let became =
            changed id worker (frozen error_type now) s k j e
              (ap (λ (s : Store P). Dict.get id s.jobs) same ∙ g) in
          rw⁻¹ became (refl, inr (inl (refl, m)))
    ]

    after_attempt-cases :
        (m : ℕ) (k : EventJob P) → (after_attempt m k ≡ retry_wait) ⊎ (after_attempt m k ≡ failed)
    after_attempt-cases m k = elim (Bool-cases (ltb k.attempt m)) [
      | inl t ↦ inl (simp t)
      | inr t ↦ inr (simp t)
    ]

    pub retry-Left :
        (available_at : ℕ) (error_type : String) (ending : Ending) (acts : List (Act P))
        → retry id worker available_at error_type now s ≡ ok s'
        → Left ending acts j
    unfolding retry put_back
    retry-Left available_at error_type ending acts h = elim (Result-cases (owned id worker s)) [
      | inr (x, e) ↦ cc (rw e at h)
      | inl (k, e) ↦ elim (Bool-cases k.side_effect_started) [
        | inl t ↦ cc (simp t at (rw e at h))
        | inr t ↦
            let f = put_back s.max_attempts available_at error_type now in
            let same : change id f s ≡ s' = (let q = simp t at (rw e at h) in cc) in
            let became =
              changed id worker f s k j e (ap (λ (s : Store P). Dict.get id s.jobs) same ∙ g) in
            rw⁻¹ became (refl, inr (inr (after_attempt-cases s.max_attempts k, t)))
      ]
    ]
