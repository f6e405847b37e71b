-- ===== src/Events/Memory/Invariant/Settle.antt =====
-- What workers and operators do to one job keeps the invariant of the in-memory inbox.
use open_feishu.Common.{
  ℕ, ◌≡◌, String, Bool, true, false, some, subst, refl, arith, string_eq, eq_iff, Bool-cases,
  Option-cases, inl, inr, leb, ok, bind-ok, ok-injective,
}
use open_feishu.Dict
use open_feishu.Events.Job.{
  EventJobStatus, EventJob, is_completed, is_running, is_unknown, is_failed, queued, running,
  failed, unknown,
}
use open_feishu.Events.Memory.Store.{Store}
use open_feishu.Events.Memory.Settle.{
  owned, change, renewed, marked, finished, put_back, frozen, reconciled, renewed_budget, renew,
  mark_side_effect_started, complete, retry, mark_unknown, present, requeue_unknown, requeue_failed,
}
use open_feishu.Events.Memory.Invariant.{Phase, IsValid}
use open_feishu.Events.Memory.Invariant.Keep.{Eases, attempt-le, Phase-after_attempt}
use open_feishu.Events.Memory.Invariant.Preserve.{change-IsValid}

running-unresolved : (st : EventJobStatus) → is_running st ≡ true → is_completed st ≡ false
running-unresolved running h = refl
running-unresolved _ h = cc

module _ {P : Type 0} where
  -- A worker owns the running job that it has started.
  pub owned_lem :
      (id worker : String) (s : Store P) (j : EventJob P)
      → owned id worker s ≡ ok j
      → (Dict.get id s.jobs ≡ some j) × (is_running j.status ≡ true) × (j.worker_id ≡ some worker)
  unfolding owned
  owned_lem id worker s j h = elim (Option-cases (Dict.get id s.jobs)) [
    | inl e ↦ cc (rw (e, owned) at h)
    | inr (x, e) ↦ elim (Option-cases x.worker_id) [
      | inl n ↦ ground arith
      | inr (w, n) ↦ ground (arith, eq_iff w worker)
    ]
  ]

  pub present_lem :
      (test : EventJobStatus → Bool) (id : String) (s : Store P) (j : EventJob P)
      → present test id s ≡ ok j
      → (Dict.get id s.jobs ≡ some j) × (test j.status ≡ true)
  unfolding present
  present_lem test id s j h = ground arith

  -- A change of a job that its worker owns.
  owned-IsValid :
      (id worker : String) (f : EventJob P → EventJob P) (s : Store P) (j : EventJob P)
      → owned id worker s ≡ ok j
      → ((x : EventJob P) → (f x).job_id ≡ x.job_id)
      → (is_running j.status ≡ true
          → Phase s.max_attempts j.status j
          → Eases j (f j) × Phase s.max_attempts (f j).status (f j))
      → IsValid s
      → IsValid (change id f s)
  owned-IsValid id worker f s j o same keep v =
      let (g, r, w) = owned_lem id worker s j o in
      change-IsValid id f s same
        (λ x p q.
          let e : j ≡ x = cc (p, g) in
          subst
            (λ y.
              Phase s.max_attempts y.status y
              → Eases y (f y) × Phase s.max_attempts (f y).status (f y))
            e (keep r) q)
        v

  -- A running job that stays one keeps what its phase says.
  Phase-renewed :
      (now lease m : ℕ) (st : EventJobStatus) (j : EventJob P)
      → is_running st ≡ true
      → Phase m st j
      → Phase m st (renewed now lease j)
  unfolding renewed
  Phase-renewed now lease m running j r h = (h.0, h.1, h.2, λ e. cc)
  Phase-renewed now lease m _ j r h = cc

  Phase-marked :
      (m : ℕ) (st : EventJobStatus) (j : EventJob P)
      → is_running st ≡ true
      → Phase m st j
      → Phase m st (marked j)
  unfolding marked
  Phase-marked m running j r h = h
  Phase-marked m _ j r h = cc

  pub renew-IsValid :
      (id worker : String) (now lease : ℕ) (s s' : Store P)
      → renew id worker now lease s ≡ ok s'
      → IsValid s
      → IsValid s'
  unfolding renew renewed
  renew-IsValid id worker now lease s s' h v = elim (Bool-cases (leb lease 0)) [
    | inl e ↦ cc (rw e at h)
    | inr e ↦
        let (j, o, q) = bind-ok (owned id worker s) _ (rw e at h) in
        subst IsValid (ok-injective _ s' q) (
          owned-IsValid id worker (renewed now lease) s j o (λ x. refl)
            (λ r p. (
              record { partition = refl; ran = λ q. q; done = λ q. q },
              Phase-renewed now lease s.max_attempts j.status j r p,
            ))
            v)
  ]

  pub mark_side_effect_started-IsValid :
      (id worker : String) (s s' : Store P)
      → mark_side_effect_started id worker s ≡ ok s'
      → IsValid s
      → IsValid s'
  unfolding mark_side_effect_started marked
  mark_side_effect_started-IsValid id worker s s' h v =
      let (j, o, q) = bind-ok (owned id worker s) _ h in
      subst IsValid (ok-injective _ s' q) (
        owned-IsValid id worker marked s j o (λ x. refl)
          (λ r p. (
            record { partition = refl; ran = λ q. q; done = λ q. q },
            Phase-marked s.max_attempts j.status j r p,
          ))
          v)

  pub complete-IsValid :
      (id worker : String) (now : ℕ) (s s' : Store P)
      → complete id worker now s ≡ ok s'
      → IsValid s
      → IsValid s'
  unfolding complete finished
  complete-IsValid id worker now s s' h v =
      let (j, o, q) = bind-ok (owned id worker s) _ h in
      subst IsValid (ok-injective _ s' q) (
        owned-IsValid id worker (finished now) s j o (λ x. refl)
          (λ r p. (
            record { partition = refl; ran = λ q. r; done = λ q. cc },
            (attempt-le s.max_attempts j.status j r p, (refl, refl)),
          ))
          v)

  pub mark_unknown-IsValid :
      (id worker error_type : String) (now : ℕ) (s s' : Store P)
      → mark_unknown id worker error_type now s ≡ ok s'
      → IsValid s
      → IsValid s'
  unfolding mark_unknown frozen
  mark_unknown-IsValid id worker error_type now s s' h v =
      let (j, o, q) = bind-ok (owned id worker s) _ h in
      subst IsValid (ok-injective _ s' q) (
        owned-IsValid id worker (frozen error_type now) s j o (λ x. refl)
          (λ r p. (
            record { partition = refl; ran = λ q. r; done = λ q. running-unresolved j.status r },
            (attempt-le s.max_attempts j.status j r p, (refl, refl)),
          ))
          v)

  -- `retry` needs that no effect has begun.
  pub retry-IsValid :
      (id worker : String) (available_at : ℕ) (error_type : String) (now : ℕ) (s s' : Store P)
      → retry id worker available_at error_type now s ≡ ok s'
      → IsValid s
      → IsValid s'
  unfolding retry put_back
  retry-IsValid id worker available_at error_type now s s' h v =
      let (j, o, q) = bind-ok (owned id worker s) _ h in
      elim (Bool-cases j.side_effect_started) [
        | inl e ↦ cc (rw e at q)
        | inr e ↦ subst IsValid (ok-injective _ s' (rw e at q)) (
            owned-IsValid id worker (put_back s.max_attempts available_at error_type now) s j o
              (λ x. refl)
              (λ r p. (
                record {
                  partition = refl;
                  ran = λ q. r;
                  done = λ q. running-unresolved j.status r;
                },
                Phase-after_attempt s.max_attempts _ (attempt-le s.max_attempts j.status j r p) e
                    (refl, refl),
              ))
              v)
      ]

  Phase-reconciled :
      (now m : ℕ) (st : EventJobStatus) (j : EventJob P)
      → is_unknown st ≡ true
      → Phase m st j
      → Phase m queued (reconciled now j)
  unfolding reconciled
  Phase-reconciled now m unknown j u h = (refl, refl, h.1)
  Phase-reconciled now m _ j u h = cc

  Phase-renewed_budget :
      (now m : ℕ) (st : EventJobStatus) (j : EventJob P)
      → is_failed st ≡ true
      → Phase m st j
      → Phase m queued (renewed_budget now j)
  unfolding renewed_budget
  Phase-renewed_budget now m failed j u h = (refl, h.1, h.2)
  Phase-renewed_budget now m _ j u h = cc

  unknown-unresolved : (j : EventJob P) → is_unknown j.status ≡ true → is_completed j.status ≡ false
  unknown-unresolved j h = ground arith

  failed-unresolved : (j : EventJob P) → is_failed j.status ≡ true → is_completed j.status ≡ false
  failed-unresolved j h = ground arith

  pub requeue_unknown-IsValid :
      (id : String) (now : ℕ) (s s' : Store P)
      → requeue_unknown id now s ≡ ok s'
      → IsValid s
      → IsValid s'
  unfolding requeue_unknown reconciled
  requeue_unknown-IsValid id now s s' h v =
      let (j, o, q) = bind-ok (present is_unknown id s) _ h in
      let (g, u) = present_lem is_unknown id s j o in
      subst IsValid (ok-injective _ s' q) (
        change-IsValid id (reconciled now) s (λ x. refl)
          (λ x e p.
            let u' : is_unknown x.status ≡ true = (let w : x ≡ j = cc (e, g) in rw w u) in
            (
              record { partition = refl; ran = λ q. cc; done = λ q. unknown-unresolved x u' },
              Phase-reconciled now s.max_attempts x.status x u' p,
            ))
          v)

  pub requeue_failed-IsValid :
      (id : String) (now : ℕ) (s s' : Store P)
      → requeue_failed id now s ≡ ok s'
      → IsValid s
      → IsValid s'
  unfolding requeue_failed renewed_budget
  requeue_failed-IsValid id now s s' h v =
      let (j, o, q) = bind-ok (present is_failed id s) _ h in
      let (g, u) = present_lem is_failed id s j o in
      subst IsValid (ok-injective _ s' q) (
        change-IsValid id (renewed_budget now) s (λ x. refl)
          (λ x e p.
            let u' : is_failed x.status ≡ true = (let w : x ≡ j = cc (e, g) in rw w u) in
            (
              record { partition = refl; ran = λ q. cc; done = λ q. failed-unresolved x u' },
              Phase-renewed_budget now s.max_attempts x.status x u' p,
            ))
          v)
