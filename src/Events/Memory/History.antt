-- ===== src/Events/Memory/History.antt =====
-- The in-memory inbox over any sequence of calls: what holds in every state that it can reach.
use open_feishu.Common.{
  ℕ, ◌≡◌, String, true, false, Option, some, [], ◌∷◌, arith, ◌==◌, string_eq, eq_iff, Bool-cases,
  inl, inr, ok,
}
use open_feishu.Dict
use open_feishu.Dict.{Dict}
use open_feishu.Events.Job.{EventJob, is_completed, is_running}
use open_feishu.Events.Memory.Store.{Store, init, enqueue}
use open_feishu.Events.Memory.Claim.{claim_next}
use open_feishu.Events.Memory.Settle.{
  renew, mark_side_effect_started, complete, retry, mark_unknown, requeue_unknown, requeue_failed,
}
use open_feishu.Events.Memory.Invariant.{Phase, Quiet, Ordered, IsValid}
use open_feishu.Events.Memory.Invariant.Keep.{All-get}
use open_feishu.Events.Memory.Invariant.Claim.{first_unresolved}
use open_feishu.Events.Memory.Invariant.Preserve.{init-IsValid, enqueue-IsValid, claim_next-IsValid}
use open_feishu.Events.Memory.Invariant.Settle.{
  renew-IsValid, mark_side_effect_started-IsValid, complete-IsValid, retry-IsValid,
  mark_unknown-IsValid, requeue_unknown-IsValid, requeue_failed-IsValid,
}

-- A call that succeeds, with its arguments and its time. A call that raises changes nothing.
pub data Step {P : Type 0} (s s' : Store P) : Type 0 where
  enqueues :
      (id : String) (payload : P) (partition : String) (now : ℕ)
      → s' ≡ (enqueue id payload partition now s).0
      → Step s s'
  claims :
      (worker : String) (now lease tolerance : ℕ) (o : Option (EventJob P))
      → claim_next worker now lease tolerance s ≡ ok (s', o)
      → Step s s'
  renews : (id worker : String) (now lease : ℕ) → renew id worker now lease s ≡ ok s' → Step s s'
  marks : (id worker : String) → mark_side_effect_started id worker s ≡ ok s' → Step s s'
  completes : (id worker : String) (now : ℕ) → complete id worker now s ≡ ok s' → Step s s'
  retries :
      (id worker : String) (available_at : ℕ) (error_type : String) (now : ℕ)
      → retry id worker available_at error_type now s ≡ ok s'
      → Step s s'
  freezes :
      (id worker error_type : String) (now : ℕ)
      → mark_unknown id worker error_type now s ≡ ok s'
      → Step s s'
  reconciles : (id : String) (now : ℕ) → requeue_unknown id now s ≡ ok s' → Step s s'
  revives : (id : String) (now : ℕ) → requeue_failed id now s ≡ ok s' → Step s s'

-- The states of an inbox that was made with `max_attempts` attempts.
pub data Reach {P : Type 0} (m : ℕ) : Store P → Type 0 where
  made : {s : Store P} → init m ≡ ok s → Reach m s
  after : {s s' : Store P} → Reach m s → Step s s' → Reach m s'

module _ {P : Type 0} where
  Step-IsValid : (s s' : Store P) → Step s s' → IsValid s → IsValid s'
  Step-IsValid s s' (enqueues id payload partition now e) v =
      rw e (enqueue-IsValid id payload partition now s v)
  Step-IsValid s s' (claims worker now lease tolerance o e) v =
      claim_next-IsValid worker now lease tolerance s s' o e v
  Step-IsValid s s' (renews id worker now lease e) v = renew-IsValid id worker now lease s s' e v
  Step-IsValid s s' (marks id worker e) v = mark_side_effect_started-IsValid id worker s s' e v
  Step-IsValid s s' (completes id worker now e) v = complete-IsValid id worker now s s' e v
  Step-IsValid s s' (retries id worker a t now e) v = retry-IsValid id worker a t now s s' e v
  Step-IsValid s s' (freezes id worker t now e) v = mark_unknown-IsValid id worker t now s s' e v
  Step-IsValid s s' (reconciles id now e) v = requeue_unknown-IsValid id now s s' e v
  Step-IsValid s s' (revives id now e) v = requeue_failed-IsValid id now s s' e v

  pub Reach-IsValid : {m : ℕ} {s : Store P} → Reach m s → IsValid s
  Reach-IsValid (made {s = s} e) = init-IsValid _ s e
  Reach-IsValid (after {s = s} {s' = s'} r st) = Step-IsValid s s' st (Reach-IsValid r)

  Quiet-get :
      (p k : String) (d : Dict String (EventJob P)) (j : EventJob P)
      → Quiet p d
      → Dict.get k d ≡ some j
      → j.partition_key ≡ p
      → is_running j.status ≡ false
  Quiet-get p k d j q g = All-get (λ i. i.partition_key ≡ p → is_running i.status ≡ false) k j d q g

  running_first :
      (k : String) (d : Dict String (EventJob P)) (j : EventJob P)
      → Ordered d
      → Dict.get k d ≡ some j
      → is_running j.status ≡ true
      → first_unresolved j.partition_key d ≡ some j
  unfolding Dict.get first_unresolved
  running_first k [] j h g r = cc
  running_first k ((i, w) ∷ d) j h g r = elim (Bool-cases (i == k)) [
    | inl e ↦
        let same : w ≡ j = ground arith in
        rw same (ground (arith, eq_iff j.partition_key j.partition_key))
    | inr e ↦
        let g' : Dict.get k d ≡ some j = rw e at g in
        elim (Bool-cases (is_completed w.status)) [
          | inl c ↦ rw c (running_first k d j h.1 g' r)
          | inr c ↦ elim (Bool-cases (w.partition_key == j.partition_key)) [
            | inl q ↦
                let p : j.partition_key ≡ w.partition_key =
                  ground (arith, eq_iff w.partition_key j.partition_key) in
                cc (r, Quiet-get w.partition_key k d j (h.0 c) g' p)
            | inr q ↦ rw (c, q) (running_first k d j h.1 g' r)
          ]
        ]
  ]

  -- In every state that calls of the methods can reach, with any arguments and times, a running
  -- job is the first job of its partition that is not completed: the jobs of a partition run in the
  -- order in which they were received, one at a time, also across lapsed leases and retries.
  pub running-first_unresolved :
      {m : ℕ} {s : Store P} (k : String) (j : EventJob P)
      → Reach m s
      → Dict.get k s.jobs ≡ some j
      → is_running j.status ≡ true
      → first_unresolved j.partition_key s.jobs ≡ some j
  running-first_unresolved {s = s} k j r g = running_first k s.jobs j (Reach-IsValid r).ordered g

  -- In every state that calls of the methods can reach, a job whose external effect has begun is
  -- running, completed or unknown, so that only an operator's `requeue_unknown` makes it run again;
  -- a job has had as many attempts as allowed at most, a waiting one fewer, and a failed one all of
  -- them; and only a running job has a worker and a lease.
  pub Reach-Phase :
      {m : ℕ} {s : Store P} (k : String) (j : EventJob P)
      → Reach m s
      → Dict.get k s.jobs ≡ some j
      → Phase s.max_attempts j.status j
  Reach-Phase {s = s} k j r g =
      All-get (λ j. Phase s.max_attempts j.status j) k j s.jobs (Reach-IsValid r).phases g
