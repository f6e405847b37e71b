-- ===== src/Events/Memory/Invariant/Preserve.antt =====
-- Every method of the in-memory inbox keeps the invariant.
use open_feishu.Common.{
  ℕ, ◌+◌, ◌≤◌, ◌≡◌, ◌≢◌, String, true, false, Option, some, List, [], ◌∷◌, All, subst, refl, sym,
  ◌∙◌, arith, ◌==◌, string_eq, eq_iff, Bool-cases, inl, inr, leb, ok, ok_fst,
}
use open_feishu.Dict
use open_feishu.Dict.{Dict}
use open_feishu.Events.Job.{
  EventJobStatus, EventJob, is_running, is_waiting, queued, running, retry_wait,
}
use open_feishu.Events.Memory.Store.{Store, init, purge, enqueue}
use open_feishu.Events.Memory.Claim.{
  collect_unresolved, candidates, start, sweep, choose, claim_next,
}
use open_feishu.Events.Memory.Settle.{change}
use open_feishu.Events.Memory.Invariant.{Phase, Fresh, Keyed, Ordered, IsValid}
use open_feishu.Events.Memory.Invariant.Keep.{
  Eases, All-modify, Keyed-modify, Ordered-modify, All-get,
}
use open_feishu.Events.Memory.Invariant.Sweep.{
  Keyed-purge, Ordered-purge, Phases-purge, Keyed-recover_expired, Ordered-recover_expired,
  Phases-recover_expired,
}
use open_feishu.Events.Memory.Invariant.Claim.{
  first_of_eligible, Keyed-get, candidates-cons, Ordered-start,
}

-- A new inbox is empty, and is refused where no attempt is allowed.
pub init-IsValid : {P : Type 0} (m : ℕ) (s : Store P) → init m ≡ ok s → IsValid s
unfolding init
init-IsValid m s h =
    let e : s.jobs ≡ [] = ground arith in
    record { positive = ground arith; keyed = rw e tt; phases = rw e tt; ordered = rw e tt }

module _ {P : Type 0} where
  Fresh-put :
      (i k : String) (v : EventJob P) (d : Dict String (EventJob P))
      → i ≢ k
      → Fresh i d
      → Fresh i (Dict.put k v d)
  unfolding Dict.put
  Fresh-put i k v [] n h = ((λ e. n (sym e)), tt)
  Fresh-put i k v ((x, j) ∷ d) n h = elim (Bool-cases (x == k)) [
    | inl e ↦ rw e h
    | inr e ↦ rw e (h.0, Fresh-put i k v d n h.1)
  ]

  Keyed-put :
      (k : String) (v : EventJob P) (d : Dict String (EventJob P))
      → Dict.has k d ≡ false
      → v.job_id ≡ k
      → Keyed d
      → Keyed (Dict.put k v d)
  unfolding Dict.has Dict.put
  Keyed-put k v [] n e h = (e, tt, tt)
  Keyed-put k v ((x, j) ∷ d) n e h = elim (Bool-cases (x == k)) [
    | inl t ↦ cc (rw t at n)
    | inr t ↦
        rw t (
          h.0,
          Fresh-put x k v d (ground (arith, eq_iff x k)) h.1,
          Keyed-put k v d (rw t at n) e h.2,
        )
  ]

  All-put {κ} :
      (Q : EventJob P → Type κ) (k : String) (v : EventJob P) (d : Dict String (EventJob P))
      → Q v
      → All (λ e. Q e.1) d
      → All (λ e. Q e.1) (Dict.put k v d)
  unfolding Dict.put
  All-put Q k v [] q h = (q, tt)
  All-put Q k v ((x, j) ∷ d) q h = elim (Bool-cases (x == k)) [
    | inl t ↦ rw t (q, h.1)
    | inr t ↦ rw t (h.0, All-put Q k v d q h.1)
  ]

  Ordered-put :
      (k : String) (v : EventJob P) (d : Dict String (EventJob P))
      → Dict.has k d ≡ false
      → is_running v.status ≡ false
      → Ordered d
      → Ordered (Dict.put k v d)
  unfolding Dict.has Dict.put
  Ordered-put k v [] n r h = (λ u. tt, tt)
  Ordered-put k v ((x, j) ∷ d) n r h = elim (Bool-cases (x == k)) [
    | inl t ↦ cc (rw t at n)
    | inr t ↦ rw t (
      λ u.
          All-put (λ i. i.partition_key ≡ j.partition_key → is_running i.status ≡ false) k v d
            (λ e. r) (h.0 u),
      Ordered-put k v d (rw t at n) r h.1,
    )
  ]

  purged-IsValid :
      (now : ℕ) (s : Store P) → IsValid s → IsValid (record s { jobs = purge now s.jobs })
  purged-IsValid now s v = record {
    positive = v.positive;
    keyed = Keyed-purge now s.jobs v.keyed;
    phases = Phases-purge now s.max_attempts s.jobs v.phases;
    ordered = Ordered-purge now s.jobs v.ordered;
  }

  pub enqueue-IsValid :
      (id : String) (payload : P) (partition : String) (now : ℕ) (s : Store P)
      → IsValid s
      → IsValid (enqueue id payload partition now s).0
  unfolding enqueue
  enqueue-IsValid id payload partition now s v =
      let u = purged-IsValid now s v in
      elim (Bool-cases (Dict.has id (purge now s.jobs))) [
        | inl e ↦ rw e u
        | inr e ↦ rw e (record {
          positive = v.positive;
          keyed = Keyed-put id _ (purge now s.jobs) e refl u.keyed;
          phases =
              All-put (λ j. Phase s.max_attempts j.status j) id _ (purge now s.jobs)
                (refl, refl, (refl, refl)) u.phases;
          ordered = Ordered-put id _ (purge now s.jobs) e refl u.ordered;
        })
      ]

  pub sweep-IsValid :
      (now : ℕ) (s : Store P) → IsValid s → IsValid (record s { jobs = sweep now s })
  unfolding sweep
  sweep-IsValid now s v =
      let u = purged-IsValid now s v in
      record {
        positive = v.positive;
        keyed = Keyed-recover_expired now s.max_attempts (purge now s.jobs) u.keyed;
        phases = Phases-recover_expired now s.max_attempts (purge now s.jobs) u.phases;
        ordered = Ordered-recover_expired now s.max_attempts (purge now s.jobs) u.ordered;
      }

  -- A waiting job that is started has had an attempt more, and is held.
  start-Phase :
      (worker : String) (now lease m : ℕ) (st : EventJobStatus) (j : EventJob P)
      → 1 ≤ m
      → is_waiting st ≡ true
      → Phase m st j
      → Phase m running (start worker now lease j)
  unfolding start
  start-Phase worker now lease m queued j p w h = (omega arith, omega (arith), λ e. cc, λ e. cc)
  start-Phase worker now lease m retry_wait j p w h = (omega arith, omega (arith), λ e. cc, λ e. cc)
  start-Phase worker now lease m _ j p w h = cc

  choose-IsValid :
      (worker : String) (now lease horizon : ℕ) (s : Store P) (c : List (String × EventJob P))
      → candidates (collect_unresolved [] s.jobs) horizon s.jobs ≡ c
      → IsValid s
      → IsValid (record s { jobs = (choose worker now lease s.jobs c).0 })
  unfolding choose
  choose-IsValid worker now lease horizon s [] e v = v
  choose-IsValid worker now lease horizon s ((k, j) ∷ rest) e v =
      let (t, g) = candidates-cons _ horizon s.jobs k j rest v.keyed e in
      let (w, a, (f, u, i)) = first_of_eligible s.jobs horizon j t in
      let id : j.job_id ≡ k = Keyed-get k s.jobs j v.keyed g in
      record {
        positive = v.positive;
        keyed = Keyed-modify k (start worker now lease) s.jobs (λ x. unfold start in refl) v.keyed;
        phases =
            All-modify (λ x. Phase s.max_attempts x.status x) k (start worker now lease) s.jobs
              (λ x p q.
                unfold start in
                start-Phase worker now lease s.max_attempts x.status x v.positive
                  (let same : x ≡ j = cc (p, g) in rw same w) q)
              v.phases;
        ordered = Ordered-start worker now lease k s.jobs j f v.keyed v.ordered g w u (i ∙ id);
      }

  pub claim_next-IsValid :
      (worker : String) (now lease tolerance : ℕ) (s s' : Store P) (o : Option (EventJob P))
      → claim_next worker now lease tolerance s ≡ ok (s', o)
      → IsValid s
      → IsValid s'
  unfolding claim_next
  claim_next-IsValid worker now lease tolerance s s' o h v = elim (Bool-cases (worker == "")) [
    | inl e ↦ cc (rw e at h)
    | inr e ↦ elim (Bool-cases (leb lease 0)) [
      | inl f ↦ cc (rw (e, f) at h)
      | inr f ↦
          let u =
            choose-IsValid worker now lease (now + tolerance) _ _ refl (sweep-IsValid now s v) in
          subst IsValid (ok_fst _ s' _ o (rw (e, f) at h)) u
    ]
  ]

  -- A change of one job that leaves its identifier, does not harm the order and has a phase again.
  pub change-IsValid :
      (id : String) (f : EventJob P → EventJob P) (s : Store P)
      → ((j : EventJob P) → (f j).job_id ≡ j.job_id)
      → ((j : EventJob P)
          → Dict.get id s.jobs ≡ some j
          → Phase s.max_attempts j.status j
          → Eases j (f j) × Phase s.max_attempts (f j).status (f j))
      → IsValid s
      → IsValid (change id f s)
  change-IsValid id f s same keep v = record {
    positive = v.positive;
    keyed = Keyed-modify id f s.jobs same v.keyed;
    phases =
        All-modify (λ j. Phase s.max_attempts j.status j) id f s.jobs (λ j g p. (keep j g p).1)
          v.phases;
    ordered =
        Ordered-modify id f s.jobs
          (λ j g.
            (keep j g (All-get (λ j. Phase s.max_attempts j.status j) id j s.jobs v.phases g)).0)
          v.ordered;
  }
