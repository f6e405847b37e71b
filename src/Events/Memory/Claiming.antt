-- ===== src/Events/Memory/Claiming.antt =====
-- What `claim_next` hands out, and that it misses nothing.
use open_feishu.Common.{
  ℕ, ◌+◌, ◌≤◌, ◌<◌, ◌≡◌, String, true, false, Option, none, some, List, [], ◌∷◌, subst, refl, sym,
  ap, ◌∙◌, arith, ◌==◌, string_eq, eq_iff, Bool-cases, inl, inr, leb, ok, ok_fst, ok_snd,
}
use open_feishu.Dict
use open_feishu.Dict.{Dict, beq_self}
use open_feishu.Events.Job.{EventJob, is_waiting, running}
use open_feishu.Events.Memory.Store.{Store}
use open_feishu.Events.Memory.Claim.{
  collect_unresolved, is_first, eligible, candidates, sweep, choose, claim_next,
}
use open_feishu.Events.Memory.Invariant.Claim.{first_unresolved, get-collect_unresolved}

module _ {P : Type 0} where
  -- What a claim stands on: the swept jobs, a worker with a name, and a lease.
  claim_next-eq-ok :
      (worker : String) (now lease tolerance : ℕ) (s s' : Store P) (o : Option (EventJob P))
      → claim_next worker now lease tolerance s ≡ ok (s', o)
      → let jobs = sweep now s in
        let picked =
          choose worker now lease jobs
            (candidates (collect_unresolved [] jobs) (now + tolerance) jobs) in
        (s' ≡ record s { jobs = picked.0 }) × (o ≡ picked.1)
  unfolding claim_next
  claim_next-eq-ok worker now lease tolerance s s' o h = elim (Bool-cases (worker == "")) [
    | inl e ↦ cc (rw e at h)
    | inr e ↦ elim (Bool-cases (leb lease 0)) [
      | inl f ↦ cc (rw (e, f) at h)
      | inr f ↦ let q = rw (e, f) at h in (sym (ok_fst _ s' _ o q), sym (ok_snd _ s' _ o q))
    ]
  ]

  pub claim_next-lease :
      (worker : String) (now lease tolerance : ℕ) (s s' : Store P) (o : Option (EventJob P))
      → claim_next worker now lease tolerance s ≡ ok (s', o)
      → leb lease 0 ≡ false
  unfolding claim_next
  claim_next-lease worker now lease tolerance s s' o h = elim (Bool-cases (leb lease 0)) [
    | inr f ↦ f
    | inl f ↦ elim (Bool-cases (worker == "")) [
      | inl e ↦ cc (rw e at h)
      | inr e ↦ cc (rw (e, f) at h)
    ]
  ]

  -- What the chosen job is, before and after.
  pub record IsClaim (worker : String) (now lease horizon : ℕ)
      (before after : Dict String (EventJob P)) (job : EventJob P) : Type 0 where
    pub old : EventJob P
    pub was : Dict.get job.job_id before ≡ some old
    pub waited : is_waiting old.status ≡ true
    pub due : old.available_at ≤ horizon
    pub became : job ≡ record old {
      status = running;
      attempt = old.attempt + 1;
      worker_id = some worker;
      lease_until = some (now + lease);
      updated_at = now;
      error_type = none;
    }
    pub held : Dict.get job.job_id after ≡ some job
    pub unstarted : job.side_effect_started ≡ false

  -- No candidate means that no entry passes the test.
  candidates-nil :
      (first : Dict String (EventJob P)) (horizon : ℕ) (k : String) (j : EventJob P)
      (d : Dict String (EventJob P))
      → candidates first horizon d ≡ []
      → Dict.get k d ≡ some j
      → eligible first horizon j ≡ false
  unfolding candidates Dict.get
  candidates-nil first horizon k j [] e g = cc
  candidates-nil first horizon k j ((i, w) ∷ d) e g = elim (Bool-cases (eligible first horizon w)) [
    | inl t ↦ cc (rw t at e)
    | inr t ↦ elim (Bool-cases (i == k)) [
      | inl q ↦
          let same : w ≡ j = ground arith in subst (λ x. eligible first horizon x ≡ false) same t
      | inr q ↦ candidates-nil first horizon k j d (rw t at e) (rw q at g)
    ]
  ]

  choose-none :
      (worker : String) (now lease : ℕ) (d : Dict String (EventJob P))
      (c : List (String × EventJob P))
      → (choose worker now lease d c).1 ≡ none
      → (c ≡ []) × ((choose worker now lease d c).0 ≡ d)
  unfolding choose
  choose-none worker now lease d [] h = (refl, refl)
  choose-none worker now lease d (x ∷ c) h = cc

  -- The first unresolved job of a partition fails the test only if it is not due.
  due_later :
      (d : Dict String (EventJob P)) (horizon : ℕ) (j : EventJob P)
      → is_waiting j.status ≡ true
      → first_unresolved j.partition_key d ≡ some j
      → eligible (collect_unresolved [] d) horizon j ≡ false
      → horizon < j.available_at
  unfolding eligible is_first
  due_later d horizon j w f t =
      ground (arith, get-collect_unresolved j.partition_key d, eq_iff j.job_id j.job_id)

  -- Where `claim_next` hands out nothing, the inbox is only swept, and each waiting job that is the
  -- first unresolved one of its partition is due later than the horizon: no work is missed.
  pub claim_next-none :
      (worker : String) (now lease tolerance : ℕ) (s s' : Store P) (k : String) (j : EventJob P)
      → claim_next worker now lease tolerance s ≡ ok (s', none)
      → Dict.get k s'.jobs ≡ some j
      → is_waiting j.status ≡ true
      → first_unresolved j.partition_key s'.jobs ≡ some j
      → (s'.jobs ≡ sweep now s) × (now + tolerance < j.available_at)
  claim_next-none worker now lease tolerance s s' k j h g w f =
      let (p, q) = claim_next-eq-ok worker now lease tolerance s s' none h in
      let (c, e) = choose-none worker now lease (sweep now s) _ (sym q) in
      let same : s'.jobs ≡ sweep now s = ap (λ (x : Store P). x.jobs) p ∙ e in
      let t =
        candidates-nil _ (now + tolerance) k j (sweep now s) c (sym (ap (Dict.get k) same) ∙ g) in
      (
        same,
        due_later (sweep now s) (now + tolerance) j w
            (ap (first_unresolved j.partition_key) (sym same) ∙ f) t,
      )
