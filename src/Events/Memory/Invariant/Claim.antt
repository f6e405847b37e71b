-- ===== src/Events/Memory/Invariant/Claim.antt =====
-- `claim_next` takes the first unresolved job of a partition, and keeps the invariant.
use open_feishu.Common.{
  ℕ, ◌≤◌, ◌≡◌, String, Bool, true, false, Option, none, some, List, [], ◌∷◌, refl, sym, ◌∙◌, arith,
  ◌==◌, string_eq, eq_iff, Bool-cases, ◌||◌, not, Option-cases, leb, leb→le, inl, inr,
  if◌then◌else◌, ◌&&◌,
}
use open_feishu.Dict
use open_feishu.Dict.{Dict, or_else, beq_self, get-setdefault}
use open_feishu.Events.Job.{
  EventJobStatus, EventJob, is_completed, is_running, is_waiting, completed,
}
use open_feishu.Events.Memory.Claim.{collect_unresolved, is_first, eligible, candidates, start}
use open_feishu.Events.Memory.Invariant.{Fresh, Keyed, Quiet, Ordered}
use open_feishu.Events.Memory.Invariant.Keep.{All-modify}

-- `a`, or `b` if there is none.
found_or {ℓ} : {A : Type ℓ} → Option A → Option A → Option A
found_or none b = b
found_or (some a) b = some a

and_true : (a b : Bool) → (a && b) ≡ true → (a ≡ true) × (b ≡ true)
and_true a b h = ground arith

waiting-unresolved : (st : EventJobStatus) → is_waiting st ≡ true → is_completed st ≡ false
waiting-unresolved completed h = cc
waiting-unresolved _ h = refl

module _ {P : Type 0} where
  -- The first job of a partition that is not completed.
  unfoldable pub first_unresolved : String → Dict String (EventJob P) → Option (EventJob P)
  first_unresolved p [] = none
  first_unresolved p ((k, j) ∷ d) =
      if is_completed j.status
      then first_unresolved p d
      else if j.partition_key == p
      then some j
      else first_unresolved p d

  -- What was there before the loop stays, and the rest is found in order.
  get-collect_unresolved_from :
      (p : String) (first d : Dict String (EventJob P))
      → Dict.get p (collect_unresolved first d) ≡ found_or (Dict.get p first) (first_unresolved p d)
  unfolding collect_unresolved first_unresolved found_or
  get-collect_unresolved_from p first [] = ground arith
  get-collect_unresolved_from p first ((k, j) ∷ d) = elim (Bool-cases (is_completed j.status)) [
    | inl e ↦ rw e (get-collect_unresolved_from p first d)
    | inr e ↦ rw e (
        get-collect_unresolved_from p (Dict.setdefault j.partition_key j first) d
        ∙ rw (get-setdefault j.partition_key p j first) (ground (arith, eq_iff j.partition_key p)))
  ]

  pub get-collect_unresolved :
      (p : String) (d : Dict String (EventJob P))
      → Dict.get p (collect_unresolved [] d) ≡ first_unresolved p d
  unfolding Dict.get found_or
  get-collect_unresolved p d = get-collect_unresolved_from p [] d

  -- A job that is chosen is the first unresolved one of its partition, by its identifier.
  pub first_of_eligible :
      (d : Dict String (EventJob P)) (horizon : ℕ) (j : EventJob P)
      → eligible (collect_unresolved [] d) horizon j ≡ true
      → (is_waiting j.status ≡ true)
        × (j.available_at ≤ horizon)
        × ((f : EventJob P) × (first_unresolved j.partition_key d ≡ some f) × (f.job_id ≡ j.job_id))
  unfolding eligible is_first
  first_of_eligible d horizon j h =
      let (w, h') = and_true (is_waiting j.status) _ h in
      let (a, i) = and_true (leb j.available_at horizon) _ h' in
      elim (Option-cases (Dict.get j.partition_key (collect_unresolved [] d))) [
        | inl e ↦ absurd (ground (arith))
        | inr (f, e) ↦ (
          w,
          leb→le _ _ a,
          (
            f,
            sym (get-collect_unresolved j.partition_key d) ∙ e,
            ground (arith, eq_iff f.job_id j.job_id),
          ),
        )
      ]

  get-Fresh : (k : String) (d : Dict String (EventJob P)) → Fresh k d → Dict.get k d ≡ none
  unfolding Dict.get
  get-Fresh k [] h = refl
  get-Fresh k ((i, j) ∷ d) h = ground (arith, eq_iff i k, get-Fresh k d h.1)

  pub Keyed-get :
      (k : String) (d : Dict String (EventJob P)) (j : EventJob P)
      → Keyed d
      → Dict.get k d ≡ some j
      → j.job_id ≡ k
  unfolding Dict.get
  Keyed-get k [] j h g = cc
  Keyed-get k ((i, w) ∷ d) j h g = ground (arith, eq_iff i k, Keyed-get k d j h.2)

  -- A candidate passes the test, and stands under its key.
  pub candidates-cons :
      (first : Dict String (EventJob P)) (horizon : ℕ) (d : Dict String (EventJob P)) (k : String)
      (j : EventJob P) (rest : List (String × EventJob P))
      → Keyed d
      → candidates first horizon d ≡ (k, j) ∷ rest
      → (eligible first horizon j ≡ true) × (Dict.get k d ≡ some j)
  unfolding candidates Dict.get
  candidates-cons first horizon [] k j rest h e = cc
  candidates-cons first horizon ((i, w) ∷ d) k j rest h e =
      elim (Bool-cases (eligible first horizon w)) [
        | inl t ↦ ground (arith, eq_iff i k)
        | inr f ↦
            let (q, g) = candidates-cons first horizon d k j rest h.2 (rw f at e) in
            (q, ground (arith, eq_iff i k, get-Fresh i d h.1))
      ]

  -- To start the first unresolved job of a partition keeps the others of the partition quiet.
  pub Ordered-start :
      (worker : String) (now lease : ℕ) (k : String) (d : Dict String (EventJob P))
      (j f : EventJob P)
      → Keyed d
      → Ordered d
      → Dict.get k d ≡ some j
      → is_waiting j.status ≡ true
      → first_unresolved j.partition_key d ≡ some f
      → f.job_id ≡ k
      → Ordered (Dict.modify k (start worker now lease) d)
  unfolding Dict.get Dict.modify first_unresolved start
  Ordered-start worker now lease k [] j f n h g w e i = h
  Ordered-start worker now lease k ((x, y) ∷ d) j f n h g w e i = elim (Bool-cases (x == k)) [
    | inl t ↦
        let same : y ≡ j = ground (arith) in
        rw t (λ u. h.0 (waiting-unresolved y.status (rw same w)), h.1)
    | inr t ↦
        let g' : Dict.get k d ≡ some j = rw t at g in
        elim (Bool-cases (is_completed y.status || not (y.partition_key == j.partition_key))) [
          | inl o ↦
              let e' : first_unresolved j.partition_key d ≡ some f = ground (arith) in
              let quiet : is_completed y.status ≡ false
                  → Quiet y.partition_key (Dict.modify k (start worker now lease) d) =
                λ u.
                  All-modify (λ v. v.partition_key ≡ y.partition_key → is_running v.status ≡ false)
                    k (start worker now lease) d
                    (λ v p q r. absurd (ground (arith, eq_iff y.partition_key j.partition_key)))
                    (h.0 u) in
              rw t (quiet, Ordered-start worker now lease k d j f n.2 h.1 g' w e' i)
          | inr o ↦ absurd (ground (arith, eq_iff x k))
        ]
  ]
