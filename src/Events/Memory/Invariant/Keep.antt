-- ===== src/Events/Memory/Invariant/Keep.antt =====
-- Changes of the jobs under which the parts of the invariant last: of one job, of all, and of none.
use open_feishu.Common.{
  ℕ, ◌≤◌, ◌≡◌, String, true, false, some, [], ◌∷◌, All, subst, ltb, ltb→lt, sym, ◌∙◌, arith, ◌==◌,
  string_eq, Bool-cases, inl, inr,
}
use open_feishu.Dict
use open_feishu.Dict.{Dict}
use open_feishu.Events.Job.{EventJobStatus, EventJob, running, is_completed, is_running}
use open_feishu.Events.Memory.Store.{after_attempt}
use open_feishu.Events.Memory.Invariant.{IsFree, Phase, Fresh, Keyed, Quiet, Ordered}

module _ {P : Type 0} where
  -- What the phase of a running job says.
  pub attempt-le :
      (m : ℕ) (st : EventJobStatus) (j : EventJob P)
      → is_running st ≡ true
      → Phase m st j
      → j.attempt ≤ m
  attempt-le m running j r h = h.1
  attempt-le m _ j r h = cc

  -- A job that is put back after an attempt waits or has failed, by the attempts left.
  pub Phase-after_attempt :
      (m : ℕ) (j : EventJob P)
      → j.attempt ≤ m
      → j.side_effect_started ≡ false
      → IsFree j
      → Phase m (after_attempt m j) j
  Phase-after_attempt m j b u free = elim (Bool-cases (ltb j.attempt m)) [
    | inl e ↦ rw e (ltb→lt _ _ e, u, free)
    | inr e ↦ rw e (ground arith, u, free)
  ]

  -- The new job stands no worse for the order: same partition, running only if it ran, and
  -- completed if it was.
  pub record Eases (j j' : EventJob P) : Type 0 where
    pub partition : j'.partition_key ≡ j.partition_key
    pub ran : is_running j'.status ≡ true → is_running j.status ≡ true
    pub done : is_completed j'.status ≡ false → is_completed j.status ≡ false

  pub All-modify {κ} :
      (Q : EventJob P → Type κ) (k : String) (f : EventJob P → EventJob P)
      (d : Dict String (EventJob P))
      → ((j : EventJob P) → Dict.get k d ≡ some j → Q j → Q (f j))
      → All (λ e. Q e.1) d
      → All (λ e. Q e.1) (Dict.modify k f d)
  unfolding Dict.get Dict.modify
  All-modify Q k f [] h q = q
  All-modify Q k f ((i, j) ∷ d) h q = elim (Bool-cases (i == k)) [
    | inl e ↦ rw e (h j (rw e) q.0, q.1)
    | inr e ↦ rw e (q.0, All-modify Q k f d (λ x p. h x (rw e p)) q.1)
  ]

  pub Fresh-modify :
      (i k : String) (f : EventJob P → EventJob P) (d : Dict String (EventJob P))
      → Fresh i d
      → Fresh i (Dict.modify k f d)
  unfolding Dict.modify
  Fresh-modify i k f [] h = h
  Fresh-modify i k f ((x, j) ∷ d) h = elim (Bool-cases (x == k)) [
    | inl e ↦ rw e h
    | inr e ↦ rw e (h.0, Fresh-modify i k f d h.1)
  ]

  pub Keyed-modify :
      (k : String) (f : EventJob P → EventJob P) (d : Dict String (EventJob P))
      → ((j : EventJob P) → (f j).job_id ≡ j.job_id)
      → Keyed d
      → Keyed (Dict.modify k f d)
  unfolding Dict.modify
  Keyed-modify k f [] same h = h
  Keyed-modify k f ((x, j) ∷ d) same h = elim (Bool-cases (x == k)) [
    | inl e ↦ rw e (same j ∙ h.0, h.1, h.2)
    | inr e ↦ rw e (h.0, Fresh-modify x k f d h.1, Keyed-modify k f d same h.2)
  ]

  pub Quiet-Eases :
      (p : String) (j j' : EventJob P)
      → Eases j j'
      → (j.partition_key ≡ p → is_running j.status ≡ false)
      → j'.partition_key ≡ p
      → is_running j'.status ≡ false
  Quiet-Eases p j j' w q e = elim (Bool-cases (is_running j'.status)) [
    | inl r ↦ cc (w.ran r, q (sym w.partition ∙ e))
    | inr r ↦ r
  ]

  Quiet-modify :
      (p k : String) (f : EventJob P → EventJob P) (d : Dict String (EventJob P))
      → ((j : EventJob P) → Dict.get k d ≡ some j → Eases j (f j))
      → Quiet p d
      → Quiet p (Dict.modify k f d)
  Quiet-modify p k f d w =
      All-modify (λ j. j.partition_key ≡ p → is_running j.status ≡ false) k f d
        λ j g. Quiet-Eases p j (f j) (w j g)

  pub Ordered-modify :
      (k : String) (f : EventJob P → EventJob P) (d : Dict String (EventJob P))
      → ((j : EventJob P) → Dict.get k d ≡ some j → Eases j (f j))
      → Ordered d
      → Ordered (Dict.modify k f d)
  unfolding Dict.get Dict.modify
  Ordered-modify k f [] w h = h
  Ordered-modify k f ((x, j) ∷ d) w h = elim (Bool-cases (x == k)) [
    | inl e ↦ let v = w j (rw e) in rw e (λ u. rw v.partition (h.0 (v.done u)), h.1)
    | inr e ↦
        let w' : (i : EventJob P) → Dict.get k d ≡ some i → Eases i (f i) = λ i g. w i (rw e g) in
        rw e (λ u. Quiet-modify j.partition_key k f d w' (h.0 u), Ordered-modify k f d w' h.1)
  ]

  -- What holds of every job holds of the one at a key.
  pub All-get {κ} :
      (Q : EventJob P → Type κ) (k : String) (j : EventJob P) (d : Dict String (EventJob P))
      → All (λ e. Q e.1) d
      → Dict.get k d ≡ some j
      → Q j
  unfolding Dict.get
  All-get Q k j [] h g = cc
  All-get Q k j ((i, w) ∷ d) h g = elim (Bool-cases (i == k)) [
    | inl e ↦ let same : w ≡ j = ground arith in subst Q same h.0
    | inr e ↦ All-get Q k j d h.1 (rw e at g)
  ]
