-- ===== src/Events/Memory/Invariant/Sweep.antt =====
-- The sweeps of the in-memory inbox keep the invariant.
use open_feishu.Common.{
  ℕ, ◌≡◌, ◌≢◌, String, true, false, [], ◌∷◌, All, ◌&&◌, refl, ◌∙◌, arith, string_eq, Bool-cases,
  inl, inr,
}
use open_feishu.Dict.{Dict}
use open_feishu.Events.Job.{EventJob, is_running}
use open_feishu.Events.Memory.Store.{lapsed, expired, purge, recover, recover_expired}
use open_feishu.Events.Memory.Invariant.{Phase, Phases, Fresh, Keyed, Quiet, Ordered}
use open_feishu.Events.Memory.Invariant.Keep.{Eases, attempt-le, Phase-after_attempt, Quiet-Eases}

module _ {P : Type 0} (now : ℕ) where
  All-purge {κ} :
      (Q : String × EventJob P → Type κ) (d : Dict String (EventJob P))
      → All Q d
      → All Q (purge now d)
  unfolding purge
  All-purge Q [] h = h
  All-purge Q ((k, j) ∷ d) h = elim (Bool-cases (expired now j)) [
    | inl e ↦ rw e (All-purge Q d h.1)
    | inr e ↦ rw e (h.0, All-purge Q d h.1)
  ]

  pub Keyed-purge : (d : Dict String (EventJob P)) → Keyed d → Keyed (purge now d)
  unfolding purge
  Keyed-purge [] h = h
  Keyed-purge ((k, j) ∷ d) h = elim (Bool-cases (expired now j)) [
    | inl e ↦ rw e (Keyed-purge d h.2)
    | inr e ↦ rw e (h.0, All-purge (λ x. x.0 ≢ k) d h.1, Keyed-purge d h.2)
  ]

  pub Ordered-purge : (d : Dict String (EventJob P)) → Ordered d → Ordered (purge now d)
  unfolding purge
  Ordered-purge [] h = h
  Ordered-purge ((k, j) ∷ d) h = elim (Bool-cases (expired now j)) [
    | inl e ↦ rw e (Ordered-purge d h.1)
    | inr e ↦ rw e (
      λ u.
          All-purge (λ x. x.1.partition_key ≡ j.partition_key → is_running x.1.status ≡ false) d
            (h.0 u),
      Ordered-purge d h.1,
    )
  ]

  pub Phases-purge : (m : ℕ) (d : Dict String (EventJob P)) → Phases m d → Phases m (purge now d)
  Phases-purge m d h = All-purge (λ x. Phase m x.1.status x.1) d h

  module _ (m : ℕ) where
    recover-Eases : (j : EventJob P) → Eases j (recover m now j)
    unfolding recover
    recover-Eases j = record { partition = ground arith; ran = ground arith; done = ground arith }

    job_id-recover : (j : EventJob P) → (recover m now j).job_id ≡ j.job_id
    unfolding recover
    job_id-recover j = ground arith

    recover-Phase :
        (j : EventJob P) → Phase m j.status j → Phase m (recover m now j).status (recover m now j)
    unfolding recover
    recover-Phase j h = elim (Bool-cases (is_running j.status && lapsed now j)) [
      | inr e ↦ rw e h
      | inl e ↦
          let runs : is_running j.status ≡ true = ground arith in
          let b = attempt-le m j.status j runs h in
          elim (Bool-cases j.side_effect_started) [
            | inl x ↦ rw (e, x) (b, (refl, refl))
            | inr x ↦ rw (e, x) (Phase-after_attempt m _ b refl (refl, refl))
          ]
    ]

    Fresh-recover_expired :
        (k : String) (d : Dict String (EventJob P)) → Fresh k d → Fresh k (recover_expired m now d)
    unfolding recover_expired
    Fresh-recover_expired k [] h = h
    Fresh-recover_expired k ((i, j) ∷ d) h = (h.0, Fresh-recover_expired k d h.1)

    pub Keyed-recover_expired :
        (d : Dict String (EventJob P)) → Keyed d → Keyed (recover_expired m now d)
    unfolding recover_expired
    Keyed-recover_expired [] h = h
    Keyed-recover_expired ((k, j) ∷ d) h =
        (job_id-recover j ∙ h.0, Fresh-recover_expired k d h.1, Keyed-recover_expired d h.2)

    pub Phases-recover_expired :
        (d : Dict String (EventJob P)) → Phases m d → Phases m (recover_expired m now d)
    unfolding recover_expired
    Phases-recover_expired [] h = h
    Phases-recover_expired ((k, j) ∷ d) h = (recover-Phase j h.0, Phases-recover_expired d h.1)

    Quiet-recover_expired :
        (p : String) (d : Dict String (EventJob P)) → Quiet p d → Quiet p (recover_expired m now d)
    unfolding recover_expired
    Quiet-recover_expired p [] h = h
    Quiet-recover_expired p ((k, j) ∷ d) h =
        (Quiet-Eases p j (recover m now j) (recover-Eases j) h.0, Quiet-recover_expired p d h.1)

    pub Ordered-recover_expired :
        (d : Dict String (EventJob P)) → Ordered d → Ordered (recover_expired m now d)
    unfolding recover_expired
    Ordered-recover_expired [] h = h
    Ordered-recover_expired ((k, j) ∷ d) h =
        let w = recover-Eases j in
        (
          λ u. rw w.partition (Quiet-recover_expired j.partition_key d (h.0 (w.done u))),
          Ordered-recover_expired d h.1,
        )
