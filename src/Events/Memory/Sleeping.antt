-- ===== src/Events/Memory/Sleeping.antt =====
-- A worker that sleeps until `next_wakeup` oversleeps no job.
use open_feishu.Common.{
  ℕ, ◌≤◌, ◌≡◌, refl, ◌∙◌, arith, String, true, Bool-cases, Option-cases, Option, some, inl, inr,
  List, [], ◌∷◌, ◌==◌, string_eq, leb,
}
use open_feishu.Dict
use open_feishu.Dict.{Dict}
use open_feishu.Events.Job.{EventJob, is_waiting, is_running}
use open_feishu.Events.Memory.Store.{Store}
use open_feishu.Events.Memory.Claim.{collect_unresolved}
use open_feishu.Events.Memory.Wakeup.{least, wakeup_times, next_wakeup}
use open_feishu.Events.Memory.Invariant.Claim.{first_unresolved, get-collect_unresolved}

-- The least time is there, and not after the bound.
abbrev pub Within : ℕ → Option ℕ → Type 0
Within bound o = (t : ℕ) × (o ≡ some t) × (t ≤ bound)

least-head : (t : ℕ) (ts : List ℕ) → Within t (least (t ∷ ts))
unfolding least
least-head t ts = elim (Option-cases (least ts)) [
  | inl p ↦ (t, rw (least, p) refl, omega arith)
  | inr (u, p) ↦ elim (Bool-cases (leb t u)) [
    | inl q ↦ (t, rw (least, p) (simp q), omega arith)
    | inr q ↦ (u, rw (least, p) (simp q), ground arith)
  ]
]

least-tail : (bound t : ℕ) (ts : List ℕ) → Within bound (least ts) → Within bound (least (t ∷ ts))
unfolding least
least-tail bound t ts (u, p, h) = elim (Bool-cases (leb t u)) [
  | inl q ↦ (t, rw (least, p) (simp q), ground arith)
  | inr q ↦ (u, rw (least, p) (simp q), h)
]

module _ {P : Type 0} where
  wakeup_times-Within :
      (k : String) (j : EventJob P) (d : Dict String (EventJob P))
      → Dict.get k d ≡ some j
      → is_waiting j.status ≡ true
      → Within j.available_at (least (wakeup_times d))
  unfolding Dict.get wakeup_times
  wakeup_times-Within k j [] g w = cc
  wakeup_times-Within k j ((i, x) ∷ d) g w = elim (Bool-cases (i == k)) [
    | inl e ↦
        let same : x ≡ j = (let h = rw e at g in cc) in
        rw same (simp w (least-head j.available_at (wakeup_times d)))
    | inr e ↦
        let rest = wakeup_times-Within k j d (rw e at g) w in
        elim (Bool-cases (is_waiting x.status)) [
          | inl t ↦ simp t (least-tail j.available_at x.available_at (wakeup_times d) rest)
          | inr t ↦ elim (Bool-cases (is_running x.status)) [
            | inr u ↦ simp (t, u) rest
            | inl u ↦ elim (Option-cases x.lease_until) [
              | inl l ↦ simp (t, u, l) rest
              | inr (until, l) ↦
                  simp (t, u, l) (least-tail j.available_at until (wakeup_times d) rest)
            ]
          ]
        ]
  ]

  -- Where a waiting job is the first unresolved one of its partition, `next_wakeup` gives a time, and
  -- not one after the job is due.
  pub next_wakeup-Within :
      (s : Store P) (j : EventJob P)
      → is_waiting j.status ≡ true
      → first_unresolved j.partition_key s.jobs ≡ some j
      → Within j.available_at (next_wakeup s)
  unfolding next_wakeup
  next_wakeup-Within s j w f =
      wakeup_times-Within j.partition_key j (collect_unresolved [] s.jobs)
        (get-collect_unresolved j.partition_key s.jobs ∙ f) w
