-- ===== src/Agent/Schedules/Claiming/Later.antt =====
-- The next time that `claim_due` computes for a task.
use open_feishu.Common.{
  ℕ, ◌≡◌, refl, subst, String, true, false, ◌&&◌, Option, none, some, inl, inr, string_eq, nat_eq,
  arith, Bool-cases, Outcome, ok, err,
}
use open_feishu.Texts.{is_tenant}
use open_feishu.Agent.Schedules.Owners.{owner_keys_of}
use open_feishu.Agent.Schedules.Calendar.{Failure, Zone, Zones, Schedule, post_init, next_after}
use open_feishu.Agent.Schedules.Rows.{TaskRow, ScheduledTask, is_due, as_task, task_of}
use open_feishu.Agent.Schedules.Next.{
  IsAnswer, once_at, once_over, round_at, rounds_over, day_at, next_after-IsAnswer,
}
use open_feishu.Agent.Schedules.Due.{next_of, owner_found, zone_for, next_for, try_task, try_next}

module _ (now : ℕ) where
  answer-later :
      (zone : Zone) (s : Schedule) (r : Option ℕ) → IsAnswer zone s now r → is_due r now ≡ false
  answer-later zone s r (once_at t e k a lt) = rw e (ground (arith, lt))
  answer-later zone s r (once_over t e k a le) = rw e refl
  answer-later zone s r (round_at x y n e k a b lt least) = rw e (ground (arith, lt))
  answer-later zone s r (rounds_over x y e k a b over) = rw e refl
  answer-later zone s r (day_at h m day t e k a b on at lt passed) = rw e (ground (arith, lt))

  next_of-later :
      (zones : Zones) (s : Schedule) (name : String) (r : Option ℕ) (o : Outcome Failure (Option ℕ))
      → post_init s ≡ true
      → next_after zones s now name ≡ o
      → next_of o ≡ some r
      → is_due r now ≡ false
  next_of-later zones s name r (err e) p h n = cc
  next_of-later zones s name r (ok q) p h n =
      let (zone, z, a) = next_after-IsAnswer zones s now name q p h in
      let same : q ≡ r = cc in subst (λ x. is_due x now ≡ false) same (answer-later zone s q a)

task_of-valid :
    (row : TaskRow) (task : ScheduledTask)
    → task_of row ≡ some task
    → post_init task.schedule ≡ true
unfolding task_of
task_of-valid row task h = elim (Bool-cases (post_init row.schedule)) [
  | inr e ↦ ground arith
  | inl e ↦
      let y : some (as_task row) ≡ some task = simp e at h in
      let z : as_task row ≡ task = cc in subst (λ x. post_init x.schedule ≡ true) z e
]

module _ (zones : Zones) (timezone_for : Option (ScheduledTask → Option String)) (now : ℕ) where
  next_for-later :
      (task : ScheduledTask) (name : Option String) (r : Option ℕ)
      → post_init task.schedule ≡ true
      → next_for zones timezone_for task now name ≡ some r
      → is_due r now ≡ false
  unfolding next_for
  next_for-later task none r p h = cc
  next_for-later task (some name) r p h =
      next_of-later now zones task.schedule name r (next_after zones task.schedule now name) p refl
        h

  try_task-later :
      (row : TaskRow) (o : Option ScheduledTask) (r : Option ℕ)
      → task_of row ≡ o
      → try_task zones timezone_for now o ≡ some r
      → is_due r now ≡ false
  try_task-later row none r e h = cc
  try_task-later row (some task) r e h =
      elim (Bool-cases (is_tenant task.tenant_key && owner_found (owner_keys_of task.owner_keys))) [
        | inr f ↦ let x : none ≡ some r = simp f at h in cc
        | inl f ↦
            next_for-later task (zone_for zones timezone_for timezone_for task) r
              (task_of-valid row task e) (simp f at h)
      ]

  -- The next time that a claim gives a task is later than the claim.
  pub try_next-later :
      (row : TaskRow) (r : Option ℕ)
      → try_next zones timezone_for now row ≡ some r
      → is_due r now ≡ false
  unfolding try_next
  try_next-later row r h = try_task-later row (task_of row) r refl h
