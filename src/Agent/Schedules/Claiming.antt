-- ===== src/Agent/Schedules/Claiming.antt =====
-- `claim_due` ends, and what it answers.
mod Rounds
mod Later
use open_feishu.Common.{
  ℕ, zero, suc, ◌≤◌, ◌<◌, ◌≡◌, refl, sym, subst, String, Bool, true, false, ◌&&◌, Option, none,
  some, [], ◌∷◌, inl, inr, ◌⊎◌, ◌==◌, string_eq, nat_eq, if◌then◌else◌, arith, Bool-cases,
  Option-cases, Outcome, ok, err, length, leb→le,
}
use open_feishu.Dict
use open_feishu.Dict.{Dict, get-put_self, beq_self}
use open_feishu.Texts.{is_tenant}
use open_feishu.Agent.Schedules.Owners.{owner_keys_of}
use open_feishu.Agent.Schedules.Calendar.{
  Failure, value_error, Zone, Zones, Schedule, post_init, next_after,
}
use open_feishu.Agent.Schedules.Tables.{update_where, exists_row}
use open_feishu.Agent.Schedules.Rows.{
  TaskState, error, TaskRow, ScheduledTask, RunRow, ScheduledRun, Store, Transaction, is_due,
  is_active, as_task, task_of, run_of,
}
use open_feishu.Agent.Schedules.Manage.{advanced, insert_run}
use open_feishu.Agent.Schedules.Next.{
  IsAnswer, once_at, once_over, round_at, rounds_over, day_at, next_after-IsAnswer,
}
use open_feishu.Agent.Schedules.Due.{
  is_due_task, time_of, goes_before, sooner, first_due, is_task, claimed_run, claim_status,
  state_after, start_run, quarantine_due, next_of, owner_found, zone_for, next_for, try_task,
  try_next, claim_row, claim_loop, claim_due,
}
use open_feishu.Agent.Schedules.Lifecycle.Inserts.{insert_run-put}
use open_feishu.Agent.Schedules.Claiming.Rounds.{
  count_active, count_active-le, count_active-update_lt, stands, first_due-stands, first_due-none,
}
use open_feishu.Agent.Schedules.Claiming.Later.{try_next-later}

-- A row of the task whose time has come.
abbrev pub is_due_again : String → ℕ → TaskRow → Bool
is_due_again task_id now row = is_task task_id row && is_due row.next_run_at now

update-not_due :
    (id : String) (now : ℕ) (state : TaskState) (next_run : Option ℕ) (tasks : Dict String TaskRow)
    → is_due next_run now ≡ false
    → exists_row
        (is_due_again id now)
        (update_where (is_task id) (advanced state next_run now) tasks)
      ≡ false
unfolding exists_row update_where advanced
update-not_due id now state next_run [] h = refl
update-not_due id now state next_run ((key, row) ∷ tasks) h =
    ground (arith, update-not_due id now state next_run tasks h)

-- The claimed occurrence had come, the run is stored under its identifier, and its task is not due
-- again at the time of the claim.
pub record IsClaim (now : ℕ) (run_id : String) (s : Store) (r : ScheduledRun) : Type 0 where
  pub row : RunRow
  pub stored : Dict.get run_id s.runs ≡ some row
  pub returned : r ≡ run_of row
  pub had_come : row.scheduled_for ≤ now
  pub task_moved_on : exists_row (is_due_again row.task_id now) s.tasks ≡ false

-- What a claim may come to: an exception, nothing where no task is due, or a run.
abbrev pub IsOutcome : ℕ → String → Transaction (Option ScheduledRun) → Type 0
IsOutcome now run_id (err e) = Unit
IsOutcome now run_id (ok (s, none)) = exists_row (is_due_task now) s.tasks ≡ false
IsOutcome now run_id (ok (s, some r)) = IsClaim now run_id s r

start_run-IsOutcome :
    (run_id : String) (next_run : Option ℕ) (now : ℕ) (s : Store) (r : RunRow)
    (o : Outcome Failure (Dict String RunRow))
    → r.run_id ≡ run_id
    → insert_run r s.runs ≡ o
    → is_due next_run now ≡ false
    → r.scheduled_for ≤ now
    → IsOutcome now run_id (start_run r.task_id run_id next_run now s o)
unfolding start_run
start_run-IsOutcome run_id next_run now s r (err e) i h d t = tt
start_run-IsOutcome run_id next_run now s r (ok b) i h d t =
    let (new, put) = insert_run-put r s.runs b h in
    let at : Dict.get run_id b ≡ some r = rw put (rw (sym i) (get-put_self r.run_id r s.runs)) in
    rw at (record {
      row = r;
      stored = at;
      returned = refl;
      had_come = t;
      task_moved_on = update-not_due r.task_id now (state_after next_run) next_run s.tasks d;
    })

is_due-time : (t : Option ℕ) (now : ℕ) → is_due t now ≡ true → time_of t ≤ now
is_due-time none now h = cc
is_due-time (some t) now h = leb→le t now h

module _ (zones : Zones) (timezone_for : Option (ScheduledTask → Option String))
    (now grace lease : ℕ) (run_id token : String) where
  claim_loop-IsOutcome :
      (rounds : ℕ) (s : Store)
      → count_active s.tasks < rounds
      → (t : Transaction (Option ScheduledRun)) × (claim_loop zones timezone_for now grace lease
            run_id token rounds s
          ≡ some t)
        × IsOutcome now run_id t
  unfolding claim_loop quarantine_due claimed_run
  claim_loop-IsOutcome zero s enough = absurd (omega arith)
  claim_loop-IsOutcome (suc rounds) s enough = elim (Option-cases (first_due now s.tasks)) [
    | inl e ↦ (ok (s, none), rw (e, claim_loop) refl, first_due-none now s.tasks e)
    | inr (row, e) ↦
        let (found, due) = first_due-stands now s.tasks row e in
        elim (Option-cases (try_next zones timezone_for now row)) [
          | inl f ↦
              let less = count_active-update_lt row.task_id now s.tasks found in
              let (t, g, i) =
                claim_loop-IsOutcome rounds (quarantine_due row.task_id now s)
                  (omega (arith, less, enough)) in
              (t, rw (e, f, claim_loop) g, i)
          | inr (next_run, f) ↦ (
            claim_row zones timezone_for now grace lease run_id token row next_run s,
            rw (e, f, claim_loop) refl,
            start_run-IsOutcome run_id next_run now s
                (claimed_run run_id token row.task_id (time_of row.next_run_at)
                  (claim_status now grace (time_of row.next_run_at) row.task_id s.runs) now lease)
                _ refl refl (try_next-later zones timezone_for now row next_run f)
                (is_due-time row.next_run_at now due),
          )
        ]
  ]

  -- A claim ends, however many stored tasks have to be put aside before. Where it answers that there
  -- is nothing to do, no active task is due any more; where it answers with a run, that is the run
  -- stored under the new identifier, its time had come, and no row of its task is due again at the
  -- time of the claim, so that no later claim at that time gives the same occurrence.
  pub claim_due-IsOutcome :
      (s : Store)
      → (t : Transaction (Option ScheduledRun)) × (claim_due zones timezone_for now grace lease
            run_id token s
          ≡ some t)
        × IsOutcome now run_id t
  unfolding claim_due
  claim_due-IsOutcome s = elim (Bool-cases (lease == 0)) [
    | inl e ↦ (err value_error, rw e refl, tt)
    | inr e ↦
        let (t, g, i) =
          claim_loop-IsOutcome (suc (length s.tasks)) s (omega (arith, count_active-le s.tasks)) in
        (t, rw e g, i)
  ]
