-- ===== src/Agent/Schedules/Lifecycle/Tasks.antt =====
-- The calls about tasks leave the runs as they are, or start one.
use open_feishu.Common.{
  ℕ, zero, suc, ◌≡◌, refl, String, true, false, ◌&&◌, ◌||◌, not, Option, none, some, List, inl, inr,
  ◌==◌, string_eq, nat_eq, arith, Bool-cases, Option-cases, Outcome, ok, err, length,
}
use open_feishu.Dict
use open_feishu.Dict.{Dict}
use open_feishu.Agent.Schedules.Calendar.{Failure, Zones, next_after}
use open_feishu.Agent.Schedules.Tables.{exists_row}
use open_feishu.Agent.Schedules.Rows.{
  TaskState, completed, active, TaskRow, ScheduledTask, DeliveryStatus, RunRow, Store, is_open,
  is_active, task_of,
}
use open_feishu.Agent.Schedules.Runs.{read_at}
use open_feishu.Agent.Schedules.Drafts.{read_made, read_row, read_task}
use open_feishu.Agent.Schedules.Manage.{
  insert_run, missed_run, set_task, set_missed, resume_over, resume, set_allowed, set_row,
  set_state, is_settable, is_deleted, is_completed,
}
use open_feishu.Agent.Schedules.Due.{
  claimed_run, is_open_run, claim_status, some_run, start_run, time_of, quarantine_due, first_due,
  try_next, claim_row, claim_loop, claim_due,
}
use open_feishu.Agent.Schedules.Calls.{after, after_claim}
use open_feishu.Agent.Schedules.Lifecycle.{is_new, IsAlone, Change, Change-refl}
use open_feishu.Agent.Schedules.Lifecycle.Inserts.{insert_run-Change, exists_row-IsAlone}

pub read_task-Change :
    (id : String) (s s' : Store)
    → Change s.runs s'.runs
    → Change s.runs (after (read_task id s') s).runs
read_task-Change id s s' c = go (Dict.get id s'.tasks)
  where
    made_case : (o : Option ScheduledTask) → Change s.runs (after (read_made s' o) s).runs
    made_case none = Change-refl s.runs
    made_case (some task) = c

    go : (o : Option TaskRow) → Change s.runs (after (read_row s' o) s).runs
    go none = Change-refl s.runs
    go (some row) = made_case (task_of row)

some_run-Change :
    (a : Dict String RunRow) (base s : Store) (o : Option RunRow)
    → Change a base.runs
    → Change a s.runs
    → Change a (after (some_run (read_at s o)) base).runs
some_run-Change a base s none c d = c
some_run-Change a base s (some r) c d = d

-- A claim starts a run only where no run of its task is open.
claim_status-new :
    (grace late : ℕ) (occurrence : ℕ) (task_id : String) (a : Dict String RunRow)
    → is_new (claim_status grace late occurrence task_id a) ≡ true
unfolding claim_status
claim_status-new grace late occurrence task_id a = ground arith

claim_status-alone :
    (now grace occurrence : ℕ) (task_id : String) (a : Dict String RunRow)
    → is_open (claim_status now grace occurrence task_id a) ≡ true
    → exists_row (is_open_run task_id) a ≡ false
unfolding claim_status
claim_status-alone now grace occurrence task_id a h = ground arith

start_run-Change :
    (key run_id : String) (next_run : Option ℕ) (now : ℕ) (s base : Store) (r : RunRow)
    (o : Outcome Failure (Dict String RunRow))
    → Change s.runs base.runs
    → insert_run r s.runs ≡ o
    → is_new r.status ≡ true
    → r.delivery_status ≡ DeliveryStatus.pending
    → (is_open r.status ≡ true → IsAlone r s.runs)
    → Change s.runs (after (start_run key run_id next_run now s o) base).runs
unfolding start_run
start_run-Change key run_id next_run now s base r (err e) c h n d alone = c
start_run-Change key run_id next_run now s base r (ok b) c h n d alone =
    some_run-Change s.runs base _ (Dict.get run_id b) c (insert_run-Change r s.runs b n d alone h)

module _ (zones : Zones) (timezone_for : Option (ScheduledTask → Option String))
    (now grace lease : ℕ) (run_id token : String) where
  claim_row-Change :
      (row : TaskRow) (next_run : Option ℕ) (s base : Store)
      → Change s.runs base.runs
      → Change s.runs
          (after
            (claim_row zones timezone_for now grace lease run_id token row next_run s)
            base).runs
  unfolding claimed_run
  claim_row-Change row next_run s base c =
      let occurrence = time_of row.next_run_at in
      let status = claim_status now grace occurrence row.task_id s.runs in
      let r = claimed_run run_id token row.task_id occurrence status now lease in
      start_run-Change row.task_id run_id next_run now s base r (insert_run r s.runs) c refl
        (claim_status-new now grace occurrence row.task_id s.runs) refl
        (λ open_now.
          exists_row-IsAlone r s.runs
            (claim_status-alone now grace occurrence row.task_id s.runs open_now))

  claim_loop-Change :
      (rounds : ℕ) (s base : Store)
      → Change s.runs base.runs
      → Change s.runs
          (after_claim
            (claim_loop zones timezone_for now grace lease run_id token rounds s)
            base).runs
  unfolding claim_loop quarantine_due
  claim_loop-Change zero s base c = c
  claim_loop-Change (suc rounds) s base c = elim (Option-cases (first_due now s.tasks)) [
    | inl e ↦ rw (e, after_claim) (Change-refl s.runs)
    | inr (row, e) ↦ elim (Option-cases (try_next zones timezone_for now row)) [
      | inl f ↦
          rw (e, f, after_claim)
            (claim_loop-Change rounds (quarantine_due row.task_id now s) base c)
      | inr (next_run, f) ↦ rw (e, f, after_claim) (claim_row-Change row next_run s base c)
    ]
  ]

  pub claim_due-Change :
      (s : Store)
      → Change s.runs
          (after_claim (claim_due zones timezone_for now grace lease run_id token s) s).runs
  unfolding claim_due
  claim_due-Change s = elim (Bool-cases (lease == 0)) [
    | inl e ↦ rw e (Change-refl s.runs)
    | inr e ↦ rw e (claim_loop-Change (suc (length s.tasks)) s s (Change-refl s.runs))
  ]

set_task-Change :
    (id : String) (state : TaskState) (next_run : Option ℕ) (now : ℕ) (s base : Store)
    → Change base.runs s.runs
    → Change base.runs (after (set_task id state next_run now s) base).runs
unfolding set_task
set_task-Change id state next_run now s base c = read_task-Change id base _ c

set_missed-Change :
    (id run_id task_id : String) (t now : ℕ) (s : Store) (o : Outcome Failure (Dict String RunRow))
    → insert_run (missed_run run_id task_id t now) s.runs ≡ o
    → Change s.runs (after (set_missed id now s o) s).runs
unfolding set_missed
set_missed-Change id run_id task_id t now s (err e) h = Change-refl s.runs
set_missed-Change id run_id task_id t now s (ok b) h =
    set_task-Change id completed none now _ s
      (insert_run-Change (missed_run run_id task_id t now) s.runs b refl refl (λ x. cc) h)

resume_over-Change :
    (id run_id : String) (task : ScheduledTask) (o : Option ℕ) (now : ℕ) (s : Store)
    → Change s.runs (after (resume_over id run_id task o now s) s).runs
unfolding resume_over
resume_over-Change id run_id task none now s = Change-refl s.runs
resume_over-Change id run_id task (some t) now s =
    elim (Bool-cases (task.schedule.kind == "once")) [
      | inl e ↦ rw e (set_missed-Change id run_id task.task_id t now s _ refl)
      | inr e ↦ rw e (Change-refl s.runs)
    ]

resume-Change :
    (id run_id : String) (task : ScheduledTask) (now : ℕ) (s : Store)
    (o : Outcome Failure (Option ℕ))
    → Change s.runs (after (resume id run_id task now s o) s).runs
unfolding resume
resume-Change id run_id task now s (err e) = Change-refl s.runs
resume-Change id run_id task now s (ok none) =
    resume_over-Change id run_id task task.next_run_at now s
resume-Change id run_id task now s (ok (some t)) =
    set_task-Change id active (some t) now s s (Change-refl s.runs)

module _ (zones : Zones) (id run_id : String) (state : TaskState) (revision now : ℕ)
    (s : Store) where
  set_allowed-Change :
      (task : ScheduledTask) (o : Outcome Failure (Unit {0}))
      → Change s.runs (after (set_allowed zones id run_id task state revision now s o) s).runs
  unfolding set_allowed
  set_allowed-Change task (err e) = Change-refl s.runs
  set_allowed-Change task (ok _) =
      elim (Bool-cases (
        not (task.revision == revision)
        || (is_deleted task.state || is_completed task.state && not (is_deleted state)))) [
          | inl e ↦ rw e (Change-refl s.runs)
          | inr e ↦ elim (Bool-cases (is_active state && not (is_active task.state))) [
            | inl f ↦
                rw (e, f)
                  (resume-Change id run_id task now s
                    (next_after zones task.schedule now task.timezone))
            | inr f ↦
                rw (e, f) (set_task-Change id state task.next_run_at now s s (Change-refl s.runs))
          ]
        ]

  set_row-Change :
      (keys : List String) (tenant_key : String) (o : Option TaskRow)
      → Change s.runs
          (after (set_row zones id run_id keys state tenant_key revision now s o) s).runs
  unfolding set_row
  set_row-Change keys tenant_key none = Change-refl s.runs
  set_row-Change keys tenant_key (some row) = elim (Option-cases (task_of row)) [
    | inl e ↦ rw (e, after) (Change-refl s.runs)
    | inr (task, e) ↦ rw (e, after) (set_allowed-Change task _)
  ]

  pub set_state-Change :
      (keys : List String) (tenant_key : String)
      → Change s.runs
          (after (set_state zones id run_id keys state tenant_key revision now s) s).runs
  unfolding set_state
  set_state-Change keys tenant_key = elim (Bool-cases (is_settable state)) [
    | inl e ↦ rw e (set_row-Change keys tenant_key (Dict.get id s.tasks))
    | inr e ↦ rw e (Change-refl s.runs)
  ]
