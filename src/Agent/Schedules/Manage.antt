-- ===== src/Agent/Schedules/Manage.antt =====
-- feishu/agent/scheduled.py: how the owner of a task pauses, resumes and deletes it, in
-- `ScheduledTaskStore`.
use open_feishu.Common.{
  ℕ, ◌+◌, String, Bool, true, false, ◌&&◌, ◌||◌, not, Option, none, some, List, Outcome, ok, err,
  ◌==◌, string_eq, nat_eq, if◌then◌else◌,
}
use Prim.Native.String.{◌++◌ as ◌++ₜ◌}
use open_feishu.Dict
use open_feishu.Dict.{Dict}
use open_feishu.Agent.Schedules.Calendar.{Failure, value_error, integrity_error, Zones, next_after}
use open_feishu.Agent.Schedules.Tables.{insert, exists_row}
use open_feishu.Agent.Schedules.Rows.{
  TaskState, active, paused, completed, deleted, TaskRow, ScheduledTask, missed, pending, RunRow,
  Store, Transaction, is_active, task_of,
}
use open_feishu.Agent.Schedules.Drafts.{authorize, read_task}

unfoldable pub get : String → Store → Outcome Failure (Option ScheduledTask)
get id s = elim (Dict.get id s.tasks) [
  | none ↦ ok none
  | some row ↦ elim (task_of row) [ none ↦ err value_error | some task ↦ ok (some task) ]
]

-- The session of a run.
abbrev pub session_of : String → String → String
session_of task_id run_id = "scheduled:" ++ₜ task_id ++ₜ ":" ++ₜ run_id

abbrev pub is_occurrence : String → ℕ → RunRow → Bool
is_occurrence task_id t r = (r.task_id == task_id) && (r.scheduled_for == t)

-- INSERT of a run, under the primary key and the unique pair of task and time.
unfoldable pub insert_run : RunRow → Dict String RunRow → Outcome Failure (Dict String RunRow)
insert_run r runs =
    if exists_row (is_occurrence r.task_id r.scheduled_for) runs
    then err integrity_error
    else insert r.run_id r runs

abbrev pub missed_run : String → String → ℕ → ℕ → RunRow
missed_run run_id task_id scheduled_for now = record {
  run_id = run_id;
  task_id = task_id;
  scheduled_for = scheduled_for;
  status = missed;
  session_id = session_of task_id run_id;
  started_at = none;
  finished_at = some now;
  summary = none;
  delivery_status = pending;
  delivery_deadline = none;
  delivery_token = none;
  wait_kind = none;
  wait_id = none;
  wait_deadline = none;
  lease_token = none;
  lease_until = none;
}

unfoldable pub advanced : TaskState → Option ℕ → ℕ → TaskRow → TaskRow
advanced state next_run now row = record row {
  state = state;
  next_run_at = next_run;
  revision = row.revision + 1;
  updated_at = now;
}

abbrev pub is_deleted : TaskState → Bool
is_deleted deleted = true
is_deleted _ = false

abbrev pub is_completed : TaskState → Bool
is_completed completed = true
is_completed _ = false

-- The states that `set_state` accepts.
abbrev pub is_settable : TaskState → Bool
is_settable active = true
is_settable paused = true
is_settable deleted = true
is_settable _ = false

-- The UPDATE that ends `set_state`, and the task it returns.
unfoldable pub set_task : String → TaskState → Option ℕ → ℕ → Store → Transaction ScheduledTask
set_task id state next_run now s =
    read_task id (record s { tasks = Dict.modify id (advanced state next_run now) s.tasks })

unfoldable pub set_missed :
    String → ℕ → Store → Outcome Failure (Dict String RunRow) → Transaction ScheduledTask
set_missed id now s (err e) = err e
set_missed id now s (ok runs) = set_task id completed none now (record s { runs = runs })

-- A task that becomes active where its schedule has no further occurrence.
unfoldable pub resume_over :
    String → String → ScheduledTask → Option ℕ → ℕ → Store → Transaction ScheduledTask
resume_over id run_id task none now s = err value_error
resume_over id run_id task (some t) now s =
    if task.schedule.kind == "once"
    then set_missed id now s (insert_run (missed_run run_id task.task_id t now) s.runs)
    else err value_error

unfoldable pub resume :
    String
    → String
    → ScheduledTask
    → ℕ
    → Store
    → Outcome Failure (Option ℕ)
    → Transaction ScheduledTask
resume id run_id task now s (err e) = err e
resume id run_id task now s (ok none) = resume_over id run_id task task.next_run_at now s
resume id run_id task now s (ok (some t)) = set_task id active (some t) now s

module _ (zones : Zones) where
  unfoldable pub set_allowed :
      String
      → String
      → ScheduledTask
      → TaskState
      → ℕ
      → ℕ
      → Store
      → Outcome Failure (Unit {0})
      → Transaction ScheduledTask
  set_allowed id run_id task state expected_revision now s (err e) = err e
  set_allowed id run_id task state expected_revision now s (ok _) =
      if not (task.revision == expected_revision)
        || (is_deleted task.state || is_completed task.state && not (is_deleted state))
      then err value_error
      else if is_active state && not (is_active task.state)
      then resume id run_id task now s (next_after zones task.schedule now task.timezone)
      else set_task id state task.next_run_at now s

  unfoldable pub set_row :
      String
      → String
      → List String
      → TaskState
      → String
      → ℕ
      → ℕ
      → Store
      → Option TaskRow
      → Transaction ScheduledTask
  set_row id run_id keys state tenant_key expected_revision now s none = err value_error
  set_row id run_id keys state tenant_key expected_revision now s (some row) = elim (task_of row) [
    | none ↦ err value_error
    | some task ↦
        set_allowed id run_id task state expected_revision now s
          (authorize task.tenant_key task.owner_keys tenant_key keys)
  ]

  -- `run_id` is the missed run's, if there is one.
  unfoldable pub set_state :
      String → String → List String → TaskState → String → ℕ → ℕ → Store → Transaction ScheduledTask
  set_state id run_id keys state tenant_key expected_revision now s =
      if is_settable state
      then set_row id run_id keys state tenant_key expected_revision now s (Dict.get id s.tasks)
      else err value_error
