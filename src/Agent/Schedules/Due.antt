-- ===== src/Agent/Schedules/Due.antt =====
-- feishu/agent/scheduled.py: `ScheduledTaskStore.claim_due`, which starts the run of a task whose
-- time has come.
use Prim.Native.Nat.{Ordering}
use Prim.Native.String.{compare}
use open_feishu.Common.{
  ℕ, zero, suc, ◌+◌, ◌-◌, String, Bool, true, false, ◌&&◌, ◌||◌, Option, none, some, List, [], ◌∷◌,
  Outcome, ok, err, ltb, ◌==◌, string_eq, nat_eq, if◌then◌else◌, length,
}
use open_feishu.Dict.{Dict}
use open_feishu.Texts.{is_tenant}
use open_feishu.Agent.Schedules.Owners.{owner_keys_of}
use open_feishu.Agent.Schedules.Calendar.{Failure, value_error, Zones, next_after}
use open_feishu.Agent.Schedules.Tables.{update_where, exists_row}
use open_feishu.Agent.Schedules.Rows.{
  TaskState, active, completed, error, TaskRow, ScheduledTask, RunStatus, running, missed,
  skipped_overlap, pending, RunRow, ScheduledRun, Store, Transaction, is_due, is_running, is_open,
  is_active, task_of,
}
use open_feishu.Agent.Schedules.Runs.{read_back}
use open_feishu.Agent.Schedules.Manage.{session_of, advanced, insert_run}

-- A row of a task whose time has come.
abbrev pub is_due_task : ℕ → TaskRow → Bool
is_due_task now row = is_active row.state && is_due row.next_run_at now

abbrev pub time_of : Option ℕ → ℕ
time_of none = 0
time_of (some t) = t

abbrev pub text_ltb : String → String → Bool
text_ltb s t = elim (compare s t) [ Ordering.lt ↦ true | _ ↦ false ]

-- ORDER BY next_run_at, task_id
abbrev pub goes_before : TaskRow → TaskRow → Bool
goes_before row q =
    let t = time_of row.next_run_at in
    let u = time_of q.next_run_at in ltb t u || t == u && text_ltb row.task_id q.task_id

abbrev pub sooner : TaskRow → Option TaskRow → Option TaskRow
sooner row none = some row
sooner row (some q) = if goes_before q row then some q else some row

-- The SELECT of the loop.
unfoldable pub first_due : ℕ → Dict String TaskRow → Option TaskRow
first_due now [] = none
first_due now ((key, row) ∷ tasks) =
    let rest = first_due now tasks in if is_due_task now row then sooner row rest else rest

-- `WHERE task_id=?`
abbrev pub is_task : String → TaskRow → Bool
is_task task_id row = row.task_id == task_id

-- The run that a claim inserts: `token` is the new lease's.
unfoldable pub claimed_run : String → String → String → ℕ → RunStatus → ℕ → ℕ → RunRow
claimed_run run_id token task_id occurrence status now lease_seconds = record {
  run_id = run_id;
  task_id = task_id;
  scheduled_for = occurrence;
  status = status;
  session_id = session_of task_id run_id;
  started_at = if is_running status then some now else none;
  finished_at = if is_running status then none else some now;
  summary = none;
  delivery_status = pending;
  delivery_deadline = none;
  delivery_token = none;
  wait_kind = none;
  wait_id = none;
  wait_deadline = none;
  lease_token = if is_running status then some token else none;
  lease_until = if is_running status then some (now + lease_seconds) else none;
}

abbrev pub is_open_run : String → RunRow → Bool
is_open_run task_id r = (r.task_id == task_id) && is_open r.status

-- The status of the new run.
unfoldable pub claim_status : ℕ → ℕ → ℕ → String → Dict String RunRow → RunStatus
claim_status now grace_seconds occurrence task_id runs =
    if ltb grace_seconds (now - occurrence)
    then missed
    else if exists_row (is_open_run task_id) runs
    then skipped_overlap
    else running

abbrev pub state_after : Option ℕ → TaskState
state_after none = completed
state_after (some t) = active

abbrev pub some_run : Transaction ScheduledRun → Transaction (Option ScheduledRun)
some_run (err e) = err e
some_run (ok (s, r)) = ok (s, some r)

unfoldable pub start_run :
    String
    → String
    → Option ℕ
    → ℕ
    → Store
    → Outcome Failure (Dict String RunRow)
    → Transaction (Option ScheduledRun)
start_run task_id run_id next_run now s (err e) = err e
start_run task_id run_id next_run now s (ok runs) = some_run (
    read_back run_id (record s {
      runs = runs;
      tasks = update_where (is_task task_id) (advanced (state_after next_run) next_run now) s.tasks;
    }))

unfoldable pub quarantine_due : String → ℕ → Store → Store
quarantine_due task_id now s = record s {
  tasks = update_where (is_task task_id) (advanced error none now) s.tasks;
}

abbrev pub next_of : Outcome Failure (Option ℕ) → Option (Option ℕ)
next_of (err e) = none
next_of (ok r) = some r

abbrev pub owner_found : Option (List String) → Bool
owner_found none = false
owner_found (some _) = true

-- `timezone_for` gives no zone where it raises.
module _ (zones : Zones) (timezone_for : Option (ScheduledTask → Option String)) where
  abbrev pub zone_for : Option (ScheduledTask → Option String) → ScheduledTask → Option String
  zone_for none task = some task.timezone
  zone_for (some f) task = f task

  unfoldable pub next_for : ScheduledTask → ℕ → Option String → Option (Option ℕ)
  next_for task now none = none
  next_for task now (some zone) = next_of (next_after zones task.schedule now zone)

  abbrev pub try_task : ℕ → Option ScheduledTask → Option (Option ℕ)
  try_task now none = none
  try_task now (some task) =
      if is_tenant task.tenant_key && owner_found (owner_keys_of task.owner_keys)
      then next_for task now (zone_for timezone_for task)
      else none

  -- The `try` block: the task's next time, or no value where it raises.
  unfoldable pub try_next : ℕ → TaskRow → Option (Option ℕ)
  try_next now row = try_task now (task_of row)

  module _ (now grace_seconds lease_seconds : ℕ) (run_id token : String) where
    abbrev pub claim_row : TaskRow → Option ℕ → Store → Transaction (Option ScheduledRun)
    claim_row row next_run s =
        let occurrence = time_of row.next_run_at in
        let status = claim_status now grace_seconds occurrence row.task_id s.runs in
        start_run row.task_id run_id next_run now s (
          insert_run (claimed_run run_id token row.task_id occurrence status now lease_seconds)
            s.runs)

    -- The `while` loop, with some rounds to go.
    unfoldable pub claim_loop : ℕ → Store → Option (Transaction (Option ScheduledRun))
    claim_loop zero s = none
    claim_loop (suc rounds) s = elim (first_due now s.tasks) [
      | none ↦ some (ok (s, none))
      | some row ↦ elim (try_next now row) [
        | none ↦ claim_loop rounds (quarantine_due row.task_id now s)
        | some next_run ↦ some (claim_row row next_run s)
      ]
    ]

    -- Each round but the last takes an active task away.
    unfoldable pub claim_due : Store → Option (Transaction (Option ScheduledRun))
    claim_due s =
        if lease_seconds == 0 then some (err value_error) else claim_loop (suc (length s.tasks)) s
