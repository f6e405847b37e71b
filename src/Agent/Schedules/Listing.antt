-- ===== src/Agent/Schedules/Listing.antt =====
-- feishu/agent/scheduled.py: the tasks that an owner sees, and the timezones of calendar tasks, in
-- `ScheduledTaskStore`.
use Prim.Native.Nat.{Ordering}
use Prim.Native.String.{compare}
use open_feishu.Common.{
  ℕ, ◌+◌, String, Bool, true, false, ◌&&◌, ◌||◌, not, Option, none, some, List, [], ◌∷◌, Outcome,
  ok, err, leb, ltb, ◌==◌, string_eq, nat_eq, if◌then◌else◌, take, length, mem,
}
use open_feishu.Texts.{is_tenant}
use open_feishu.Agent.Schedules.Owners.{owner_keys_of, meets}
use open_feishu.Agent.Schedules.Calendar.{Failure, value_error, Zones, next_after}
use open_feishu.Agent.Schedules.Tables.{update_key, select}
use open_feishu.Agent.Schedules.Rows.{
  TaskState, error, TaskRow, ScheduledTask, Store, is_active, task_of,
}
use open_feishu.Agent.Schedules.Runs.{order_by}
use open_feishu.Agent.Schedules.Manage.{advanced, is_deleted}

-- The rows whose owner has one of the keys, as tasks, up to a row that cannot be read.
unfoldable pub owned_by : List String → List TaskRow → Outcome Failure (List ScheduledTask)
owned_by owner [] = ok []
owned_by owner (row ∷ rows) =
    let rest = owned_by owner rows in
    elim (task_of row) [
      | none ↦ err value_error
      | some task ↦
          if meets task.owner_keys owner
          then elim rest [ err e ↦ err e | ok tasks ↦ ok (task ∷ tasks) ]
          else rest
    ]

abbrev lists : String → TaskRow → Bool
lists tenant_key row = not (is_deleted row.state) && row.tenant_key == tenant_key

unfoldable pub list_owned : List String → String → Store → Outcome Failure (List ScheduledTask)
list_owned keys tenant_key s = elim (owner_keys_of keys) [
  | none ↦ err value_error
  | some owner ↦
      if is_tenant tenant_key
      then owned_by owner (order_by (λ r. r.created_at) (select (lists tenant_key) s.tasks))
      else err value_error
]

abbrev pub is_error : TaskState → Bool
is_error error = true
is_error _ = false

-- `AND state='active' AND revision=?`
abbrev unmoved : ℕ → TaskRow → Bool
unmoved revision row = is_active row.state && row.revision == revision

unfoldable pub quarantine : String → ℕ → ℕ → Store → Store
quarantine id revision now s = record s {
  tasks = update_key id (unmoved revision) (advanced error none now) s.tasks;
}

unfoldable pub rezoned : String → Option ℕ → ℕ → TaskRow → TaskRow
rezoned zone next_run now row = record row {
  timezone = zone;
  next_run_at = next_run;
  revision = row.revision + 1;
  updated_at = now;
}

abbrev pub is_calendar : ScheduledTask → Bool
is_calendar task = task.schedule.kind == "calendar"

unfoldable pub rezone : String → Outcome Failure (Option ℕ) → ScheduledTask → ℕ → Store → Store
rezone zone (err e) task now s = quarantine task.task_id task.revision now s
rezone zone (ok next_run) task now s = record s {
  tasks = update_key task.task_id (unmoved task.revision) (rezoned zone next_run now) s.tasks;
}

-- The trigger is yet to come.
abbrev pub is_ahead : Option ℕ → ℕ → Bool
is_ahead none now = false
is_ahead (some t) now = ltb now t

abbrev pub found : Option ScheduledTask → List ScheduledTask → List ScheduledTask
found none tasks = tasks
found (some task) tasks = task ∷ tasks

abbrev pub if_unread : Option ScheduledTask → TaskRow → ℕ → Store → Store
if_unread none row now s = quarantine row.task_id row.revision now s
if_unread (some task) row now s = s

-- The first loop of `refresh_timezones`: the tasks that can be read.
unfoldable pub readable : List TaskRow → ℕ → Store → Store × List ScheduledTask
readable [] now s = (s, [])
readable (row ∷ rows) now s =
    let rest = readable rows now (if_unread (task_of row) row now s) in
    (rest.0, found (task_of row) rest.1)

-- `timezone_for` gives no zone where it raises.
module _ (zones : Zones) (timezone_for : ScheduledTask → Option String) where
  unfoldable pub refresh_task : ScheduledTask → ℕ → Store → Store
  refresh_task task now s =
      if is_calendar task
      then elim (timezone_for task) [
        | none ↦ quarantine task.task_id task.revision now s
        | some zone ↦
            if (zone == task.timezone) || not (is_ahead task.next_run_at now)
            then s
            else rezone zone (next_after zones task.schedule now zone) task now s
      ]
      else s

  unfoldable pub refresh_tasks : List ScheduledTask → ℕ → Store → Store
  refresh_tasks [] now s = s
  refresh_tasks (task ∷ tasks) now s = refresh_tasks tasks now (refresh_task task now s)

  unfoldable pub refresh_rows : List TaskRow → ℕ → Store → Store
  refresh_rows rows now s = let read = readable rows now s in refresh_tasks read.1 now read.0

  abbrev pub among : List String → TaskRow → Bool
  among ids row = is_active row.state && mem row.task_id ids

  unfoldable pub refresh_timezones : ℕ → Option (List String) → Store → Outcome Failure Store
  refresh_timezones now none s =
      ok (refresh_rows (select (λ row. is_active row.state) s.tasks) now s)
  refresh_timezones now (some ids) s =
      if leb (length ids) 1024
      then ok (refresh_rows (select (among ids) s.tasks) now s)
      else err value_error

abbrev text_ltb : String → String → Bool
text_ltb s t = elim (compare s t) [ Ordering.lt ↦ true | _ ↦ false ]

unfoldable pub insert_id : TaskRow → List TaskRow → List TaskRow
insert_id row [] = row ∷ []
insert_id row (q ∷ rows) =
    let rest = insert_id row rows in
    if text_ltb q.task_id row.task_id then q ∷ rest else row ∷ q ∷ rows

unfoldable pub order_by_id : List TaskRow → List TaskRow
order_by_id [] = []
order_by_id (row ∷ rows) = insert_id row (order_by_id rows)

unfoldable pub calendar_tasks : List TaskRow → List ScheduledTask
calendar_tasks [] = []
calendar_tasks (row ∷ rows) =
    let rest = calendar_tasks rows in
    elim (task_of row) [ none ↦ rest | some task ↦ if is_calendar task then task ∷ rest else rest ]

unfoldable pub last_id : List TaskRow → String
last_id [] = ""
last_id (row ∷ []) = row.task_id
last_id (row ∷ q ∷ rows) = last_id (q ∷ rows)

abbrev comes_after : String → TaskRow → Bool
comes_after cursor row = is_active row.state && text_ltb cursor row.task_id

unfoldable pub active_calendar_batch :
    String → ℕ → Store → Outcome Failure (List ScheduledTask × String)
active_calendar_batch cursor limit s =
    if leb 1 limit && leb limit 1024
    then (let rows = take limit (order_by_id (select (comes_after cursor) s.tasks)) in
        ok (calendar_tasks rows, if length rows == limit then last_id rows else ""))
    else err value_error
