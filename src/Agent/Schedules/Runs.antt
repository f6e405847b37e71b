-- ===== src/Agent/Schedules/Runs.antt =====
-- feishu/agent/scheduled.py: the leases of runs and how a run ends, in `ScheduledTaskStore`.
use Prim.Native.String.{count}
use open_feishu.Common.{
  ℕ, suc, ◌+◌, String, Bool, true, false, ◌&&◌, ◌||◌, not, Option, none, some, List, [], ◌∷◌,
  Outcome, ok, err, leb, ◌==◌, string_eq, nat_eq, if◌then◌else◌, map,
}
use open_feishu.Dict
use open_feishu.Dict.{Dict}
use open_feishu.Agent.Schedules.Calendar.{Failure, value_error, permission_error, run_conflict}
use open_feishu.Agent.Schedules.Tables.{update_where, update_key, meets_key, exists_row, select}
use open_feishu.Agent.Schedules.Rows.{
  RunStatus, running, awaiting_authorization, awaiting_confirmation, unknown, succeeded, failed,
  delivery_failed, missed, skipped_overlap, DeliveryStatus, pending, sending, delivery_unknown,
  RunRow, ScheduledRun, Attempt, Store, Transaction, is_after, is_text, is_given, is_running,
  is_unknown, is_open, is_final, run_of,
}

abbrev status_number : RunStatus → ℕ
status_number running = 0
status_number awaiting_authorization = 1
status_number awaiting_confirmation = 2
status_number unknown = 3
status_number succeeded = 4
status_number failed = 5
status_number delivery_failed = 6
status_number missed = 7
status_number skipped_overlap = 8

abbrev pub same_status : RunStatus → RunStatus → Bool
same_status s t = status_number s == status_number t

abbrev pub is_sending : DeliveryStatus → Bool
is_sending sending = true
is_sending _ = false

abbrev pub with_runs : Dict String RunRow → Store → Store
with_runs runs s = record s { runs = runs }

-- A summary that `finish_run` and `ScheduledExecutionResult` accept.
unfoldable pub fits : Option String → Bool
fits none = true
fits (some text) = leb (count text) 2000

-- The run is running under this lease, which has not run out.
abbrev pub leases : String → ℕ → RunRow → Bool
leases token now r =
    is_running r.status && (is_text r.lease_token token && is_after r.lease_until now)

-- The token is the run's, and its lease has not run out.
abbrev pub lease_fits : Option String → ℕ → RunRow → Bool
lease_fits none now r = true
lease_fits (some token) now r = is_text r.lease_token token && is_after r.lease_until now

abbrev pub status_fits : Option RunStatus → RunRow → Bool
status_fits none r = true
status_fits (some status) r = same_status r.status status

-- The tests of `finish_run` on the row raise nothing.
unfoldable pub may_finish : Option RunStatus → Option String → ℕ → RunRow → Bool
may_finish expected_status expected_token now r =
    if not (is_open r.status) || is_unknown r.status
    then false
    else if not (status_fits expected_status r)
    then false
    else if is_running r.status && not (is_given expected_token)
    then false
    else lease_fits expected_token now r

unfoldable pub finished_row : RunStatus → ℕ → Option String → Bool → RunRow → RunRow
finished_row status now summary reset r = record r {
  status = status;
  finished_at = if is_open status then none else some now;
  summary = summary;
  delivery_status = if reset then pending else r.delivery_status;
  delivery_token = if reset then none else r.delivery_token;
  delivery_deadline = if reset then none else r.delivery_deadline;
  lease_until = none;
}

-- A sending attempt whose outcome is no longer waited for.
abbrev pub drop_attempt : ℕ → Attempt → Attempt
drop_attempt now a = record a { status = delivery_unknown; finished_at = some now }

unfoldable pub reset_attempt : ℕ → Bool → Option String → Dict String Attempt → Dict String Attempt
reset_attempt now reset none attempts = attempts
reset_attempt now reset (some token) attempts =
    if reset && not (token == "")
    then update_key token (λ a. is_sending a.status) (drop_attempt now) attempts
    else attempts

-- The SELECT that ends a transaction: the row is there.
abbrev pub read_at : Store → Option RunRow → Transaction ScheduledRun
read_at s none = err run_conflict
read_at s (some r) = ok (s, run_of r)

abbrev pub read_back : String → Store → Transaction ScheduledRun
read_back id s = read_at s (Dict.get id s.runs)

unfoldable pub finish_row :
    String
    → RunStatus
    → ℕ
    → Option String
    → Option RunStatus
    → Option String
    → Bool
    → Store
    → Option RunRow
    → Transaction ScheduledRun
finish_row id status now summary expected_status expected_token reset s none = err run_conflict
finish_row id status now summary expected_status expected_token reset s (some r) =
    if may_finish expected_status expected_token now r
    then read_back id (record s {
      runs = Dict.modify id (finished_row status now summary reset) s.runs;
      attempts = reset_attempt now reset r.delivery_token s.attempts;
    })
    else err run_conflict

unfoldable pub finish_run :
    String
    → RunStatus
    → ℕ
    → Option String
    → Option RunStatus
    → Option String
    → Bool
    → Store
    → Transaction ScheduledRun
finish_run id status now summary expected_status expected_token reset s =
    if not (is_final status)
    then err value_error
    else if not (fits summary)
    then err value_error
    else finish_row id status now summary expected_status expected_token reset s
        (Dict.get id s.runs)

unfoldable pub get_run : String → Store → Option ScheduledRun
get_run id s = elim (Dict.get id s.runs) [ none ↦ none | some r ↦ some (run_of r) ]

unfoldable pub validate_lease : String → Option String → ℕ → Store → Outcome Failure (Unit {0})
validate_lease id none now s = err permission_error
validate_lease id (some token) now s =
    if token == ""
    then err permission_error
    else if meets_key id (leases token now) s.runs
    then ok tt
    else err permission_error

unfoldable pub renew_lease : String → Option String → ℕ → ℕ → Store → Transaction Bool
renew_lease id none now lease_seconds s = err value_error
renew_lease id (some token) now lease_seconds s =
    if (token == "") || (lease_seconds == 0)
    then err value_error
    else ok (
      with_runs
          (update_key id (leases token now)
            (λ r. record r { lease_until = some (now + lease_seconds) }) s.runs)
          s,
      meets_key id (leases token now) s.runs,
    )

-- A running run whose lease is no more.
abbrev pub is_lost : ℕ → RunRow → Bool
is_lost now r = is_running r.status && not (is_after r.lease_until now)

unfoldable pub lost_row : RunRow → RunRow
lost_row r = record r {
  status = unknown;
  summary = some "execution lease expired";
  lease_until = none;
  delivery_status = pending;
  delivery_token = none;
  delivery_deadline = none;
}

-- `status='sending' AND token IN (SELECT delivery_token ...)`, for the rows that meet a condition.
unfoldable pub drop_attempts :
    (RunRow → Bool) → ℕ → Dict String RunRow → Dict String Attempt → Dict String Attempt
drop_attempts p now runs [] = []
drop_attempts p now runs ((token, a) ∷ attempts) =
    let rest = drop_attempts p now runs attempts in
    (
      token,
      if is_sending a.status && exists_row (λ r. p r && is_text r.delivery_token token) runs
          then drop_attempt now a
          else a,
    )
    ∷ rest

-- The count of the rows that met the condition.
unfoldable pub rows_where : (RunRow → Bool) → Dict String RunRow → ℕ
rows_where p [] = 0
rows_where p ((key, r) ∷ runs) = let rest = rows_where p runs in if p r then suc rest else rest

unfoldable pub expire_runs : ℕ → Store → Store × ℕ
expire_runs now s = (
  record s {
    attempts = drop_attempts (is_lost now) now s.runs s.attempts;
    runs = update_where (is_lost now) lost_row s.runs;
  },
  rows_where (is_lost now) s.runs,
)

-- ORDER BY a column.
unfoldable pub insert_by : {T : Type 0} → (T → ℕ) → T → List T → List T
insert_by key r [] = r ∷ []
insert_by key r (q ∷ rows) =
    let rest = insert_by key r rows in if leb (key r) (key q) then r ∷ q ∷ rows else q ∷ rest

unfoldable pub order_by : {T : Type 0} → (T → ℕ) → List T → List T
order_by key [] = []
order_by key (r ∷ rows) = insert_by key r (order_by key rows)

abbrev pub task_is : String → RunRow → Bool
task_is task_id r = r.task_id == task_id

unfoldable pub runs : String → Store → List ScheduledRun
runs task_id s = map run_of (order_by (λ r. r.scheduled_for) (select (task_is task_id) s.runs))
