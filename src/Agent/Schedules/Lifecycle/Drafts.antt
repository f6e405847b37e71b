-- ===== src/Agent/Schedules/Lifecycle/Drafts.antt =====
-- The calls about drafts and timezones leave the runs as they are.
use open_feishu.Common.{
  ℕ, ◌+◌, ◌≡◌, refl, ◌∙◌, String, ◌||◌, not, Option, none, some, List, [], ◌∷◌, inl, inr, leb, ◌==◌,
  string_eq, nat_eq, Bool-cases, Option-cases, Outcome, ok, err, length,
}
use open_feishu.Dict
use open_feishu.Dict.{Dict}
use open_feishu.Texts.{has_text, is_tenant}
use open_feishu.Agent.Schedules.Owners.{owner_keys_of}
use open_feishu.Agent.Schedules.Calendar.{Failure, Zones, made}
use open_feishu.Agent.Schedules.Rows.{Payload, DraftRow, TaskRow, ScheduledTask, Store, task_of}
use open_feishu.Agent.Schedules.Drafts.{
  is_policy, draft_of, drafted, draft_payload, draft_owned, create_draft, store_task, confirm_at,
  confirm_owned, confirm_row, confirm_draft,
}
use open_feishu.Agent.Schedules.Listing.{
  quarantine, rezone, is_calendar, is_ahead, refresh_task, if_unread, readable, refresh_tasks,
  refresh_rows, refresh_timezones,
}
use open_feishu.Agent.Schedules.Calls.{after, after_refresh}
use open_feishu.Agent.Schedules.Lifecycle.{Change, Change-refl}
use open_feishu.Agent.Schedules.Lifecycle.Tasks.{read_task-Change}

module _ (zones : Zones) (digest : Payload → String) where
  drafted-Change :
      (id : String) (row : DraftRow) (s : Store) (o : Outcome Failure (Dict String DraftRow))
      → Change s.runs (after (drafted zones digest id row s o) s).runs
  drafted-Change id row s (err e) = Change-refl s.runs
  drafted-Change id row s (ok drafts) = Change-refl s.runs

  draft_payload-Change :
      (id : String) (now ttl : ℕ) (p : Payload) (s : Store) (o : Outcome Failure ℕ)
      → Change s.runs (after (draft_payload zones digest id now ttl p s o) s).runs
  unfolding draft_payload
  draft_payload-Change id now ttl p s (err e) = Change-refl s.runs
  draft_payload-Change id now ttl p s (ok t) =
      drafted-Change id (draft_of zones digest id (now + ttl) p) s _

  draft_owned-Change :
      (id : String) (now ttl : ℕ) (p : Payload) (s : Store) (o : Option (List String))
      → Change s.runs (after (draft_owned zones digest id now ttl p s o) s).runs
  unfolding draft_owned
  draft_owned-Change id now ttl p s none = Change-refl s.runs
  draft_owned-Change id now ttl p s (some owner) =
      elim (Bool-cases ((ttl == 0) || (not (has_text p.chat_id) || not (has_text p.instruction)))) [
        | inl e ↦ rw e (Change-refl s.runs)
        | inr e ↦ elim (Bool-cases (is_policy p.policy)) [
          | inl f ↦
              rw (e, f) (draft_payload-Change id now ttl (record p { owner_keys = owner }) s _)
          | inr f ↦ rw (e, f) (Change-refl s.runs)
        ]
      ]

  pub create_draft-Change :
      (id : String) (now ttl : ℕ) (p : Payload) (s : Store)
      → Change s.runs (after (create_draft zones digest id now ttl p s) s).runs
  unfolding create_draft
  create_draft-Change id now ttl p s = elim (Bool-cases (is_tenant p.tenant_key)) [
    | inl e ↦ rw e (draft_owned-Change id now ttl p s (owner_keys_of p.owner_keys))
    | inr e ↦ rw e (Change-refl s.runs)
  ]

  module _ (draft_id task_id tenant_key : String) (now : ℕ) (s : Store) where
    store_task-Change :
        (o : Outcome Failure (Dict String TaskRow))
        → Change s.runs (after (store_task zones digest draft_id task_id s o) s).runs
    unfolding store_task
    store_task-Change (err e) = Change-refl s.runs
    store_task-Change (ok tasks) = read_task-Change task_id s _ (Change-refl s.runs)

    confirm_at-Change :
        (p : Payload) (o : Outcome Failure ℕ)
        → Change s.runs
            (after (confirm_at zones digest draft_id task_id p tenant_key now s o) s).runs
    unfolding confirm_at
    confirm_at-Change p (err e) = Change-refl s.runs
    confirm_at-Change p (ok t) = store_task-Change _

    confirm_owned-Change :
        (p : Payload) (o : Outcome Failure (Unit {0}))
        → Change s.runs
            (after (confirm_owned zones digest draft_id task_id p tenant_key now s o) s).runs
    unfolding confirm_owned
    confirm_owned-Change p (err e) = Change-refl s.runs
    confirm_owned-Change p (ok _) = elim (Option-cases (made p.schedule)) [
      | inl e ↦ rw (e, after) (Change-refl s.runs)
      | inr (schedule, e) ↦ rw (e, after) (confirm_at-Change p _)
    ]

    confirm_row-Change :
        (keys : List String) (hash : String) (o : Option DraftRow)
        → Change s.runs
            (after (confirm_row zones digest draft_id task_id keys hash tenant_key now s o) s).runs
    unfolding confirm_row
    confirm_row-Change keys hash none = Change-refl s.runs
    confirm_row-Change keys hash (some row) = elim (Bool-cases (leb row.expires_at now)) [
      | inl e ↦ rw e (Change-refl s.runs)
      | inr e ↦
          elim (Bool-cases (not (row.payload_hash == hash) || not (digest row.payload == hash))) [
            | inl f ↦ rw (e, f) (Change-refl s.runs)
            | inr f ↦ rw (e, f) (confirm_owned-Change row.payload _)
          ]
    ]

    pub confirm_draft-Change :
        (keys : List String) (hash : String)
        → Change s.runs
            (after (confirm_draft zones digest draft_id task_id keys hash tenant_key now s) s).runs
    unfolding confirm_draft
    confirm_draft-Change keys hash = confirm_row-Change keys hash (Dict.get draft_id s.drafts)

rezone-runs :
    (zone : String) (o : Outcome Failure (Option ℕ)) (task : ScheduledTask) (now : ℕ) (s : Store)
    → (rezone zone o task now s).runs ≡ s.runs
unfolding rezone quarantine
rezone-runs zone (err e) task now s = refl
rezone-runs zone (ok t) task now s = refl

if_unread-runs :
    (o : Option ScheduledTask) (row : TaskRow) (now : ℕ) (s : Store)
    → (if_unread o row now s).runs ≡ s.runs
unfolding quarantine
if_unread-runs none row now s = refl
if_unread-runs (some task) row now s = refl

readable-runs : (rows : List TaskRow) (now : ℕ) (s : Store) → (readable rows now s).0.runs ≡ s.runs
unfolding readable
readable-runs [] now s = refl
readable-runs (row ∷ rows) now s =
    readable-runs rows now (if_unread (task_of row) row now s)
    ∙ if_unread-runs (task_of row) row now s

module _ (zones : Zones) (timezone_for : ScheduledTask → Option String) where
  refresh_task-runs :
      (task : ScheduledTask) (now : ℕ) (s : Store)
      → (refresh_task zones timezone_for task now s).runs ≡ s.runs
  unfolding refresh_task quarantine
  refresh_task-runs task now s = elim (Bool-cases (is_calendar task)) [
    | inr e ↦ rw e refl
    | inl e ↦ elim (Option-cases (timezone_for task)) [
      | inl f ↦ rw (e, f) refl
      | inr (zone, f) ↦
          elim (Bool-cases ((zone == task.timezone) || not (is_ahead task.next_run_at now))) [
            | inl g ↦ rw (e, f, g) refl
            | inr g ↦ rw (e, f, g) (rezone-runs zone _ task now s)
          ]
    ]
  ]

  refresh_tasks-runs :
      (tasks : List ScheduledTask) (now : ℕ) (s : Store)
      → (refresh_tasks zones timezone_for tasks now s).runs ≡ s.runs
  unfolding refresh_tasks
  refresh_tasks-runs [] now s = refl
  refresh_tasks-runs (task ∷ tasks) now s =
      refresh_tasks-runs tasks now (refresh_task zones timezone_for task now s)
      ∙ refresh_task-runs task now s

  refresh_rows-Change :
      (rows : List TaskRow) (now : ℕ) (s : Store)
      → Change s.runs (refresh_rows zones timezone_for rows now s).runs
  unfolding refresh_rows
  refresh_rows-Change rows now s =
      let read = readable rows now s in
      rw (refresh_tasks-runs read.1 now read.0 ∙ readable-runs rows now s) (Change-refl s.runs)

  pub refresh_timezones-Change :
      (now : ℕ) (ids : Option (List String)) (s : Store)
      → Change s.runs (after_refresh (refresh_timezones zones timezone_for now ids s) s).runs
  unfolding refresh_timezones
  refresh_timezones-Change now none s = refresh_rows-Change _ now s
  refresh_timezones-Change now (some ids) s = elim (Bool-cases (leb (length ids) 1024)) [
    | inl e ↦ rw e (refresh_rows-Change _ now s)
    | inr e ↦ rw e (Change-refl s.runs)
  ]
