-- ===== src/Agent/Schedules/Drafts.antt =====
-- feishu/agent/scheduled.py: drafts, and the tasks that their owners confirm and manage, in
-- `ScheduledTaskStore`.
use open_feishu.Common.{
  ℕ, ◌+◌, String, Bool, true, false, ◌||◌, not, Option, none, some, List, Outcome, ok, err, leb,
  ◌==◌, string_eq, nat_eq, if◌then◌else◌,
}
use open_feishu.Dict
use open_feishu.Dict.{Dict}
use open_feishu.Texts.{has_text, is_tenant}
use open_feishu.Agent.Schedules.Owners.{owner_keys_of, is_owner}
use open_feishu.Agent.Schedules.Calendar.{
  Failure, value_error, permission_error, Zones, made, next_after,
}
use open_feishu.Agent.Schedules.Tables.{insert}
use open_feishu.Agent.Schedules.Rows.{
  Payload, DraftRow, ScheduledDraft, active, TaskRow, ScheduledTask, Store, Transaction, task_of,
}

unfoldable pub is_policy : String → Bool
is_policy policy = (policy == "read_only") || (policy == "confirm_writes")

-- The next occurrence, where `None` is an error too.
abbrev pub upcoming : Outcome Failure (Option ℕ) → Outcome Failure ℕ
upcoming (err e) = err e
upcoming (ok none) = err value_error
upcoming (ok (some t)) = ok t

-- The creator's tenant and one of the creator's keys.
abbrev pub owns : Option Bool → Outcome Failure (Unit {0})
owns none = err value_error
owns (some true) = ok tt
owns (some false) = err permission_error

unfoldable pub authorize : String → List String → String → List String → Outcome Failure (Unit {0})
authorize stored_tenant stored_keys tenant_key keys =
    if not (is_tenant tenant_key)
    then err value_error
    else if not (stored_tenant == tenant_key)
    then err permission_error
    else owns (is_owner stored_keys keys)

abbrev pub read_made : Store → Option ScheduledTask → Transaction ScheduledTask
read_made s none = err value_error
read_made s (some task) = ok (s, task)

abbrev pub read_row : Store → Option TaskRow → Transaction ScheduledTask
read_row s none = err value_error
read_row s (some row) = read_made s (task_of row)

-- The SELECT that ends a transaction: the row is there.
abbrev pub read_task : String → Store → Transaction ScheduledTask
read_task id s = read_row s (Dict.get id s.tasks)

-- `digest` is `hashlib.sha256` of the JSON text of a payload.
module _ (zones : Zones) (digest : Payload → String) where
  abbrev pub draft_of : String → ℕ → Payload → DraftRow
  draft_of id expires_at p = record {
    payload = p;
    payload_hash = digest p;
    expires_at = expires_at;
  }

  abbrev pub drafted :
      String
      → DraftRow
      → Store
      → Outcome Failure (Dict String DraftRow)
      → Transaction ScheduledDraft
  drafted id row s (err e) = err e
  drafted id row s (ok drafts) = ok (
    record s { drafts = drafts },
    record { draft_id = id; payload_hash = row.payload_hash; expires_at = row.expires_at },
  )

  unfoldable pub draft_payload :
      String → ℕ → ℕ → Payload → Store → Outcome Failure ℕ → Transaction ScheduledDraft
  draft_payload id now ttl p s (err e) = err e
  draft_payload id now ttl p s (ok t) =
      let row = draft_of id (now + ttl) p in drafted id row s (insert id row s.drafts)

  unfoldable pub draft_owned :
      String → ℕ → ℕ → Payload → Store → Option (List String) → Transaction ScheduledDraft
  draft_owned id now ttl p s none = err value_error
  draft_owned id now ttl p s (some owner) =
      if (ttl == 0) || (not (has_text p.chat_id) || not (has_text p.instruction))
      then err value_error
      else if not (is_policy p.policy)
      then err value_error
      else draft_payload id now ttl (record p { owner_keys = owner }) s
          (upcoming (next_after zones p.schedule now p.timezone))

  -- `id` is the new draft's, and `p` holds the arguments, the owner's keys as they are given.
  unfoldable pub create_draft : String → ℕ → ℕ → Payload → Store → Transaction ScheduledDraft
  create_draft id now ttl p s =
      if is_tenant p.tenant_key
      then draft_owned id now ttl p s (owner_keys_of p.owner_keys)
      else err value_error

  abbrev pub new_task : String → Payload → String → ℕ → ℕ → TaskRow
  new_task task_id p tenant_key now next_run = record {
    task_id = task_id;
    tenant_key = tenant_key;
    owner_keys = p.owner_keys;
    chat_id = p.chat_id;
    instruction = p.instruction;
    schedule = p.schedule;
    policy = p.policy;
    timezone = p.timezone;
    state = active;
    next_run_at = some next_run;
    revision = 1;
    created_at = now;
    updated_at = now;
  }

  unfoldable pub store_task :
      String → String → Store → Outcome Failure (Dict String TaskRow) → Transaction ScheduledTask
  store_task draft_id task_id s (err e) = err e
  store_task draft_id task_id s (ok tasks) =
      read_task task_id (record s { tasks = tasks; drafts = Dict.del draft_id s.drafts })

  unfoldable pub confirm_at :
      String → String → Payload → String → ℕ → Store → Outcome Failure ℕ → Transaction ScheduledTask
  confirm_at draft_id task_id p tenant_key now s (err e) = err e
  confirm_at draft_id task_id p tenant_key now s (ok next_run) =
      store_task draft_id task_id s
        (insert task_id (new_task task_id p tenant_key now next_run) s.tasks)

  unfoldable pub confirm_owned :
      String
      → String
      → Payload
      → String
      → ℕ
      → Store
      → Outcome Failure (Unit {0})
      → Transaction ScheduledTask
  confirm_owned draft_id task_id p tenant_key now s (err e) = err e
  confirm_owned draft_id task_id p tenant_key now s (ok _) = elim (made p.schedule) [
    | none ↦ err value_error
    | some schedule ↦
        confirm_at draft_id task_id p tenant_key now s
          (upcoming (next_after zones schedule now p.timezone))
  ]

  unfoldable pub confirm_row :
      String
      → String
      → List String
      → String
      → String
      → ℕ
      → Store
      → Option DraftRow
      → Transaction ScheduledTask
  confirm_row draft_id task_id keys payload_hash tenant_key now s none = err value_error
  confirm_row draft_id task_id keys payload_hash tenant_key now s (some row) =
      if leb row.expires_at now
      then err value_error
      else if not (row.payload_hash == payload_hash) || not (digest row.payload == payload_hash)
      then err value_error
      else confirm_owned draft_id task_id row.payload tenant_key now s
          (authorize row.payload.tenant_key row.payload.owner_keys tenant_key keys)

  -- `task_id` is the new task's.
  unfoldable pub confirm_draft :
      String → String → List String → String → String → ℕ → Store → Transaction ScheduledTask
  confirm_draft draft_id task_id keys payload_hash tenant_key now s =
      confirm_row draft_id task_id keys payload_hash tenant_key now s (Dict.get draft_id s.drafts)
