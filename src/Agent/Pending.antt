-- ===== src/Agent/Pending.antt =====
-- feishu/agent/session.py: `PendingApproval` and `InMemoryPendingApprovalStore`. A call gets what the
-- clock reads, in seconds.
use package.text.Mathlib.Text.{starts_with, find?}
use Prim.Native.String.{slice, len}
use open_feishu.Common.{
  ℕ, ◌+◌, String, Bool, true, false, ◌&&◌, ◌||◌, not, Option, none, some, List, Outcome, ok, err,
  leb, ltb, ◌==◌, string_eq, if◌then◌else◌,
}
use open_feishu.Dict
use open_feishu.Dict.{Dict, or_else}
use open_feishu.Json.{Json, Fields}

-- The texts of `state`: "awaiting_confirmation", "executing", "execution_unknown", "expired", and
-- what else an update may write.
pub data PendingState : Type 0 where
  awaiting executing execution_unknown expired : PendingState
  other : String → PendingState

pub record PendingApproval : Type 0 where
  pub approval_id : String
  pub session_id : String
  pub tool_call_id : String
  pub tool_name : String
  pub arguments : Json
  pub payload_sha256 : Option String
  pub idempotency_key : Option String
  pub owner_user_keys : List String
  pub tenant_key : Option String
  pub chat_id : Option String
  pub created_message_id : Option String
  pub created_event_id : Option String
  pub created_at : Option ℕ
  pub state : PendingState
  pub extra : Fields

abbrev pub scheduled_approval_ttl_seconds : ℕ
scheduled_approval_ttl_seconds = 1800

pub data ClaimResult : Type 0 where
  claimed already_claimed superseded tampered claim_expired missing : ClaimResult

abbrev pub Approvals : Type 0
Approvals = Dict String PendingApproval

-- `text.split("::", 1)[-1]`.
unfoldable pub after_scope : String → String
after_scope text = elim (find? text "::") [ none ↦ text | some i ↦ slice text (i + 2) (len text) ]

-- `_scheduled_approval` and `_scheduled_authorization`, for a session.
unfoldable pub is_scheduled : String → Bool
is_scheduled session_id = starts_with (after_scope session_id) "scheduled:"

abbrev pub is_awaiting : PendingState → Bool
is_awaiting awaiting = true
is_awaiting _ = false

abbrev pub is_expired : PendingState → Bool
is_expired expired = true
is_expired _ = false

-- `created_at is not None and now >= created_at + …`.
abbrev pub is_over : ℕ → ℕ → Option ℕ → Bool
is_over ttl now none = false
is_over ttl now (some created) = leb (created + ttl) now

abbrev pub set_state : PendingState → PendingApproval → PendingApproval
set_state state approval = record approval { state = state }

abbrev pub move_to : String → PendingState → Approvals → Approvals
move_to id state s = Dict.modify id (set_state state) s

unfoldable pub put : PendingApproval → Approvals → Approvals
put approval s = Dict.put approval.approval_id approval s

unfoldable pub pop : String → Approvals → Approvals × Option PendingApproval
pop id s = (Dict.del id s, Dict.get id s)

unfoldable pub get : String → Approvals → Option PendingApproval
get id s = Dict.get id s

-- `expected_payload_sha256 != stored_sha`, the text that is stored or "".
abbrev pub differs : Option String → String → Bool
differs none stored = true
differs (some expected) stored = not (expected == stored)

abbrev pub is_given : Option String → Bool
is_given none = false
is_given (some _) = true

unfoldable pub is_tampered : Option String → PendingApproval → Bool
is_tampered expected approval =
    let stored = or_else approval.payload_sha256 "" in
    (not (stored == "") || is_given expected) && differs expected stored

-- The tests of `claim` on what is stored: the answer, and the state if it changes.
unfoldable pub judge : ℕ → Option String → PendingApproval → ClaimResult × Option PendingState
judge now expected approval =
    if is_scheduled approval.session_id && is_expired approval.state
    then (claim_expired, none)
    else if is_scheduled approval.session_id
        && (is_awaiting approval.state
            && is_over scheduled_approval_ttl_seconds now approval.created_at)
    then (claim_expired, some expired)
    else if is_tampered expected approval
    then (tampered, none)
    else if not (is_awaiting approval.state)
    then (already_claimed, none)
    else (claimed, some executing)

abbrev pub moved : String → Option PendingState → Approvals → Approvals
moved id none s = s
moved id (some state) s = move_to id state s

unfoldable pub claim : ℕ → String → Option String → Approvals → Approvals × ClaimResult
claim now id expected s = elim (Dict.get id s) [
  | none ↦ (s, missing)
  | some approval ↦ (moved id (judge now expected approval).1 s, (judge now expected approval).0)
]

-- The texts that `expire_if_pending` answers.
pub data Expiry : Type 0 where
  expiry_missing expiry_expired expiry_unknown expiry_executing expiry_not_due : Expiry

abbrev pub expiry : ℕ → ℕ → PendingState → Option ℕ → Expiry × Option PendingState
expiry ttl now expired created = (expiry_expired, none)
expiry ttl now execution_unknown created = (expiry_unknown, none)
expiry ttl now executing created = (expiry_executing, none)
expiry ttl now (other _) created = (expiry_unknown, none)
expiry ttl now awaiting none = (expiry_unknown, none)
expiry ttl now awaiting (some created) =
    if ltb now (created + ttl) then (expiry_not_due, none) else (expiry_expired, some expired)

unfoldable pub expire_if_pending : String → ℕ → Approvals → Approvals × Expiry
expire_if_pending id now s = elim (Dict.get id s) [
  | none ↦ (s, expiry_missing)
  | some approval ↦
      if is_scheduled approval.session_id
      then (
        moved id (expiry scheduled_approval_ttl_seconds now approval.state approval.created_at).1 s,
        (expiry scheduled_approval_ttl_seconds now approval.state approval.created_at).0,
      )
      else (s, expiry_missing)
]

unfoldable pub complete : String → String → Approvals → Approvals
complete id outcome s =
    if outcome == "retry"
    then move_to id awaiting s
    else if (outcome == "unknown") || (outcome == "frozen")
    then move_to id execution_unknown s
    else Dict.del id s

-- KeyError where there is no approval.
pub data StoreError : Type 0 where
  key_error : StoreError

unfoldable pub update :
    {T : Type 0}
    → String
    → (PendingApproval → T × PendingApproval)
    → Approvals
    → Outcome StoreError (Approvals × T)
update id mutator s = elim (Dict.get id s) [
  | none ↦ err key_error
  | some approval ↦ ok (Dict.put id (mutator approval).1 s, (mutator approval).0)
]
