-- ===== src/Agent/Authorizations.antt =====
-- feishu/agent/session.py: `PendingAuthorization` and `InMemoryPendingAuthorizationStore`. The state
-- "awaiting_authorization" is `awaiting` here.
pub mod Once
pub mod Tests
use open_feishu.Common.{
  ℕ, String, Bool, true, false, ◌&&◌, ◌||◌, not, Option, none, some, List, Outcome, ok, err, ◌==◌,
  string_eq, if◌then◌else◌,
}
use open_feishu.Dict
use open_feishu.Dict.{Dict}
use open_feishu.Json.{Json, Fields}
use open_feishu.Agent.Pending.{
  PendingState, awaiting, executing, execution_unknown, expired, ClaimResult, claimed,
  already_claimed, claim_expired, is_scheduled, is_awaiting, is_expired, is_over, Expiry,
  expiry_missing, expiry, StoreError, key_error,
}

pub record PendingAuthorization : Type 0 where
  pub authorization_id : String
  pub session_id : String
  pub tool_call_id : String
  pub tool_name : String
  pub arguments : Json
  pub scopes : List String
  pub owner_user_keys : List String
  pub tenant_key : Option String
  pub chat_id : Option String
  pub created_message_id : Option String
  pub created_event_id : Option String
  pub created_at : Option ℕ
  pub state : PendingState
  pub extra : Fields

abbrev pub scheduled_authorization_ttl_seconds : ℕ
scheduled_authorization_ttl_seconds = 3600

abbrev pub Authorizations : Type 0
Authorizations = Dict String PendingAuthorization

abbrev pub set_state : PendingState → PendingAuthorization → PendingAuthorization
set_state state a = record a { state = state }

abbrev pub move_to : String → PendingState → Authorizations → Authorizations
move_to id state s = Dict.modify id (set_state state) s

abbrev pub moved : String → Option PendingState → Authorizations → Authorizations
moved id none s = s
moved id (some state) s = move_to id state s

unfoldable pub put : PendingAuthorization → Authorizations → Authorizations
put a s = Dict.put a.authorization_id a s

unfoldable pub get : String → Authorizations → Option PendingAuthorization
get id s = Dict.get id s

unfoldable pub pop : String → Authorizations → Authorizations × Option PendingAuthorization
pop id s = (Dict.del id s, Dict.get id s)

-- The tests of `claim` on what is stored: the answer, and the state if it changes.
unfoldable pub judge : ℕ → PendingAuthorization → ClaimResult × Option PendingState
judge now a =
    if is_scheduled a.session_id && is_expired a.state
    then (claim_expired, none)
    else if is_scheduled a.session_id
        && (is_awaiting a.state && is_over scheduled_authorization_ttl_seconds now a.created_at)
    then (claim_expired, some expired)
    else if not (is_awaiting a.state)
    then (already_claimed, none)
    else (claimed, some executing)

unfoldable pub claim : ℕ → String → Authorizations → Authorizations × ClaimResult
claim now id s = elim (Dict.get id s) [
  | none ↦ (s, ClaimResult.missing)
  | some a ↦ (moved id (judge now a).1 s, (judge now a).0)
]

unfoldable pub expire_if_pending : String → ℕ → Authorizations → Authorizations × Expiry
expire_if_pending id now s = elim (Dict.get id s) [
  | none ↦ (s, expiry_missing)
  | some a ↦
      if is_scheduled a.session_id
      then (
        moved id (expiry scheduled_authorization_ttl_seconds now a.state a.created_at).1 s,
        (expiry scheduled_authorization_ttl_seconds now a.state a.created_at).0,
      )
      else (s, expiry_missing)
]

unfoldable pub complete : String → String → Authorizations → Authorizations
complete id outcome s =
    if (outcome == "unknown") || (outcome == "frozen")
    then move_to id execution_unknown s
    else if outcome == "retry"
    then move_to id awaiting s
    else Dict.del id s

unfoldable pub update :
    {T : Type 0}
    → String
    → (PendingAuthorization → T × PendingAuthorization)
    → Authorizations
    → Outcome StoreError (Authorizations × T)
update id mutator s = elim (Dict.get id s) [
  | none ↦ err key_error
  | some a ↦ ok (Dict.put id (mutator a).1 s, (mutator a).0)
]
