-- ===== src/Agent/Authorizations/Tests.antt =====
-- Two callbacks of one authorization.
use open_feishu.Common.{◌≤◌, ◌≡◌, refl, none, some, List, [], ◌∷◌, string_eq}
use open_feishu.Dict
use open_feishu.Json.{object, no_fields}
use open_feishu.Agent.Pending.{awaiting, expired, claimed, claim_expired, after_scope, is_scheduled}
use open_feishu.Agent.Authorizations.{
  PendingAuthorization, Authorizations, set_state, put, get, pop, judge, claim, expire_if_pending,
  complete,
}
use open_feishu.Agent.Authorizations.Once.{Call, claims, expires, won, won-le}

authorizations : Unit {0}
unfolding Dict.get Dict.put Dict.del Dict.modify after_scope is_scheduled put get pop judge claim
    expire_if_pending complete won
authorizations = tt

abbrev calendar : PendingAuthorization
calendar = record {
  authorization_id = "z-1";
  session_id = "chat::scheduled:s-1";
  tool_call_id = "call-1";
  tool_name = "list_events";
  arguments = object no_fields;
  scopes = "calendar:calendar" ∷ [];
  owner_user_keys = "u-1" ∷ [];
  tenant_key = none;
  chat_id = some "oc-1";
  created_message_id = none;
  created_event_id = none;
  created_at = some 100;
  state = awaiting;
  extra = no_fields;
}

abbrev one : Authorizations
one = ("z-1", calendar) ∷ []

-- A scheduled one is over after an hour.
in_time : (claim 3699 "z-1" one).1 ≡ claimed
unfolding authorizations
in_time = refl

too_late : claim 3700 "z-1" one ≡ (("z-1", set_state expired calendar) ∷ [], claim_expired)
unfolding authorizations
too_late = refl

abbrev callbacks : List Call
callbacks = claims "z-1" 110 ∷ expires "z-1" 120 ∷ claims "z-1" 111 ∷ []

one_wins : won "z-1" callbacks one ≡ 1
unfolding authorizations
one_wins = refl

won-le_example : won "z-1" callbacks one ≤ 1
won-le_example = won-le "z-1" callbacks one
