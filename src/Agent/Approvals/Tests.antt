-- ===== src/Agent/Approvals/Tests.antt =====
-- A message that waits for the consent of its user.
use open_feishu.Common.{
  String, ◌≡◌, refl, true, false, none, some, ◌⊎◌, [], ◌∷◌, ok, Unique, string_eq,
}
use open_feishu.Dict
use open_feishu.Dict.{Dict}
use open_feishu.Json.{text, object, no_fields}
use open_feishu.Agent.Pending.{
  awaiting, executing, execution_unknown, PendingApproval, after_scope, is_scheduled, put, get,
  is_tampered, judge, claim, expire_if_pending, complete, set_state,
}
use open_feishu.Agent.Approvals.{
  executed, replayed, completed, Execution, ToolResult, Engine, World, done, dispatch_cancelled,
  gives, Outside, text_of, outcome_of,
}
use open_feishu.Agent.Approvals.Action.{completes, records}
use open_feishu.Agent.Approvals.Running.{
  conclude, hit, look_up, replay, dispatches, finish, key_of, store_result, store_with, keep,
  after_dispatch, run_tool, on_claimed_decision,
}
use open_feishu.Agent.Approvals.Decision.{
  approve, settle_cancelled, run_claimed, decide, on_decision, cancels, on_cancel, with_key,
  on_request,
}
use open_feishu.Agent.Approvals.Ends.{Ends, Uncalled}
use open_feishu.Agent.Approvals.Settled.{run_claimed-Ends}
use open_feishu.Agent.Approvals.Consent.{Consents, on_decision-Consents}
use open_feishu.Agent.Approvals.Preserve.{calls_of}
use open_feishu.Agent.Approvals.Invariant.{IsValid}
use open_feishu.Agent.Approvals.Once.{
  System, requests, begins, ends, Reach, made, after, Reach-IsValid, dispatched-Unique,
}
use open_feishu.Agent.Approvals.Replay.{Answers, run_claimed-replayed}

approvals : Unit {0}
unfolding Dict.get Dict.put Dict.del Dict.modify after_scope is_scheduled put get is_tampered judge
    claim expire_if_pending complete text_of completes records conclude hit look_up replay
    dispatches finish store_result store_with keep after_dispatch run_tool on_claimed_decision
    settle_cancelled run_claimed decide on_decision cancels on_cancel with_key on_request
approvals = tt

abbrev message : PendingApproval
message = record {
  approval_id = "a-1";
  session_id = "chat::u-1";
  tool_call_id = "call-1";
  tool_name = "send_message";
  arguments = object no_fields;
  payload_sha256 = some "5f2a";
  idempotency_key = some "k-1";
  owner_user_keys = "u-1" ∷ [];
  tenant_key = none;
  chat_id = some "oc-1";
  created_message_id = some "om-1";
  created_event_id = none;
  created_at = some 100;
  state = awaiting;
  extra = no_fields;
}

abbrev engine : Engine
engine = record {
  outcome_status = [];
  has_audit = true;
  lookup_key = λ key tool. tool;
  derive_key = λ a. a.approval_id;
}

abbrev sent : ToolResult
sent = record {
  outcome = completed;
  content = text "sent";
  authorize_url = none;
  auth_scopes = [];
  is_error = false;
}

abbrev outside : Outside
outside = record {
  now = 110;
  lookup = done;
  dispatch = gives sent;
  store = done;
  audit_cancelled = λ event. false;
}

-- The task is cancelled while the tool runs.
abbrev stopped : Outside
stopped = record outside { dispatch = dispatch_cancelled }

abbrev idle : World
idle = record {
  approvals = [];
  executions = some [];
  audit = [];
  dispatched = [];
  execution_started = false;
}

abbrev at_hand : World
at_hand = record idle { approvals = ("a-1", message) ∷ [] }

abbrev in_execution : World
in_execution = record idle { approvals = ("a-1", set_state executing message) ∷ [] }

approved :
    (on_decision engine outside "a-1" approve (some "5f2a") at_hand).0
    ≡ ok (outcome_of executed (text "sent") false)
unfolding approvals
approved = refl

-- The wrong hash is refused, and the approval still waits.
forged : (on_decision engine outside "a-1" approve (some "0000") at_hand).1 ≡ at_hand
unfolding approvals
forged = refl

-- After the cancellation nobody knows whether the message was sent.
stopped_unknown :
    (on_decision engine stopped "a-1" approve (some "5f2a") at_hand).1.approvals
    ≡ ("a-1", set_state execution_unknown message) ∷ []
unfolding approvals
stopped_unknown = refl

run_claimed-Ends_example :
    Ends message in_execution (run_claimed engine stopped message in_execution)
unfolding approvals
run_claimed-Ends_example =
    run_claimed-Ends engine stopped message in_execution (set_state executing message, refl, refl)

keyed : (a : PendingApproval) → Dict.get "a-1" at_hand.approvals ≡ some a → a.approval_id ≡ "a-1"
unfolding approvals
keyed a h = let e : some message ≡ some a = h in cc

on_decision-Consents_example :
    Uncalled at_hand (on_decision engine outside "a-1" approve (some "5f2a") at_hand).1
    ⊎ Consents "a-1" approve
        (some "5f2a")
        at_hand
        (on_decision engine outside "a-1" approve (some "5f2a") at_hand).1
on_decision-Consents_example =
    on_decision-Consents engine outside "a-1" approve (some "5f2a") at_hand keyed

abbrev resting : System
resting = record { world = idle; flight = [] }

abbrev requested : System
requested = record { world = (on_request engine outside message idle).1; flight = [] }

abbrev begun : System
begun = record {
  world = record (requested.world) { approvals = ("a-1", set_state executing message) ∷ [] };
  flight = ("a-1", message) ∷ [];
}

abbrev ended : System
ended = record { world = (run_claimed engine outside message begun.world).1; flight = [] }

history : Reach ended
unfolding approvals
history =
    after {t = begun}
      (after {t = requested}
        (after {t = resting} (made refl refl) (requests engine outside message refl refl refl refl))
        (begins "a-1" (some "5f2a") 110 message _ refl refl refl))
      (ends engine outside "a-1" message refl refl)

Reach-IsValid_example : IsValid ended.world.approvals (calls_of ended.world.dispatched) ended.flight
Reach-IsValid_example = Reach-IsValid history

dispatched-Unique_example : Unique (calls_of ended.world.dispatched)
dispatched-Unique_example = dispatched-Unique history

-- The same write, requested again.
abbrev repeated : PendingApproval
repeated = record message { approval_id = "a-2"; tool_call_id = "call-2" }

abbrev later : World
later = record idle {
  approvals = ("a-2", set_state executing repeated) ∷ [];
  executions = (run_claimed engine outside message in_execution).1.executions;
}

abbrev rows_left : Dict String Execution
rows_left =
    (
      key_of engine message,
      record { payload_sha256 = message.payload_sha256; result = text "sent" },
    )
    ∷ []

run_claimed-replayed_example :
    Answers
      (ok (outcome_of replayed (text "sent") false))
      later
      (run_claimed engine outside repeated later)
unfolding approvals
run_claimed-replayed_example =
    run_claimed-replayed engine outside outside message repeated [] rows_left rows_left in_execution
      later (outcome_of executed (text "sent") false) refl refl refl refl refl refl refl refl refl
      refl
