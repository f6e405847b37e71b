-- ===== src/Events/Runner/Tests.antt =====
-- A worker on the messages of one chat.
use open_feishu.Common.{◌≡◌, refl, String, true, false, none, some, [], List, ◌∷◌, ok, string_eq}
use open_feishu.Dict
use open_feishu.Events.Job.{EventJob, running, retry_wait, completed}
use open_feishu.Events.Memory.Store.{
  Store, init, expired, purge, recover, recover_expired, enqueue, new_job,
}
use open_feishu.Events.Memory.Claim.{
  collect_unresolved, is_first, eligible, candidates, start, sweep, choose, claim_next,
}
use open_feishu.Events.Memory.Settle.{
  owned, renewed, renew, marked, mark_side_effect_started, finished, complete, put_back, retry,
  frozen, mark_unknown,
}
use open_feishu.Events.Memory.Wakeup.{get}
use open_feishu.Events.Runner.{
  Runner, Act, beats, marks, others, returns, raises, perform, handle, delay, settle_failure,
  conclude, process, run_once, Round, drain,
}

worker : Unit {0}
unfolding Dict.get Dict.has Dict.put Dict.modify Dict.setdefault init expired purge recover
    recover_expired enqueue collect_unresolved is_first eligible candidates start sweep choose
    claim_next owned renewed renew marked mark_side_effect_started finished complete put_back retry
    frozen mark_unknown get perform handle delay settle_failure conclude process run_once drain
worker = tt

abbrev runner : Runner
runner = record {
  worker_id = "w";
  lease_seconds = 60;
  backoff_base_seconds = 1;
  backoff_max_seconds = 300;
  protected = false;
}

abbrev one : Store String
one = record { max_attempts = 5; jobs = ("e1", new_job "e1" "hello" "chat" 10) ∷ [] }

abbrev begun : EventJob String
begun = record (new_job "e1" "hello" "chat" 10) {
  status = running;
  attempt = 1;
  worker_id = some "w";
  lease_until = some 72;
  updated_at = 12;
}

-- A handler that fails before any effect is tried again a second later.
retried :
    (run_once runner 12 [] 20 (raises "TimeoutError") one).1
    ≡ ok (
        some (record begun {
          status = retry_wait;
          worker_id = none;
          lease_until = none;
          available_at = 21;
          updated_at = 20;
          error_type = some "TimeoutError";
        }))
unfolding worker
retried = refl

-- The worker is stopped while a message is being sent.
abbrev acts : List (Act String)
acts = beats 32 ∷ marks ∷ []

-- While the first message is answered another one comes in.
abbrev arrives : Act String
arrives = others (λ s. (enqueue "e2" "and you?" "group" 30 s).0)

abbrev rounds : List (Round String)
rounds =
    record { current = 12; acts = arrives ∷ acts; now = 40; ending = returns }
    ∷ record { current = 41; acts = []; now = 42; ending = raises "TimeoutError" }
    ∷ record { current = 42; acts = []; now = 42; ending = returns }
    ∷ []

-- The second message is put back, and then there is nothing to do.
drained :
    (drain runner rounds one).1
    ≡ ok (
        record begun {
          status = completed;
          side_effect_started = true;
          worker_id = none;
          lease_until = none;
          updated_at = 40;
        }
        ∷ record (new_job "e2" "and you?" "group" 30) {
          status = retry_wait;
          attempt = 1;
          available_at = 43;
          updated_at = 42;
          error_type = some "TimeoutError";
        }
        ∷ [])
unfolding worker
drained = refl
