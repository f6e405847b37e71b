-- ===== src/Http/Tests.antt =====
-- The transport on concrete answers.
use open_feishu.Json
use open_feishu.Common.{
  pos, ℕ, zero, suc, ◌*◌, ◌≤◌, ◌≡◌, refl, arith, true, Option, none, some, [], ◌∷◌, All, nats_eqb,
  length,
}
use open_feishu.Json.{Json, text, array, item, no_items, object, field, no_fields, number}
use open_feishu.Http.Errors.{
  is_auth_error, described, error_text, classified, error_from_envelope, FeishuError, api,
}
use open_feishu.Http.Classify.{
  Response, payload_of, error_reply, envelope_error, classify_payload, classify_request, succeeded,
}
use open_feishu.Http.Retry.{
  RetryPolicy, codes, is_idempotent, retriable, should_retry, past_deadline, delay, elapsed_budget,
}
use open_feishu.Http.Send.{World, heard, goes_on, send_from, send}
use open_feishu.Http.Send.Ends.{Ends, send-Ends}
use open_feishu.Http.Send.Budget.{Sleeps, Draws, sum, delay-le, send-sleeps}
use open_feishu.Http.Permission.{violations, collect, from_keys, permission_subjects}
use open_feishu.Http.Request.{request, AllInit, limited, request-resent}

http : Unit {0}
unfolding nats_eqb Json.find is_auth_error described error_text classified error_from_envelope
    payload_of error_reply envelope_error classify_payload classify_request succeeded codes
    is_idempotent retriable should_retry past_deadline delay elapsed_budget heard goes_on send_from
    send request
http = tt

abbrev policy : RetryPolicy
policy = record {
  max_attempts = 3;
  base_delay = 5;
  max_delay = 30;
  jitter = true;
  max_elapsed = none;
}

abbrev body : ℕ → Json
body code = object (field "code" (number (pos code)) no_fields)

abbrev slow_down : Response
slow_down = record {
  status_code = 429;
  logid = some "lg";
  ratelimit_reset = some 7;
  body = some (body 99991400);
  content = "";
}

abbrev fine : Response
fine = record slow_down { status_code = 200; body = some (body 0) }

-- The network fails at first, then the limit is reached, then the request is served.
abbrev answers : ℕ → Option Response
answers zero = none
answers (suc zero) = none
answers (suc (suc zero)) = some slow_down
answers _ = some fine

abbrev world : World Response
world = record { answer = answers; uniform = λ k d. d; clock = λ k. 40 * k }

abbrev later : World Response
later = record world { answer = λ k. answers (suc k) }

get_requests : (request policy world "get" true).answers ≡ none ∷ some slow_down ∷ some fine ∷ []
unfolding http
get_requests = refl

post_requests : (request policy world "POST" true).answers ≡ none ∷ []
unfolding http
post_requests = refl

slept : (request policy world "GET" true).sleeps ≡ 5 ∷ 7 ∷ []
unfolding http
slept = refl

send-Ends_example :
    Ends "get"
      (classify_request true)
      (send policy world "get" (classify_request true)).answers
      (send policy world "get" (classify_request true)).result
    × (length (send policy world "get" (classify_request true)).answers ≤ 3)
send-Ends_example = send-Ends policy world "get" (classify_request true) (omega arith)

world-Draws : Draws world
world-Draws = λ k d. omega arith

world-Sleeps : Sleeps policy world (classify_request true)
world-Sleeps = (
  omega arith,
  λ k e reset h. omega (arith, delay-le policy (world.uniform k) k reset (world-Draws k)),
)

send-sleeps_example :
    (sum (send policy world "GET" (classify_request true)).sleeps ≤ elapsed_budget policy)
    × All (λ d. d ≤ 30) (send policy world "GET" (classify_request true)).sleeps
send-sleeps_example =
    send-sleeps policy world "GET" (classify_request true) world-Sleeps world-Draws

request-resent_example : AllInit (λ a. limited a ≡ true) (request policy later "POST" true).answers
unfolding http
request-resent_example = request-resent policy later "POST" true (omega arith) refl

permissions : Unit {0}
unfolding Json.find violations collect from_keys permission_subjects
permissions = tt

abbrev violation : Json
violation = object (field "subject" (text "im:message") no_fields)

abbrev refused : FeishuError
refused = record {
  kind = api;
  code = number (pos 1);
  message = text "denied";
  log_id = none;
  raw = object (
      field "error"
        (object (
          field "permission_violations" (array (item violation (item violation no_items)))
            no_fields))
        no_fields);
  reset_after = none;
}

refused_subjects : permission_subjects refused ≡ "im:message" ∷ []
unfolding permissions
refused_subjects = refl
