-- ===== src/Http/Send.antt =====
-- feishu/_transport.py: `_send`, the loop that sends a request until its answer is settled.
pub mod Step
pub mod Ends
pub mod Budget
use open_feishu.Common.{
  ℕ, zero, suc, ◌+◌, ◌&&◌, not, ltb, Bool, String, if◌then◌else◌, Option, none, some, List, [], ◌∷◌,
  Outcome, ok, err,
}
use open_feishu.Http.Errors.{FeishuError, PyError}
use open_feishu.Http.Classify.{Reply, value, failed, crashed, transport_error}
use open_feishu.Http.Retry.{RetryPolicy, elapsed_budget, delay, should_retry, past_deadline}

-- What the outside gives at each attempt: an answer of httpx, absent for an `httpx.RequestError`, the
-- draw of `random.uniform`, and the time that `time.monotonic` reads after the answer. The
-- reading 0 is the one of `_deadline`.
pub record World (R : Type 0) : Type 0 where
  pub answer : ℕ → Option R
  pub uniform : ℕ → ℕ → ℕ
  pub clock : ℕ → ℕ

-- `raise last_exc`, an exception of `classify`, and the AssertionError after the loop.
pub data Failure : Type 0 where
  raised : FeishuError → Failure
  crash : PyError → Failure
  assertion_error : Failure

-- The answers to the requests that were sent, the sleeps between them, and what `_send` gives.
pub record Run (R A : Type 0) : Type 0 where
  pub answers : List (Option R)
  pub sleeps : List ℕ
  pub result : Outcome Failure A

-- `_maybe_sleep`, in front of the later sleeps.
abbrev pub maybe_sleep : ℕ → List ℕ → List ℕ
maybe_sleep d sleeps = if ltb 0 d then d ∷ sleeps else sleeps

-- `self._should_retry(…) and not self._past_deadline(…)` at an attempt.
unfoldable pub goes_on :
    {R : Type 0} → RetryPolicy → World R → String → ℕ → FeishuError → Option ℕ → Bool
goes_on policy w method attempt e reset =
    should_retry policy method e.kind attempt
    && not (
        past_deadline (w.clock attempt) (w.clock 0 + elapsed_budget policy)
          (delay policy (w.uniform attempt) attempt reset))

module _ {R A : Type 0} where
  -- One attempt: an error of the network, or what `classify` says of the response.
  unfoldable pub heard : (R → Reply A) → Option R → Reply A
  heard classify none = failed transport_error none
  heard classify (some resp) = classify resp

  abbrev pub settle : Option R → Outcome Failure A → Run R A
  settle answer result = record { answers = answer ∷ []; sleeps = []; result = result }

  abbrev pub again : Option R → ℕ → Run R A → Run R A
  again answer planned rest = record {
    answers = answer ∷ rest.answers;
    sleeps = maybe_sleep planned rest.sleeps;
    result = rest.result;
  }

  -- The statements after the loop.
  abbrev pub after_loop : Option FeishuError → Run R A
  after_loop none = record { answers = []; sleeps = []; result = err assertion_error }
  after_loop (some e) = record { answers = []; sleeps = []; result = err (raised e) }

  -- `for attempt in range(attempt, attempt + left)`.
  unfoldable pub send_from :
      RetryPolicy → World R → String → (R → Reply A) → ℕ → ℕ → Option FeishuError → Run R A
  send_from policy w method classify zero attempt last = after_loop last
  send_from policy w method classify (suc left) attempt last =
      elim (heard classify (w.answer attempt)) [
        | value v ↦ settle (w.answer attempt) (ok v)
        | crashed x ↦ settle (w.answer attempt) (err (crash x))
        | failed e reset ↦
            let rest = send_from policy w method classify left (suc attempt) (some e) in
            if goes_on policy w method attempt e reset
            then again (w.answer attempt) (delay policy (w.uniform attempt) attempt reset) rest
            else settle (w.answer attempt) (err (raised e))
      ]

  unfoldable pub send : RetryPolicy → World R → String → (R → Reply A) → Run R A
  send policy w method classify = send_from policy w method classify policy.max_attempts 1 none
