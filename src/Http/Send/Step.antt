-- ===== src/Http/Send/Step.antt =====
-- The step of `_send`'s loop, with its two ends: the answer settles the call, or it is retried.
use open_feishu.Common.{
  ℕ, suc, ◌<◌, ◌≡◌, refl, String, Bool-cases, true, inl, inr, ◌⊎◌, Option, some, Outcome, ok, err,
  leb, leb_false→lt,
}
use open_feishu.Http.Errors.{FeishuError, PyError}
use open_feishu.Http.Classify.{Reply, value, failed, crashed}
use open_feishu.Http.Retry.{RetryPolicy, retriable, should_retry, delay}
use open_feishu.Http.Send.{World, Failure, raised, crash, heard, settle, again, send_from, goes_on}

abbrev pub outcome : {A : Type 0} → Reply A → Outcome Failure A
outcome (value v) = ok v
outcome (crashed x) = err (crash x)
outcome (failed e _) = err (raised e)

pub Reply-cases :
    {A : Type 0} (r : Reply A)
    → ((v : A) × (r ≡ value v))
      ⊎ (((x : PyError) × (r ≡ crashed x))
          ⊎ ((e : FeishuError) × (reset : Option ℕ) × (r ≡ failed e reset)))
Reply-cases (value v) = inl (v, refl)
Reply-cases (crashed x) = inr (inl (x, refl))
Reply-cases (failed e reset) = inr (inr (e, reset, refl))

pub goes_on-retriable :
    {R : Type 0} (policy : RetryPolicy) (w : World R) (method : String) (attempt : ℕ)
    (e : FeishuError) (reset : Option ℕ)
    → goes_on policy w method attempt e reset ≡ true
    → (attempt < policy.max_attempts) × (retriable method e.kind ≡ true)
unfolding goes_on should_retry
goes_on-retriable policy w method attempt e reset h =
    elim (Bool-cases (leb policy.max_attempts attempt)) [
      | inl q ↦ cc (rw q at h)
      | inr q ↦ elim (Bool-cases (retriable method e.kind)) [
        | inl t ↦ (leb_false→lt _ _ q, t)
        | inr t ↦ cc (rw (q, t) at h)
      ]
    ]

module _ {R A : Type 0} where
  pub send_from-step :
      (policy : RetryPolicy) (w : World R) (method : String) (classify : R → Reply A)
      (left attempt : ℕ) (last : Option FeishuError)
      → (send_from policy w method classify (suc left) attempt last
          ≡ settle (w.answer attempt) (outcome (heard classify (w.answer attempt))))
        ⊎ ((e : FeishuError) × (reset : Option ℕ) × (heard classify (w.answer attempt)
              ≡ failed e reset)
            × (goes_on policy w method attempt e reset ≡ true)
            × (send_from policy w method classify (suc left) attempt last
                ≡ again
                    (w.answer attempt)
                    (delay policy (w.uniform attempt) attempt reset)
                    (send_from policy w method classify left (suc attempt) (some e))))
  unfolding send_from
  send_from-step policy w method classify left attempt last =
      elim (Reply-cases (heard classify (w.answer attempt))) [
        | inl (v, p) ↦ inl (rw (p, send_from) refl)
        | inr (inl (x, p)) ↦ inl (rw (p, send_from) refl)
        | inr (inr (e, reset, p)) ↦ elim (Bool-cases (goes_on policy w method attempt e reset)) [
          | inl g ↦ inr (e, reset, p, g, rw (p, g, send_from) refl)
          | inr g ↦ inl (rw (p, g, send_from) refl)
        ]
      ]
