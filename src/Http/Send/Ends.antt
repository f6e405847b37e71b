-- ===== src/Http/Send/Ends.antt =====
-- How `_send` ends: with what the last answer says, and every answer before it allowed a retry.
use open_feishu.Common.{
  ℕ, zero, suc, ◌+◌, ◌≤◌, ◌<◌, ◌≡◌, refl, sym, subst, arith, String, Bool, true, false, inl, inr,
  Option, none, some, List, [], ◌∷◌, Outcome, length,
}
use open_feishu.Http.Errors.{FeishuError}
use open_feishu.Http.Classify.{Reply, value, failed, crashed}
use open_feishu.Http.Retry.{RetryPolicy, retriable}
use open_feishu.Http.Send.{World, Failure, Run, heard, send_from, send}
use open_feishu.Http.Send.Step.{outcome, goes_on-retriable, send_from-step}

abbrev pub may_retry : {A : Type 0} → String → Reply A → Bool
may_retry method (value _) = false
may_retry method (crashed _) = false
may_retry method (failed e _) = retriable method e.kind

module _ {R A : Type 0} where
  -- The answers are not empty, the last gives the result, and the others allow a retry.
  abbrev pub Ends : String → (R → Reply A) → List (Option R) → Outcome Failure A → Type 0
  Ends method classify [] r = ⊥
  Ends method classify (a ∷ []) r = r ≡ outcome (heard classify a)
  Ends method classify (a ∷ b ∷ answers) r =
      (may_retry method (heard classify a) ≡ true) × Ends method classify (b ∷ answers) r

  Ends-cons :
      (method : String) (classify : R → Reply A) (a : Option R) (answers : List (Option R))
      (r : Outcome Failure A)
      → may_retry method (heard classify a) ≡ true
      → Ends method classify answers r
      → Ends method classify (a ∷ answers) r
  Ends-cons method classify a [] r h e = elim e [ ]
  Ends-cons method classify a (b ∷ answers) r h e = (h, e)

  abbrev Good : String → (R → Reply A) → ℕ → Run R A → Type 0
  Good method classify n run =
      Ends method classify run.answers run.result × (length run.answers ≤ n)

  send_from-Ends :
      (policy : RetryPolicy) (w : World R) (method : String) (classify : R → Reply A)
      (left attempt : ℕ) (last : Option FeishuError)
      → attempt + left ≡ suc policy.max_attempts
      → attempt ≤ policy.max_attempts
      → Good method classify left (send_from policy w method classify left attempt last)
  send_from-Ends policy w method classify zero attempt last total h = ground arith
  send_from-Ends policy w method classify (suc left) attempt last total h =
      elim (send_from-step policy w method classify left attempt last) [
        | inl p ↦ subst (Good method classify (suc left)) (sym p) (refl, omega arith)
        | inr (e, reset, p, g, q) ↦
            let (more, allowed) = goes_on-retriable policy w method attempt e reset g in
            let rest =
              send_from-Ends policy w method classify left (suc attempt) (some e)
                (omega (arith, total)) (omega (arith, more)) in
            subst (Good method classify (suc left)) (sym q) (
              Ends-cons method classify (w.answer attempt) _ _ (rw p allowed) rest.0,
              omega (arith, rest.1),
            )
      ]

  -- With at least one attempt, `_send` sends a request at least once and `max_attempts` times at
  -- most; it ends as its last answer says, and each earlier answer is an error that allows a retry:
  -- a rate limit, or for an idempotent method an error of the server or the network.
  pub send-Ends :
      (policy : RetryPolicy) (w : World R) (method : String) (classify : R → Reply A)
      → 0 < policy.max_attempts
      → Ends method classify
          (send policy w method classify).answers
          (send policy w method classify).result
        × (length (send policy w method classify).answers ≤ policy.max_attempts)
  unfolding send
  send-Ends policy w method classify h =
      send_from-Ends policy w method classify policy.max_attempts 1 none (omega arith) (omega arith)
