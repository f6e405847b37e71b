-- ===== src/Http/Send/Budget.antt =====
-- The sleeps of `_send` keep within the budget of time and the longest delay.
use open_feishu.Common.{
  ℕ, zero, suc, ◌+◌, ◌-◌, ◌*◌, ◌^◌, ◌≤◌, ◌≡◌, refl, arith, sym, subst, String, Bool-cases, true,
  inl, inr, ◌⊎◌, Option, none, some, List, [], ◌∷◌, ltb, All, min,
}
use open_feishu.Http.Errors.{FeishuError}
use open_feishu.Http.Classify.{Reply, failed}
use open_feishu.Http.Retry.{RetryPolicy, elapsed_budget, delay, past_deadline}
use open_feishu.Http.Send.{World, Run, heard, maybe_sleep, goes_on, send_from, send}
use open_feishu.Http.Send.Step.{send_from-step}

abbrev pub sum : List ℕ → ℕ
sum [] = 0
sum (d ∷ ds) = d + sum ds

sum-maybe_sleep : (d : ℕ) (ds : List ℕ) → sum (maybe_sleep d ds) ≡ d + sum ds
sum-maybe_sleep d ds = ground arith

All-maybe_sleep :
    (m d : ℕ) (ds : List ℕ) → d ≤ m → All (λ x. x ≤ m) ds → All (λ x. x ≤ m) (maybe_sleep d ds)
All-maybe_sleep m d ds h hs = elim (Bool-cases (ltb 0 d)) [ inl e ↦ rw e (h, hs) | inr e ↦ rw e hs ]

-- `random.uniform(0, d)` is at most d.
abbrev pub Draws : {R : Type 0} → World R → Type 0
Draws w = (k d : ℕ) → w.uniform k d ≤ d

pub delay-le :
    (policy : RetryPolicy) (uniform : ℕ → ℕ) (attempt : ℕ) (reset : Option ℕ)
    → ((d : ℕ) → uniform d ≤ d)
    → delay policy uniform attempt reset ≤ policy.max_delay
unfolding delay
delay-le policy uniform attempt (some r) h = omega arith
delay-le policy uniform attempt none h =
    let d = min policy.max_delay (policy.base_delay * 2 ^ (attempt - 1)) in
    elim (Bool-cases policy.jitter) [
      | inl j ↦ elim (Bool-cases (ltb 0 d)) [
        | inl e ↦ rw (j, e) (omega (arith, h d))
        | inr e ↦ rw (j, e) (omega arith)
      ]
      | inr j ↦ rw j (omega arith)
    ]

module _ {R A : Type 0} (policy : RetryPolicy) (w : World R) (classify : R → Reply A) where
  -- The clock does not run back, and a sleep before the attempt k + 1 takes its time.
  abbrev pub Sleeps : Type 0
  Sleeps =
      (w.clock 0 ≤ w.clock 1)
      × ((k : ℕ) (e : FeishuError) (reset : Option ℕ)
          → heard classify (w.answer k) ≡ failed e reset
          → w.clock k + delay policy (w.uniform k) k reset ≤ w.clock (suc k))

  abbrev deadline : ℕ
  deadline = w.clock 0 + elapsed_budget policy

  goes_on-deadline :
      (method : String) (attempt : ℕ) (e : FeishuError) (reset : Option ℕ)
      → goes_on policy w method attempt e reset ≡ true
      → w.clock attempt + delay policy (w.uniform attempt) attempt reset ≤ deadline
  unfolding goes_on past_deadline
  goes_on-deadline method attempt e reset h = ground arith

  abbrev Within : ℕ → Run R A → Type 0
  Within attempt run =
      ((sum run.sleeps ≡ 0) ⊎ (w.clock attempt + sum run.sleeps ≤ deadline))
      × All (λ d. d ≤ policy.max_delay) run.sleeps

  no_attempt-Within :
      (method : String) (attempt : ℕ) (last : Option FeishuError)
      → Within attempt (send_from policy w method classify zero attempt last)
  unfolding send_from
  no_attempt-Within method attempt (some e) = (inl refl, tt)
  no_attempt-Within method attempt none = (inl refl, tt)

  again-deadline :
      (planned attempt : ℕ) (ds : List ℕ)
      → w.clock attempt + planned ≤ w.clock (suc attempt)
      → w.clock attempt + planned ≤ deadline
      → (sum ds ≡ 0) ⊎ (w.clock (suc attempt) + sum ds ≤ deadline)
      → w.clock attempt + sum (maybe_sleep planned ds) ≤ deadline
  again-deadline planned attempt ds passed due (inl z) =
      omega (arith, z, due, sum-maybe_sleep planned ds)
  again-deadline planned attempt ds passed due (inr h) =
      omega (arith, h, passed, sum-maybe_sleep planned ds)

  send_from-Within :
      Sleeps
      → Draws w
      → (method : String) (left attempt : ℕ) (last : Option FeishuError)
      → Within attempt (send_from policy w method classify left attempt last)
  send_from-Within clock draws method zero attempt last = no_attempt-Within method attempt last
  send_from-Within clock draws method (suc left) attempt last =
      elim (send_from-step policy w method classify left attempt last) [
        | inl p ↦ subst (Within attempt) (sym p) (inl refl, tt)
        | inr (e, reset, p, g, q) ↦
            let rest = send_from-Within clock draws method left (suc attempt) (some e) in
            let planned = delay policy (w.uniform attempt) attempt reset in
            subst (Within attempt) (sym q) (
              inr (
                  again-deadline planned attempt _ (clock.1 attempt e reset p)
                    (goes_on-deadline method attempt e reset g) rest.0),
              All-maybe_sleep policy.max_delay planned _
                  (delay-le policy (w.uniform attempt) attempt reset (draws attempt)) rest.1,
            )
      ]

-- Where the clock does not run back, a sleep takes its time and a draw is in its range, the sleeps
-- of a call take no more than the budget, and none is longer than `max_delay`.
pub send-sleeps :
    {R A : Type 0} (policy : RetryPolicy) (w : World R) (method : String) (classify : R → Reply A)
    → Sleeps policy w classify
    → Draws w
    → (sum (send policy w method classify).sleeps ≤ elapsed_budget policy)
      × All (λ d. d ≤ policy.max_delay) (send policy w method classify).sleeps
unfolding send
send-sleeps policy w method classify clock draws =
    let all = send_from-Within policy w classify clock draws method policy.max_attempts 1 none in
    (elim all.0 [ inl z ↦ omega (arith, z) | inr h ↦ omega (arith, h, clock.0) ], all.1)
