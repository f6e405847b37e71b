-- ===== src/Http/Retry.antt =====
-- feishu/_transport.py: `RetryPolicy`, and the tests by which `Transport` decides on a retry. Times
-- are numbers of ticks; a hint below zero counts as zero, with which the source does the same.
use Prim.Native.Char.{code}
use Prim.Native.String.{[] as no_text, ◌∷◌ as ◌∷ₜ◌}
use open_feishu.Common.{
  ℕ, ◌+◌, ◌-◌, ◌*◌, ◌^◌, min, ◌||◌, ◌&&◌, ltb, leb, Bool, true, false, String, ◌==◌, nats_eq,
  if◌then◌else◌, Option, none, some, List, [], ◌∷◌, map,
}
use open_feishu.Http.Errors.{Kind, rate_limit, server, transport}

pub record RetryPolicy : Type 0 where
  pub max_attempts : ℕ
  pub base_delay : ℕ
  pub max_delay : ℕ
  pub jitter : Bool
  pub max_elapsed : Option ℕ

unfoldable pub elapsed_budget : RetryPolicy → ℕ
elapsed_budget policy = elim policy.max_elapsed [
  | some budget ↦ budget
  | none ↦ policy.max_delay * policy.max_attempts
]

-- `uniform d` is the draw `random.uniform(0, d)`.
unfoldable pub delay : RetryPolicy → (ℕ → ℕ) → ℕ → Option ℕ → ℕ
delay policy uniform attempt (some reset_after) = min policy.max_delay reset_after
delay policy uniform attempt none =
    let d = min policy.max_delay (policy.base_delay * 2 ^ (attempt - 1)) in
    if policy.jitter then (if ltb 0 d then uniform d else 0) else d

-- The code points of a text.
unfoldable pub codes : String → List ℕ
codes no_text = []
codes (c ∷ₜ s) = code c ∷ codes s

-- The ASCII part of `str.upper`.
abbrev pub upper : ℕ → ℕ
upper c = if leb 97 c && leb c 122 then c - 32 else c

-- `method.upper() in IDEMPOTENT_METHODS`.
unfoldable pub is_idempotent : String → Bool
is_idempotent method =
    let name = map upper (codes method) in
    (name == codes "GET")
    || ((name == codes "HEAD") || ((name == codes "PUT") || (name == codes "DELETE")))

-- The errors after which a request may be sent again.
unfoldable pub retriable : String → Kind → Bool
retriable method rate_limit = true
retriable method server = is_idempotent method
retriable method transport = is_idempotent method
retriable method _ = false

unfoldable pub should_retry : RetryPolicy → String → Kind → ℕ → Bool
should_retry policy method kind attempt =
    if leb policy.max_attempts attempt then false else retriable method kind

unfoldable pub past_deadline : ℕ → ℕ → ℕ → Bool
past_deadline now deadline planned = leb deadline now || ltb deadline (now + planned)
