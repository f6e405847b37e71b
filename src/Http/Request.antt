-- ===== src/Http/Request.antt =====
-- feishu/_transport.py: `request`, `upload` and `download`, and when they send a request again.
use open_feishu.Common.{
  negsuc, ℕ, ◌<◌, ◌≡◌, ◌≢◌, ◌∙◌, ap, ok-injective, if◌then◌else◌, refl, arith, sym, String, Bool,
  Bool-cases, true, false, inl, inr, ◌||◌, Option, none, some, List, [], ◌∷◌, Outcome, ok, err,
  nat_beq,
}
use open_feishu.Json.{Json, object, number, Fields, get_or, text, null, is_one_of, hashable}
use open_feishu.Http.Errors.{
  FeishuError, PyError, Kind, rate_limit, rate_limit_codes, server_retry_status,
  permission_error_codes, auth_error_codes, nat_in, raw_is_auth_error, classified,
  error_from_envelope,
}
use open_feishu.Http.Classify.{
  Response, Reply, reply_of, payload_of, error_reply, envelope_error, classify_payload,
  classify_request, classify_upload, classify_download, succeeded,
}
use open_feishu.Http.Retry.{RetryPolicy, is_idempotent, retriable}
use open_feishu.Http.Send.{World, Failure, Run, heard, send}
use open_feishu.Http.Send.Ends.{may_retry, Ends, send-Ends}

unfoldable pub request : RetryPolicy → World Response → String → Bool → Run Response Json
request policy w method expect_envelope = send policy w method (classify_request expect_envelope)

unfoldable pub upload : RetryPolicy → World Response → Run Response Json
upload policy w = send policy w "POST" classify_upload

unfoldable pub download : RetryPolicy → World Response → String → Run Response String
download policy w method = send policy w method classify_download

-- The code of a payload, and whether an answer says that the limit of requests is reached.
abbrev pub code_of : Json → Json
code_of (object d) = get_or (number (negsuc 0)) "code" d
code_of _ = number (negsuc 0)

abbrev pub limited : Option Response → Bool
limited none = false
limited (some resp) =
    is_one_of rate_limit_codes (code_of (payload_of resp)) || nat_beq resp.status_code 429

-- Every entry but the last.
abbrev pub AllInit : {A : Type 0} → (A → Type 0) → List A → Type 0
AllInit P [] = Unit
AllInit P (a ∷ []) = Unit
AllInit P (a ∷ b ∷ rest) = P a × AllInit P (b ∷ rest)

Ends-AllInit :
    {R A : Type 0} (P : Option R → Type 0) (method : String) (classify : R → Reply A)
    (rest : List (Option R)) (r : Outcome Failure A)
    → ((a : Option R) → may_retry method (heard classify a) ≡ true → P a)
    → Ends method classify rest r
    → AllInit P rest
Ends-AllInit P method classify [] r h e = tt
Ends-AllInit P method classify (a ∷ []) r h e = tt
Ends-AllInit P method classify (a ∷ b ∷ rest) r h e =
    (h a e.0, Ends-AllInit P method classify (b ∷ rest) r h e.1)

retriable-rate_limit :
    (method : String) (kind : Kind)
    → is_idempotent method ≡ false
    → retriable method kind ≡ true
    → kind ≡ rate_limit
unfolding retriable
retriable-rate_limit method Kind.rate_limit h r = refl
retriable-rate_limit method Kind.server h r = cc
retriable-rate_limit method Kind.transport h r = cc
retriable-rate_limit method Kind.permission h r = cc
retriable-rate_limit method Kind.auth h r = cc
retriable-rate_limit method Kind.api h r = cc

abbrev kind_of : FeishuError → Kind
kind_of e = e.kind

other_kinds :
    (s p a : Bool)
    → (if s then Kind.server else if p then Kind.permission else if a then Kind.auth else Kind.api)
      ≢ rate_limit
other_kinds s p a = λ h. ground arith

classified-limited :
    (code raw : Json) (status : ℕ)
    → classified code status raw ≡ rate_limit
    → (is_one_of rate_limit_codes code || nat_beq status 429) ≡ true
unfolding classified
classified-limited code raw status h =
    elim (Bool-cases (is_one_of rate_limit_codes code || nat_beq status 429)) [
      | inl t ↦ t
      | inr t ↦
          elim (other_kinds (nat_in server_retry_status status)
            (is_one_of permission_error_codes code)
            (is_one_of auth_error_codes code
              || (nat_in (401 ∷ 403 ∷ []) status || raw_is_auth_error raw))
            (rw t at h)) [ ]
    ]

may_retry-reply_of :
    (A : Type 0) (method : String) (reset : Option ℕ) (o : Outcome PyError FeishuError)
    → may_retry method (reply_of {A = A} reset o) ≡ true
    → (e : FeishuError) × (o ≡ ok e) × (retriable method e.kind ≡ true)
may_retry-reply_of A method reset (ok e) h = (e, refl, h)
may_retry-reply_of A method reset (err x) h = cc

error_from_envelope-kind :
    (code msg : Json) (status : ℕ) (log_id : Option String) (raw : Json) (reset : Option ℕ)
    (description : Json) (e : FeishuError)
    → error_from_envelope code msg status log_id raw reset description ≡ ok e
    → e.kind ≡ classified code status raw
unfolding error_from_envelope
error_from_envelope-kind code msg status log_id raw reset description e h =
    elim (Bool-cases (hashable code)) [
      | inl k ↦ ap kind_of (sym (ok-injective _ e (rw k at h)))
      | inr k ↦ cc (rw k at h)
    ]

envelope_error-limited :
    (A : Type 0) (method : String) (resp : Response) (d : Fields)
    → is_idempotent method ≡ false
    → may_retry method (envelope_error {A = A} resp d) ≡ true
    → (is_one_of rate_limit_codes (get_or (number (negsuc 0)) "code" d)
        || nat_beq resp.status_code 429)
      ≡ true
unfolding envelope_error error_reply
envelope_error-limited A method resp d h r =
    let (e, p, t) =
      may_retry-reply_of A method resp.ratelimit_reset
        (error_from_envelope (get_or (number (negsuc 0)) "code" d) (get_or (text "") "msg" d)
          resp.status_code resp.logid (object d) resp.ratelimit_reset
          (get_or null "error_description" d))
        r in
    classified-limited (get_or (number (negsuc 0)) "code" d) (object d) resp.status_code (
      sym (
        error_from_envelope-kind _ _ resp.status_code resp.logid (object d) resp.ratelimit_reset _ e
          p)
      ∙ retriable-rate_limit method e.kind h t)

payload-limited :
    (method : String) (expect_envelope : Bool) (resp : Response) (payload : Json)
    → is_idempotent method ≡ false
    → may_retry method (classify_payload expect_envelope resp payload) ≡ true
    → (is_one_of rate_limit_codes (code_of payload) || nat_beq resp.status_code 429) ≡ true
unfolding classify_payload
payload-limited method expect_envelope resp (object d) h r =
    elim (Bool-cases (succeeded expect_envelope resp.status_code d)) [
      | inl k ↦ cc (rw k at r)
      | inr k ↦ envelope_error-limited Json method resp d h (rw k at r)
    ]
payload-limited method expect_envelope resp Json.null h r = cc
payload-limited method expect_envelope resp (Json.boolean _) h r = cc
payload-limited method expect_envelope resp (number _) h r = cc
payload-limited method expect_envelope resp (Json.text _) h r = cc
payload-limited method expect_envelope resp (Json.array _) h r = cc

request-limited :
    (method : String) (expect_envelope : Bool) (a : Option Response)
    → is_idempotent method ≡ false
    → may_retry method (heard (classify_request expect_envelope) a) ≡ true
    → limited a ≡ true
unfolding heard classify_request retriable
request-limited method expect_envelope none h r = cc
request-limited method expect_envelope (some resp) h r =
    payload-limited method expect_envelope resp (payload_of resp) h r

-- A request whose method is not idempotent is sent again only after answers that say that the limit of requests
-- is reached.
pub request-resent :
    (policy : RetryPolicy) (w : World Response) (method : String) (expect_envelope : Bool)
    → 0 < policy.max_attempts
    → is_idempotent method ≡ false
    → AllInit (λ a. limited a ≡ true) (request policy w method expect_envelope).answers
unfolding request
request-resent policy w method expect_envelope some_attempt h =
    Ends-AllInit (λ a. limited a ≡ true) method (classify_request expect_envelope) _ _
      (λ a r. request-limited method expect_envelope a h r)
      (send-Ends policy w method (classify_request expect_envelope) some_attempt).0
