-- ===== src/Http/Classify.antt =====
-- feishu/_transport.py: how `request`, `upload` and `download` read a response.
use open_feishu.Common.{
  negsuc, ℕ, ◌||◌, ◌&&◌, ltb, leb, Bool, String, not, if◌then◌else◌, Option, none, some, Outcome,
  ok, err,
}
use open_feishu.Json.{
  Json, null, number, text, object, Fields, field, no_fields, get_or, contains, is_number,
}
use open_feishu.Http.Errors.{FeishuError, transport, PyError, attribute_error, error_from_envelope}

-- What httpx gives for a response. `body` is absent where `resp.json()` raises, and `ratelimit_reset`
-- is the header as `float` reads it, absent where `float` raises.
pub record Response : Type 0 where
  pub status_code : ℕ
  pub logid : Option String
  pub ratelimit_reset : Option ℕ
  pub body : Option Json
  pub content : String

-- The triple of a `classify`: a value, or an error with the hint of the server, or an exception.
pub data Reply (A : Type 0) : Type 0 where
  value : A → Reply A
  failed : FeishuError → Option ℕ → Reply A
  crashed : PyError → Reply A

unfoldable pub payload_of : Response → Json
payload_of resp = elim resp.body [
  | some payload ↦ payload
  | none ↦ object (field "code" (number (negsuc 0)) (field "msg" (text resp.content) no_fields))
]

abbrev pub reply_of : {A : Type 0} → Option ℕ → Outcome PyError FeishuError → Reply A
reply_of reset (ok e) = failed e reset
reply_of reset (err x) = crashed x

-- The error of a payload, from the second half of `classify`.
unfoldable pub error_reply : {A : Type 0} → Response → Json → Json → Json → Json → Reply A
error_reply resp payload code msg description = reply_of resp.ratelimit_reset (
    error_from_envelope code msg resp.status_code resp.logid payload resp.ratelimit_reset
      description)

-- `error_reply` with the fields of the payload.
unfoldable pub envelope_error : {A : Type 0} → Response → Fields → Reply A
envelope_error resp d =
    error_reply resp (object d) (get_or (number (negsuc 0)) "code" d) (get_or (text "") "msg" d)
      (get_or null "error_description" d)

-- Whether `request` takes the payload for a success.
unfoldable pub succeeded : Bool → ℕ → Fields → Bool
succeeded expect_envelope status d =
    if expect_envelope
    then is_number 0 (get_or (number (negsuc 0)) "code" d) && ltb status 400
    else (ltb status 400 && contains "access_token" d)
      || (ltb status 400
          && (is_number 0 (get_or (number (negsuc 0)) "code" d) && not (contains "error" d)))

-- `classify` of `request`, from the reading of the code.
unfoldable pub classify_payload : Bool → Response → Json → Reply Json
classify_payload expect_envelope resp (object d) =
    if succeeded expect_envelope resp.status_code d then value (object d) else envelope_error resp d
classify_payload expect_envelope resp _ = crashed attribute_error

-- `classify` of `request`.
unfoldable pub classify_request : Bool → Response → Reply Json
classify_request expect_envelope resp = classify_payload expect_envelope resp (payload_of resp)

-- `classify` of `upload`.
unfoldable pub classify_upload : Response → Reply Json
classify_upload resp = elim (payload_of resp) [
  | object d ↦
      if is_number 0 (get_or (number (negsuc 0)) "code" d) && ltb resp.status_code 400
      then value (object d)
      else envelope_error resp d
  | _ ↦ crashed attribute_error
]

-- A FeishuTransportError. Its message, which only tells what httpx says, is left out.
abbrev pub transport_error : FeishuError
transport_error = record {
  kind = transport;
  code = number (negsuc 0);
  message = text "";
  log_id = none;
  raw = null;
  reset_after = none;
}

-- `classify` of `download`. `resp.is_success` is a status from 200 to 299.
unfoldable pub classify_download : Response → Reply String
classify_download resp =
    if leb 200 resp.status_code && ltb resp.status_code 300
    then value resp.content
    else elim resp.body [
      | none ↦ failed transport_error resp.ratelimit_reset
      | some (object d) ↦
          error_reply resp (object d) (get_or (number (negsuc 0)) "code" d)
            (get_or (text "") "msg" d) null
      | some payload ↦ error_reply resp payload (number (negsuc 0)) (text "") null
    ]
