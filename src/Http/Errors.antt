-- ===== src/Http/Errors.antt =====
-- feishu/errors.py: the exceptions of the library, and which of them an error envelope stands for.
use package.text.Mathlib.Text.{starts_with}
use open_feishu.Common.{
  ℕ, ◌||◌, Bool, false, String, nat_beq, ◌==◌, string_eq, if◌then◌else◌, Option, none, some, List,
  [], ◌∷◌, Outcome, ok, err,
}
use open_feishu.Json.{Json, null, text, object, Fields, find, get_or, truthy, is_one_of, hashable}

abbrev pub rate_limit_codes : List ℕ
rate_limit_codes = 99991400 ∷ []

abbrev pub server_retry_status : List ℕ
server_retry_status = 500 ∷ 502 ∷ 503 ∷ 504 ∷ []

abbrev pub auth_error_codes : List ℕ
auth_error_codes =
    99991661 ∷ 99991663 ∷ 99991664 ∷ 99991665 ∷ 99991668 ∷ 99991669 ∷ 99991670 ∷ 99991671 ∷ 99991677
    ∷ []

abbrev pub permission_error_codes : List ℕ
permission_error_codes = 99991672 ∷ 99991676 ∷ 99991679 ∷ []

-- The subclasses of FeishuError that a request raises.
pub data Kind : Type 0 where
  rate_limit server permission auth api transport : Kind

-- An exception, with the hint that only a FeishuRateLimitError carries.
pub record FeishuError : Type 0 where
  pub kind : Kind
  pub code : Json
  pub message : Json
  pub log_id : Option String
  pub raw : Json
  pub reset_after : Option ℕ

-- TypeError of an unhashable key, and AttributeError of a value that is not a dict.
pub data PyError : Type 0 where
  type_error attribute_error : PyError

abbrev pub nat_in : List ℕ → ℕ → Bool
nat_in [] n = false
nat_in (m ∷ ms) n = nat_beq m n || nat_in ms n

unfoldable pub is_auth_error : Fields → Bool
is_auth_error raw = elim (find "error" raw) [
  | some (text e) ↦
      starts_with e "invalid_"
      || (e == "unauthorized_client" || (e == "access_denied" || e == "unauthorized"))
  | _ ↦ false
]

-- The text that `raw`, if it is a dict, has for the error.
unfoldable pub described : Json → Json
described (object d) =
    if truthy (get_or null "error_description" d)
    then get_or null "error_description" d
    else elim (find "error" d) [ some (text e) ↦ text e | _ ↦ get_or null "error_description" d ]
described _ = null

-- `text` of `error_from_envelope`.
unfoldable pub error_text : Json → Json → Json → Json
error_text error_description message raw =
    if truthy error_description
    then error_description
    else if truthy (described raw)
    then described raw
    else if truthy message
    then message
    else text ""

abbrev pub raw_is_auth_error : Json → Bool
raw_is_auth_error (object d) = is_auth_error d
raw_is_auth_error _ = false

-- The order of the tests of `error_from_envelope`.
unfoldable pub classified : Json → ℕ → Json → Kind
classified code status raw =
    if is_one_of rate_limit_codes code || nat_beq status 429
    then rate_limit
    else if nat_in server_retry_status status
    then server
    else if is_one_of permission_error_codes code
    then permission
    else if is_one_of auth_error_codes code
        || (nat_in (401 ∷ 403 ∷ []) status || raw_is_auth_error raw)
    then auth
    else api

abbrev pub hint_of : Kind → Option ℕ → Option ℕ
hint_of rate_limit reset = reset
hint_of _ reset = none

unfoldable pub error_from_envelope :
    Json → Json → ℕ → Option String → Json → Option ℕ → Json → Outcome PyError FeishuError
error_from_envelope code message status log_id raw reset_after error_description =
    if hashable code
    then ok (record {
      kind = classified code status raw;
      code = code;
      message = error_text error_description message raw;
      log_id = log_id;
      raw = raw;
      reset_after = hint_of (classified code status raw) reset_after;
    })
    else err type_error
