-- ===== src/Auth/UserTokens.antt =====
-- feishu/auth/user_tokens.py: `TokenRecord` and `InMemoryOAuthTokenStore`. A method is one step: it
-- holds the lock of the store.
pub mod Replace
pub mod Store
pub mod Aliases
pub mod Consistent
pub mod Guard
pub mod Exclusive
pub mod Tests
use open_feishu.Common.{
  ℕ, ◌+◌, String, Bool, true, false, ◌&&◌, ◌||◌, not, Option, none, some, List, [], ◌∷◌, leb, ◌==◌,
  string_eq, nat_eq, if◌then◌else◌,
}
use open_feishu.Texts.{texts_eqb}

pub record TokenRecord : Type 0 where
  pub user_access_token : String
  pub refresh_token : Option String
  pub expires_at : Option ℕ
  pub refresh_token_expires_at : Option ℕ
  pub scope : Option String
  pub user_keys : List String

-- The answer of the token endpoint, its times as `_coerce_int` reads them.
pub record TokenData : Type 0 where
  pub access_token : Option String
  pub refresh_token : Option String
  pub expires_in : Option ℕ
  pub refresh_token_expires_in : Option ℕ
  pub scope : Option String

unfoldable pub is_expiring : TokenRecord → ℕ → ℕ → Bool
is_expiring r skew_seconds now = elim r.expires_at [
  | none ↦ false
  | some t ↦ leb t (now + skew_seconds)
]

unfoldable pub is_expired : TokenRecord → ℕ → Bool
is_expired r now = elim r.expires_at [ none ↦ false | some t ↦ leb t now ]

abbrev pub text_or_empty : Option String → String
text_or_empty none = ""
text_or_empty (some s) = s

-- `str(text) if text else None`
abbrev pub some_text : Option String → Option String
some_text none = none
some_text (some s) = if s == "" then none else some s

abbrev pub at_time : ℕ → Option ℕ → Option ℕ
at_time now none = none
at_time now (some n) = some (now + n)

unfoldable pub from_token_data : TokenData → List String → ℕ → TokenRecord
from_token_data token_data keys now = record {
  user_access_token = text_or_empty token_data.access_token;
  refresh_token = some_text token_data.refresh_token;
  expires_at = at_time now token_data.expires_in;
  refresh_token_expires_at = at_time now token_data.refresh_token_expires_in;
  scope = some_text token_data.scope;
  user_keys = keys;
}

abbrev same_text : Option String → Option String → Bool
same_text none none = true
same_text (some s) (some t) = s == t
same_text _ _ = false

abbrev same_time : Option ℕ → Option ℕ → Bool
same_time none none = true
same_time (some n) (some k) = n == k
same_time _ _ = false

-- The `==` of the dataclass.
unfoldable pub same_record : TokenRecord → TokenRecord → Bool
same_record q r =
    (q.user_access_token == r.user_access_token)
    && (same_text q.refresh_token r.refresh_token
        && (same_time q.expires_at r.expires_at
            && (same_time q.refresh_token_expires_at r.refresh_token_expires_at
                && (same_text q.scope r.scope && texts_eqb q.user_keys r.user_keys))))
