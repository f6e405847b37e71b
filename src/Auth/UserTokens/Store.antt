-- ===== src/Auth/UserTokens/Store.antt =====
-- feishu/auth/user_tokens.py: `InMemoryOAuthTokenStore`, its tokens.
use open_feishu.Common.{
  ℕ, String, Bool, true, false, ◌&&◌, not, Option, none, some, List, [], ◌∷◌, Outcome, ok, err, Eq,
  ◌==◌, string_eq, ◌↔◌, ◌≡◌, arith, eq_iff, if◌then◌else◌,
}
use open_feishu.Dict
use open_feishu.Dict.{Dict}
use open_feishu.Texts.{is_tenant, sorted_set, texts_eqb}
use open_feishu.Auth.Identity.{user_identity_keys, user_from_identity_keys}
use open_feishu.Auth.UserTokens.{TokenRecord, TokenData, from_token_data, same_record}
use open_feishu.Auth.UserTokens.Replace.{previous, replace}

-- A key of `_by_tenant`.
abbrev pub pair_eqb : String × String → String × String → Bool
pair_eqb (a, b) (c, d) = (a == c) && (b == d)

pub pair_eqb_iff : (x y : String × String) → (pair_eqb x y ≡ true) ↔ (x ≡ y)
pair_eqb_iff (a, b) (c, d) = ground (arith, eq_iff a c, eq_iff b d)

instance abbrev pub pair_eq : Eq (String × String)
pair_eq = record { eqb = pair_eqb; eqb_iff = pair_eqb_iff }

pub record Tokens : Type 0 where
  pub by_key : Dict String TokenRecord
  pub by_tenant : Dict (String × String) TokenRecord

abbrev pub init : Tokens
init = record { by_key = []; by_tenant = [] }

-- ValueError.
pub data TokenError : Type 0 where
  value_error : TokenError

abbrev pub itself : String → String
itself key = key

abbrev pub in_tenant : String → String → String × String
in_tenant tenant_key key = (tenant_key, key)

abbrev pub first_of : List TokenRecord → Option TokenRecord
first_of [] = none
first_of (r ∷ records) = some r

unfoldable pub get : Dict String String → Tokens → Option TokenRecord
get user s = first_of (previous itself (user_identity_keys user) s.by_key)

abbrev pub non_empty : List String → Outcome TokenError (List String)
non_empty [] = err value_error
non_empty (key ∷ keys) = ok (key ∷ keys)

-- `_keys_for_save`
unfoldable pub keys_for_save :
    Option (Dict String String) → List String → Outcome TokenError (List String)
keys_for_save none explicit = non_empty explicit
keys_for_save (some []) explicit = non_empty explicit
keys_for_save (some (field ∷ fields)) explicit = non_empty (user_identity_keys (field ∷ fields))

abbrev pub save_keys :
    TokenData
    → ℕ
    → Tokens
    → Outcome TokenError (List String)
    → Outcome TokenError (Tokens × List String)
save_keys token_data now s (err x) = err x
save_keys token_data now s (ok keys) =
    ok (
      record s { by_key = replace itself keys (from_token_data token_data keys now) s.by_key },
      keys,
    )

unfoldable pub save :
    TokenData
    → Option (Dict String String)
    → List String
    → ℕ
    → Tokens
    → Outcome TokenError (Tokens × List String)
save token_data user_info user_keys now s =
    save_keys token_data now s (keys_for_save user_info user_keys)

-- `_tenant` and `_tenant_user` raise nothing.
unfoldable pub fits_tenant : String → Dict String String → Bool
fits_tenant tenant_key user =
    is_tenant tenant_key
    && elim (Dict.get "tenant_key" user) [ none ↦ true | some t ↦ t == tenant_key ]

-- No record differs from the first.
unfoldable pub are_same : TokenRecord → List TokenRecord → Bool
are_same r [] = true
are_same r (q ∷ records) = same_record q r && are_same r records

abbrev pub agree : List TokenRecord → Bool
agree [] = true
agree (r ∷ records) = are_same r records

unfoldable pub get_for_tenant :
    String → Dict String String → Tokens → Outcome TokenError (Option TokenRecord)
get_for_tenant tenant_key user s =
    let found = previous (in_tenant tenant_key) (user_identity_keys user) s.by_tenant in
    if not (fits_tenant tenant_key user)
    then err value_error
    else if agree found
    then ok (first_of found)
    else err value_error

-- `user_info.get("tenant_key") == tenant_key`, where there is information of a user.
abbrev pub info_fits : String → Option (Dict String String) → Bool
info_fits tenant_key none = true
info_fits tenant_key (some info) = elim (Dict.get "tenant_key" info) [
  | none ↦ false
  | some t ↦ t == tenant_key
]

-- The keys name at most one value of each kind, and nothing else.
abbrev pub unambiguous : Outcome TokenError (List String) → Outcome TokenError (List String)
unambiguous (err x) = err x
unambiguous (ok keys) =
    if texts_eqb (sorted_set (user_identity_keys (user_from_identity_keys keys))) (sorted_set keys)
    then ok keys
    else err value_error

-- `_scoped_keys`
unfoldable pub scoped_keys :
    String → Option (Dict String String) → List String → Outcome TokenError (List String)
scoped_keys tenant_key user_info explicit =
    if is_tenant tenant_key && info_fits tenant_key user_info
    then unambiguous (keys_for_save user_info explicit)
    else err value_error

abbrev is_text : Option String → String → Bool
is_text none text = false
is_text (some s) text = s == text

abbrev is_token : String → Option String → Bool
is_token token none = false
is_token token (some expected) = token == expected

-- The record that is replaced is the one that the caller has refreshed.
unfoldable pub is_expected : Option String → Option String → List TokenRecord → Bool
is_expected none expected_access_token records = true
is_expected (some token) expected_access_token [] = false
is_expected (some token) expected_access_token (r ∷ records) =
    is_text r.refresh_token token && is_token r.user_access_token expected_access_token

unfoldable pub save_scoped :
    String
    → TokenData
    → Option String
    → Option String
    → ℕ
    → Tokens
    → Outcome TokenError (List String)
    → Outcome TokenError (Tokens × List String)
save_scoped tenant_key token_data expected_refresh expected_access now s (err x) = err x
save_scoped tenant_key token_data expected_refresh expected_access now s (ok keys) =
    let found = previous (in_tenant tenant_key) keys s.by_tenant in
    if not (agree found)
    then err value_error
    else if not (is_expected expected_refresh expected_access found)
    then err value_error
    else ok (
      record s {
        by_tenant =
            replace (in_tenant tenant_key) keys (from_token_data token_data keys now) s.by_tenant;
      },
      keys,
    )

unfoldable pub save_for_tenant :
    String
    → TokenData
    → Option (Dict String String)
    → List String
    → Option String
    → Option String
    → ℕ
    → Tokens
    → Outcome TokenError (Tokens × List String)
save_for_tenant tenant_key token_data user_info user_keys expected_refresh expected_access now s =
    save_scoped tenant_key token_data expected_refresh expected_access now s
      (scoped_keys tenant_key user_info user_keys)
