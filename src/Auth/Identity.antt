-- ===== src/Auth/Identity.antt =====
-- feishu/auth/user_tokens.py: the keys by which a user is known, such as "open_id:ou_1", and back.
use package.text.Mathlib.Text.{find?}
use Prim.Native.String.{◌++◌ as ◌++ₜ◌, slice, len}
use open_feishu.Common.{
  ◌+◌, String, ◌&&◌, not, Option, none, some, List, [], ◌∷◌, ◌==◌, string_eq, mem, if◌then◌else◌,
}
use open_feishu.Dict
use open_feishu.Dict.{Dict}

abbrev pub user_id_keys : List String
user_id_keys = "open_id" ∷ "union_id" ∷ "user_id" ∷ []

abbrev prefixed : String → Option String → List String → List String
prefixed kind none rest = rest
prefixed kind (some value) rest = if value == "" then rest else (kind ++ₜ ":" ++ₜ value) ∷ rest

-- The loop of `user_identity_keys`.
unfoldable pub keys_of : Dict String String → List String → List String
keys_of user [] = []
keys_of user (kind ∷ kinds) = prefixed kind (Dict.get kind user) (keys_of user kinds)

unfoldable pub user_identity_keys : Dict String String → List String
user_identity_keys user = keys_of user user_id_keys

-- One round of the loop of `user_from_identity_keys`, on what `partition` found.
unfoldable pub add_kind : String → String → Dict String String → Dict String String
add_kind kind value user =
    if mem kind user_id_keys && (not (value == "") && not (Dict.has kind user))
    then Dict.put kind value user
    else user

-- `key.partition(":")` without a colon has an empty value.
unfoldable pub add_key : String → Dict String String → Dict String String
add_key key user = elim (find? key ":") [
  | none ↦ add_kind key "" user
  | some i ↦ add_kind (slice key 0 i) (slice key (i + 1) (len key)) user
]

unfoldable pub add_keys : List String → Dict String String → Dict String String
add_keys [] user = user
add_keys (key ∷ keys) user = add_keys keys (add_key key user)

unfoldable pub user_from_identity_keys : List String → Dict String String
user_from_identity_keys keys = add_keys keys []
