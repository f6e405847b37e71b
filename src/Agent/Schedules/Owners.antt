-- ===== src/Agent/Schedules/Owners.antt =====
-- feishu/agent/scheduled.py: who owns a task, `_keys` and `_is_owner`.
use open_feishu.Common.{
  String, Bool, true, false, ◌||◌, not, Option, none, some, List, [], ◌∷◌, string_eq, mem,
  if◌then◌else◌,
}
use open_feishu.Texts.{sorted_set, texts_eqb, with_text}
use open_feishu.Auth.Identity.{user_identity_keys, user_from_identity_keys}

abbrev is_nil : List String → Bool
is_nil [] = true
is_nil _ = false

-- `_keys`, with no value where it raises ValueError.
unfoldable pub owner_keys_of : List String → Option (List String)
owner_keys_of keys =
    let result = sorted_set (with_text keys) in
    if is_nil result
      || not (texts_eqb (sorted_set (user_identity_keys (user_from_identity_keys result))) result)
    then none
    else some result

unfoldable pub meets : List String → List String → Bool
meets [] actual = false
meets (s ∷ ss) actual = mem s actual || meets ss actual

-- `_is_owner`, with no value where `_keys` raises.
unfoldable pub is_owner : List String → List String → Option Bool
is_owner stored actual = elim (owner_keys_of actual) [
  | none ↦ none
  | some keys ↦ some (meets stored keys)
]
