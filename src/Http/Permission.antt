-- ===== src/Http/Permission.antt =====
-- feishu/errors.py: what an error says of missing permissions. The code of a FeishuError can be looked
-- up in a set, since `error_from_envelope` has done so.
pub mod Subjects
use open_feishu.Common.{
  ◌&&◌, ◌||◌, not, Bool, true, false, String, ◌==◌, string_eq, if◌then◌else◌, List, [], ◌∷◌, ◌++◌,
  mem,
}
use open_feishu.Json.{
  Json, null, text, array, object, Items, no_items, item, Fields, no_fields, field, get_or,
  is_one_of,
}
use open_feishu.Http.Errors.{FeishuError, Kind, permission, permission_error_codes}

abbrev pub subject_of : Json → List String
subject_of (text s) = if s == "" then [] else s ∷ []
subject_of _ = []

-- The loop over the violations, which passes over what is not a mapping.
unfoldable pub violations : Items → List String
violations no_items = []
violations (item (object d) rest) = subject_of (get_or null "subject" d) ++ violations rest
violations (item _ rest) = violations rest

abbrev pub listed : Json → List String
listed (array xs) = violations xs
listed _ = []

-- `_collect_permission_subjects`: what it appends.
unfoldable mutual
  pub collect : Json → List String
  collect (object d) = listed (get_or null "permission_violations" d) ++ collect_fields d
  collect (array xs) = collect_items xs
  collect _ = []

  pub collect_fields : Fields → List String
  collect_fields no_fields = []
  collect_fields (field k v d) = collect v ++ collect_fields d

  pub collect_items : Items → List String
  collect_items no_items = []
  collect_items (item v rest) = collect v ++ collect_items rest

-- `dict.fromkeys(xs)` without the keys that are there already.
unfoldable pub from_keys : List String → List String → List String
from_keys seen [] = []
from_keys seen (x ∷ xs) =
    let rest = from_keys seen xs in
    let more = from_keys (x ∷ seen) xs in if mem x seen then rest else x ∷ more

unfoldable pub permission_subjects : FeishuError → List String
permission_subjects error = from_keys [] (collect error.message ++ collect error.raw)

abbrev pub is_permission : Kind → Bool
is_permission permission = true
is_permission _ = false

abbrev pub is_empty : List String → Bool
is_empty [] = true
is_empty (_ ∷ _) = false

unfoldable pub is_permission_error : FeishuError → Bool
is_permission_error error =
    is_permission error.kind
    || (not (is_empty (permission_subjects error)) || is_one_of permission_error_codes error.code)
