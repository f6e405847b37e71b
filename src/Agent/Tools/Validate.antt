-- ===== src/Agent/Tools/Validate.antt =====
-- feishu/agent/tools.py: `_validate` and what it calls. A path is kept as its steps, and an error as what
-- its text is made of.
use open_feishu.Common.{
  ℕ, ◌+◌, String, Bool, true, false, Option, none, some, List, [], ◌∷◌, ◌++◌, Outcome, ok, err,
  ◌>>=◌, string_eq, int_eq, if◌then◌else◌,
}
use open_feishu.Dict
use open_feishu.Dict.{Dict}
use open_feishu.Json.{
  Json, null, text, array, object, Items, no_items, item, Fields, no_fields, field, find, get_or,
  hashable,
}
use open_feishu.Agent.Tools.{
  is_in, matches, iterated, mentions, all_hashable, is_false, properties_of, declared,
}

pub data Step : Type 0 where
  key : String → Step
  index : ℕ → Step

-- ToolValidationError, and TypeError where the schema is none.
pub data ToolError : Type 0 where
  not_one_of : List Step → Json → ToolError
  expects : List Step → Json → ToolError
  missing_required : Json → ToolError
  unexpected : List String → ToolError
  type_error : ToolError

abbrev pub Verdict : Type 0
Verdict = Outcome ToolError (Unit {0})

-- The validation of a value, by the path to it and the schema.
abbrev pub Check : Type 0
Check = List Step → Json → Verdict

-- A value with the validations of its members.
pub data Parts : Type 0 where
  leaf : Parts
  elements : List Check → Parts
  members : Dict String Check → Parts

abbrev pub enumerated : List Step → Json → Option Bool → Verdict
enumerated path e none = err type_error
enumerated path e (some true) = ok tt
enumerated path e (some false) = err (not_one_of path e)

abbrev pub check_enum : List Step → Json → Option Json → Verdict
check_enum path v none = ok tt
check_enum path v (some e) = enumerated path e (is_in v e)

abbrev pub check_type : List Step → Json → Json → Verdict
check_type path v (text t) = if matches v (text t) then ok tt else err (expects path (text t))
check_type path v (array ts) = if matches v (array ts) then ok tt else err (expects path (array ts))
check_type path v _ = ok tt

abbrev pub each : {A : Type 0} → (A → Verdict) → List A → Verdict
each f [] = ok tt
each f (x ∷ xs) = do _ ← f x; each f xs

abbrev pub present : Dict String Check → Json → Verdict
present cs (text s) = if Dict.has s cs then ok tt else err (missing_required (text s))
present cs v = if hashable v then err (missing_required v) else err type_error

abbrev pub check_required : Dict String Check → Option (List Json) → Verdict
check_required cs none = err type_error
check_required cs (some rs) = each (present cs) rs

abbrev pub extra : List Json → Dict String Check → List String
extra allowed [] = []
extra allowed ((k, c) ∷ cs) =
    let rest = extra allowed cs in if mentions k allowed then rest else k ∷ rest

abbrev pub no_extra : List String → Verdict
no_extra [] = ok tt
no_extra (k ∷ ks) = err (unexpected (k ∷ ks))

abbrev pub check_allowed : Dict String Check → Option (List Json) → Verdict
check_allowed cs none = err type_error
check_allowed cs (some allowed) =
    if all_hashable allowed then no_extra (extra allowed cs) else err type_error

-- `additionalProperties` is False.
abbrev pub check_closed : Bool → Option (List Json) → Dict String Check → Verdict
check_closed true allowed cs = check_allowed cs allowed
check_closed false allowed cs = ok tt

-- A property of the schema, where the arguments have it.
abbrev pub check_at : List Step → String → Json → Option Check → Verdict
check_at path k (object sub) (some c) = c (path ++ key k ∷ []) (object sub)
check_at path k _ _ = ok tt

abbrev pub each_property : List Step → Fields → Dict String Check → Verdict
each_property path no_fields cs = ok tt
each_property path (field k sub ps) cs = do
  _ ← check_at path k sub (Dict.get k cs)
  each_property path ps cs

abbrev pub check_properties : List Step → Json → Dict String Check → Verdict
check_properties path (object ps) cs = each_property path ps cs
check_properties path _ cs = ok tt

abbrev pub each_additional : List Step → Json → Json → Dict String Check → Verdict
each_additional path properties sub [] = ok tt
each_additional path properties sub ((k, c) ∷ cs) = do
  _ ← (if declared k properties then ok tt else c (path ++ key k ∷ []) sub)
  each_additional path properties sub cs

abbrev pub check_additional : List Step → Json → Json → Dict String Check → Verdict
check_additional path properties (object sub) cs = each_additional path properties (object sub) cs
check_additional path properties _ cs = ok tt

-- `_validate_object_schema`.
unfoldable pub check_object : List Step → Fields → Dict String Check → Verdict
check_object path d cs = do
  _ ← check_required cs (iterated (get_or (array no_items) "required" d))
  _ ← check_closed (is_false (get_or null "additionalProperties" d)) (iterated (properties_of d)) cs
  _ ← check_properties path (properties_of d) cs
  check_additional path (properties_of d) (get_or null "additionalProperties" d) cs

abbrev pub each_index : List Step → ℕ → Json → List Check → Verdict
each_index path i schema [] = ok tt
each_index path i schema (c ∷ cs) = do
  _ ← c (path ++ index i ∷ []) schema
  each_index path (i + 1) schema cs

abbrev pub check_items : List Step → Json → List Check → Verdict
check_items path (object sub) cs = each_index path 0 (object sub) cs
check_items path _ cs = ok tt

unfoldable pub check_parts : List Step → Fields → Parts → Verdict
check_parts path d leaf = ok tt
check_parts path d (elements cs) = check_items path (get_or null "items" d) cs
check_parts path d (members cs) = check_object path d cs

-- `_validate_schema`.
unfoldable pub by_schema : Json → Parts → Check
by_schema v parts path (object d) = do
  _ ← check_enum path v (find "enum" d)
  _ ← check_type path v (get_or null "type" d)
  check_parts path d parts
by_schema v parts path _ = ok tt

unfoldable mutual
  pub parts_of : Json → Parts
  parts_of (array xs) = elements (checks_of xs)
  parts_of (object d) = members (checks d)
  parts_of _ = leaf

  pub checks_of : Items → List Check
  checks_of no_items = []
  checks_of (item v xs) = by_schema v (parts_of v) ∷ checks_of xs

  pub checks : Fields → Dict String Check
  checks no_fields = []
  checks (field k v d) = (k, by_schema v (parts_of v)) ∷ checks d

unfoldable pub validate : Json → Json → Verdict
validate schema arguments = by_schema arguments (parts_of arguments) [] schema
