-- ===== src/Agent/Tools.antt =====
-- feishu/agent/tools.py: what the validation of a tool's arguments asks of values. JSON numbers are
-- integers.
pub mod Validate
pub mod Accepts
pub mod Names
pub mod Loops
pub mod Schema
pub mod Registry
pub mod Tests
use package.text.Mathlib.Text.{find?}
use Prim.Native.String.{slice, len}
use open_feishu.Common.{
  ℕ, zero, suc, ◌+◌, ℤ, pos, negsuc, String, Bool, true, false, ◌&&◌, ◌||◌, not, Option, none, some,
  List, [], ◌∷◌, ◌++◌, Outcome, ok, err, ◌>>=◌, ◌==◌, string_eq, int_eq, nat_beq, if◌then◌else◌,
}
use open_feishu.Dict
use open_feishu.Dict.{Dict}
use open_feishu.Json.{
  Json, null, boolean, number, text, array, object, Items, no_items, item, Fields, no_fields, field,
  find, get_or, contains, hashable,
}

-- `a == b` of Python, for which True is 1 and the order of keys does not count.
abbrev pub as_number : Bool → ℤ
as_number true = pos 1
as_number false = pos 0

abbrev pub size : Fields → ℕ
size no_fields = 0
size (field k v d) = suc (size d)

unfoldable mutual
  pub same : Json → Json → Bool
  same null null = true
  same (boolean b) (boolean c) = as_number b == as_number c
  same (boolean b) (number n) = as_number b == n
  same (number m) (boolean c) = m == as_number c
  same (number m) (number n) = m == n
  same (text s) (text t) = s == t
  same (array xs) (array ys) = same_items xs ys
  same (object d) (object e) = nat_beq (size d) (size e) && included d e
  same _ _ = false

  pub same_items : Items → Items → Bool
  same_items no_items no_items = true
  same_items (item x xs) (item y ys) = same x y && same_items xs ys
  same_items _ _ = false

  pub included : Fields → Fields → Bool
  included no_fields e = true
  included (field k v d) e = elim (find k e) [ none ↦ false | some w ↦ same v w ] && included d e

abbrev pub among : Json → Items → Bool
among v no_items = false
among v (item x xs) = same v x || among v xs

abbrev pub is_key : Json → Fields → Bool
is_key (text s) d = contains s d
is_key _ d = false

abbrev pub is_found : Option ℕ → Bool
is_found none = false
is_found (some i) = true

-- `v in container`; none where it raises TypeError.
unfoldable pub is_in : Json → Json → Option Bool
is_in v (array xs) = some (among v xs)
is_in v (object d) = if hashable v then some (is_key v d) else none
is_in (text s) (text t) = some (is_found (find? t s))
is_in v _ = none

-- `_matches_single_schema_type` and `_matches_schema_type`.
abbrev pub is_object : Json → Bool
is_object (object d) = true
is_object _ = false

abbrev pub is_array : Json → Bool
is_array (array xs) = true
is_array _ = false

abbrev pub is_text : Json → Bool
is_text (text s) = true
is_text _ = false

abbrev pub is_integer : Json → Bool
is_integer (number n) = true
is_integer _ = false

abbrev pub is_boolean : Json → Bool
is_boolean (boolean b) = true
is_boolean _ = false

abbrev pub is_null : Json → Bool
is_null null = true
is_null _ = false

unfoldable pub matches_single : Json → Json → Bool
matches_single v (text t) =
    if t == "object"
    then is_object v
    else if t == "array"
    then is_array v
    else if t == "string"
    then is_text v
    else if (t == "integer") || (t == "number")
    then is_integer v
    else if t == "boolean"
    then is_boolean v
    else if t == "null"
    then is_null v
    else true
matches_single v _ = true

abbrev pub matches_any : Json → Items → Bool
matches_any v no_items = false
matches_any v (item t ts) = matches_single v t || matches_any v ts

unfoldable pub matches : Json → Json → Bool
matches v (array ts) = matches_any v ts
matches v t = matches_single v t

abbrev pub items_of : Items → List Json
items_of no_items = []
items_of (item x xs) = x ∷ items_of xs

abbrev pub keys_of : Fields → List Json
keys_of no_fields = []
keys_of (field k v d) = text k ∷ keys_of d

-- The letters of a text, each as a text.
abbrev pub letters : ℕ → ℕ → String → List Json
letters i zero s = []
letters i (suc n) s = text (slice s i (i + 1)) ∷ letters (i + 1) n s

-- What a loop over the value goes through; none where it raises TypeError.
unfoldable pub iterated : Json → Option (List Json)
iterated (array xs) = some (items_of xs)
iterated (object d) = some (keys_of d)
iterated (text s) = some (letters 0 (len s) s)
iterated _ = none

abbrev pub mentions : String → List Json → Bool
mentions k [] = false
mentions k (v ∷ vs) = same (text k) v || mentions k vs

abbrev pub all_hashable : List Json → Bool
all_hashable [] = true
all_hashable (v ∷ vs) = hashable v && all_hashable vs

abbrev pub is_false : Json → Bool
is_false (boolean false) = true
is_false _ = false

abbrev pub properties_of : Fields → Json
properties_of d = get_or (object no_fields) "properties" d

abbrev pub declared : String → Json → Bool
declared k (object ps) = contains k ps
declared k _ = false
