-- ===== src/Agent/Tools/Accepts.antt =====
-- What a schema of a tool accepts, without the order in which the validation looks.
use open_feishu.Common.{◌≡◌, String, true, false, some, ◌⊎◌, List, [], ◌∷◌, string_eq}
use open_feishu.Json.{
  Json, null, array, object, Items, no_items, item, Fields, no_fields, field, find, get_or,
}
use open_feishu.Agent.Tools.{
  is_in, is_object, is_array, is_text, matches, is_key, iterated, mentions, all_hashable, is_false,
  properties_of, declared,
}

-- The items of an array, the fields of an object, and the entries of a list.
abbrev pub ItemOf : Json → Items → Type 0
ItemOf x no_items = ⊥
ItemOf x (item y ys) = (x ≡ y) ⊎ ItemOf x ys

abbrev pub FieldOf : String → Json → Fields → Type 0
FieldOf k v no_fields = ⊥
FieldOf k v (field j w d) = ((k ≡ j) × (v ≡ w)) ⊎ FieldOf k v d

abbrev pub EntryOf : Json → List Json → Type 0
EntryOf x [] = ⊥
EntryOf x (y ∷ ys) = (x ≡ y) ⊎ EntryOf x ys

-- What a schema asks of a value itself.
abbrev pub Enumerated : Fields → Json → Type 0
Enumerated d v = (e : Json) → find "enum" d ≡ some e → is_in v e ≡ some true

abbrev pub Typed : Fields → Json → Type 0
Typed d v =
    (is_text (get_or null "type" d) ≡ true) ⊎ (is_array (get_or null "type" d) ≡ true)
    → matches v (get_or null "type" d) ≡ true

-- What it asks of the names of an object's fields.
abbrev pub HasRequired : Fields → Fields → Type 0
HasRequired d e =
    (rs : List Json) × (iterated (get_or (array no_items) "required" d) ≡ some rs)
    × ((r : Json) → EntryOf r rs → is_key r e ≡ true)

abbrev pub HasAllowed : Fields → Fields → Type 0
HasAllowed d e =
    is_false (get_or null "additionalProperties" d) ≡ true
    → (allowed : List Json) × (iterated (properties_of d) ≡ some allowed)
      × (all_hashable allowed ≡ true)
      × ((k : String) (w : Json) → FieldOf k w e → mentions k allowed ≡ true)

-- A schema that is not an object asks nothing. Another one asks this of the value, and of each item
-- and field what its part for them asks.
pub data Accepts : Json → Json → Type 0 where
  accepts_any : {schema v : Json} → is_object schema ≡ false → Accepts schema v
  accepts_scalar :
      {schema v : Json} (d : Fields)
      → schema ≡ object d
      → is_array v ≡ false
      → is_object v ≡ false
      → Enumerated d v
      → Typed d v
      → Accepts schema v
  accepts_array :
      {schema v : Json} (d : Fields) (xs : Items)
      → schema ≡ object d
      → v ≡ array xs
      → Enumerated d v
      → Typed d v
      → ((sub : Fields) (x : Json)
          → get_or null "items" d ≡ object sub
          → ItemOf x xs
          → Accepts (object sub) x)
      → Accepts schema v
  accepts_object :
      {schema v : Json} (d e : Fields)
      → schema ≡ object d
      → v ≡ object e
      → Enumerated d v
      → Typed d v
      → HasRequired d e
      → HasAllowed d e
      → ((ps sub : Fields) (k : String) (w : Json)
          → properties_of d ≡ object ps
          → FieldOf k (object sub) ps
          → find k e ≡ some w
          → Accepts (object sub) w)
      → ((sub : Fields) (k : String) (w : Json)
          → get_or null "additionalProperties" d ≡ object sub
          → FieldOf k w e
          → declared k (properties_of d) ≡ false
          → Accepts (object sub) w)
      → Accepts schema v
