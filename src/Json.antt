-- ===== src/Json.antt =====
-- The values of a JSON document, as `response.json()` gives them. A number is an integer, and an
-- object lists its fields in their order.
use open_feishu.Common.{
  ℤ, pos, negsuc, ℕ, zero, suc, ◌||◌, Bool, true, false, String, not, nat_beq, ◌==◌, string_eq,
  if◌then◌else◌, Option, none, some, List, [], ◌∷◌,
}

mutual
  pub data Json : Type 0 where
    null : Json
    boolean : Bool → Json
    number : ℤ → Json
    text : String → Json
    array : Items → Json
    object : Fields → Json

  pub data Items : Type 0 where
    no_items : Items
    item : Json → Items → Items

  pub data Fields : Type 0 where
    no_fields : Fields
    field : String → Json → Fields → Fields

-- `d.get(key)`, where a document has each key once.
unfoldable pub find : String → Fields → Option Json
find key no_fields = none
find key (field k v d) = if k == key then some v else find key d

-- `d.get(key, default)`.
abbrev pub get_or : Json → String → Fields → Json
get_or default key d = elim (find key d) [ none ↦ default | some v ↦ v ]

-- `key in d`.
abbrev pub contains : String → Fields → Bool
contains key d = elim (find key d) [ none ↦ false | some _ ↦ true ]

-- `bool(v)`.
abbrev pub truthy : Json → Bool
truthy null = false
truthy (boolean b) = b
truthy (number (pos zero)) = false
truthy (number (pos (suc _))) = true
truthy (number (negsuc _)) = true
truthy (text s) = not (s == "")
truthy (array no_items) = false
truthy (array (item _ _)) = true
truthy (object no_fields) = false
truthy (object (field _ _ _)) = true

-- `v == n` for an integer `n` of the program. A bool is an integer in Python.
abbrev pub is_number : ℕ → Json → Bool
is_number n (number (pos m)) = nat_beq m n
is_number n (boolean true) = nat_beq 1 n
is_number n (boolean false) = nat_beq 0 n
is_number n _ = false

-- `v in {n, …}`.
abbrev pub is_one_of : List ℕ → Json → Bool
is_one_of [] v = false
is_one_of (n ∷ ns) v = is_number n v || is_one_of ns v

-- Whether `v` may be looked up in a set.
abbrev pub hashable : Json → Bool
hashable (array _) = false
hashable (object _) = false
hashable _ = true
