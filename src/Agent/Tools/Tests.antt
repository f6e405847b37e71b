-- ===== src/Agent/Tools/Tests.antt =====
-- A tool that asks for the weather of a city.
use open_feishu.Common.{
  ◌≡◌, ◌↔◌, refl, true, false, none, some, ◌⊎◌, [], ◌∷◌, ok, err, pos, string_eq,
}
use open_feishu.Dict
use open_feishu.Json
use open_feishu.Json.{
  Json, null, boolean, number, text, array, object, no_items, item, no_fields, field,
}
use open_feishu.Agent.Tools.{same, is_in, matches_single, matches, iterated}
use open_feishu.Agent.Tools.Validate.{
  key, index, expects, missing_required, unexpected, check_object, check_parts, by_schema, parts_of,
  checks_of, checks, validate,
}
use open_feishu.Agent.Tools.Accepts.{Accepts}
use open_feishu.Agent.Tools.Schema.{validate-Accepts}
use open_feishu.Agent.Tools.Registry.{
  Tool, Registry, Texts, made, add, register, specs, dispatch, returns_value, raises_key_error,
  raises_validation_error, dispatch-called, dispatch-refuses,
}

tools : Unit {0}
unfolding Dict.get Dict.has Dict.put Json.find same is_in matches_single matches iterated
    check_object check_parts by_schema parts_of checks_of checks validate made add register specs
    dispatch
tools = tt

abbrev city : Json
city = object (
    field "type" (text "string")
      (field "enum" (array (item (text "北京") (item (text "上海") no_items))) no_fields))

abbrev schema : Json
schema = object (
    field "type" (text "object") (
      field "properties"
        (object (
          field "city" city (
            field "days"
              (object (
                field "type" (text "array")
                  (field "items" (object (field "type" (text "integer") no_fields)) no_fields)))
              no_fields)))
        (field "required" (array (item (text "city") no_items))
          (field "additionalProperties" (boolean false) no_fields))))

abbrev arguments : Json
arguments =
    object
      (field "city" (text "北京") (field "days" (array (item (number (pos 1)) no_items)) no_fields))

accepted : validate schema arguments ≡ ok tt
unfolding tools
accepted = refl

no_city : validate schema (object no_fields) ≡ err (missing_required (text "city"))
unfolding tools
no_city = refl

no_such_day :
    validate schema (
      object (
        field "city"
          (text "北京")
          (field "days" (array (item (number (pos 1)) (item (text "2") no_items))) no_fields)))
    ≡ err (expects (key "days" ∷ index 1 ∷ []) (text "integer"))
unfolding tools
no_such_day = refl

too_much :
    validate schema (object (field "city" (text "北京") (field "when" null no_fields)))
    ≡ err (unexpected ("when" ∷ []))
unfolding tools
too_much = refl

-- True is 1 for an enum, and no integer for a type.
true_is_one :
    validate
      (object (field "enum" (array (item (number (pos 1)) no_items)) no_fields))
      (boolean true)
    ≡ ok tt
unfolding tools
true_is_one = refl

true_is_no_integer :
    validate (object (field "type" (text "integer") no_fields)) (boolean true)
    ≡ err (expects [] (text "integer"))
unfolding tools
true_is_no_integer = refl

validate-Accepts_example : (validate schema arguments ≡ ok tt) ↔ Accepts schema arguments
validate-Accepts_example = validate-Accepts schema arguments

abbrev weather : Tool
weather = record {
  name = "weather";
  description = "查询天气";
  input_schema = schema;
  requires_approval = false;
  auth_scopes = [];
  scheduled_effect = some "read";
}

abbrev registry : Registry
registry = ("weather", weather) ∷ []

abbrev texts : Texts
texts = record { of_key = λ name. name; of_error = λ name e. name }

registered : register none (some "weather") weather [] ≡ ok registry
unfolding tools
registered = refl

dispatch-called_example :
    ((dispatch texts "weather" arguments (returns_value (text "晴")) registry).called ≡ true) ↔ (
      (tool : Tool) × (Dict.get "weather" registry ≡ some tool)
      × Accepts tool.input_schema arguments)
dispatch-called_example =
    dispatch-called texts "weather" arguments (returns_value (text "晴")) registry

-- A handler that has done its work and then misses a key in an answer.
dispatch-refuses_example :
    ((dispatch texts "weather" arguments (raises_key_error "data") registry).called ≡ false)
    ⊎ (((dispatch texts "weather" arguments (raises_key_error "data") registry).called ≡ true)
        × ((raises_key_error "data" ≡ raises_key_error "data")
            ⊎ (raises_key_error "data" ≡ raises_validation_error "data")))
unfolding tools
dispatch-refuses_example =
    dispatch-refuses texts "weather" arguments (raises_key_error "data") registry "data" refl
