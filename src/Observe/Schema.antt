-- ===== src/Observe/Schema.antt =====
-- observe/assemble.py: the check of a value against the JSON schema of its declaration. A schema is
-- a tree here, with the keywords that the check reads; the messages of errors are left out, and
-- what is returned is their number.
use civ_sim_taskify.Prelude.{
  ℕ, ◌+◌, String, Bool, true, false, ◌||◌, Option, none, some, List, [], ◌∷◌, str_eq, if◌then◌else◌,
}
use civ_sim_taskify.Models.Value.{Value, null, bool, num, text, arr, obj, Items, nil, cons, Fields}
use civ_sim_taskify.Predicate.Values.{get_field}

-- `type`, `required`, `properties` and `items`.
mutual
  pub data Schema : Type 0 where
    schema : Option (List String) → List String → Properties → ItemsSchema → Schema

  pub data Properties : Type 0 where
    no_properties : Properties
    property : String → Schema → Properties → Properties

  pub data ItemsSchema : Type 0 where
    any_items : ItemsSchema
    each : Schema → ItemsSchema
    positional : Schemas → ItemsSchema

  pub data Schemas : Type 0 where
    no_schemas : Schemas
    then_schema : Schema → Schemas → Schemas

-- One name of `_JSON_SCHEMA_TYPE_CHECKS`; a boolean is no number.
abbrev type_matches : Value → String → Bool
type_matches null t = str_eq t "null"
type_matches (bool b) t = str_eq t "boolean"
type_matches (num z) t = str_eq t "integer" || str_eq t "number"
type_matches (text s) t = str_eq t "string"
type_matches (arr xs) t = str_eq t "array"
type_matches (obj fs) t = str_eq t "object"

unfoldable pub matches_any_type : Value → List String → Bool
matches_any_type v [] = false
matches_any_type v (t ∷ ts) = type_matches v t || matches_any_type v ts

abbrev type_allowed : Option (List String) → Value → Bool
type_allowed none v = true
type_allowed (some ts) v = matches_any_type v ts

abbrev missing_one : Option Value → ℕ
missing_one none = 1
missing_one (some v) = 0

abbrev missing : List String → Fields → ℕ
missing [] fs = 0
missing (k ∷ ks) fs = missing_one (get_field fs k) + missing ks fs

abbrev on_value : (Value → ℕ) → Option Value → ℕ
on_value f none = 0
on_value f (some v) = f v

abbrev total : (Value → ℕ) → Items → ℕ
total f nil = 0
total f (cons v vs) = f v + total f vs

-- What is checked once the type is right.
abbrev structure : (Fields → ℕ) → (Items → ℕ) → Value → ℕ
structure on_fields on_items (obj fs) = on_fields fs
structure on_fields on_items (arr xs) = on_items xs
structure on_fields on_items v = 0

unfoldable mutual
  pub schema_errors : Schema → Value → ℕ
  schema_errors (schema types required properties items) v =
      if type_allowed types v
      then structure (λ fs. missing required fs + property_errors properties fs) (item_errors items)
          v
      else 1

  pub property_errors : Properties → Fields → ℕ
  property_errors no_properties fs = 0
  property_errors (property k s rest) fs =
      on_value (schema_errors s) (get_field fs k) + property_errors rest fs

  pub item_errors : ItemsSchema → Items → ℕ
  item_errors any_items xs = 0
  item_errors (each s) xs = total (schema_errors s) xs
  item_errors (positional ss) xs = zip_errors ss xs

  pub zip_errors : Schemas → Items → ℕ
  zip_errors no_schemas xs = 0
  zip_errors (then_schema s ss) nil = 0
  zip_errors (then_schema s ss) (cons v vs) = schema_errors s v + zip_errors ss vs
