-- ===== src/Tool/Schema.antt =====
-- internal/tool/tool.go: `unmarshalSchema` and `validateValue`. A schema is no deeper than its text is
-- long, which gives the fuel.
pub mod Depth
pub mod Conforms
pub mod Sound
pub mod Complete
use cortex_go.Errors.{
  must_be_array, bad_enum, member_not_allowed, schema_not_object, must_be_object, bad_type, ok, err,
  decode_schema, schema_not_json, Result, out_of_fuel, unsupported_keyword, member_required,
  bad_property, Error,
}
use cortex_go.Tool.{
  null, boolean, number, text, array, object, nil, item, end, member, Items, Codec, Value, Members,
  SchemaNode,
}
use cortex_go.Knowledge.Runes.{decimal}
use cortex_go.Prelude.{
  ℕ, zero, suc, Bool, true, false, not, ◌&&◌, ◌||◌, Option, none, some, List, [], ◌∷◌, ◌++◌,
  if◌then◌else◌, length, Str, bytes, str_eq, is_empty, Dict, lookup,
}

-- The keywords that a schema may have.
unfoldable pub is_keyword : Str → Bool
is_keyword key =
    str_eq key (bytes "type")
    || str_eq key (bytes "description")
    || str_eq key (bytes "required")
    || str_eq key (bytes "properties")
    || str_eq key (bytes "additionalProperties")
    || str_eq key (bytes "items")
    || str_eq key (bytes "enum")

unfoldable pub check_keys : List Str → Option Error
check_keys [] = none
check_keys (key ∷ keys) =
    let rest = check_keys keys in if is_keyword key then rest else some (unsupported_keyword key)

-- if err != nil { return err }, and what follows it
abbrev pub first_error : Option Error → Option Error → Option Error
first_error none rest = rest
first_error (some e) rest = some e

abbrev pub in_property : Str → Option Error → Option Error
in_property name none = none
in_property name (some e) = some (bad_property name e)

-- The loop over the properties, with the check of each.
unfoldable pub check_properties : (Str → Option Error) → Dict Str → Option Error
check_properties check [] = none
check_properties check ((name, property) ∷ properties) =
    first_error (in_property name (check property)) (check_properties check properties)

module _ {N : Type 0} (codec : Codec N) where
  -- The node of a schema, before its properties are read.
  unfoldable pub decode_schema_node : Str → Result (SchemaNode N)
  decode_schema_node raw =
      if is_empty raw || not (codec.valid raw)
      then err schema_not_json
      else elim (codec.decode_node raw) [
        | err e ↦ err (decode_schema e)
        | ok node ↦ elim (codec.decode_keys raw) [
          | err e ↦ err (schema_not_object e)
          | ok keys ↦ elim (check_keys keys) [ some e ↦ err e | none ↦ ok node ]
        ]
      ]

  abbrev pub error_in : Result (SchemaNode N) → Option Error
  error_in (ok node) = none
  error_in (err e) = some e

  unfoldable pub unmarshal_from : ℕ → Str → Result (SchemaNode N)
  unmarshal_from zero raw = err out_of_fuel
  unmarshal_from (suc fuel) raw = elim (decode_schema_node raw) [
    | err e ↦ err e
    | ok node ↦ elim (check_properties (λ p. error_in (unmarshal_from fuel p)) node.properties) [
      | some e ↦ err e
      | none ↦ ok node
    ]
  ]

  unfoldable pub unmarshal_schema : Str → Result (SchemaNode N)
  unmarshal_schema raw = unmarshal_from (suc (length raw)) raw

  unfoldable pub schema_type_matches : Str → Value N → Bool
  schema_type_matches type value =
      if is_empty type || str_eq type (bytes "any")
      then true
      else if str_eq type (bytes "object")
      then elim value [ object ms ↦ true | _ ↦ false ]
      else if str_eq type (bytes "array")
      then elim value [ array xs ↦ true | _ ↦ false ]
      else if str_eq type (bytes "string")
      then elim value [ text s ↦ true | _ ↦ false ]
      else if str_eq type (bytes "boolean")
      then elim value [ boolean b ↦ true | _ ↦ false ]
      else if str_eq type (bytes "null")
      then elim value [ null ↦ true | _ ↦ false ]
      else if str_eq type (bytes "integer")
      then elim value [ number n ↦ codec.is_integral n | _ ↦ false ]
      else if str_eq type (bytes "number")
      then elim value [ number n ↦ true | _ ↦ false ]
      else false

  unfoldable pub enum_contains : List (Value N) → Value N → Bool
  enum_contains [] value = false
  enum_contains (candidate ∷ allowed) value =
      codec.deep_equal candidate value || enum_contains allowed value

-- object[name]
unfoldable pub get : {N : Type 0} → Str → Members N → Option (Value N)
get name end = none
get name (member key value ms) = if str_eq key name then some value else get name ms

-- path + "." + name, and fmt.Sprintf("%s[%d]", path, index)
abbrev pub member_path : Str → Str → Str
member_path path name = path ++ (b'.' ∷ name)

abbrev pub item_path : Str → ℕ → Str
item_path path index = path ++ (b'[' ∷ decimal index ++ b']' ∷ [])

module _ {N : Type 0} where
  unfoldable pub check_required : Str → Members N → List Str → Option Error
  check_required path ms [] = none
  check_required path ms (name ∷ names) = elim (get name ms) [
    | none ↦ some (member_required path name)
    | some value ↦ check_required path ms names
  ]

  unfoldable pub check_allowed : Str → Dict Str → Members N → Option Error
  check_allowed path properties end = none
  check_allowed path properties (member name value ms) = elim (lookup name properties) [
    | none ↦ some (member_not_allowed path name)
    | some property ↦ check_allowed path properties ms
  ]

  -- schema.AdditionalProperties != nil && !*schema.AdditionalProperties
  abbrev pub is_closed : SchemaNode N → Bool
  is_closed node = elim node.additional_properties [ none ↦ false | some b ↦ not b ]

  module _ (check : Str → Value N → Str → Option Error) where
    -- A member that does not exist is not checked.
    abbrev pub check_member : Str → Str → Option (Value N) → Option Error
    check_member property path none = none
    check_member property path (some value) = check property value path

    -- The loops over the properties of an object and over the items of an array.
    unfoldable pub check_members : Str → Members N → Dict Str → Option Error
    check_members path ms [] = none
    check_members path ms ((name, property) ∷ properties) =
        first_error (check_member property (member_path path name) (get name ms))
          (check_members path ms properties)

    unfoldable pub check_items : Str → Str → ℕ → Items N → Option Error
    check_items path schema index nil = none
    check_items path schema index (item value xs) =
        first_error (check schema value (item_path path index))
          (check_items path schema (suc index) xs)

    unfoldable pub check_object : SchemaNode N → Members N → Str → Option Error
    check_object node ms path = first_error (check_required path ms node.required) (
        first_error (if is_closed node then check_allowed path node.properties ms else none)
          (check_members path ms node.properties))

    -- switch schema.Type
    unfoldable pub check_inside : SchemaNode N → Value N → Str → Option Error
    check_inside node value path =
        if str_eq node.type (bytes "object")
        then elim value [ object ms ↦ check_object node ms path | _ ↦ some (must_be_object path) ]
        else if str_eq node.type (bytes "array")
        then elim value [
          | array xs ↦ if is_empty node.items then none else check_items path node.items 0 xs
          | _ ↦ some (must_be_array path)
        ]
        else none

module _ {N : Type 0} (codec : Codec N) where
  unfoldable pub validate_from : ℕ → Str → Value N → Str → Option Error
  validate_from zero raw value path = some out_of_fuel
  validate_from (suc fuel) raw value path = elim (unmarshal_schema codec raw) [
    | err e ↦ some e
    | ok node ↦
        if not (schema_type_matches codec node.type value)
        then some (bad_type path node.type)
        else if not (is_empty node.enum) && not (enum_contains codec node.enum value)
        then some (bad_enum path)
        else check_inside (λ s v p. validate_from fuel s v p) node value path
  ]

  unfoldable pub validate_value : Str → Value N → Str → Option Error
  validate_value raw value path = validate_from (suc (length raw)) raw value path
