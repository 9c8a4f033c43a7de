-- ===== src/Tool.antt =====
-- internal/tool/tool.go: JSON values and schemas, as encoding/json decodes them. The decoder, and
-- reflect's DeepEqual, are parameters.
pub mod Schema
pub mod Registry
use cortex_go.Errors.{Error, Result}
use cortex_go.Prelude.{Bool, Option, List, Str, Dict}

-- What encoding/json makes of a text as `any`; float64 is a parameter.
mutual
  pub data Value (N : Type 0) : Type 0 where
    null : Value N
    boolean : Bool → Value N
    number : N → Value N
    text : Str → Value N
    array : Items N → Value N
    object : Members N → Value N

  pub data Items (N : Type 0) : Type 0 where
    nil : Items N
    item : Value N → Items N → Items N

  pub data Members (N : Type 0) : Type 0 where
    end : Members N
    member : Str → Value N → Members N → Members N

-- schemaNode; the properties and the items are texts (json.RawMessage).
pub record SchemaNode (N : Type 0) : Type 0 where
  pub type : Str
  pub description : Str
  pub required : List Str
  pub properties : Dict Str
  pub additional_properties : Option Bool
  pub items : Str
  pub enum : List (Value N)

-- json.Valid, json.Unmarshal to a schemaNode, to the keys of an object and to a value,
-- number == float64(int64(number)), and reflect.DeepEqual
pub record Codec (N : Type 0) : Type 0 where
  pub valid : Str → Bool
  pub decode_node : Str → Result (SchemaNode N)
  pub decode_keys : Str → Result (List Str)
  pub decode_value : Str → Result (Value N)
  pub is_integral : N → Bool
  pub deep_equal : Value N → Value N → Bool

-- What a call of a handler does: the output and the error that it returns, or a panic.
pub data Outcome : Type 0 where
  panics : Outcome
  returns : Str → Option Error → Outcome

pub record Definition : Type 0 where
  pub name : Str
  pub description : Str
  pub input_schema : Str
  pub handler : Option (Str → Outcome)
