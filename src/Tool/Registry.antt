-- ===== src/Tool/Registry.antt =====
-- internal/tool/tool.go: `Registry` and `Definition`. The mutex makes each operation one step. A call
-- of a handler is what it returns, and the inputs that handlers are called with are listed.
pub mod Entries
pub mod Calls
pub mod Offered
use cortex_go.Errors.{
  root_not_object, bad_schema, no_handler, decode_input, no_description, invalid_output,
  input_not_json, invalid_input, already_registered, not_registered, invoke_failed, bad_tool_name,
  panicked, Result, Error, ok, err,
}
use cortex_go.Tool.Schema.{unmarshal_schema, validate_value}
use cortex_go.Tool.{Value, Outcome, Definition, Codec, panics, returns}
use cortex_go.Prelude.{
  ℕ, Bool, true, not, ◌&&◌, ◌||◌, Option, none, some, List, [], ◌∷◌, map, leb, ◌==◌, if◌then◌else◌,
  is_some, length, Str, bytes, str_eq, trim_space, is_empty, Dict, lookup, put, str_lt, sort_by,
}

-- map[string]Definition
abbrev pub Registry : Type 0
Registry = Dict Definition

-- [A-Za-z0-9_.-]
unfoldable pub is_name_byte : ℕ → Bool
is_name_byte c =
    (leb b'A' c && leb c b'Z')
    || (leb b'a' c && leb c b'z')
    || (leb b'0' c && leb c b'9')
    || c == b'_'
    || c == b'.'
    || c == b'-'

unfoldable pub all_name_bytes : Str → Bool
all_name_bytes [] = true
all_name_bytes (c ∷ s) = is_name_byte c && all_name_bytes s

-- namePattern.MatchString
unfoldable pub is_tool_name : Str → Bool
is_tool_name s = all_name_bytes s && leb 1 (length s) && leb (length s) 64

unfoldable pub normalize_input : Str → Str
normalize_input raw = if is_empty raw || is_empty (trim_space raw) then bytes "{}" else raw

-- safeInvoke; the call of a handler that is nil panics too.
unfoldable pub safe_invoke : Option (Str → Outcome) → Str → Result Str
safe_invoke none input = err panicked
safe_invoke (some handler) input = elim (handler input) [
  | panics ↦ err panicked
  | returns output failure ↦ elim failure [ some e ↦ err e | none ↦ ok output ]
]

module _ {N : Type 0} (codec : Codec N) where
  unfoldable pub validate : Definition → Option Error
  validate d =
      if not (is_tool_name d.name)
      then some bad_tool_name
      else if is_empty (trim_space d.description)
      then some (no_description d.name)
      else if not (is_some d.handler)
      then some (no_handler d.name)
      else elim (unmarshal_schema codec d.input_schema) [
        | err e ↦ some (bad_schema d.name e)
        | ok node ↦
            if str_eq node.type (bytes "object") then none else some (root_not_object d.name)
      ]

  unfoldable pub register : Registry → Definition → Option Error × Registry
  register tools d = elim (validate d) [
    | some e ↦ (some e, tools)
    | none ↦
        if is_some (lookup d.name tools)
        then (some (already_registered d.name), tools)
        else (none, put d.name d tools)
  ]

  unfoldable pub unmarshal_value : Str → Result (Value N)
  unmarshal_value raw =
      if not (codec.valid (normalize_input raw))
      then err input_not_json
      else elim (codec.decode_value (normalize_input raw)) [
        | err e ↦ err (decode_input e)
        | ok value ↦ ok value
      ]

  unfoldable pub validate_input : Definition → Str → Option Error
  validate_input d input = elim (unmarshal_value input) [
    | err e ↦ some e
    | ok value ↦ validate_value codec d.input_schema value (bytes "input")
  ]

  -- What becomes of the answer of a handler.
  unfoldable pub checked_output : Str → Result Str → Result Str
  checked_output name (err e) = err (invoke_failed name e)
  checked_output name (ok output) =
      let full = if is_empty output then bytes "null" else output in
      if codec.valid full then ok full else err (invalid_output name)

  -- Invoke, with the inputs that a handler was called with.
  unfoldable pub invoke : Registry → Str → Str → Result Str × List Str
  invoke tools name input = elim (lookup name tools) [
    | none ↦ (err (not_registered name), [])
    | some d ↦ elim (validate_input d input) [
      | some e ↦ (err (invalid_input name e), [])
      | none ↦ (
        checked_output name (safe_invoke d.handler (normalize_input input)),
        normalize_input input ∷ [],
      )
    ]
  ]

-- The tools of the names, which are those of the map.
unfoldable pub tools_of : Registry → List Str → List Definition
tools_of tools [] = []
tools_of tools (name ∷ names) = elim (lookup name tools) [
  | none ↦ tools_of tools names
  | some d ↦ d ∷ tools_of tools names
]

-- Definitions
unfoldable pub definitions : Registry → List Definition
definitions tools = tools_of tools (sort_by str_lt (map (λ e. e.0) tools))
