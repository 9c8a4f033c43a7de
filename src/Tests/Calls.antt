-- ===== src/Tests/Calls.antt =====
-- A registry with one tool, which wants an object with the member `q`.
use cortex_go.Agent.Boxes.{invoke_tool-IsServed, registry_tools, IsServed}
use cortex_go.Errors.{Error, err, no_choices, Result, ok}
use cortex_go.Provider.{ToolCall}
use cortex_go.Tool.Registry.{
  is_name_byte, all_name_bytes, is_tool_name, normalize_input, safe_invoke, checked_output,
  validate_input, unmarshal_value, invoke, register, validate, Registry,
}
use cortex_go.Agent.Config.{Model, Agent, Json, new, with_tools, apply_options}
use cortex_go.Agent.Tools.{invoke_tool, attempt, authorize}
use cortex_go.Memory.Sessions.InMemory.{in_memory}
use cortex_go.Memory.Sessions.{Sessions}
use cortex_go.Agent.State.{State}
use cortex_go.Tool.Schema.{
  check_inside, check_object, check_items, check_members, check_allowed, check_required, get,
  enum_contains, schema_type_matches, check_properties, is_keyword, check_keys, decode_schema_node,
  validate_from, unmarshal_schema, unmarshal_from, validate_value,
}
use cortex_go.Tool.Schema.Depth.{IsSliced}
use cortex_go.Tool.Schema.Complete.{validate_value-Conforms}
use cortex_go.Tool.Registry.Calls.{invoke-Invokes, Invokes}
use cortex_go.Tool.Registry.Entries.{IsWellFormed}
use cortex_go.Tool.Schema.Conforms.{Conforms}
use cortex_go.Tool.{Value, Definition, SchemaNode, text, object, end, member, returns, Codec}
use cortex_go.Prelude.{
  ℕ, ◌<◌, ◌≡◌, refl, subst, ◌↔◌, inl, inr, true, false, not, Option, none, some, [], ◌∷◌, arith,
  leb, if◌then◌else◌, Bool-cases, length, All, Str, bytes, str_eq, str_eq_iff, trim_space, is_empty,
  lookup, put,
}

program : Unit {0}
unfolding validate register invoke unmarshal_value validate_input checked_output safe_invoke
    normalize_input is_tool_name all_name_bytes is_name_byte unmarshal_schema unmarshal_from
    decode_schema_node check_keys is_keyword check_properties validate_value validate_from
    schema_type_matches enum_contains get check_required check_allowed check_members check_items
    check_object check_inside str_eq trim_space lookup put
program = tt

-- A decoder that knows two schemas, `S` for the object and `s` for its member, and the inputs `x` and
-- `{}`.
abbrev object_node : SchemaNode ℕ
object_node = record {
  type = bytes "object";
  description = [];
  required = bytes "q" ∷ [];
  properties = (bytes "q", bytes "s") ∷ [];
  additional_properties = some false;
  items = [];
  enum = [];
}

abbrev string_node : SchemaNode ℕ
string_node = record {
  type = bytes "string";
  description = [];
  required = [];
  properties = [];
  additional_properties = none;
  items = [];
  enum = [];
}

unfoldable node_of : Str → Result (SchemaNode ℕ)
node_of raw = if leb 2 (length raw) then ok object_node else ok string_node

unfoldable value_of : Str → Result (Value ℕ)
value_of raw =
    if leb 2 (length raw)
    then ok (object end)
    else ok (object (member (bytes "q") (text (bytes "a")) end))

abbrev codec : Codec ℕ
codec = record {
  valid = λ s. not (is_empty s);
  decode_node = node_of;
  decode_keys = λ s. ok (bytes "type" ∷ []);
  decode_value = value_of;
  is_integral = λ n. true;
  deep_equal = λ v w. false;
}

codec-IsSliced : IsSliced codec
unfolding node_of
codec-IsSliced = record {
  inside = λ raw node h. elim (Bool-cases (leb 2 (length raw))) [
    | inl e ↦
        let p : object_node ≡ node = cc (rw e at h) in
        subst
          (λ n.
            All (λ p. length p.1 < length raw) n.properties
            × (is_empty n.items ≡ false → length n.items < length raw))
          p ((ground arith, tt), λ q. cc q)
    | inr n ↦
        let p : string_node ≡ node = cc (rw n at h) in
        subst
          (λ n.
            All (λ p. length p.1 < length raw) n.properties
            × (is_empty n.items ≡ false → length n.items < length raw))
          p (tt, λ q. cc q)
  ];
}

abbrev search : Definition
search = record {
  name = bytes "search";
  description = bytes "Finds.";
  input_schema = bytes "SS";
  handler = some (λ input. returns [] none);
}

registered : register codec [] search ≡ (none, (bytes "search", search) ∷ [])
unfolding program node_of
registered = refl

abbrev tools : Registry
tools = (bytes "search", search) ∷ []

invoked : invoke codec tools (bytes "search") (bytes "x") ≡ (ok (bytes "null"), bytes "x" ∷ [])
unfolding program node_of value_of
invoked = refl

invoke-Invokes_example :
    Invokes codec tools
      (bytes "search")
      (bytes "x")
      (invoke codec tools (bytes "search") (bytes "x")).0
      (invoke codec tools (bytes "search") (bytes "x")).1
invoke-Invokes_example = invoke-Invokes codec tools (bytes "search") (bytes "x") codec-IsSliced

validate_value-Conforms_example :
    (validate_value codec (bytes "SS") (object end) (bytes "input") ≡ none)
    ↔ Conforms codec (bytes "SS") (object end)
validate_value-Conforms_example =
    validate_value-Conforms codec codec-IsSliced (bytes "SS") (object end) (bytes "input")

nothing-IsWellFormed : IsWellFormed codec []
unfolding lookup
nothing-IsWellFormed name d h = cc h

search_validates : validate codec search ≡ none
unfolding program node_of
search_validates = refl

tools-IsWellFormed : IsWellFormed codec tools
unfolding lookup
tools-IsWellFormed name d h = elim (Bool-cases (str_eq (bytes "search") name)) [
  | inl same ↦
      let p : search ≡ d = cc (rw same at h) in
      subst (λ x. (validate codec x ≡ none) × (x.name ≡ name)) p
        (search_validates, (str_eq_iff (bytes "search") name).0 same)
  | inr other ↦ cc (rw other at h)
]

abbrev model : Model
model = record {
  chat = λ n ms. err no_choices;
  chat_with_options = none;
  chat_stream = none;
  chat_stream_with_options = none;
}

abbrev on_time : ℕ → Option Error
on_time n = none

abbrev agent : Agent Sessions
agent = new model in_memory (with_tools (registry_tools codec tools on_time) ∷ [])

agent_tools : agent.tools ≡ some (registry_tools codec tools on_time)
unfolding new apply_options with_tools
agent_tools = refl

abbrev json : Json
json = record { valid = λ s. true; error_object = λ e. bytes "{}" }

abbrev begin : State Sessions
begin = record {
  store = [];
  events = [];
  audits = [];
  telemetry = [];
  streamed = [];
  deltas = [];
  replies = [];
  invocations = [];
}

abbrev search_call : ToolCall
search_call = record {
  id = bytes "call-1";
  kind = bytes "function";
  function = record { name = bytes "search"; arguments = bytes "x" };
}

search_answers :
    (invoke_tool agent json (bytes "run") (bytes "me") search_call begin).0 ≡ ok (bytes "null")
unfolding program node_of value_of new apply_options with_tools invoke_tool attempt authorize
    registry_tools
search_answers = refl

invoke_tool-IsServed_example : IsServed codec tools (bytes "search") (bytes "x") (bytes "null")
invoke_tool-IsServed_example =
    invoke_tool-IsServed codec tools codec-IsSliced agent json (bytes "run") (bytes "me") on_time
      agent_tools search_call begin (bytes "null") search_answers
