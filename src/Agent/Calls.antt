-- ===== src/Agent/Calls.antt =====
-- `validateToolCalls` and `addUsage`.
pub mod Valid
use cortex_go.Prelude.{
  ◌+◌, Bool, false, not, ◌&&◌, ◌||◌, Option, none, some, List, [], ◌∷◌, if◌then◌else◌, Str, bytes,
  str_eq, trim_space, is_empty,
}
use cortex_go.Errors.{
  Error, call_without_id, duplicate_call_id, bad_call_type, call_without_name, bad_arguments,
}
use cortex_go.Provider.{ToolCall, Usage}
use cortex_go.Agent.Config.{Json}

-- _, exists := seen[id]
unfoldable pub contains : Str → List Str → Bool
contains id [] = false
contains id (s ∷ seen) = str_eq s id || contains id seen

-- The tests of one call, after those of its ID.
unfoldable pub validate_function : Json → ToolCall → Option Error
validate_function json call =
    if not (str_eq call.kind (bytes "function"))
    then some (bad_call_type call.kind)
    else if is_empty (trim_space call.function.name)
    then some (call_without_name call.id)
    else let arguments = trim_space call.function.arguments in
      if not (is_empty arguments) && not (json.valid arguments)
      then some (bad_arguments call.id)
      else none

-- The loop, with the IDs seen so far.
unfoldable pub validate_from : Json → List Str → List ToolCall → Option Error
unfolding contains validate_function
validate_from json seen [] = none
validate_from json seen (call ∷ calls) =
    let rest = validate_from json (call.id ∷ seen) calls in
    if is_empty call.id
    then some call_without_id
    else if contains call.id seen
    then some (duplicate_call_id call.id)
    else elim (validate_function json call) [ some e ↦ some e | none ↦ rest ]

unfoldable pub validate_tool_calls : Json → List ToolCall → Option Error
unfolding validate_from
validate_tool_calls json calls = validate_from json [] calls

unfoldable pub add_usage : Usage → Usage → Usage
add_usage left right = record {
  prompt_tokens = left.prompt_tokens + right.prompt_tokens;
  completion_tokens = left.completion_tokens + right.completion_tokens;
  total_tokens = left.total_tokens + right.total_tokens;
}
