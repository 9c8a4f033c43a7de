-- ===== src/Tests/Compaction.antt =====
-- Compaction and the checks of tool calls, on a small conversation with one tool call.
use cortex_go.Errors.{duplicate_call_id, ok}
use cortex_go.Provider.{user, assistant, plain_message, tool, ToolCall, Message}
use cortex_go.Memory.Compact.{
  SummaryFunc, estimate_tokens, message_tokens, call_chars, compact, compact_to_token_budget,
  summarize_before, summarize_to_budget, summarize_front, split_last, summary_message, retreat,
  is_tool_at,
}
use cortex_go.Agent.Config.{Json}
use cortex_go.Memory.Compact.Cut.{linked, compact-linked}
use cortex_go.Memory.Compact.Budget.{IsFitted, compact_to_token_budget-fits}
use cortex_go.Agent.History.{compact_history, is_summary}
use cortex_go.Agent.Calls.{contains, validate_function, validate_from, validate_tool_calls}
use cortex_go.Agent.Calls.Valid.{AreValid, validate_tool_calls_iff}
use cortex_go.Prelude.{
  ◌-◌, ◌≤◌, ◌≡◌, refl, ◌↔◌, true, false, none, some, List, [], ◌∷◌, length, bytes, str_eq,
  has_prefix, rune_count, trim_space, pos,
}

program : Unit {0}
unfolding compact compact_to_token_budget summarize_before summarize_to_budget summarize_front
    split_last retreat is_tool_at linked compact_history is_summary estimate_tokens message_tokens
    call_chars rune_count str_eq has_prefix contains validate_function validate_from
    validate_tool_calls trim_space
program = tt

abbrev call_one : ToolCall
call_one = record {
  id = bytes "call-1";
  kind = bytes "function";
  function = record { name = bytes "current_time"; arguments = [] };
}

abbrev asked : Message
asked = plain_message user (bytes "time?")

abbrev called : Message
called = record { role = assistant; content = []; tool_call_id = []; tool_calls = call_one ∷ [] }

abbrev answered : Message
answered = record {
  role = tool;
  content = bytes "12:00";
  tool_call_id = bytes "call-1";
  tool_calls = [];
}

abbrev said : Message
said = plain_message assistant (bytes "noon")

-- The last two messages of `talk` begin with a tool result.
abbrev talk : List Message
talk = asked ∷ asked ∷ called ∷ answered ∷ said ∷ []

abbrev sum : SummaryFunc
sum ms = ok (bytes "s")

abbrev summed : Message
summed = summary_message (bytes "s")

talk-compacted : compact talk (pos 3) (some sum) ≡ ok (summed ∷ called ∷ answered ∷ said ∷ [])
unfolding program
talk-compacted = refl

talk-linked : linked false talk ≡ true
unfolding program
talk-linked = refl

compact-linked_example : linked false (summed ∷ called ∷ answered ∷ said ∷ []) ≡ true
compact-linked_example =
    compact-linked talk (pos 3) (some sum) (summed ∷ called ∷ answered ∷ said ∷ []) talk-linked
      talk-compacted

talk-budgeted : compact_to_token_budget talk (pos 20) (some sum) ≡ ok (summed ∷ said ∷ [])
unfolding program
talk-budgeted = refl

compact_to_token_budget-fits_example :
    (estimate_tokens (summed ∷ said ∷ []) ≤ 20) × IsFitted (some sum) talk (summed ∷ said ∷ [])
compact_to_token_budget-fits_example =
    compact_to_token_budget-fits talk (pos 20) (some sum) (summed ∷ said ∷ []) talk-budgeted

summed-is_summary : is_summary summed ≡ true
unfolding program
summed-is_summary = refl

history_cut :
    compact_history (summed ∷ talk) (pos 3) (some sum) ≡ ok (summed ∷ answered ∷ said ∷ [])
unfolding program
history_cut = refl

tool_first : is_tool_at (summed ∷ talk) (length (summed ∷ talk) - (3 - 1)) ≡ true
unfolding program
tool_first = refl

abbrev strict : Json
strict = record { valid = λ s. str_eq s (bytes "{}"); error_object = λ e. [] }

duplicate_call :
    validate_tool_calls strict (call_one ∷ call_one ∷ [])
    ≡ some (duplicate_call_id (bytes "call-1"))
unfolding program
duplicate_call = refl

validate_tool_calls_iff_example :
    (validate_tool_calls strict (call_one ∷ call_one ∷ []) ≡ none)
    ↔ AreValid strict [] (call_one ∷ call_one ∷ [])
validate_tool_calls_iff_example = validate_tool_calls_iff strict (call_one ∷ call_one ∷ [])
