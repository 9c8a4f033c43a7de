-- ===== src/Memory/Compact.antt =====
-- internal/memory/compact.go: keeping a conversation within a number of messages or of tokens.
-- A summary function is an `Option`, `none` for Go's nil.
pub mod Cut
pub mod Budget
use cortex_go.Prelude.{
  ℕ, zero, suc, ◌+◌, ◌-◌, ◌/◌, Bool, false, ◌&&◌, ◌||◌, Option, none, some, List, [], ◌∷◌, ◌++◌,
  ltb, leb, if◌then◌else◌, length, take, drop, ℤ, Str, bytes, str_eq, rune_count, pos, negsuc,
}
use cortex_go.Errors.{
  Result, ok, err, summary_required, summarize_failed, budget_not_positive, cannot_fit,
}
use cortex_go.Provider.{ToolCall, Message, system, tool, plain_message}

-- SummaryFunc
abbrev pub SummaryFunc : Type 0
SummaryFunc = List Message → Result Str

-- "Conversation summary:\n"
abbrev pub summary_prefix : Str
summary_prefix = bytes "Conversation summary:" ++ 10 ∷ []

abbrev pub summary_message : Str → Message
summary_message summary = plain_message system (summary_prefix ++ summary)

-- messages[cut].Role == "tool", for a cut within the messages
unfoldable pub is_tool_at : List Message → ℕ → Bool
is_tool_at [] cut = false
is_tool_at (m ∷ ms) zero = str_eq m.role tool
is_tool_at (m ∷ ms) (suc cut) = is_tool_at ms cut

-- for cut > 0 && cut < len(messages) && messages[cut].Role == "tool" { cut-- }
unfoldable pub retreat : List Message → ℕ → ℕ
unfolding is_tool_at
retreat ms zero = zero
retreat ms (suc cut) =
    let back = retreat ms cut in
    if ltb (suc cut) (length ms) && is_tool_at ms (suc cut) then back else suc cut

-- The messages after a cut, behind their summary; the summary covers the others.
unfoldable pub summarize_before : SummaryFunc → ℕ → List Message → Result (List Message)
summarize_before summarize cut ms = elim (summarize (take cut ms)) [
  | err e ↦ err (summarize_failed e)
  | ok summary ↦ ok (summary_message summary ∷ drop cut ms)
]

unfoldable pub compact : List Message → ℤ → Option SummaryFunc → Result (List Message)
unfolding retreat summarize_before
compact ms (negsuc n) summarize = ok ms
compact ms (pos limit) summarize =
    if leb limit 0 || leb (length ms) limit then ok ms else elim summarize [
      | none ↦ err summary_required
      | some f ↦
          let start = length ms - limit + 1 in
          let cut = if ltb start 1 then 1 else start in summarize_before f (retreat ms cut) ms
    ]

-- utf8.RuneCountInString of a tool call's parts
unfoldable pub call_chars : List ToolCall → ℕ
call_chars [] = 0
call_chars (c ∷ cs) =
    rune_count c.id + rune_count c.function.name + rune_count c.function.arguments + call_chars cs

unfoldable pub message_tokens : Message → ℕ
unfolding call_chars
message_tokens m =
    4 + (rune_count m.content + rune_count m.tool_call_id + call_chars m.tool_calls + 3) / 4

unfoldable pub estimate_tokens : List Message → ℕ
estimate_tokens [] = 0
estimate_tokens (m ∷ ms) = message_tokens m + estimate_tokens ms

-- All but the last message, and the last.
unfoldable pub split_last : Message → List Message → List Message × Message
split_last m [] = ([], m)
split_last m (n ∷ ms) = let (front, last) = split_last n ms in (m ∷ front, last)

-- The summary of the messages in front, with the last one, if they fit.
unfoldable pub summarize_front : SummaryFunc → ℕ → List Message → Message → Result (List Message)
summarize_front summarize budget front last = elim (summarize front) [
  | err e ↦ err (summarize_failed e)
  | ok summary ↦
      let result = summary_message summary ∷ last ∷ [] in
      if leb (estimate_tokens result) budget then ok result else err (cannot_fit budget)
]

-- if len(messages) > 1 { ... }
unfoldable pub summarize_to_budget : SummaryFunc → ℕ → List Message → Result (List Message)
unfolding split_last summarize_front
summarize_to_budget summarize budget (m ∷ n ∷ ms) =
    let (front, last) = split_last m (n ∷ ms) in summarize_front summarize budget front last
summarize_to_budget summarize budget _ = err (cannot_fit budget)

unfoldable pub compact_to_token_budget :
    List Message → ℤ → Option SummaryFunc → Result (List Message)
unfolding summarize_to_budget
compact_to_token_budget ms (negsuc n) summarize = err budget_not_positive
compact_to_token_budget ms (pos zero) summarize = err budget_not_positive
compact_to_token_budget ms (pos (suc n)) summarize =
    if leb (estimate_tokens ms) (suc n)
    then ok ms
    else elim summarize [ none ↦ err summary_required | some f ↦ summarize_to_budget f (suc n) ms ]
