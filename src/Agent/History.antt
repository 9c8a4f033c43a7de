-- ===== src/Agent/History.antt =====
-- `compactTokenHistory` and `compactHistory`, which shorten a history before a turn.
pub mod Fits
use cortex_go.Prelude.{
  ℕ, zero, suc, ◌-◌, Bool, ◌&&◌, Option, List, [], ◌∷◌, ltb, leb, if◌then◌else◌, length, drop, ℤ,
  str_eq, has_prefix, pos, negsuc,
}
use cortex_go.Errors.{Result, ok, err, input_too_large, summary_too_large, limit_too_small}
use cortex_go.Provider.{Message, system}
use cortex_go.Memory.Compact.{
  SummaryFunc, summary_prefix, estimate_tokens, compact, compact_to_token_budget,
}

-- history[0].Role == "system" && strings.HasPrefix(history[0].Content, "Conversation summary:\n")
unfoldable pub is_summary : Message → Bool
is_summary m = str_eq m.role system && has_prefix m.content summary_prefix

-- for len(result) > 0 && EstimateTokens(result) > budget { ... }, at result = head ∷ rest
unfoldable pub drop_oldest : ℕ → Message → List Message → Result (List Message)
drop_oldest budget head [] =
    if ltb budget (estimate_tokens (head ∷ []))
    then err (summary_too_large budget)
    else ok (head ∷ [])
drop_oldest budget head (m ∷ rest) =
    let shorter = drop_oldest budget head rest in
    if ltb budget (estimate_tokens (head ∷ m ∷ rest)) then shorter else ok (head ∷ m ∷ rest)

unfoldable pub compact_token_history : List Message → ℤ → Option SummaryFunc → Result (List Message)
unfolding is_summary drop_oldest
compact_token_history history (negsuc n) summarize = err input_too_large
compact_token_history history (pos zero) summarize = err input_too_large
compact_token_history [] (pos (suc n)) summarize =
    compact_to_token_budget [] (pos (suc n)) summarize
compact_token_history (head ∷ rest) (pos (suc n)) summarize =
    if is_summary head
    then drop_oldest (suc n) head rest
    else compact_to_token_budget (head ∷ rest) (pos (suc n)) summarize

unfoldable pub compact_history : List Message → ℤ → Option SummaryFunc → Result (List Message)
unfolding is_summary
compact_history history (negsuc n) summarize = err limit_too_small
compact_history [] (pos limit) summarize = if leb limit 0 then err limit_too_small else ok []
compact_history (head ∷ rest) (pos limit) summarize =
    if leb limit 0
    then err limit_too_small
    else if leb (length (head ∷ rest)) limit
    then ok (head ∷ rest)
    else if is_summary head
    then (let keep = limit - 1 in
        let start = length (head ∷ rest) - keep in ok (head ∷ drop start (head ∷ rest)))
    else compact (head ∷ rest) (pos limit) summarize
