-- ===== src/Memory/Compact/Budget.antt =====
-- The token estimate, and that compaction to a budget fits it.
use cortex_go.Prelude.{
  ℕ, zero, suc, ◌+◌, ◌*◌, ◌≤◌, ◌≡◌, refl, ap, inl, inr, Option, none, some, List, [], ◌∷◌, ◌++◌,
  arith, leb, Bool-cases, length, ℤ, pos_part, Str, pos, negsuc,
}
use cortex_go.Errors.{ok, err, Result-cases, summary_required}
use cortex_go.Provider.{Message}
use cortex_go.Memory.Compact.{
  SummaryFunc, message_tokens, estimate_tokens, split_last, summarize_front, summarize_to_budget,
  compact_to_token_budget, summary_message,
}

-- The estimate of two conversations joined is the sum of their estimates.
pub estimate_tokens-append :
    (ms ns : List Message) → estimate_tokens (ms ++ ns) ≡ estimate_tokens ms + estimate_tokens ns
unfolding estimate_tokens
estimate_tokens-append [] ns = omega arith
estimate_tokens-append (m ∷ ms) ns = omega (arith, estimate_tokens-append ms ns)

message_tokens-ge : (m : Message) → 4 ≤ message_tokens m
unfolding message_tokens
message_tokens-ge m = omega arith

pub estimate_tokens-ge : (ms : List Message) → 4 * length ms ≤ estimate_tokens ms
unfolding estimate_tokens
estimate_tokens-ge [] = omega arith
estimate_tokens-ge (m ∷ ms) = omega (arith, message_tokens-ge m, estimate_tokens-ge ms)

pub split_last-append :
    (m : Message) (ms : List Message) → (split_last m ms).0 ++ (split_last m ms).1 ∷ [] ≡ m ∷ ms
unfolding split_last
split_last-append m [] = refl
split_last-append m (n ∷ ms) = ap (◌∷◌ m) (split_last-append n ms)

-- What a compaction to a budget may return.
pub data IsFitted (f : Option SummaryFunc) (ms r : List Message) : Type 0 where
  whole : r ≡ ms → IsFitted f ms r
  summed :
      (g : SummaryFunc) (front : List Message) (last : Message) (s : Str)
      → f ≡ some g
      → front ++ last ∷ [] ≡ ms
      → g front ≡ ok s
      → r ≡ summary_message s ∷ last ∷ []
      → IsFitted f ms r

summarize_front-eq-ok :
    (g : SummaryFunc) (budget : ℕ) (front : List Message) (last : Message) (r : List Message)
    → summarize_front g budget front last ≡ ok r
    → (estimate_tokens r ≤ budget) × IsFitted (some g) (front ++ last ∷ []) r
unfolding summarize_front
summarize_front-eq-ok g budget front last r h = elim (Result-cases (g front)) [
  | inl (s, e) ↦ (ground arith, summed g front last s refl refl e (ground arith))
  | inr (x, e) ↦ cc (rw (e, summarize_front) at h)
]

summarize_to_budget-eq-ok :
    (g : SummaryFunc) (budget : ℕ) (ms r : List Message)
    → summarize_to_budget g budget ms ≡ ok r
    → (estimate_tokens r ≤ budget) × IsFitted (some g) ms r
unfolding summarize_to_budget
summarize_to_budget-eq-ok g budget [] r h = cc
summarize_to_budget-eq-ok g budget (m ∷ []) r h = cc
summarize_to_budget-eq-ok g budget (m ∷ n ∷ ms) r h =
    let (front, last) = split_last m (n ∷ ms) in
    rw (← split_last-append m (n ∷ ms)) (summarize_front-eq-ok g budget front last r h)

-- A compaction to a budget that succeeds fits the budget, and returns the conversation itself or the
-- summary of all messages but the last, followed by the last.
pub compact_to_token_budget-fits :
    (ms : List Message) (budget : ℤ) (f : Option SummaryFunc) (r : List Message)
    → compact_to_token_budget ms budget f ≡ ok r
    → (estimate_tokens r ≤ pos_part budget) × IsFitted f ms r
unfolding compact_to_token_budget
compact_to_token_budget-fits ms (negsuc n) f r h = cc
compact_to_token_budget-fits ms (pos zero) f r h = cc
compact_to_token_budget-fits ms (pos (suc n)) f r h =
    elim (Bool-cases (leb (estimate_tokens ms) (suc n))) [
      | inl small ↦ (ground arith, whole (ground arith))
      | inr big ↦ over f (ground arith)
    ]
  where
    over :
        (f : Option SummaryFunc)
        → (elim f [ none ↦ err summary_required | some g ↦ summarize_to_budget g (suc n) ms ])
          ≡ ok r
        → (estimate_tokens r ≤ suc n) × IsFitted f ms r
    over none e = cc
    over (some g) e = summarize_to_budget-eq-ok g (suc n) ms r e
