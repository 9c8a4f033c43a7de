-- ===== src/Agent/History/Fits.antt =====
-- What the compactions of a history return: that they fit, and what they may part.
use cortex_go.Prelude.{
  ℕ, zero, suc, ◌-◌, ◌≤◌, ◌<◌, ◌≡◌, refl, sym, ap, subst, ◌∙◌, inl, inr, true, false, Option, some,
  List, [], ◌∷◌, arith, Bool-cases, length, get_elem?, drop, length-drop, ℤ, pos_part, str_eq,
  str_eq_iff, pos, negsuc,
}
use cortex_go.Errors.{ok}
use cortex_go.Provider.{Message, system, tool}
use cortex_go.Memory.Compact.{SummaryFunc, is_tool_at, estimate_tokens}
use cortex_go.Memory.Compact.Cut.{linked}
use cortex_go.Memory.Compact.Budget.{compact_to_token_budget-fits}
use cortex_go.Agent.History.{is_summary, drop_oldest, compact_token_history, compact_history}

drop_oldest-fits :
    (budget : ℕ) (head : Message) (rest r : List Message)
    → drop_oldest budget head rest ≡ ok r
    → estimate_tokens r ≤ budget
unfolding drop_oldest
drop_oldest-fits budget head [] r h = ground arith
drop_oldest-fits budget head (m ∷ rest) r h = ground (arith, drop_oldest-fits budget head rest r)

-- A history that is compacted to a budget of tokens fits the budget.
pub compact_token_history-fits :
    (history : List Message) (budget : ℤ) (f : Option SummaryFunc) (r : List Message)
    → compact_token_history history budget f ≡ ok r
    → estimate_tokens r ≤ pos_part budget
unfolding compact_token_history
compact_token_history-fits history (negsuc n) f r h = cc
compact_token_history-fits history (pos zero) f r h = cc
compact_token_history-fits [] (pos (suc n)) f r h =
    (compact_to_token_budget-fits [] (pos (suc n)) f r h).0
compact_token_history-fits (m ∷ rest) (pos (suc n)) f r h = elim (Bool-cases (is_summary m)) [
  | inl s ↦ drop_oldest-fits (suc n) m rest r (rw s at h)
  | inr o ↦ (compact_to_token_budget-fits (m ∷ rest) (pos (suc n)) f r (rw o at h)).0
]

compact_history-eq :
    (head : Message) (rest : List Message) (limit : ℕ) (f : Option SummaryFunc)
    → is_summary head ≡ true
    → 0 < limit
    → limit < length (head ∷ rest)
    → compact_history (head ∷ rest) (pos limit) f
      ≡ ok (head ∷ drop (length (head ∷ rest) - (limit - 1)) (head ∷ rest))
unfolding compact_history
compact_history-eq head rest limit f s p q = ground arith

-- A history that begins with a summary and is longer than a positive limit is cut to exactly that
-- many messages, the summary first.
pub length-compact_history :
    (head : Message) (rest : List Message) (limit : ℕ) (f : Option SummaryFunc) (r : List Message)
    → is_summary head ≡ true
    → 0 < limit
    → limit < length (head ∷ rest)
    → compact_history (head ∷ rest) (pos limit) f ≡ ok r
    → (length r ≡ limit) × (get_elem? r 0 ≡ some head)
length-compact_history head rest limit f r s p q h =
    let start = length (head ∷ rest) - (limit - 1) in
    let e : head ∷ drop start (head ∷ rest) ≡ r =
      ground (arith, compact_history-eq head rest limit f s p q) in
    (
      ap length (sym e) ∙ ap suc (length-drop start (head ∷ rest)) ∙ omega arith,
      ap (λ l. get_elem? l 0) (sym e),
    )

not-linked-drop :
    (ms : List Message) (start : ℕ)
    → is_tool_at ms start ≡ true
    → linked false (drop start ms) ≡ false
unfolding is_tool_at linked
not-linked-drop [] start h = cc
not-linked-drop (m ∷ ms) zero h = ground arith
not-linked-drop (m ∷ ms) (suc start) h = not-linked-drop ms start h

summary-role : (m : Message) → is_summary m ≡ true → str_eq m.role system ≡ true
unfolding is_summary
summary-role m s = ground arith

summary-not-tool : (m : Message) → is_summary m ≡ true → str_eq m.role tool ≡ false
unfolding str_eq
summary-not-tool m s =
    let e : m.role ≡ system = (str_eq_iff m.role system).0 (summary-role m s) in
    subst (λ x. str_eq x tool ≡ false) (sym e) refl

linked-head :
    (head : Message) (ms : List Message)
    → is_summary head ≡ true
    → head.tool_calls ≡ []
    → linked false (head ∷ ms) ≡ linked false ms
unfolding linked
linked-head head ms s e = rw (summary-not-tool head s, e)

-- Where the part that stays of a history behind its summary begins with a tool result, the compacted
-- history has that tool result without its assistant's call: the cut of `compactHistory` does not
-- move as that of `Compact` does.
pub compact_history-parts :
    (head : Message) (rest : List Message) (limit : ℕ) (f : Option SummaryFunc) (r : List Message)
    → is_summary head ≡ true
    → head.tool_calls ≡ []
    → 0 < limit
    → limit < length (head ∷ rest)
    → is_tool_at (head ∷ rest) (length (head ∷ rest) - (limit - 1)) ≡ true
    → compact_history (head ∷ rest) (pos limit) f ≡ ok r
    → linked false r ≡ false
compact_history-parts head rest limit f r s e p q t h =
    let start = length (head ∷ rest) - (limit - 1) in
    let e' : head ∷ drop start (head ∷ rest) ≡ r =
      ground (arith, compact_history-eq head rest limit f s p q) in
    ap (linked false) (sym e')
    ∙ linked-head head (drop start (head ∷ rest)) s e
    ∙ not-linked-drop (head ∷ rest) start t
