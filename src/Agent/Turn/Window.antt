-- ===== src/Agent/Turn/Window.antt =====
-- A turn's history and question fit the budget of tokens.
use cortex_go.Prelude.{
  ℕ, ◌+◌, ◌-◌, ◌≤◌, ◌<◌, ◌≡◌, inl, inr, Option, List, [], ◌∷◌, ◌++◌, arith, ltb, leb, lt→ltb,
  leb→le, Bool-cases, Option-cases, sub_ℕ, Str, pos,
}
use cortex_go.Errors.{Result, ok, err, input_too_large}
use cortex_go.Provider.{Message, user, plain_message}
use cortex_go.Memory.Compact.{SummaryFunc, estimate_tokens}
use cortex_go.Memory.Compact.Budget.{estimate_tokens-append}
use cortex_go.Agent.Config.{Agent, Json}
use cortex_go.Agent.State.{State}
use cortex_go.Agent.History.{compact_token_history}
use cortex_go.Agent.History.Fits.{compact_token_history-fits}
use cortex_go.Agent.Turn.{fit_tokens, replace_history, store_history}

module _ {M : Type 0} (a : Agent M) (json : Json) (run_id session : Str) where
  replace_history-eq-ok :
      (r : Result (List Message)) (w : State M) (ms : List Message)
      → (replace_history a json run_id session r w).0 ≡ ok ms
      → r ≡ ok ms
  unfolding replace_history
  replace_history-eq-ok (err e) w ms h = h
  replace_history-eq-ok (ok ns) w ms h =
      elim (Option-cases (store_history a json run_id session ns w).0) [
        | inl n ↦ rw (n, replace_history) at h
        | inr (e, failed) ↦ cc (rw (failed, replace_history) at h)
      ]

  compact_token_history-room :
      (history r : List Message) (budget q : ℕ) (f : Option SummaryFunc)
      → compact_token_history history (sub_ℕ budget q) f ≡ ok r
      → estimate_tokens r + q ≤ budget
  unfolding compact_token_history
  compact_token_history-room history r budget q f h = elim (Bool-cases (leb q budget)) [
    | inl room ↦
        (let fits = compact_token_history-fits history (pos (budget - q)) f r (rw room at h) in
          omega (arith, leb→le q budget room, fits))
    | inr over ↦ (let e : err input_too_large ≡ ok r = rw over at h in cc e)
  ]

  -- With a token budget, the history that passes the token stage and the user's message are within
  -- the budget together.
  pub fit_tokens-fits :
      (input : Str) (history : List Message) (w : State M) (r : List Message)
      → 0 < a.token_budget
      → (fit_tokens a json run_id session input history w).0 ≡ ok r
      → estimate_tokens (r ++ plain_message user input ∷ []) ≤ a.token_budget
  unfolding fit_tokens
  fit_tokens-fits input history w r p h =
      let question = plain_message user input ∷ [] in
      elim (Bool-cases (ltb a.token_budget (estimate_tokens (history ++ question)))) [
        | inl over ↦
            (let e =
                replace_history-eq-ok _ w r (rw over at (rw (lt→ltb 0 a.token_budget p) at h)) in
              let room =
                compact_token_history-room history r a.token_budget (estimate_tokens question)
                  a.summarizer e in
              omega (arith, estimate_tokens-append r question, room))
        | inr fits ↦
            (let e : ok history ≡ ok r = rw fits at (rw (lt→ltb 0 a.token_budget p) at h) in
              let same : history ≡ r = cc e in rw (← same) (ground arith))
      ]
