-- ===== src/Agent/Turn/Spent.antt =====
-- The usage that a turn reports.
use cortex_go.Provider.{user, plain_message, Message, Usage, ChatResult}
use cortex_go.Errors.{err, Result-cases, ok, Result}
use cortex_go.Agent.Turn.Fuel.{replies-emit, replies-run_calls, replies-finish, replies-ask}
use cortex_go.Agent.Turn.Keeps.{prepare-keeps}
use cortex_go.Agent.Turn.{prepare, run, ask, assistant_message, OnDelta, finish, loop}
use cortex_go.Agent.State.{run_started, State, no_usage, result_of}
use cortex_go.Agent.Tools.{run_calls, emit}
use cortex_go.Agent.Turn.Rounds.{after_reply-eq-ok, after_reply-ne-ok}
use cortex_go.Agent.Config.{Json, Agent}
use cortex_go.Prelude.{
  ℕ, zero, suc, ◌≡◌, sym, ap, ◌∙◌, inl, inr, Bool, Option, List, [], ◌∷◌, ◌++◌, arith, Option-cases,
  length, drop, Str, base,
}
use cortex_go.Agent.Calls.{add_usage}

-- The usage of all replies of a model.
unfoldable pub spent : List (Result ChatResult) → Usage
spent [] = no_usage
spent (r ∷ rs) = add_usage (result_of r).usage (spent rs)

Usage-ext :
    (u v : Usage)
    → u.prompt_tokens ≡ v.prompt_tokens
    → u.completion_tokens ≡ v.completion_tokens
    → u.total_tokens ≡ v.total_tokens
    → u ≡ v
Usage-ext u v p q r =
    λ i. record { prompt_tokens = p i; completion_tokens = q i; total_tokens = r i }

add_usage_assoc : (u v w : Usage) → add_usage (add_usage u v) w ≡ add_usage u (add_usage v w)
unfolding add_usage
add_usage_assoc u v w = Usage-ext _ _ (omega arith) (omega arith) (omega arith)

add_usage_zero : (u : Usage) → add_usage u no_usage ≡ u
unfolding add_usage
add_usage_zero u = Usage-ext _ _ (omega arith) (omega arith) (omega arith)

zero_add_usage : (u : Usage) → add_usage no_usage u ≡ u
unfolding add_usage
zero_add_usage u = Usage-ext _ _ (omega arith) (omega arith) (omega arith)

spent-append :
    (rs : List (Result ChatResult)) (r : Result ChatResult)
    → spent (rs ++ r ∷ []) ≡ add_usage (spent rs) (result_of r).usage
unfolding spent
spent-append [] r = add_usage_zero _ ∙ sym (zero_add_usage _)
spent-append (q ∷ rs) r =
    ap (add_usage (result_of q).usage) (spent-append rs r) ∙ sym (add_usage_assoc _ _ _)

module _ {M : Type 0} (a : Agent M) (json : Json) (run_id session : Str) where
  usage-finish :
      (stream : Bool) (start : ℕ) (said : List Message) (u : Usage) (res : ChatResult) (w : State M)
      (r : ChatResult) (w' : State M)
      → finish a json run_id session stream start said u res w ≡ (ok r, w')
      → r.usage ≡ u
  unfolding finish
  usage-finish stream start said u res w r w' h =
      elim (Option-cases
        (a.memory.append w.store session
          (drop start (said ++ assistant_message res.content [] ∷ []))).0) [
            | inr (e, failed) ↦ cc (rw (failed, finish) at h)
            | inl done ↦ (let p = ap (λ q. (result_of q.0).usage) (rw (done, finish) at h) in sym p)
          ]

  loop-spent :
      (stream : Bool) (f : Option OnDelta) (start : ℕ) (base : Usage) (fuel round : ℕ)
      (said : List Message) (u : Usage) (w : State M) (r : ChatResult) (w' : State M)
      → spent w.replies ≡ add_usage base u
      → loop a json run_id session stream f start fuel round said u w ≡ (ok r, w')
      → spent w'.replies ≡ add_usage base r.usage
  unfolding loop
  loop-spent stream f start base zero round said u w r w' inv h = cc
  loop-spent stream f start base (suc fuel) round said u w r w' inv h =
      let q = ask a json run_id session stream f round said w in
      elim (Result-cases q.0) [
        | inr (e, failed) ↦ absurd (
            after_reply-ne-ok a json run_id session _ stream start round said u e q.1 r w'
              (rw failed at h))
        | inl (res, replied) ↦
            let inv' : spent q.1.replies ≡ add_usage base (add_usage u res.usage) =
              ap spent (replies-ask a json run_id session stream f round said w)
              ∙ spent-append w.replies q.0
              ∙ ap (λ v. add_usage (spent w.replies) (result_of v).usage) replied
              ∙ ap (λ v. add_usage v res.usage) inv
              ∙ add_usage_assoc base u res.usage in
            elim (after_reply-eq-ok a json run_id session _ stream start round said u res q.1 r w'
              (rw replied at h)) [
                | inl (no_calls, last) ↦
                    ap (λ p. spent p.1.replies) (sym last)
                    ∙ ap spent (replies-finish a json run_id session stream start said _ res q.1)
                    ∙ inv'
                    ∙ ap (add_usage base) (sym (usage-finish stream start said _ res q.1 r w' last))
                | inr (more, under, good, rest) ↦
                    let w'' = (run_calls a json run_id session res.tool_calls q.1).1 in
                    loop-spent stream f start base fuel (suc round) _ (add_usage u res.usage) w'' r
                      w'
                      (ap spent (replies-run_calls a json run_id session res.tool_calls q.1) ∙ inv')
                      rest
              ]
      ]

  -- The usage of a result is the sum of the usages of all replies that the model gave in the turn.
  pub run-spent :
      (input : Str) (stream : Bool) (f : Option OnDelta) (w : State M) (r : ChatResult)
      (w' : State M)
      → run a json run_id session input stream f w ≡ (ok r, w')
      → spent w'.replies ≡ add_usage (spent w.replies) r.usage
  unfolding run
  run-spent input stream f w r w' h =
      let begun : State M = record (emit a json run_id session run_started w) { streamed = [] } in
      let q = prepare a json run_id session input begun in
      let same : q.1.replies ≡ w.replies =
        prepare-keeps a json run_id session (λ t. t.replies ≡ w.replies) (λ m t k. k) input begun
          (replies-emit a json run_id session run_started w) in
      elim (Result-cases q.0) [
        | inr (e, failed) ↦ (let p : err e ≡ ok r = ap (λ x. x.0) (rw (failed, run) at h) in cc p)
        | inl (history, prepared) ↦
            loop-spent stream f (length history) (spent w.replies) (suc a.max_tool_rounds) 0
              (history ++ plain_message user input ∷ []) no_usage q.1 r w'
              (ap spent same ∙ sym (add_usage_zero _)) (rw (prepared, run) at h)
      ]
