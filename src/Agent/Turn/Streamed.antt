-- ===== src/Agent/Turn/Streamed.antt =====
-- The content that a streaming turn returns.
use cortex_go.Provider.{user, plain_message, Message, ToolCall, Usage, ChatResult}
use cortex_go.Agent.State.{no_usage, result_of, run_started, State, EventKind}
use cortex_go.Agent.Calls.{add_usage}
use cortex_go.Prelude.{
  ℕ, zero, suc, ◌≡◌, refl, sym, ap, ◌∙◌, inl, inr, Bool, true, false, Option, none, List, [], ◌∷◌,
  ◌++◌, arith, Option-cases, length, drop, Str,
}
use cortex_go.Errors.{Result, ok, err, Result-cases}
use cortex_go.Agent.Config.{Agent, Json}
use cortex_go.Agent.Tools.{emit, invoke_tool, attempt, audit, run_call, run_calls}
use cortex_go.Agent.Turn.{
  OnDelta, assistant_message, record_model, call_model, ask, finish, run, prepare,
  chat_stream_with_result, loop,
}
use cortex_go.Agent.Turn.Keeps.{loop-keeps, prepare-keeps}
use cortex_go.Agent.Turn.Rounds.{after_reply-eq-ok, after_reply-ne-ok}

module _ {M : Type 0} (a : Agent M) (json : Json) (run_id session : Str) where
  streamed-emit :
      (k : EventKind) (w : State M) → (emit a json run_id session k w).streamed ≡ w.streamed
  unfolding emit
  streamed-emit k w = ground arith

  streamed-invoke_tool :
      (c : ToolCall) (w : State M) → (invoke_tool a json run_id session c w).1.streamed ≡ w.streamed
  unfolding invoke_tool attempt audit
  streamed-invoke_tool c w = ground arith

  streamed-run_call :
      (c : ToolCall) (w : State M) → (run_call a json run_id session c w).1.streamed ≡ w.streamed
  unfolding run_call
  streamed-run_call c w = streamed-emit _ _ ∙ streamed-invoke_tool c _ ∙ streamed-emit _ _

  streamed-record_model :
      (r : Result ChatResult) (w : State M)
      → (record_model a json run_id session r w).streamed ≡ w.streamed
  unfolding record_model
  streamed-record_model r w = ground arith

  streamed-finish :
      (stream : Bool) (start : ℕ) (ms : List Message) (u : Usage) (r : ChatResult) (w : State M)
      → (finish a json run_id session stream start ms u r w).1.streamed ≡ w.streamed
  unfolding finish
  streamed-finish stream start ms u r w =
      elim (Option-cases
        (a.memory.append w.store session
          (drop start (ms ++ assistant_message r.content [] ∷ []))).0) [
            | inr (e, failed) ↦ rw (failed, finish)
            | inl done ↦ rw (done, finish) (streamed-emit _ _)
          ]

  content-finish :
      (start : ℕ) (said : List Message) (u : Usage) (res : ChatResult) (w : State M)
      (r : ChatResult) (w' : State M)
      → finish a json run_id session true start said u res w ≡ (ok r, w')
      → r.content ≡ w'.streamed
  unfolding finish
  content-finish start said u res w r w' h =
      elim (Option-cases
        (a.memory.append w.store session
          (drop start (said ++ assistant_message res.content [] ∷ []))).0) [
            | inr (e, failed) ↦
                (let p : err e ≡ ok r = ap (λ q. q.0) (rw (failed, finish) at h) in cc p)
            | inl done ↦
                (let h' = rw (done, finish) at h in
                  let p = ap (λ q. (result_of q.0).content) h' in
                  sym p ∙ sym (streamed-emit _ _) ∙ ap (λ q. q.1.streamed) h')
          ]

  loop-content :
      (f : Option OnDelta) (start fuel round : ℕ) (said : List Message) (u : Usage) (w : State M)
      (r : ChatResult) (w' : State M)
      → loop a json run_id session true f start fuel round said u w ≡ (ok r, w')
      → r.content ≡ w'.streamed
  unfolding loop
  loop-content f start zero round said u w r w' h = cc
  loop-content f start (suc fuel) round said u w r w' h =
      let q = ask a json run_id session true f round said w in
      elim (Result-cases q.0) [
        | inr (e, failed) ↦ absurd (
            after_reply-ne-ok a json run_id session _ true start round said u e q.1 r w'
              (rw failed at h))
        | inl (res, replied) ↦
            elim (after_reply-eq-ok a json run_id session _ true start round said u res q.1 r w'
              (rw replied at h)) [
                | inl (no_calls, last) ↦ content-finish start said _ res q.1 r w' last
                | inr (more, under, good, rest) ↦
                    loop-content f start fuel (suc round) _ (add_usage u res.usage)
                      (run_calls a json run_id session res.tool_calls q.1).1 r w' rest
              ]
      ]

  -- The content of a streaming turn is the text of all the deltas that the model sent in the turn.
  pub run-content :
      (input : Str) (f : Option OnDelta) (w : State M) (r : ChatResult) (w' : State M)
      → run a json run_id session input true f w ≡ (ok r, w')
      → r.content ≡ w'.streamed
  unfolding run
  run-content input f w r w' h =
      let q =
        prepare a json run_id session input
          (record (emit a json run_id session run_started w) { streamed = [] }) in
      elim (Result-cases q.0) [
        | inr (e, failed) ↦ (let p : err e ≡ ok r = ap (λ x. x.0) (rw (failed, run) at h) in cc p)
        | inl (history, prepared) ↦
            loop-content f (length history) (suc a.max_tool_rounds) 0
              (history ++ plain_message user input ∷ []) no_usage q.1 r w' (rw (prepared, run) at h)
      ]

  module _ (whole : a.model.chat_stream_with_options ≡ none)
      (plain : a.model.chat_stream ≡ none) where
    ask-Silent :
        (stream : Bool) (f : Option OnDelta) (round : ℕ) (ms : List Message) (w : State M)
        → w.streamed ≡ []
        → (ask a json run_id session stream f round ms w).1.streamed ≡ []
    unfolding ask call_model
    ask-Silent false f round ms w h = streamed-record_model _ _ ∙ streamed-emit _ _ ∙ h
    ask-Silent true f round ms w h =
        streamed-record_model _ _ ∙ streamed-emit _ _ ∙ rw whole (rw plain h)

    -- With a model that cannot stream, a streaming turn that ends well returns an empty content,
    -- whatever the model answered.
    pub chat_stream_with_result-empty :
        (input : Str) (f : Option OnDelta) (w : State M) (r : ChatResult) (w' : State M)
        → chat_stream_with_result a json run_id session input f w ≡ (ok r, w')
        → r.content ≡ []
    unfolding chat_stream_with_result run
    chat_stream_with_result-empty input f w r w' h =
        let begun : State M = record (emit a json run_id session run_started w) { streamed = [] } in
        let q = prepare a json run_id session input begun in
        let silent : q.1.streamed ≡ [] =
          prepare-keeps a json run_id session (λ t. t.streamed ≡ []) (λ m t k. k) input begun
            refl in
        run-content input f w r w' h ∙ ap (λ p. p.1.streamed) (sym h) ∙ (elim (Result-cases q.0) [
          | inr (e, failed) ↦ rw (failed, run) silent
          | inl (history, prepared) ↦
              rw (prepared, run)
                (loop-keeps a json run_id session (λ t. t.streamed ≡ []) ask-Silent
                  (λ c t k. streamed-run_call c t ∙ k)
                  (λ s n ms u r t k. streamed-finish s n ms u r t ∙ k) true f (length history)
                  (suc a.max_tool_rounds) 0 _ no_usage q.1 silent)
        ])
