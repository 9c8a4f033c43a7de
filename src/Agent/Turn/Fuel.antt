-- ===== src/Agent/Turn/Fuel.antt =====
-- The fuel of the loop is enough, and the model is called at most once more than there may be rounds.
use cortex_go.Agent.State.{no_usage, run_started, State, EventKind}
use cortex_go.Provider.{user, plain_message, Message, ToolCall, Usage, ChatResult}
use cortex_go.Errors.{Result-cases, Result, ok, err}
use cortex_go.Agent.Turn.Keeps.{prepare-keeps, run_calls-keeps, call_model-keeps}
use cortex_go.Agent.Turn.{
  prepare, run, OnDelta, assistant_message, stream_delta, record_model, call_model, ask, finish,
  after_reply, loop,
}
use cortex_go.Prelude.{
  ℕ, zero, suc, ◌+◌, ◌-◌, ◌≤◌, ◌<◌, ◌≡◌, refl, ap, ◌∙◌, inl, inr, Bool, Option, none, some, List,
  [], ◌∷◌, ◌++◌, arith, leb, Bool-cases, Option-cases, length, drop, length-append, Str, is_empty,
}
use cortex_go.Agent.Config.{Agent, Json}
use cortex_go.Agent.Calls.{validate_tool_calls, add_usage}
use cortex_go.Agent.Tools.{emit, invoke_tool, attempt, audit, run_call, run_calls}

module _ {M : Type 0} (a : Agent M) (json : Json) (run_id session : Str) where
  abbrev Next : Type 0
  Next = List Message → Usage → State M → Result ChatResult × State M

  -- The round after this one is asked only below the limit.
  after_reply-next :
      (next next' : Next) (stream : Bool) (start round : ℕ)
      → (round < a.max_tool_rounds
          → (ms : List Message) (u : Usage) (w : State M) → next ms u w ≡ next' ms u w)
      → (ms : List Message) (u : Usage) (r : Result ChatResult) (w : State M)
      → after_reply a json run_id session next stream start round ms u r w
        ≡ after_reply a json run_id session next' stream start round ms u r w
  unfolding after_reply
  after_reply-next next next' stream start round same ms u (err e) w = refl
  after_reply-next next next' stream start round same ms u (ok res) w =
      elim (Bool-cases (is_empty res.tool_calls)) [
        | inl last ↦ rw last
        | inr more ↦ elim (Bool-cases (leb a.max_tool_rounds round)) [
          | inl over ↦ rw more (rw over)
          | inr under ↦ elim (Option-cases (validate_tool_calls json res.tool_calls)) [
            | inr (e, bad) ↦ rw more (rw under (rw bad))
            | inl good ↦ rw more (rw under (rw good (same (ground arith) _ _ _)))
          ]
        ]
      ]

  -- Two runs of the loop whose fuels both exceed the rounds left agree, whatever the model does: the
  -- loop ends by its own tests, before `max_tool_rounds + 1` rounds are over.
  pub loop-fuel :
      (g h round : ℕ)
      → a.max_tool_rounds < suc g + round
      → a.max_tool_rounds < suc h + round
      → (stream : Bool) (f : Option OnDelta) (start : ℕ) (ms : List Message) (u : Usage)
        (w : State M)
      → loop a json run_id session stream f start (suc g) round ms u w
        ≡ loop a json run_id session stream f start (suc h) round ms u w
  unfolding loop
  loop-fuel zero zero round p q stream f start ms u w = refl
  loop-fuel zero (suc h) round p q stream f start ms u w =
      after_reply-next _ _ stream start round (λ under. absurd (omega arith)) ms u _ _
  loop-fuel (suc g) zero round p q stream f start ms u w =
      after_reply-next _ _ stream start round (λ under. absurd (omega arith)) ms u _ _
  loop-fuel (suc g) (suc h) round p q stream f start ms u w =
      after_reply-next _ _ stream start round
        (λ under. loop-fuel g h (suc round) (omega arith) (omega arith) stream f start) ms u _ _

  -- Only a call of the model adds to the replies.
  pub replies-emit :
      (k : EventKind) (w : State M) → (emit a json run_id session k w).replies ≡ w.replies
  unfolding emit
  replies-emit k w = ground arith

  replies-invoke_tool :
      (c : ToolCall) (w : State M) → (invoke_tool a json run_id session c w).1.replies ≡ w.replies
  unfolding invoke_tool attempt audit
  replies-invoke_tool c w = ground arith

  replies-run_call :
      (c : ToolCall) (w : State M) → (run_call a json run_id session c w).1.replies ≡ w.replies
  unfolding run_call
  replies-run_call c w = replies-emit _ _ ∙ replies-invoke_tool c _ ∙ replies-emit _ _

  pub replies-run_calls :
      (cs : List ToolCall) (w : State M)
      → (run_calls a json run_id session cs w).1.replies ≡ w.replies
  replies-run_calls cs w =
      run_calls-keeps a json run_id session (λ t. t.replies ≡ w.replies)
        (λ c t h. replies-run_call c t ∙ h) cs w refl

  replies-stream_delta :
      (f : Option OnDelta) (d : Str) (w : State M)
      → (stream_delta a json run_id session f d w).1.replies ≡ w.replies
  unfolding stream_delta
  replies-stream_delta none d w = refl
  replies-stream_delta (some f) d w = refl

  replies-record_model :
      (r : Result ChatResult) (w : State M)
      → (record_model a json run_id session r w).replies ≡ w.replies
  unfolding record_model
  replies-record_model r w = ground arith

  pub replies-ask :
      (stream : Bool) (f : Option OnDelta) (round : ℕ) (ms : List Message) (w : State M)
      → (ask a json run_id session stream f round ms w).1.replies
        ≡ w.replies ++ (ask a json run_id session stream f round ms w).0 ∷ []
  unfolding ask
  replies-ask stream f round ms w =
      replies-record_model _ _
      ∙ replies-emit _ _
      ∙ ap (λ l. l ++ (call_model a json run_id session stream f ms w).0 ∷ [])
          (call_model-keeps a json run_id session (λ t. t.replies ≡ w.replies) f
            (λ d t h. replies-stream_delta f d t ∙ h) stream ms w refl)

  pub replies-finish :
      (stream : Bool) (start : ℕ) (ms : List Message) (u : Usage) (r : ChatResult) (w : State M)
      → (finish a json run_id session stream start ms u r w).1.replies ≡ w.replies
  unfolding finish
  replies-finish stream start ms u r w =
      elim (Option-cases
        (a.memory.append w.store session
          (drop start (ms ++ assistant_message r.content [] ∷ []))).0) [
            | inr (e, failed) ↦ rw (failed, finish)
            | inl done ↦ rw (done, finish) (replies-emit _ _)
          ]

  after_reply-replies :
      (next : Next) (stream : Bool) (start round bound : ℕ)
      → (round < a.max_tool_rounds
          → (ms : List Message) (u : Usage) (w : State M) → length w.replies ≤ bound
          → length (next ms u w).1.replies ≤ bound + (a.max_tool_rounds - round))
      → (ms : List Message) (u : Usage) (r : Result ChatResult) (w : State M)
      → length w.replies ≤ bound
      → length (after_reply a json run_id session next stream start round ms u r w).1.replies
        ≤ bound + (a.max_tool_rounds - round)
  unfolding after_reply
  after_reply-replies next stream start round bound step ms u (err e) w h = omega arith
  after_reply-replies next stream start round bound step ms u (ok res) w h =
      elim (Bool-cases (is_empty res.tool_calls)) [
        | inl last ↦
            rw last
              (rw (replies-finish stream start ms (add_usage u res.usage) res w) (omega arith))
        | inr more ↦ elim (Bool-cases (leb a.max_tool_rounds round)) [
          | inl over ↦ rw more (rw over (omega arith))
          | inr under ↦ elim (Option-cases (validate_tool_calls json res.tool_calls)) [
            | inr (e, bad) ↦ rw more (rw under (rw bad (omega arith)))
            | inl good ↦ rw more (
                rw under
                  (rw good (step (ground arith) _ _ _ (rw (replies-run_calls res.tool_calls w) h))))
          ]
        ]
      ]

  loop-replies :
      (fuel round bound : ℕ) (stream : Bool) (f : Option OnDelta) (start : ℕ) (ms : List Message)
      (u : Usage) (w : State M)
      → length w.replies ≤ bound
      → length (loop a json run_id session stream f start fuel round ms u w).1.replies
        ≤ suc bound + (a.max_tool_rounds - round)
  unfolding loop
  loop-replies zero round bound stream f start ms u w h = omega arith
  loop-replies (suc fuel) round bound stream f start ms u w h =
      after_reply-replies _ stream start round (suc bound)
        (λ under ms u w h.
          omega (arith, loop-replies fuel (suc round) (suc bound) stream f start ms u w h))
        ms u (ask a json run_id session stream f round ms w).0 _
        (rw (replies-ask stream f round ms w) (
          omega (
            arith,
            length-append w.replies ((ask a json run_id session stream f round ms w).0 ∷ []),
          )))

  -- A turn calls the model at most once more than there may be tool rounds.
  pub length-replies-run :
      (input : Str) (stream : Bool) (f : Option OnDelta) (w : State M)
      → length (run a json run_id session input stream f w).1.replies
        ≤ length w.replies + a.max_tool_rounds + 1
  unfolding run
  length-replies-run input stream f w =
      let begun : State M = record (emit a json run_id session run_started w) { streamed = [] } in
      let q = prepare a json run_id session input begun in
      let same : q.1.replies ≡ w.replies =
        prepare-keeps a json run_id session (λ t. t.replies ≡ w.replies) (λ m t h. h) input begun
          (replies-emit run_started w) in
      elim (Result-cases q.0) [
        | inr (e, failed) ↦ rw (failed, run) (rw same (omega arith))
        | inl (history, prepared) ↦
            rw (prepared, run)
              (omega (
                arith,
                loop-replies (suc a.max_tool_rounds) 0 (length w.replies) stream f (length history)
                    (history ++ plain_message user input ∷ []) no_usage q.1 (rw same (omega arith)),
              ))
      ]
