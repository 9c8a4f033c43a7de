-- ===== src/Agent/Turn/Traces.antt =====
-- What each part of a turn leaves alone: the memory and the text streamed.
use cortex_go.Agent.State.{State, EventKind}
use cortex_go.Agent.Turn.{OnDelta, stream_delta, record_model, ask}
use cortex_go.Prelude.{ℕ, ◌≡◌, refl, ◌∙◌, Bool, Option, none, some, List, arith, Str}
use cortex_go.Errors.{Result}
use cortex_go.Provider.{Message, ToolCall, ChatResult}
use cortex_go.Agent.Config.{Agent, Json}
use cortex_go.Agent.Tools.{emit, attempt, audit, invoke_tool, run_call, run_calls}
use cortex_go.Agent.Turn.Keeps.{run_calls-keeps, call_model-keeps}

module _ {M : Type 0} (a : Agent M) (json : Json) (run_id session : Str) where
  -- The memory is not touched between the listing of the history and the end of the turn.
  pub store-emit : (k : EventKind) (w : State M) → (emit a json run_id session k w).store ≡ w.store
  unfolding emit
  store-emit k w = ground arith

  store-invoke_tool :
      (c : ToolCall) (w : State M) → (invoke_tool a json run_id session c w).1.store ≡ w.store
  unfolding invoke_tool attempt audit
  store-invoke_tool c w = ground arith

  pub store-run_call :
      (c : ToolCall) (w : State M) → (run_call a json run_id session c w).1.store ≡ w.store
  unfolding run_call
  store-run_call c w = store-emit _ _ ∙ store-invoke_tool c _ ∙ store-emit _ _

  pub store-run_calls :
      (cs : List ToolCall) (w : State M) → (run_calls a json run_id session cs w).1.store ≡ w.store
  store-run_calls cs w =
      run_calls-keeps a json run_id session (λ t. t.store ≡ w.store)
        (λ c t h. store-run_call c t ∙ h) cs w refl

  pub streamed-emit :
      (k : EventKind) (w : State M) → (emit a json run_id session k w).streamed ≡ w.streamed
  unfolding emit
  streamed-emit k w = ground arith

  store-stream_delta :
      (f : Option OnDelta) (d : Str) (w : State M)
      → (stream_delta a json run_id session f d w).1.store ≡ w.store
  unfolding stream_delta
  store-stream_delta none d w = refl
  store-stream_delta (some f) d w = refl

  store-record_model :
      (r : Result ChatResult) (w : State M)
      → (record_model a json run_id session r w).store ≡ w.store
  unfolding record_model
  store-record_model r w = ground arith

  pub store-ask :
      (stream : Bool) (f : Option OnDelta) (round : ℕ) (ms : List Message) (w : State M)
      → (ask a json run_id session stream f round ms w).1.store ≡ w.store
  unfolding ask
  store-ask stream f round ms w =
      store-record_model _ _
      ∙ store-emit _ _
      ∙ call_model-keeps a json run_id session (λ t. t.store ≡ w.store) f
          (λ d t h. store-stream_delta f d t ∙ h) stream ms w refl
