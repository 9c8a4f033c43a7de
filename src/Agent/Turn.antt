-- ===== src/Agent/Turn.antt =====
-- `run`: the history of the session, shortened if it must be, and the rounds of the model. `loop`
-- recurs on fuel; `run` gives it one more than the rounds that it may take.
pub mod Keeps
pub mod Traces
pub mod Rounds
pub mod Persist
pub mod Fuel
pub mod Spent
pub mod Answered
pub mod Authorized
pub mod Streamed
pub mod Window
use cortex_go.Provider.{
  ToolInfo, Message, ToolCall, Usage, ChatResult, user, assistant, plain_message,
}
use cortex_go.Prelude.{
  ℕ, zero, suc, ◌+◌, ◌-◌, Bool, true, false, ◌&&◌, Option, none, some, List, [], ◌∷◌, ◌++◌, ltb,
  leb, if◌then◌else◌, length, drop, sub_ℕ, Str, is_empty, pos,
}
use cortex_go.Errors.{Error, Result, ok, err, persist_failed, too_many_rounds, out_of_fuel}
use cortex_go.Memory.Compact.{estimate_tokens}
use cortex_go.Agent.Config.{Agent, Json, Model, ToolBox, Stream}
use cortex_go.Agent.State.{
  State, ModelEvent, run_started, run_completed, model_completed, no_usage, result_of, error_of,
}
use cortex_go.Agent.Calls.{validate_tool_calls, add_usage}
use cortex_go.Agent.History.{compact_token_history, compact_history}
use cortex_go.Agent.Tools.{emit, run_calls}

-- The caller's onDelta: it sees the deltas before, and may refuse the next one.
abbrev pub OnDelta : Type 0
OnDelta = List Str → Str → Option Error

-- providerTools
unfoldable pub provider_tools : Option ToolBox → List ToolInfo
provider_tools none = []
provider_tools (some registry) = registry.definitions

-- provider.Message{Role: "assistant", Content: content, ToolCalls: calls}
abbrev pub assistant_message : Str → List ToolCall → Message
assistant_message content calls = record {
  role = assistant;
  content = content;
  tool_call_id = [];
  tool_calls = calls;
}

module _ {M : Type 0} (a : Agent M) (json : Json) (run_id session : Str) where
  -- `streamDelta`: the text so far, and the caller's callback if it has one
  unfoldable pub stream_delta : Option OnDelta → Str → State M → Option Error × State M
  stream_delta none delta w = (none, record w { streamed = w.streamed ++ delta })
  stream_delta (some f) delta w = (
    f w.deltas delta,
    record w { streamed = w.streamed ++ delta; deltas = w.deltas ++ delta ∷ [] },
  )

  -- A stream that meets its callback.
  unfoldable pub receive :
      Option OnDelta → List Str → Result ChatResult → State M → Result ChatResult × State M
  receive on_delta [] r w = (r, w)
  receive on_delta (d ∷ ds) r w =
      let (failure, w') = stream_delta on_delta d w in
      elim failure [ some e ↦ (err e, w') | none ↦ receive on_delta ds r w' ]

  -- The calls without streaming.
  unfoldable pub call_plain : List Message → State M → Result ChatResult
  call_plain ms w = elim a.model.chat_with_options [
    | some f ↦ f (length w.replies) ms (provider_tools a.tools)
    | none ↦ a.model.chat (length w.replies) ms
  ]

  unfoldable pub call_model :
      Bool → Option OnDelta → List Message → State M → Result ChatResult × State M
  call_model false on_delta ms w = (call_plain ms w, w)
  call_model true on_delta ms w = elim a.model.chat_stream_with_options [
    | some f ↦
        let (ds, r) = f (length w.replies) ms (provider_tools a.tools) in receive on_delta ds r w
    | none ↦ elim a.model.chat_stream [
      | some f ↦ let (ds, r) = f (length w.replies) ms in receive on_delta ds r w
      | none ↦ (call_plain ms w, w)
    ]
  ]

  -- The cost monitor, or else the telemetry recorder.
  unfoldable pub record_model : Result ChatResult → State M → State M
  record_model r w =
      let event : ModelEvent = record {
        usage = (result_of r).usage;
        model = (result_of r).model;
        failure = error_of r;
      } in
      let hears : Bool = elim a.cost_monitor [ some b ↦ b | none ↦ a.telemetry ] in
      if hears then record w { telemetry = w.telemetry ++ event ∷ [] } else w

  -- One call of the model, with the event and the telemetry that follow it.
  unfoldable pub ask :
      Bool → Option OnDelta → ℕ → List Message → State M → Result ChatResult × State M
  ask stream on_delta round transcript w =
      let (r, w') = call_model stream on_delta transcript w in
      let heard : State M = record w' { replies = w'.replies ++ r ∷ [] } in
      (r, record_model r (emit a json run_id session (model_completed round) heard))

  -- len(result.ToolCalls) == 0: the turn ends, and its messages go to the memory.
  unfoldable pub finish :
      Bool → ℕ → List Message → Usage → ChatResult → State M → Result ChatResult × State M
  finish stream history_start transcript total result w =
      let content = if stream then w.streamed else result.content in
      let answer : ChatResult = record result { content = content; usage = total } in
      let said = transcript ++ assistant_message result.content [] ∷ [] in
      let (failure, m) = a.memory.append w.store session (drop history_start said) in
      elim failure [
        | some e ↦ (err e, record w { store = m })
        | none ↦ (ok answer, emit a json run_id session run_completed (record w { store = m }))
      ]

  -- What follows a call of the model in one round; `next` is the round after it.
  unfoldable pub after_reply :
      (List Message → Usage → State M → Result ChatResult × State M)
      → Bool
      → ℕ
      → ℕ
      → List Message
      → Usage
      → Result ChatResult
      → State M
      → Result ChatResult × State M
  after_reply next stream history_start round transcript total (err e) w = (err e, w)
  after_reply next stream history_start round transcript total (ok result) w =
      let total' = add_usage total result.usage in
      if is_empty result.tool_calls
      then finish stream history_start transcript total' result w
      else if leb a.max_tool_rounds round
      then (err (too_many_rounds a.max_tool_rounds), w)
      else elim (validate_tool_calls json result.tool_calls) [
        | some e ↦ (err e, w)
        | none ↦
            let (answers, w') = run_calls a json run_id session result.tool_calls w in
            next (transcript ++ (assistant_message result.content result.tool_calls ∷ answers))
              total' w'
      ]

  -- for round := 0; ; round++ { ... }
  unfoldable pub loop :
      Bool
      → Option OnDelta
      → ℕ
      → ℕ
      → ℕ
      → List Message
      → Usage
      → State M
      → Result ChatResult × State M
  loop stream on_delta history_start zero round transcript total w = (err out_of_fuel, w)
  loop stream on_delta history_start (suc fuel) round transcript total w =
      let (r, w') = ask stream on_delta round transcript w in
      after_reply (loop stream on_delta history_start fuel (suc round)) stream history_start round
        transcript total r w'

  -- Replace, if the memory has it.
  unfoldable pub store_history : List Message → State M → Option Error × State M
  store_history ms w = elim a.memory.replace [
    | none ↦ (none, w)
    | some f ↦
        let (failure, m) = f w.store session ms in
        (elim failure [ none ↦ none | some e ↦ some (persist_failed e) ], record w { store = m })
  ]

  -- A compaction that is persisted.
  unfoldable pub replace_history : Result (List Message) → State M → Result (List Message) × State M
  replace_history (err e) w = (err e, w)
  replace_history (ok ms) w =
      let (failure, w') = store_history ms w in
      elim failure [ some e ↦ (err e, w') | none ↦ (ok ms, w') ]

  -- if a.tokenBudget > 0 { ... }
  unfoldable pub fit_tokens : Str → List Message → State M → Result (List Message) × State M
  fit_tokens input history w =
      let question = plain_message user input in
      if ltb 0 a.token_budget && ltb a.token_budget (estimate_tokens (history ++ question ∷ []))
      then replace_history
          (compact_token_history history (sub_ℕ a.token_budget (estimate_tokens (question ∷ [])))
            a.summarizer)
          w
      else (ok history, w)

  -- if a.contextLimit > 0 && len(history)+1 > a.contextLimit { ... }
  unfoldable pub fit_messages : List Message → State M → Result (List Message) × State M
  fit_messages history w =
      if ltb 0 a.context_limit && ltb a.context_limit (length history + 1)
      then replace_history (compact_history history (pos (a.context_limit - 1)) a.summarizer) w
      else (ok history, w)

  -- The history before the turn.
  unfoldable pub prepare : Str → State M → Result (List Message) × State M
  prepare input w =
      let (listed, m) = a.memory.list w.store session in
      let w' : State M = record w { store = m } in
      elim listed [
        | err e ↦ (err e, w')
        | ok history ↦
            let (fitted, w'') = fit_tokens input history w' in
            elim fitted [ err e ↦ (err e, w'') | ok history' ↦ fit_messages history' w'' ]
      ]

  unfoldable pub run : Str → Bool → Option OnDelta → State M → Result ChatResult × State M
  run input stream on_delta w =
      let (prepared, w') =
        prepare input (record (emit a json run_id session run_started w) { streamed = [] }) in
      elim prepared [
        | err e ↦ (err e, w')
        | ok history ↦
            loop stream on_delta (length history) (suc a.max_tool_rounds) 0
              (history ++ plain_message user input ∷ []) no_usage w'
      ]

  -- ChatWithResult and ChatStreamWithResult
  unfoldable pub chat_with_result : Str → State M → Result ChatResult × State M
  chat_with_result input w = run input false none w

  unfoldable pub chat_stream_with_result :
      Str → Option OnDelta → State M → Result ChatResult × State M
  chat_stream_with_result input on_delta w = run input true on_delta w
