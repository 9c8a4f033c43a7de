-- ===== src/Api/Http/Complete.antt =====
-- internal/api/http.go: the route `chat`, over the agent.
use cortex_go.Agent.State.{error_of, State}
use cortex_go.Api.Http.{
  event_stream, completion, failed, problem, bad_json, delta, reply, ServerRequest, stream_failed,
  Reply, done, BodyDecoder, ChatBody, ServerEvent, Completion, HttpServer,
}
use cortex_go.Api.Chat.{chat_session, chat_input}
use cortex_go.Agent.Turn.{chat_stream_with_result, chat_with_result, OnDelta}
use cortex_go.Agent.Config.{Json, Agent}
use cortex_go.Provider.{ChatResult}
use cortex_go.Errors.{Error, ok, err}
use cortex_go.Prelude.{
  ℕ, Bool, not, Option, none, some, List, [], ◌∷◌, if◌then◌else◌, length, drop, ℤ, pos_part, is_pos,
  Str, bytes, str_eq, is_empty,
}

-- limit := s.MaxBodyBytes; if limit <= 0 { limit = 1 << 20 }
unfoldable pub body_limit : ℤ → ℕ
body_limit n = if is_pos n then pos_part n else 1_048_576

-- completionResponse
unfoldable pub completion_response : Str → ChatResult → Completion
completion_response model result = record {
  model =
      if is_empty model
      then if is_empty result.model then bytes "cortexgo" else result.model
      else model;
  content = result.content;
  finish_reason = result.finish_reason;
  usage = result.usage;
}

-- The callback of `stream`, which refuses no delta.
abbrev pub write_delta : OnDelta
write_delta seen text = none

-- What `stream` writes, from the deltas and the error of the turn.
unfoldable pub stream_events : List Str → Option Error → List ServerEvent
stream_events [] none = done ∷ []
stream_events [] (some e) = stream_failed e ∷ done ∷ []
stream_events (d ∷ ds) failure = delta d ∷ stream_events ds failure

module _ {M : Type 0} (a : Agent M) (json : Json) (run_id : Str) where
  unfoldable pub complete : Str → Str → Str → State M → Reply × State M
  complete session model input w =
      let (r, w') = chat_with_result a json run_id session input w in
      elim r [
        | err e ↦ (reply 502 (failed e), w')
        | ok result ↦ (reply 200 (completion (completion_response model result)), w')
      ]

  -- stream, by whether the writer is an http.Flusher; the state keeps all the deltas so far.
  unfoldable pub stream_to : Bool → Str → Str → State M → Reply × State M
  stream_to flushes session input w =
      if not flushes
      then (reply 500 (problem (bytes "streaming unsupported")), w)
      else let (r, w') = chat_stream_with_result a json run_id session input (some write_delta) w in
        (
          reply 200 (event_stream (stream_events (drop (length w.deltas) w'.deltas) (error_of r))),
          w',
        )

  -- The part of `chat` behind the decoder, for the tenant of the context.
  unfoldable pub answer_chat : Bool → Option Str → ChatBody → State M → Reply × State M
  answer_chat flushes tenant b w = elim (chat_input b.input b.messages) [
    | none ↦ (reply 400 (problem (bytes "input or a user message is required")), w)
    | some input ↦
        let session = chat_session tenant b.session_id in
        if b.stream then stream_to flushes session input w else complete session b.model input w
  ]

  -- chat, where there is an agent and the method is POST
  unfoldable pub decode_chat : BodyDecoder → ℕ → Bool → Option Str → Str → State M → Reply × State M
  decode_chat decoder limit flushes tenant body w = elim (decoder.first limit body) [
    | err e ↦ (reply 400 (bad_json e), w)
    | ok b ↦
        if not (decoder.at_end limit body)
        then (reply 400 (problem (bytes "request must contain exactly one JSON object")), w)
        else answer_chat flushes tenant b w
  ]

unfoldable pub chat :
    {M : Type 0}
    → HttpServer M
    → Json
    → Str
    → BodyDecoder
    → Bool
    → Option Str
    → ServerRequest
    → State M
    → Reply × State M
chat s json run_id decoder flushes tenant r w =
    if not (str_eq r.method (bytes "POST"))
    then (reply 405 (problem (bytes "method not allowed")), w)
    else elim s.agent [
      | none ↦ (reply 503 (problem (bytes "agent is not configured")), w)
      | some a ↦
          decode_chat a json run_id decoder (body_limit s.max_body_bytes) flushes tenant r.body w
    ]
