-- ===== src/Tests/Providers.antt =====
-- The client of a provider, on an answer that comes on the second attempt.
use cortex_go.Provider.Embedding.{
  embed_wait, first_missing, check_complete, blank_vectors, set_at, is_invalid, place,
  read_embeddings, do_embed, embedding_request, model_for_embedding, prepare_embedding,
  EmbeddingResponse, embed, EmbeddingCodec,
}
use cortex_go.Provider.Embedding.Answers.{embed-IsEmbedded, IsEmbedded}
use cortex_go.Provider.Backoff.{double_delay, base_delay, retry_delay}
use cortex_go.Provider.Stream.{
  sort_entries, ordered_tool_calls, merge_calls, parse_line, note_choice, note_content, note_finish,
  note_event, read_event, read_lines, read_stream, stream_answer, do_stream, StreamEvent,
  chat_stream_with_options, Scanner,
}
use cortex_go.Provider.Client.{
  retryable_status, attempts, read_response, wait_after, Exchange, plain_request, do_chat,
  request_of, ChatResponse, Network, HttpRequest, chat_with_options, OpenAiCompatible, prepare,
  response,
}
use cortex_go.Provider.Client.Attempts.{chat_with_options-IsOver, IsOver}
use cortex_go.Provider.Stream.Deltas.{chat_stream_with_options-joined, joined}
use cortex_go.Errors.{Result, Error, ok}
use cortex_go.Provider.{ChatResult, user, plain_message, Message}
use cortex_go.Prelude.{
  ℕ, zero, suc, ◌≡◌, refl, false, Option, none, some, List, [], ◌∷◌, pos_part, Str, bytes, str_eq,
  has_prefix, trim_space, trim_slashes, pos,
}

program : Unit {0}
unfolding prepare request_of trim_slashes do_chat read_response attempts wait_after
    chat_with_options retryable_status do_stream stream_answer chat_stream_with_options read_stream
    read_lines read_event note_event note_finish note_content note_choice parse_line merge_calls
    ordered_tool_calls sort_entries trim_space has_prefix str_eq retry_delay base_delay double_delay
program = tt

abbrev client : OpenAiCompatible
client = record {
  base_url = bytes "http://h/";
  api_key = [];
  model = bytes "m";
  embedding_model = [];
  max_retries = pos 2;
  retry_backoff = pos 0;
}

abbrev hello : List Message
hello = plain_message user (bytes "hi") ∷ []

-- The first attempt meets status 503, the next one is answered.
abbrev exchange : ℕ → HttpRequest → Exchange
exchange zero request = response 503 (bytes "busy") none
exchange (suc n) request = response 200 (bytes "data: a") none

abbrev answer : ChatResponse
answer = record {
  model = bytes "m";
  choices = (plain_message user (bytes "yes"), bytes "stop") ∷ [];
  usage = none;
  failure = none;
}

abbrev network : Network
network = record {
  encode = λ r. ok (bytes "{}");
  decode = λ s. ok answer;
  exchange = exchange;
  wait = λ n d. none;
}

abbrev request : HttpRequest
request = record {
  url = bytes "http://h/v1/chat/completions";
  authorization = none;
  event_stream = false;
  body = bytes "{}";
}

prepared : prepare client network (plain_request client hello []) ≡ ok request
unfolding program
prepared = refl

two_attempts : (chat_with_options client network hello []).1 ≡ 2
unfolding program
two_attempts = refl

chat_with_options-IsOver_example :
    IsOver
      (λ n. do_chat network (network.exchange n request))
      (wait_after client network)
      (pos_part client.max_retries)
      0
      (chat_with_options client network hello [])
chat_with_options-IsOver_example = chat_with_options-IsOver client network hello [] request prepared

-- Each event is a choice with the text of its line.
abbrev decode : Str → Result StreamEvent
decode s = ok (record {
  model = [];
  choices = (record { content = s; tool_calls = []; finish_reason = [] }) ∷ [];
  usage = none;
})

abbrev scan : Scanner
scan body failure = (
  body ∷ bytes "data: bc" ∷ bytes "data: [DONE]" ∷ [],
  record { at_end = failure; at_done = none },
)

abbrev streamed : ChatResult
streamed = record {
  content = bytes "abc";
  model = [];
  finish_reason = [];
  usage = record { prompt_tokens = 0; completion_tokens = 0; total_tokens = 0 };
  tool_calls = [];
}

abbrev on_delta : List Str → Str → Option Error
on_delta seen delta = none

stream_runs :
    chat_stream_with_options client network decode scan (some on_delta) hello []
    ≡ (ok streamed, bytes "a" ∷ bytes "bc" ∷ [])
unfolding program
stream_runs = refl

chat_stream_with_options-joined_example : streamed.content ≡ joined (bytes "a" ∷ bytes "bc" ∷ [])
chat_stream_with_options-joined_example =
    chat_stream_with_options-joined client network decode scan on_delta hello [] streamed
      (bytes "a" ∷ bytes "bc" ∷ []) stream_runs

-- Two texts, whose vectors come in the other order.
abbrev embedding_answer : EmbeddingResponse ℕ
embedding_answer = record {
  items =
      record { index = pos 1; embedding = 7 ∷ [] }
      ∷ record { index = pos 0; embedding = 8 ∷ [] }
      ∷ [];
  failure = none;
}

abbrev embedding_codec : EmbeddingCodec ℕ
embedding_codec = record { encode = λ r. ok (bytes "{}"); decode = λ s. ok embedding_answer }

two_texts-embedded :
    embed client network embedding_codec (bytes "a" ∷ bytes "b" ∷ [])
    ≡ (ok ((8 ∷ []) ∷ (7 ∷ []) ∷ []), 2)
unfolding program embed prepare_embedding model_for_embedding embedding_request do_embed
    read_embeddings place is_invalid set_at blank_vectors check_complete first_missing embed_wait
two_texts-embedded = refl

embed-IsEmbedded_example :
    IsEmbedded ℕ client network embedding_codec
      (bytes "a" ∷ bytes "b" ∷ [])
      ((8 ∷ []) ∷ (7 ∷ []) ∷ [])
      2
embed-IsEmbedded_example =
    embed-IsEmbedded ℕ client network embedding_codec (bytes "a" ∷ bytes "b" ∷ [])
      ((8 ∷ []) ∷ (7 ∷ []) ∷ []) 2 two_texts-embedded
