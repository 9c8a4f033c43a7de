-- ===== src/Provider/Echo.antt =====
-- internal/provider/provider.go: the model `Echo`, which needs no network.
use cortex_go.Errors.{Result, ok, err}
use cortex_go.Provider.{Message, ChatResult}
use cortex_go.Prelude.{Option, none, some, List, [], ◌∷◌, ◌++◌, Str, bytes}

-- messages[len(messages)-1]
unfoldable pub last_message : List Message → Option Message
last_message [] = none
last_message (m ∷ ms) = elim (last_message ms) [ none ↦ some m | some last ↦ some last ]

-- "收到：" in UTF-8
abbrev pub received : Str
received = 0xe6 ∷ 0x94 ∷ 0xb6 ∷ 0xe5 ∷ 0x88 ∷ 0xb0 ∷ 0xef ∷ 0xbc ∷ 0x9a ∷ []

abbrev pub echo_result : Str → ChatResult
echo_result content = record {
  content = content;
  model = bytes "echo";
  finish_reason = bytes "stop";
  usage = record { prompt_tokens = 0; completion_tokens = 0; total_tokens = 0 };
  tool_calls = [];
}

-- Chat
unfoldable pub echo_chat : List Message → Result ChatResult
echo_chat ms = elim (last_message ms) [
  | none ↦ ok (echo_result [])
  | some last ↦ ok (echo_result (received ++ last.content))
]

-- ChatStream, with a callback: the only delta, and the result where it is not refused
unfoldable pub echo_stream : List Message → List Str × Result ChatResult
echo_stream ms = elim (echo_chat ms) [
  | err e ↦ ([], err e)
  | ok result ↦ (result.content ∷ [], ok result)
]
