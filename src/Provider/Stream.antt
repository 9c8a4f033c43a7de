-- ===== src/Provider/Stream.antt =====
-- internal/provider/provider.go: `ChatStreamWithOptions`, the events of a streamed answer.
pub mod Fragments
pub mod Deltas
use cortex_go.Errors.{
  delta_required, base_url_required, decode_event, ok, http_status, err, Error, Result,
}
use cortex_go.Provider.{ToolCallFunction, ToolCall, Message, Usage, ChatResult, ToolInfo}
use cortex_go.Provider.Client.{
  OpenAiCompatible, Network, Exchange, ChatRequest, HttpRequest, Attempt, stops, retries, attempts,
  wait_after, prepare, chat_tools, retryable_status, is_success, unbuilt, undelivered, response,
}
use cortex_go.Prelude.{
  ℕ, suc, Bool, true, false, not, ◌||◌, Option, none, some, List, [], ◌∷◌, ◌++◌, map, ltb, ◌==◌,
  if◌then◌else◌, drop, ℤ, pos_part, Str, bytes, str_eq, has_prefix, trim_space, is_empty, pos,
  negsuc,
}

-- streamToolCall
pub record StreamToolCall : Type 0 where
  pub index : ℤ
  pub id : Str
  pub kind : Str
  pub function : ToolCallFunction

pub record StreamChoice : Type 0 where
  pub content : Str
  pub tool_calls : List StreamToolCall
  pub finish_reason : Str

pub record StreamEvent : Type 0 where
  pub model : Str
  pub choices : List StreamChoice
  pub usage : Option Usage

-- map[int]ToolCall
abbrev pub CallMap : Type 0
CallMap = List (ℤ × ToolCall)

abbrev pub eq_int : ℤ → ℤ → Bool
eq_int (pos a) (pos b) = a == b
eq_int (pos a) (negsuc b) = false
eq_int (negsuc a) (pos b) = false
eq_int (negsuc a) (negsuc b) = a == b

-- a < b
abbrev pub lt_int : ℤ → ℤ → Bool
lt_int (pos a) (pos b) = ltb a b
lt_int (pos a) (negsuc b) = false
lt_int (negsuc a) (pos b) = true
lt_int (negsuc a) (negsuc b) = ltb b a

abbrev pub zero_call : ToolCall
zero_call = record { id = []; kind = []; function = record { name = []; arguments = [] } }

-- toolCalls[index]
unfoldable pub call_at : ℤ → CallMap → ToolCall
call_at i [] = zero_call
call_at i ((j, c) ∷ calls) = let rest = call_at i calls in if eq_int j i then c else rest

unfoldable pub put_call : ℤ → ToolCall → CallMap → CallMap
put_call i c [] = (i, c) ∷ []
put_call i c ((j, d) ∷ calls) =
    let rest = put_call i c calls in if eq_int j i then (i, c) ∷ calls else (j, d) ∷ rest

-- firstNonEmpty, of two values
abbrev pub first_non_empty : Str → Str → Str
first_non_empty a b = if is_empty a then b else a

-- A call with one more fragment.
unfoldable pub merge_fragment : ToolCall → StreamToolCall → ToolCall
merge_fragment existing f = record {
  id = first_non_empty existing.id f.id;
  kind = first_non_empty existing.kind f.kind;
  function = record {
    name = first_non_empty existing.function.name f.function.name;
    arguments = existing.function.arguments ++ f.function.arguments;
  };
}

-- for _, call := range choice.Delta.ToolCalls { ... }
unfoldable pub merge_calls : CallMap → List StreamToolCall → CallMap
merge_calls calls [] = calls
merge_calls calls (f ∷ fs) =
    merge_calls (put_call f.index (merge_fragment (call_at f.index calls) f) calls) fs

-- sort.Ints, on the entries of the map
unfoldable pub insert_entry : ℤ × ToolCall → CallMap → CallMap
insert_entry e [] = e ∷ []
insert_entry e (d ∷ ds) =
    let rest = insert_entry e ds in if lt_int d.0 e.0 then d ∷ rest else e ∷ d ∷ ds

unfoldable pub sort_entries : CallMap → CallMap
sort_entries [] = []
sort_entries (e ∷ es) = insert_entry e (sort_entries es)

-- if call.Type == "" { call.Type = "function" }
unfoldable pub with_kind : ToolCall → ToolCall
with_kind c = if is_empty c.kind then record c { kind = bytes "function" } else c

unfoldable pub ordered_tool_calls : CallMap → List ToolCall
ordered_tool_calls calls = map (λ e. with_kind e.1) (sort_entries calls)

-- One line of the stream.
pub data StreamLine : Type 0 where
  skipped finished : StreamLine
  payload : Str → StreamLine

unfoldable pub parse_line : Str → StreamLine
parse_line text =
    let line = trim_space text in
    if not (has_prefix line (bytes "data:"))
    then skipped
    else let data_text = trim_space (drop 5 line) in
      if str_eq data_text (bytes "[DONE]") then finished else payload data_text

-- What scanner.Err() returns behind the last line, and behind the line that ends the loop early: the
-- scanner reads ahead, so it may have met the error of the body by then or not.
pub record ScanErrors : Type 0 where
  pub at_end : Option Error
  pub at_done : Option Error

-- The result so far, the calls so far, and the deltas that `onDelta` has seen.
pub record Reading : Type 0 where
  pub result : ChatResult
  pub calls : CallMap
  pub deltas : List Str

abbrev pub nothing_read : Reading
nothing_read = record {
  result = record {
    content = [];
    model = [];
    finish_reason = [];
    usage = record { prompt_tokens = 0; completion_tokens = 0; total_tokens = 0 };
    tool_calls = [];
  };
  calls = [];
  deltas = [];
}

-- event.Model and event.Usage
unfoldable pub note_event : StreamEvent → Reading → Reading
note_event e s = record s {
  result = record s.result {
    model = if is_empty e.model then s.result.model else e.model;
    usage = elim e.usage [ none ↦ s.result.usage | some u ↦ u ];
  };
}

-- choice.FinishReason
unfoldable pub note_finish : StreamChoice → Reading → Reading
note_finish c s =
    if is_empty c.finish_reason
    then s
    else record s { result = record s.result { finish_reason = c.finish_reason } }

module _ (decode : Str → Result StreamEvent) (on_delta : List Str → Str → Option Error) where
  -- choice.Delta.Content
  unfoldable pub note_content : StreamChoice → Reading → Option Error × Reading
  note_content c s = if is_empty c.content then (none, s) else (
    on_delta s.deltas c.content,
    record s {
      result = record s.result { content = s.result.content ++ c.content };
      deltas = s.deltas ++ c.content ∷ [];
    },
  )

  unfoldable pub note_choice : StreamChoice → Reading → Option Error × Reading
  note_choice c s =
      let (failure, s') = note_content c (note_finish c s) in
      elim failure [
        | some e ↦ (some e, s')
        | none ↦ (none, record s' { calls = merge_calls s'.calls c.tool_calls })
      ]

  unfoldable pub read_event : StreamEvent → Reading → Option Error × Reading
  read_event e s = elim e.choices [
    | [] ↦ (none, note_event e s)
    | c ∷ others ↦ note_choice c (note_event e s)
  ]

  -- for scanner.Scan() { ... }, and scanner.Err()
  unfoldable pub read_lines : ScanErrors → List Str → Reading → Option Error × Reading
  read_lines scan [] s = (scan.at_end, s)
  read_lines scan (line ∷ lines) s = elim (parse_line line) [
    | skipped ↦ read_lines scan lines s
    | finished ↦ (scan.at_done, s)
    | payload text ↦ elim (decode text) [
      | err e ↦ (some (decode_event e), s)
      | ok event ↦
          let (failure, s') = read_event event s in
          elim failure [ some e ↦ (some e, s') | none ↦ read_lines scan lines s' ]
    ]
  ]

  -- The part of the method behind the status of the answer.
  unfoldable pub read_stream : ScanErrors → List Str → Result ChatResult × List Str
  read_stream scan lines =
      let (failure, s) = read_lines scan lines nothing_read in
      elim failure [
        | some e ↦ (err e, s.deltas)
        | none ↦ (ok (record s.result { tool_calls = ordered_tool_calls s.calls }), s.deltas)
      ]

-- What the loop of attempts keeps of an exchange: the status and the body of an answer.
unfoldable pub do_stream : Exchange → Attempt (ℕ × Str × Option Error)
do_stream (unbuilt e) = stops (err e)
do_stream (undelivered e) = retries e
do_stream (response status body failure) =
    if retryable_status status
    then retries (http_status (bytes "stream") status (trim_space body))
    else stops (ok (status, body, failure))

abbrev pub stream_request : OpenAiCompatible → List Message → List ToolInfo → ChatRequest
stream_request p ms tools = record {
  model = p.model;
  messages = ms;
  stream = true;
  include_usage = true;
  tools = chat_tools tools;
}

-- bufio.Scanner over a body and the error that ends it: the lines, and the scanner's errors.
abbrev pub Scanner : Type 0
Scanner = Str → Option Error → List Str × ScanErrors

module _ (p : OpenAiCompatible) (net : Network) (decode : Str → Result StreamEvent)
    (scan : Scanner) where
  unfoldable pub stream_answer :
      (List Str → Str → Option Error) → ℕ × Str × Option Error → Result ChatResult × List Str
  stream_answer on_delta (status, body, failure) =
      if not (is_success status)
      then (err (http_status (bytes "stream") status (trim_space body)), [])
      else let (lines, errors) = scan body failure in read_stream decode on_delta errors lines

  -- The result, and the deltas that `onDelta` has seen.
  unfoldable pub chat_stream_with_options :
      Option (List Str → Str → Option Error)
      → List Message
      → List ToolInfo
      → Result ChatResult × List Str
  chat_stream_with_options none ms tools = (
    err (if is_empty p.base_url || is_empty p.model then base_url_required else delta_required),
    [],
  )
  chat_stream_with_options (some on_delta) ms tools =
      elim (prepare p net (stream_request p ms tools)) [
        | err e ↦ (err e, [])
        | ok request ↦
            elim (attempts (λ n. do_stream (net.exchange n request)) (wait_after p net)
              (pos_part p.max_retries) (suc (pos_part p.max_retries)) 0).0 [
                | err e ↦ (err e, [])
                | ok answer ↦ stream_answer on_delta answer
              ]
      ]
