-- ===== src/Tests/Turns.antt =====
-- A turn of an agent with one tool: the model asks for the tool once, and then answers.
use cortex_go.Agent.Turn.Answered.{Answered}
use cortex_go.Memory.Sessions.Laws.{Laws, in_memory-Laws}
use cortex_go.Agent.Turn.Persist.{run-appends, turn_messages, begun, run-others}
use cortex_go.Agent.Turn.Authorized.{run-Authorized, Authorized}
use cortex_go.Agent.Turn.Rounds.{Rounds}
use cortex_go.Agent.Config.{
  with_conversation_summarizer, with_telemetry, with_context_token_budget, with_event_sink,
  with_tool_audit_logger, with_tool_authorizer, with_tools, answered, apply_options, ToolAuthorizer,
  AgentOption, Agent, Json, Model, ToolBox, new,
}
use cortex_go.Provider.{Message, assistant, user, plain_message, Usage, ChatResult, ToolCall}
use cortex_go.Agent.State.{
  run_completed, tool_completed, tool_started, model_completed, run_started, Event, State,
}
use cortex_go.Memory.Compact.{
  estimate_tokens, message_tokens, call_chars, compact_to_token_budget, summarize_to_budget,
  summarize_front, split_last, summary_message,
}
use cortex_go.Agent.History.{compact_token_history, drop_oldest, is_summary}
use cortex_go.Agent.Calls.{
  add_usage, contains, validate_function, validate_from, validate_tool_calls,
}
use cortex_go.Agent.Tools.{
  invoke_tool, attempt, audit, authorize, emit, output_of, run_call, run_calls, tool_message,
}
use cortex_go.Agent.Turn.{
  ask, call_model, call_plain, receive, stream_delta, record_model, after_reply, finish, loop,
  store_history, replace_history, fit_tokens, fit_messages, prepare, run, provider_tools,
  chat_with_result, chat_stream_with_result, assistant_message,
}
use cortex_go.Memory.Sessions.{Sessions, session}
use cortex_go.Errors.{Result, ok}
use cortex_go.Prelude.{
  ℕ, zero, suc, ◌+◌, ◌≤◌, ◌<◌, ◌≡◌, refl, ◌≢◌, true, false, none, some, List, [], ◌∷◌, ◌++◌, map,
  arith, length, Str, bytes, str_eq, rune_count, trim_space, is_empty, lookup, put, pos,
}
use cortex_go.Memory.Sessions.InMemory
use cortex_go.Memory.Sessions.InMemory.{in_memory}

program : Unit {0}
unfolding new apply_options with_tools with_tool_authorizer with_tool_audit_logger with_event_sink
    with_context_token_budget with_telemetry run prepare fit_tokens fit_messages loop ask call_model
    call_plain receive stream_delta record_model after_reply finish emit audit authorize attempt
    invoke_tool output_of run_call run_calls provider_tools validate_tool_calls validate_from
    validate_function contains add_usage chat_with_result chat_stream_with_result store_history
    replace_history InMemory.append InMemory.list InMemory.replace session lookup put str_eq
    trim_space estimate_tokens message_tokens rune_count compact_token_history drop_oldest
    is_summary compact_to_token_budget summarize_to_budget summarize_front split_last
    with_conversation_summarizer call_chars
program = tt

abbrev clock_call : ToolCall
clock_call = record {
  id = bytes "call-1";
  kind = bytes "function";
  function = record { name = bytes "current_time"; arguments = [] };
}

abbrev usage_of : ℕ → ℕ → Usage
usage_of p c = record { prompt_tokens = p; completion_tokens = c; total_tokens = p + c }

abbrev asks : ChatResult
asks = record {
  content = [];
  model = bytes "m";
  finish_reason = bytes "tool_calls";
  usage = usage_of 10 2;
  tool_calls = clock_call ∷ [];
}

abbrev answers : ChatResult
answers = record {
  content = bytes "noon";
  model = bytes "m";
  finish_reason = bytes "stop";
  usage = usage_of 20 3;
  tool_calls = [];
}

abbrev replies : ℕ → ChatResult
replies zero = asks
replies (suc n) = answers

abbrev silent_model : Model
silent_model = record {
  chat = λ n ms. ok (replies n);
  chat_with_options = some (λ n ms ts. ok (replies n));
  chat_stream = none;
  chat_stream_with_options = none;
}

abbrev talking_model : Model
talking_model = record silent_model {
  chat_stream =
      some (λ n ms. (elim n [ zero ↦ [] | suc k ↦ bytes "no" ∷ bytes "on" ∷ [] ], ok (replies n)));
}

abbrev clock : ToolBox
clock = record { definitions = []; invoke = λ n name arguments. answered (ok (bytes "12:00")) }

abbrev allow_all : ToolAuthorizer
allow_all n name = none

abbrev json : Json
json = record { valid = λ s. true; error_object = λ e. bytes "{}" }

abbrev options : List (AgentOption Sessions)
options =
    with_tools clock
    ∷ with_tool_authorizer allow_all
    ∷ with_tool_audit_logger true
    ∷ with_event_sink true
    ∷ with_context_token_budget (pos 30)
    ∷ with_conversation_summarizer (λ ms. ok (bytes "s"))
    ∷ with_telemetry true
    ∷ []

abbrev helper : Agent Sessions
helper = new silent_model in_memory options

abbrev talker : Agent Sessions
talker = new talking_model in_memory options

abbrev me : Str
me = bytes "me"

abbrev you : Str
you = bytes "you"

abbrev question : Str
question = bytes "time?"

abbrev start : State Sessions
start = record {
  store = (you, plain_message user question ∷ []) ∷ [];
  events = [];
  audits = [];
  telemetry = [];
  streamed = [];
  deltas = [];
  replies = [];
  invocations = [];
}

abbrev turn : Result ChatResult × State Sessions
turn = run helper json [] me question false none start

abbrev result : ChatResult
result = record answers { usage = usage_of 30 5 }

turn-ok : turn ≡ (ok result, turn.1)
unfolding program
turn-ok = refl

turn_messages_saved :
    session turn.1.store me
    ≡ plain_message user question
      ∷ assistant_message [] (clock_call ∷ [])
      ∷ tool_message (bytes "call-1") (bytes "12:00")
      ∷ plain_message assistant (bytes "noon")
      ∷ []
unfolding program
turn_messages_saved = refl

turn_kinds :
    map (λ (e : Event). e.kind) turn.1.events
    ≡ run_started
      ∷ model_completed 0
      ∷ tool_started (bytes "call-1")
      ∷ tool_completed (bytes "call-1") none
      ∷ model_completed 1
      ∷ run_completed
      ∷ []
unfolding program
turn_kinds = refl

abbrev spoken : Result ChatResult × State Sessions
spoken = run talker json [] me question true none start

spoken-ok : spoken ≡ (ok result, spoken.1)
unfolding program
spoken-ok = refl

abbrev unheard : Result ChatResult × State Sessions
unheard = chat_stream_with_result helper json [] me question none start

unheard-ok : unheard ≡ (ok (record result { content = [] }), unheard.1)
unfolding program
unheard-ok = refl

helper-Laws : Laws helper.memory session
unfolding program
helper-Laws = in_memory-Laws

run-appends_example :
    (n : ℕ) × (body : List Message) × (replies : List (Result ChatResult)) × (last : ChatResult)
    × Rounds json n body replies
    × (n ≤ helper.max_tool_rounds)
    × (is_empty last.tool_calls ≡ true)
    × (turn.1.replies ≡ start.replies ++ (replies ++ ok last ∷ []))
    × (result.content ≡ last.content)
    × (session turn.1.store me
        ≡ session
            (prepare helper json [] me question
              (begun helper json [] me session helper-Laws start)).1.store
            me
          ++ turn_messages helper json [] me session helper-Laws question body last.content)
run-appends_example =
    run-appends helper json [] me session helper-Laws question false none start result turn.1
      turn-ok

me-ne-you : me ≢ you
me-ne-you h = cc h

run-others_example : session turn.1.store you ≡ session start.store you
run-others_example =
    run-others helper json [] me session helper-Laws you me-ne-you question false none start

helper-authorizer : helper.authorizer ≡ some allow_all
unfolding program
helper-authorizer = refl

start-Authorized : Authorized allow_all start.invocations
start-Authorized = record { allowed = λ i x h. cc }

run-Authorized_example :
    Authorized allow_all turn.1.invocations
    × ((calls : List ToolCall) (t : State Sessions)
        → (xs : List (Str × Str)) × ((run_calls helper json [] me calls t).1.invocations
            ≡ t.invocations ++ xs)
          × Answered helper json allow_all
              (length t.invocations)
              calls
              (run_calls helper json [] me calls t).0
              xs)
run-Authorized_example =
    run-Authorized helper json [] me allow_all helper-authorizer question false none start
      start-Authorized

helper-logs : helper.audit_logger ≡ true
unfolding program
helper-logs = refl

helper-rounds : (n : ℕ) → 4 < n → helper.max_tool_rounds < n + 0
unfolding program
helper-rounds n h = omega arith

abbrev asked : List Message
asked = plain_message user question ∷ []

helper-no_options : helper.model.chat_stream_with_options ≡ none
unfolding program
helper-no_options = refl

helper-no_stream : helper.model.chat_stream ≡ none
unfolding program
helper-no_stream = refl

abbrev six : List Message
six = asked ++ asked ++ asked ++ asked ++ asked ++ asked

abbrev two : List Message
two = summary_message (bytes "s") ∷ asked

helper-has_budget : 0 < helper.token_budget
unfolding program
helper-has_budget = omega arith

fitted : (fit_tokens helper json [] me question six start).0 ≡ ok two
unfolding program
fitted = refl
