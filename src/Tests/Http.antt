-- ===== src/Tests/Http.antt =====
-- The whole server, on requests with a key and an agent that repeats what it is told.
use cortex_go.Agent.Turn.{
  run, prepare, replace_history, store_history, chat_stream_with_result, chat_with_result,
  provider_tools, finish, after_reply, record_model, stream_delta, receive, call_plain, call_model,
  ask, loop, fit_messages, fit_tokens,
}
use cortex_go.Memory.Compact.{message_tokens, estimate_tokens}
use cortex_go.Agent.Calls.{add_usage, validate_tool_calls}
use cortex_go.Agent.Tools.{run_calls, emit}
use cortex_go.Agent.Config.{apply_options, Model, new, Agent}
use cortex_go.Security.Identities.{without_nul, sanitize_prompt, authenticate, Identity}
use cortex_go.Api.Chat.{chat_input, chat_session}
use cortex_go.Api.Gate.{
  admit, limit, is_denied, resolve, second_identity, first_identity, known_tenant, bearer_identity,
  identify, gate, Server, wants_credential, credential,
}
use cortex_go.Provider.Echo.{last_message, echo_stream, echo_chat}
use cortex_go.Api.Http.{leave, enter, nothing, ChatBody, reply, ServerRequest, HttpServer}
use cortex_go.Api.Http.Layers.{
  hex_digit, hex, new_id, has_gap, request_id_of, equal_fold, split_first, is_q_zero, none_q_zero,
  accepts_part, accepts_gzip, is_compressed,
}
use cortex_go.Api.Http.Complete.{
  body_limit, completion_response, complete, answer_chat, decode_chat, chat,
}
use cortex_go.Api.Http.Serve.{
  route_chat, route, decide, serve_gated, serve_cors, serve_counted, serve, is_chat_path, World,
  Surroundings,
}
use cortex_go.Api.Http.Isolated.{serve-others, IsNamed}
use cortex_go.Api.Http.Served.{serve-AtMostEntitled, AtMostEntitled}
use cortex_go.Api.Gate.Decisions.{IsCredited}
use cortex_go.Memory.Sessions.Laws.{in_memory-Laws, Laws}
use cortex_go.Api.Rbac.{Tenant}
use cortex_go.Memory.Sessions.{Sessions, session}
use cortex_go.Errors.{ok}
use cortex_go.Memory.Sessions.InMemory
use cortex_go.Memory.Sessions.InMemory.{in_memory}
use cortex_go.Prelude.{
  ◌≡◌, refl, sym, ap, ◌∙◌, ◌≢◌, true, false, none, some, [], ◌∷◌, arith, Str, bytes, str_eq,
  rune_count, trim_space, lookup, put, pos,
}

abbrev acme : Str
acme = bytes "acme"

abbrev ann : Identity
ann = record { subject = bytes "ann"; tenant = acme; roles = []; expires_at = 0 }

abbrev echo : Model
echo = record {
  chat = λ n ms. echo_chat ms;
  chat_with_options = none;
  chat_stream = some (λ n ms. echo_stream ms);
  chat_stream_with_options = none;
}

abbrev echo_agent : Agent Sessions
echo_agent = new echo in_memory []

abbrev guard : Server
guard = record {
  authenticate = none;
  api_keys = some (authenticate (λ k. k) 0 ((bytes "k", ann) ∷ []));
  jwt = none;
  resolve_tenant = none;
  authorizer = none;
  limiter = none;
}

abbrev site : HttpServer Sessions
site = record { agent = some echo_agent; max_body_bytes = pos 0; metrics = true; guard = guard }

abbrev start : World Sessions
start = record {
  server = site;
  state = record {
    store = [];
    events = [];
    audits = [];
    telemetry = [];
    streamed = [];
    deltas = [];
    replies = [];
    invocations = [];
  };
  metrics = record { requests = 0; errors = 0; in_flight = 0 };
}

-- Every body asks the same.
abbrev question : ChatBody
question = record {
  session_id = bytes "s";
  input = bytes "hi";
  stream = false;
  model = [];
  messages = [];
}

abbrev around : Surroundings
around = record {
  json = record { valid = λ s. true; error_object = λ e. [] };
  run_id = bytes "r";
  now = 0;
  decoder = record { first = λ n s. ok question; at_end = λ n s. true };
  source = record { random = some (10 ∷ 255 ∷ []); now = 0 };
  flushes = true;
  no_route = λ r. reply 404 nothing;
}

abbrev ask_with : Str → ServerRequest
ask_with key = record {
  gate = record { path = bytes "/chat"; api_key = key; authorization = []; tenant_id = bytes "x" };
  method = bytes "POST";
  request_id = bytes "a b";
  accept_encoding = bytes "br, GZIP;q=1";
  body = bytes "{}";
}

program : Unit {0}
unfolding serve serve_counted serve_cors serve_gated decide route route_chat chat decode_chat
    answer_chat complete completion_response body_limit is_chat_path is_compressed accepts_gzip
    accepts_part none_q_zero is_q_zero split_first equal_fold request_id_of has_gap new_id hex
    hex_digit enter leave echo_chat last_message gate identify credential bearer_identity
    wants_credential known_tenant first_identity second_identity resolve is_denied limit admit
    chat_input chat_session authenticate sanitize_prompt without_nul new apply_options run prepare
    fit_tokens fit_messages loop ask call_model call_plain receive stream_delta record_model
    after_reply finish emit run_calls provider_tools validate_tool_calls add_usage chat_with_result
    chat_stream_with_result store_history replace_history InMemory.append InMemory.replace session
    lookup put str_eq trim_space estimate_tokens message_tokens rune_count InMemory.list
program = tt

served : (serve around (ask_with (bytes "k")) start).0.answer.status ≡ 200
unfolding program
served = refl

served_id : (serve around (ask_with (bytes "k")) start).0.id ≡ some (bytes "0aff")
unfolding program
served_id = refl

served_compressed : (serve around (ask_with (bytes "k")) start).0.compressed ≡ true
unfolding program
served_compressed = refl

unserved : (serve around (ask_with (bytes "j")) start).0.answer.status ≡ 401
unfolding program
unserved = refl

site_wants : wants_credential site.guard ≡ true
unfolding program
site_wants = refl

serve-AtMostEntitled_example :
    AtMostEntitled around echo_agent site.guard
      (ask_with (bytes "k"))
      start.state
      (serve around (ask_with (bytes "k")) start).1.state
serve-AtMostEntitled_example =
    serve-AtMostEntitled around echo_agent (ask_with (bytes "k")) start refl site_wants

echo_agent-Laws : Laws echo_agent.memory session
unfolding program
echo_agent-Laws = in_memory-Laws

acme-IsNamed : IsNamed acme
unfolding program
acme-IsNamed = record {
  no_colon = (
    (λ e. ground arith),
    ((λ e. ground arith), ((λ e. ground arith), ((λ e. ground arith), tt))),
  );
  not_default = refl;
}

abbrev other : Str
other = bytes "other"

other-IsNamed : IsNamed other
unfolding program
other-IsNamed = record {
  no_colon = (
    (λ e. ground arith),
    ((λ e. ground arith), ((λ e. ground arith), ((λ e. ground arith), ((λ e. ground arith), tt)))),
  );
  not_default = refl;
}

ask-credential : credential guard (ask_with (bytes "k")).gate ≡ some ann
unfolding program
ask-credential = refl

ask-IsCredited : (t : Tenant) → IsCredited site.guard (ask_with (bytes "k")).gate t → t.id ≡ acme
ask-IsCredited t c =
    let who : some c.identity ≡ some ann = sym c.given ∙ ask-credential in
    let same : c.identity ≡ ann = cc who in ap (λ u. u.id) c.same ∙ ap (λ i. i.tenant) same

acme-ne-other : acme ≢ other
acme-ne-other h = cc h

ask-foreign :
    (t : Tenant)
    → IsCredited site.guard (ask_with (bytes "k")).gate t
    → IsNamed t.id × (t.id ≢ other)
ask-foreign t c = rw (ask-IsCredited t c) (acme-IsNamed, acme-ne-other)

serve-others_example :
    session
      (serve around (ask_with (bytes "k")) start).1.state.store
      (chat_session (some other) (bytes "s"))
    ≡ session start.state.store (chat_session (some other) (bytes "s"))
serve-others_example =
    serve-others around echo_agent session echo_agent-Laws (ask_with (bytes "k")) start other
      (bytes "s") refl site_wants other-IsNamed ask-foreign
