-- ===== src/Api/Http/Serve.antt =====
-- internal/api/http.go: `Handler`, the routes behind the gate and the layers around it.
use cortex_go.Api.Http.{
  document, counters, leave, nothing, problem, status_ok, enter, Metrics, Content, reply,
  BodyDecoder, ServerRequest, Reply, HttpServer,
}
use cortex_go.Api.Http.Complete.{chat}
use cortex_go.Api.Http.Layers.{request_id_of, is_compressed, Source}
use cortex_go.Api.Gate.{
  gate, Decision, Refusal, health, refuse, too_many, forward, unauthorized, forbidden,
}
use cortex_go.Agent.State.{State}
use cortex_go.Agent.Config.{Json}
use cortex_go.Prelude.{ℕ, Bool, ◌||◌, Option, none, some, [], if◌then◌else◌, Str, bytes, str_eq}

-- What a request leaves behind: the server, the agent's state and the counters.
pub record World (M : Type 0) : Type 0 where
  pub server : HttpServer M
  pub state : State M
  pub metrics : Metrics

-- A reply, with the headers X-Request-ID and Content-Encoding.
pub record Response : Type 0 where
  pub answer : Reply
  pub id : Option Str
  pub compressed : Bool

-- What a request is served with: encoding/json, the run's ID, the time, the sources of IDs, whether
-- the connection is an http.Flusher, and what http.ServeMux writes for a path without a route.
pub record Surroundings : Type 0 where
  pub json : Json
  pub run_id : Str
  pub now : ℕ
  pub decoder : BodyDecoder
  pub source : Source
  pub flushes : Bool
  pub no_route : ServerRequest → Reply

-- health and openAPI, which answer to GET only
unfoldable pub get_only : ServerRequest → Content → Content → Reply
get_only r content refusal =
    if str_eq r.method (bytes "GET") then reply 200 content else reply 405 refusal

unfoldable pub is_chat_path : Str → Bool
is_chat_path path = str_eq path (bytes "/v1/chat/completions") || str_eq path (bytes "/chat")

-- A writer that compresses is a Flusher, whatever the connection is.
abbrev pub can_flush : Surroundings → ServerRequest → Bool
can_flush x r = is_compressed r || x.flushes

unfoldable pub health_reply : ServerRequest → Reply
health_reply r = get_only r status_ok (problem (bytes "method not allowed"))

abbrev pub refusal_status : Refusal → ℕ
refusal_status unauthorized = 401
refusal_status forbidden = 403

module _ {M : Type 0} (x : Surroundings) where
  unfoldable pub route_chat : Option Str → ServerRequest → World M → Reply × World M
  route_chat tenant r w =
      let (answer, state) =
        chat w.server x.json x.run_id x.decoder (can_flush x r) tenant r w.state in
      (answer, record w { state = state })

  -- mux, for the tenant that the gate put into the context
  unfoldable pub route : Option Str → ServerRequest → World M → Reply × World M
  route tenant r w =
      let path = r.gate.path in
      if is_chat_path path
      then route_chat tenant r w
      else if str_eq path (bytes "/healthz")
      then (health_reply r, w)
      else if str_eq path (bytes "/metrics")
      then if w.server.metrics
        then (reply 200 (counters w.metrics), w)
        else (reply 404 (problem (bytes "metrics disabled")), w)
      else if str_eq path (bytes "/openapi.json")
      then (get_only r document (problem (bytes "method_not_allowed")), w)
      else (x.no_route r, w)

  -- The handler with the gate's decision: its texts are those of the gate.
  unfoldable pub decide : Decision → ServerRequest → World M → Reply × World M
  decide health r w = route none r w
  decide (refuse d) r w = (reply (refusal_status d) (problem []), w)
  decide (too_many seconds) r w = (
    record {
      status = 429;
      retry_after = some seconds;
      content = problem (bytes "rate limit exceeded");
    },
    w,
  )
  decide (forward t) r w = route (some t.id) r w

  unfoldable pub serve_gated : ServerRequest → World M → Reply × World M
  serve_gated r w =
      let (d, guard) = gate w.server.guard r.gate x.now in
      decide d r (record w { server = record w.server { guard = guard } })

  -- corsMiddleware around requestMiddleware
  unfoldable pub serve_cors : ServerRequest → World M → Response × World M
  serve_cors r w =
      if str_eq r.method (bytes "OPTIONS")
      then (record { answer = reply 204 nothing; id = none; compressed = is_compressed r }, w)
      else let (answer, w') = serve_gated r w in
        (
          record {
            answer = answer;
            id = some (request_id_of x.source r.request_id);
            compressed = is_compressed r;
          },
          w',
        )

  -- Metrics.middleware
  unfoldable pub serve_counted : ServerRequest → World M → Response × World M
  serve_counted r w =
      let (answer, w') = serve_cors r (record w { metrics = enter w.metrics }) in
      (answer, record w' { metrics = leave w'.metrics })

  -- Handler
  unfoldable pub serve : ServerRequest → World M → Response × World M
  serve r w = if w.server.metrics then serve_counted r w else serve_cors r w
