-- ===== src/Api/Http.antt =====
-- internal/api/http.go and internal/api/observability.go: the server with its routes. A reply is its
-- status and what its body holds; of the headers only Retry-After is kept, and of the texts of
-- errors those that the handlers choose. The children are the `chat` route, the layers around the
-- routes, and the whole handler.
pub mod Complete
pub mod Layers
pub mod Serve
pub mod Served
pub mod Isolated
pub mod Counted
use cortex_go.Api.Gate.{Server, Request}
use cortex_go.Agent.Config.{Agent}
use cortex_go.Api.Chat.{ChatMessage}
use cortex_go.Provider.{Usage}
use cortex_go.Errors.{Error, Result, ok, err}
use cortex_go.Prelude.{ℕ, ◌+◌, ◌-◌, ◌%◌, ◌^◌, Bool, false, Option, none, List, ℤ, Str, pos}

-- chatRequest
pub record ChatBody : Type 0 where
  pub session_id : Str
  pub input : Str
  pub stream : Bool
  pub model : Str
  pub messages : List ChatMessage

-- What the server reads of an http.Request, beside what the gate reads.
pub record ServerRequest : Type 0 where
  pub gate : Request
  pub method : Str
  pub request_id : Str
  pub accept_encoding : Str
  pub body : Str

-- json.NewDecoder on a body that http.MaxBytesReader cuts off at a limit: the first Decode, and
-- whether the second returns io.EOF.
pub record BodyDecoder : Type 0 where
  pub first : ℕ → Str → Result ChatBody
  pub at_end : ℕ → Str → Bool

-- What completionResponse makes; its ID and its time are left out.
pub record Completion : Type 0 where
  pub model : Str
  pub content : Str
  pub finish_reason : Str
  pub usage : Usage

-- The `data:` lines of a stream.
pub data ServerEvent : Type 0 where
  delta : Str → ServerEvent
  stream_failed : Error → ServerEvent
  done : ServerEvent

-- Metrics, of three uint64
pub record Metrics : Type 0 where
  pub requests : ℕ
  pub errors : ℕ
  pub in_flight : ℕ

pub data Content : Type 0 where
  nothing status_ok document : Content
  problem : Str → Content
  failed bad_json : Error → Content
  completion : Completion → Content
  event_stream : List ServerEvent → Content
  counters : Metrics → Content

pub record Reply : Type 0 where
  pub status : ℕ
  pub retry_after : Option ℕ
  pub content : Content

-- writeJSON
abbrev pub reply : ℕ → Content → Reply
reply status content = record { status = status; retry_after = none; content = content }

-- Server: its fields that the gate uses are `guard`, and `metrics` says whether there are any. The
-- logger is a function of the application.
pub record HttpServer (M : Type 0) : Type 0 where
  pub agent : Option (Agent M)
  pub max_body_bytes : ℤ
  pub metrics : Bool
  pub guard : Server

-- NewServer
unfoldable pub new_server : {M : Type 0} → Option (Agent M) → HttpServer M
new_server a = record {
  agent = a;
  max_body_bytes = pos 1_048_576;
  metrics = false;
  guard = record {
    authenticate = none;
    api_keys = none;
    jwt = none;
    resolve_tenant = none;
    authorizer = none;
    limiter = none;
  };
}

-- Metrics.middleware, before and after the handler: `^uint64(0)` is 2^64 - 1.
unfoldable pub enter : Metrics → Metrics
enter m = record m { requests = (m.requests + 1) % 2 ^ 64; in_flight = (m.in_flight + 1) % 2 ^ 64 }

unfoldable pub leave : Metrics → Metrics
leave m = record m { in_flight = (m.in_flight + (2 ^ 64 - 1)) % 2 ^ 64 }
