-- ===== src/Provider/Client.antt =====
-- internal/provider/provider.go: `OpenAICompatible`, its requests and its retries.
pub mod Attempts
use cortex_go.Errors.{
  ok, decode_response, no_choices, provider_message, http_status, base_url_required, out_of_fuel,
  Result, Error, err,
}
use cortex_go.Provider.{ToolInfo, ToolCall, Message, Usage, ChatResult}
use cortex_go.Provider.Backoff.{retry_delay}
use cortex_go.Prelude.{
  ℕ, zero, suc, Bool, true, false, not, ◌&&◌, ◌||◌, Option, none, some, List, [], ◌∷◌, ◌++◌, map,
  ltb, leb, ◌==◌, if◌then◌else◌, ℤ, pos_part, Str, bytes, trim_space, is_empty, trim_slashes,
}

-- The fields that the code reads; the client, the timeout and the logger are part of `Network`.
pub record OpenAiCompatible : Type 0 where
  pub base_url : Str
  pub api_key : Str
  pub model : Str
  pub embedding_model : Str
  pub max_retries : ℤ
  pub retry_backoff : ℤ

-- chatTool
pub record ChatTool : Type 0 where
  pub kind : Str
  pub function : ToolInfo

pub record ChatRequest : Type 0 where
  pub model : Str
  pub messages : List Message
  pub stream : Bool
  pub include_usage : Bool
  pub tools : List ChatTool

-- chatResponse: the choices are their message and their finish reason.
pub record ChatResponse : Type 0 where
  pub model : Str
  pub choices : List (Message × Str)
  pub usage : Option Usage
  pub failure : Option Str

pub record HttpRequest : Type 0 where
  pub url : Str
  pub authorization : Option Str
  pub event_stream : Bool
  pub body : Str

-- What net/http does with a request: it cannot be made, it gets no answer, or there is an answer with
-- its status and the bytes of its body, whose reading may end with an error.
pub data Exchange : Type 0 where
  unbuilt undelivered : Error → Exchange
  response : ℕ → Str → Option Error → Exchange

-- encoding/json, net/http and the timer of `waitForRetry`. The exchange of an attempt has its
-- number; a wait of a duration ends well, or with the error of the context.
pub record Network : Type 0 where
  pub encode : ChatRequest → Result Str
  pub decode : Str → Result ChatResponse
  pub exchange : ℕ → HttpRequest → Exchange
  pub wait : ℕ → ℕ → Option Error

-- chatTools
abbrev pub chat_tools : List ToolInfo → List ChatTool
chat_tools tools = map (λ t. record { kind = bytes "function"; function = t }) tools

-- retryableStatus
unfoldable pub retryable_status : ℕ → Bool
retryable_status status = status == 429 || leb 500 status

abbrev pub is_success : ℕ → Bool
is_success status = leb 200 status && ltb status 300

unfoldable pub request_of : OpenAiCompatible → Bool → Str → HttpRequest
request_of p stream body = record {
  url = trim_slashes p.base_url ++ bytes "/v1/chat/completions";
  authorization = if is_empty p.api_key then none else some (bytes "Bearer " ++ p.api_key);
  event_stream = stream;
  body = body;
}

-- What an attempt returns, and whether it may be made again.
pub record Attempt {ℓ} (A : Type ℓ) : Type ℓ where
  pub outcome : Result A
  pub retry : Bool

abbrev pub stops {ℓ} : {A : Type ℓ} → Result A → Attempt A
stops r = record { outcome = r; retry = false }

abbrev pub retries {ℓ} : {A : Type ℓ} → Error → Attempt A
retries e = record { outcome = err e; retry = true }

abbrev pub usage_or_zero : Option Usage → Usage
usage_or_zero none = record { prompt_tokens = 0; completion_tokens = 0; total_tokens = 0 }
usage_or_zero (some u) = u

-- The part of `doChat` behind json.Unmarshal.
unfoldable pub read_response : ChatResponse → Result ChatResult
read_response r = elim r.failure [
  | some text ↦ err (provider_message text)
  | none ↦ elim r.choices [
    | [] ↦ err no_choices
    | (message, finish_reason) ∷ others ↦ ok (record {
      content = message.content;
      model = r.model;
      finish_reason = finish_reason;
      usage = usage_or_zero r.usage;
      tool_calls = message.tool_calls;
    })
  ]
]

unfoldable pub do_chat : Network → Exchange → Attempt ChatResult
do_chat net (unbuilt e) = stops (err e)
do_chat net (undelivered e) = retries e
do_chat net (response status body (some e)) = retries e
do_chat net (response status body none) =
    if retryable_status status
    then retries (http_status (bytes "chat") status (trim_space body))
    else if not (is_success status)
    then stops (err (http_status (bytes "chat") status (trim_space body)))
    else elim (net.decode body) [
      | err e ↦ stops (err (decode_response e))
      | ok r ↦ stops (read_response r)
    ]

-- for attempt := 0; ; attempt++ { ... }: the result, and how many attempts were made
unfoldable pub attempts {ℓ} :
    {A : Type ℓ} → (ℕ → Attempt A) → (ℕ → Option Error) → ℕ → ℕ → ℕ → Result A × ℕ
attempts answer wait max_retries zero n = (err out_of_fuel, n)
attempts answer wait max_retries (suc fuel) n =
    let rest = attempts answer wait max_retries fuel (suc n) in
    elim (answer n).outcome [
      | ok r ↦ (ok r, suc n)
      | err e ↦
          if not (answer n).retry || leb max_retries n
          then (err e, suc n)
          else elim (wait n) [ some e' ↦ (err e', suc n) | none ↦ rest ]
    ]

-- The wait before the attempt after the n-th.
unfoldable pub wait_after : OpenAiCompatible → Network → ℕ → Option Error
wait_after p net n = net.wait n (retry_delay p.retry_backoff n)

-- if p.BaseURL == "" || p.Model == "" { ... }, then json.Marshal
unfoldable pub prepare : OpenAiCompatible → Network → ChatRequest → Result HttpRequest
prepare p net r =
    if is_empty p.base_url || is_empty p.model
    then err base_url_required
    else elim (net.encode r) [ err e ↦ err e | ok body ↦ ok (request_of p r.stream body) ]

abbrev pub plain_request : OpenAiCompatible → List Message → List ToolInfo → ChatRequest
plain_request p ms tools = record {
  model = p.model;
  messages = ms;
  stream = false;
  include_usage = false;
  tools = chat_tools tools;
}

unfoldable pub chat_with_options :
    OpenAiCompatible → Network → List Message → List ToolInfo → Result ChatResult × ℕ
chat_with_options p net ms tools = elim (prepare p net (plain_request p ms tools)) [
  | err e ↦ (err e, 0)
  | ok request ↦
      attempts (λ n. do_chat net (net.exchange n request)) (wait_after p net)
        (pos_part p.max_retries) (suc (pos_part p.max_retries)) 0
]
