-- ===== src/Agent/State.antt =====
-- What one turn of an agent reads and writes: the memory, and what it hands to the event sink, the
-- audit logger, the telemetry recorder and the caller's delta callback, in order. The times of
-- events and their JSON payloads are left out; nothing in the code depends on them.
use cortex_go.Prelude.{ℕ, Option, none, some, List, [], Str}
use cortex_go.Errors.{Error, Result, ok, err}
use cortex_go.Provider.{Usage, ChatResult}

-- core.Event: the run ID, the task ID and the type; the event's ID is made of these.
pub data EventKind : Type 0 where
  run_started run_completed : EventKind
  model_completed : ℕ → EventKind
  tool_started : Str → EventKind
  tool_completed : Str → Option Error → EventKind

pub record Event : Type 0 where
  pub run_id : Str
  pub task_id : Str
  pub kind : EventKind

-- ToolAuditEvent, with the error itself for its text
pub record ToolAuditEvent : Type 0 where
  pub session_id : Str
  pub call_id : Str
  pub tool_name : Str
  pub failure : Option Error

-- telemetry.ModelEvent
pub record ModelEvent : Type 0 where
  pub usage : Usage
  pub model : Str
  pub failure : Option Error

-- `replies` and `invocations` record what the model answered and what reached the tool registry:
-- they are no fields of the program, but what the model and the registry saw.
pub record State (M : Type 0) : Type 0 where
  pub store : M
  pub events : List Event
  pub audits : List ToolAuditEvent
  pub telemetry : List ModelEvent
  pub streamed : Str
  pub deltas : List Str
  pub replies : List (Result ChatResult)
  pub invocations : List (Str × Str)

abbrev pub no_usage : Usage
no_usage = record { prompt_tokens = 0; completion_tokens = 0; total_tokens = 0 }

-- the zero ChatResult, which comes beside an error
abbrev pub no_result : ChatResult
no_result = record {
  content = [];
  model = [];
  finish_reason = [];
  usage = no_usage;
  tool_calls = [];
}

-- the result that a call of the model returns, whether or not it returns an error
abbrev pub result_of : Result ChatResult → ChatResult
result_of (ok r) = r
result_of (err e) = no_result

abbrev pub error_of {ℓ} : {A : Type ℓ} → Result A → Option Error
error_of (ok r) = none
error_of (err e) = some e
