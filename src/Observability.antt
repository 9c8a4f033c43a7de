-- ===== src/Observability.antt =====
-- internal/observability/observability.go: `MultiSink` and `Langfuse`. Package json and net/http are
-- parameters.
use cortex_go.Agent.State.{
  run_started, run_completed, model_completed, tool_started, tool_completed, EventKind, Event,
  ModelEvent,
}
use cortex_go.Errors.{langfuse_status, langfuse_failed, langfuse_incomplete, Result, Error, ok, err}
use cortex_go.Provider.Client.{is_success}
use cortex_go.Prelude.{
  ℕ, ◌⊎◌, inl, inr, ◌||◌, Option, none, some, List, [], ◌∷◌, ◌++◌, map, if◌then◌else◌, Str, bytes,
  is_empty, trim_slashes,
}

-- Publish of a MultiSink: the error, and the states of the sinks. A sink is what its Publish does.
unfoldable pub publish_all :
    {S : Type 0} → (S → Event → Option Error × S) → List S → Event → Option Error × List S
publish_all publish [] e = (none, [])
publish_all publish (s ∷ ss) e =
    let (failure, s') = publish s e in
    let (others, ss') = publish_all publish ss e in
    elim failure [ some f ↦ (some f, s' ∷ ss) | none ↦ (others, s' ∷ ss') ]

-- RecordModel of a MultiSink
unfoldable pub record_all : {S : Type 0} → (S → ModelEvent → S) → List S → ModelEvent → List S
record_all note ss e = map (λ s. note s e) ss

pub record Langfuse : Type 0 where
  pub base_url : Str
  pub public_key : Str
  pub secret_key : Str

-- ingestionEvent, of which the body is left to encoding/json
pub record IngestionEvent : Type 0 where
  pub id : Str
  pub kind : Str
  pub subject : Event ⊎ ModelEvent

-- Its type, from that of the event
unfoldable pub event_kind : EventKind → Str
event_kind run_started = bytes "trace-create"
event_kind run_completed = bytes "span-create"
event_kind (model_completed n) = bytes "span-create"
event_kind (tool_started name) = bytes "span-create"
event_kind (tool_completed name failure) = bytes "span-create"

-- json.Marshal of the batch, http.NewRequest with the URL, the keys and the data, and client.Do, which
-- gives the status
pub record Ingestion : Type 0 where
  pub encode : IngestionEvent → Result Str
  pub request : Str → Str → Str → Str → Result Str
  pub send : Str → Result ℕ

unfoldable pub send_ingestion : Langfuse → Ingestion → IngestionEvent → Option Error
send_ingestion l net event =
    if is_empty l.base_url || is_empty l.public_key || is_empty l.secret_key
    then some langfuse_incomplete
    else elim (net.encode event) [
      | err e ↦ some e
      | ok batch ↦
          elim (net.request (trim_slashes l.base_url ++ bytes "/api/public/ingestion") l.public_key
            l.secret_key batch) [
              | err e ↦ some e
              | ok request ↦ elim (net.send request) [
                | err e ↦ some (langfuse_failed e)
                | ok status ↦ if is_success status then none else some (langfuse_status status)
              ]
            ]
    ]

-- Publish of a Langfuse, of an event with its ID
unfoldable pub publish_langfuse : Langfuse → Ingestion → Str → Event → Option Error
publish_langfuse l net id e =
    send_ingestion l net (record { id = id; kind = event_kind e.kind; subject = inl e })

-- RecordModel of a Langfuse, of which the error is dropped
unfoldable pub record_langfuse : Langfuse → Ingestion → Str → ModelEvent → Option Error
record_langfuse l net id e =
    send_ingestion l net (record { id = id; kind = bytes "generation-create"; subject = inr e })
