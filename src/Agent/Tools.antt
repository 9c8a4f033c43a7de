-- ===== src/Agent/Tools.antt =====
-- `invokeTool`, `emit`, `safeAudit`, and the loop over the tool calls of one round.
use cortex_go.Prelude.{Option, none, some, List, [], ◌∷◌, ◌++◌, if◌then◌else◌, length, Str}
use cortex_go.Errors.{Error, Result, ok, err, not_authorized, not_registered}
use cortex_go.Provider.{Message, ToolCall, tool}
use cortex_go.Agent.Config.{Agent, Json, Outcome, answered, expired}
use cortex_go.Agent.State.{State, EventKind, tool_started, tool_completed, error_of}

abbrev pub result_of_outcome : Outcome → Result Str
result_of_outcome (answered r) = r
result_of_outcome (expired e) = err e

-- { Role: "tool", ToolCallID: call.ID, Content: output }
abbrev pub tool_message : Str → Str → Message
tool_message id output = record {
  role = tool;
  content = output;
  tool_call_id = id;
  tool_calls = [];
}

module _ {M : Type 0} (a : Agent M) (json : Json) (run_id session : Str) where
  unfoldable pub emit : EventKind → State M → State M
  emit kind w =
      if a.event_sink
      then record w {
        events = w.events ++ (record { run_id = run_id; task_id = session; kind = kind }) ∷ [];
      }
      else w

  -- The deferred call of the audit logger; a panic of the logger is recovered.
  unfoldable pub audit : ToolCall → Option Error → State M → State M
  audit call failure w =
      if a.audit_logger
      then record w {
        audits =
            w.audits
            ++ (record {
              session_id = session;
              call_id = call.id;
              tool_name = call.function.name;
              failure = failure;
            })
              ∷ [];
      }
      else w

  -- a.authorizer(ctx, name), if there is one
  unfoldable pub authorize : Str → State M → Option Error
  authorize name w = elim a.authorizer [ none ↦ none | some f ↦ f (length w.invocations) name ]

  -- The body of `invokeTool`: the authorizer, the registry, and the wait for its answer.
  unfoldable pub attempt : ToolCall → State M → Result Str × State M
  attempt call w = elim (authorize call.function.name w) [
    | some e ↦ (err (not_authorized call.function.name e), w)
    | none ↦ elim a.tools [
      | none ↦ (err (not_registered call.function.name), w)
      | some registry ↦ (
        result_of_outcome
            (registry.invoke (length w.invocations) call.function.name call.function.arguments),
        record w {
          invocations = w.invocations ++ (call.function.name, call.function.arguments) ∷ [];
        },
      )
    ]
  ]

  unfoldable pub invoke_tool : ToolCall → State M → Result Str × State M
  invoke_tool call w = let (r, w') = attempt call w in (r, audit call (error_of r) w')

  -- The content of the tool message: the output, or the error as a JSON object.
  unfoldable pub output_of : Result Str → Str
  output_of (ok output) = output
  output_of (err e) = json.error_object e

  unfoldable pub run_call : ToolCall → State M → Message × State M
  run_call call w =
      let (r, w') = invoke_tool call (emit (tool_started call.id) w) in
      (tool_message call.id (output_of r), emit (tool_completed call.id (error_of r)) w')

  -- for _, call := range result.ToolCalls { ... }
  unfoldable pub run_calls : List ToolCall → State M → List Message × State M
  run_calls [] w = ([], w)
  run_calls (call ∷ calls) w =
      let (m, w') = run_call call w in let (ms, w'') = run_calls calls w' in (m ∷ ms, w'')
