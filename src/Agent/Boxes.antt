-- ===== src/Agent/Boxes.antt =====
-- internal/agent/agent.go over internal/tool/tool.go: the registry behind an agent. `late` says of each
-- call whether the context ends before the registry answers.
use cortex_go.Tool.Registry.Calls.{
  unknown, rejected, failed, succeeded, invoke-Invokes, Invokes, IsAccepted,
}
use cortex_go.Agent.Tools.{authorize, attempt, invoke_tool, result_of_outcome}
use cortex_go.Agent.State.{State}
use cortex_go.Provider.{ToolCall, ToolInfo}
use cortex_go.Agent.Config.{Json, Outcome, Agent, answered, expired, ToolBox}
use cortex_go.Tool.Registry.{invoke, definitions, Registry}
use cortex_go.Errors.{Result, Error, ok}
use cortex_go.Tool.Schema.Depth.{IsSliced}
use cortex_go.Tool.{Definition, Codec}
use cortex_go.Prelude.{
  ℕ, ◌≡◌, subst, inl, inr, true, Option, none, some, List, map, Option-cases, length, Str, lookup,
}

-- provider.Tool of a definition
abbrev pub offered : Definition → ToolInfo
offered d = record { name = d.name; description = d.description; parameters = d.input_schema }

-- response or toolCtx.Done()
abbrev pub outcome_of : Option Error → Result Str → Outcome
outcome_of none r = answered r
outcome_of (some e) r = expired e

unfoldable pub registry_tools : {N : Type 0} → Codec N → Registry → (ℕ → Option Error) → ToolBox
registry_tools codec tools late = record {
  definitions = map offered (definitions tools);
  invoke = λ n name input. outcome_of (late n) (invoke codec tools name input).0;
}

module _ {N : Type 0} (codec : Codec N) (tools : Registry) where
  -- A tool that is registered and that lets the input through, and an output that is JSON.
  pub record IsServed (name input output : Str) : Type 0 where
    pub definition : Definition
    pub found : lookup name tools ≡ some definition
    pub accepted : IsAccepted codec tools name input definition
    pub valid : codec.valid output ≡ true

  Invokes-IsServed :
      (name input output : Str) (r : Result Str) (calls : List Str)
      → Invokes codec tools name input r calls
      → r ≡ ok output
      → IsServed name input output
  Invokes-IsServed name input output _ _ (unknown gone) h = cc h
  Invokes-IsServed name input output _ _ (rejected d e found bad) h = cc h
  Invokes-IsServed name input output _ _ (failed d e found accepted why) h = cc h
  Invokes-IsServed name input output _ _
        (succeeded d handler out given found accepted has gave good same) h =
      record {
        definition = d;
        found = found;
        accepted = accepted;
        valid = (let p : out ≡ output = cc h in subst (λ s. codec.valid s ≡ true) p good);
      }

  outcome-IsServed :
      IsSliced codec
      → (late : Option Error) (name input output : Str)
      → result_of_outcome (outcome_of late (invoke codec tools name input).0) ≡ ok output
      → IsServed name input output
  outcome-IsServed sliced none name input output h =
      Invokes-IsServed name input output _ _ (invoke-Invokes codec tools name input sliced) h
  outcome-IsServed sliced (some e) name input output h = cc h

  module _ {M : Type 0} (sliced : IsSliced codec) (a : Agent M) (json : Json) (run_id session : Str)
      (late : ℕ → Option Error) (holds : a.tools ≡ some (registry_tools codec tools late)) where
    -- Where the schemas inside a schema are parts of its text, a tool call of an agent that has a
    -- registry ends well only for a tool that is registered, with arguments that decode to a value
    -- that conforms to the tool's schema, and its output is valid JSON.
    pub invoke_tool-IsServed :
        (c : ToolCall) (w : State M) (output : Str)
        → (invoke_tool a json run_id session c w).0 ≡ ok output
        → IsServed c.function.name c.function.arguments output
    unfolding invoke_tool attempt registry_tools
    invoke_tool-IsServed c w output h =
        elim (Option-cases (authorize a json run_id session c.function.name w)) [
          | inr (e, denied) ↦ cc (rw (denied, attempt) at h)
          | inl free ↦
              let h' = rw holds at (rw (free, attempt) at h) in
              outcome-IsServed sliced (late (length w.invocations)) c.function.name
                c.function.arguments output h'
        ]
