-- ===== src/Agent/Config.antt =====
-- The agent's fields, the interfaces that it calls, its options and its constructor.
use cortex_go.Provider.{ToolInfo, Message, ChatResult}
use cortex_go.Prelude.{
  ℕ, Bool, false, Option, none, some, List, [], ◌∷◌, if◌then◌else◌, ℤ, pos_part, is_pos, Str,
}
use cortex_go.Errors.{Error, Result}
use cortex_go.Memory.Compact.{SummaryFunc}
use cortex_go.Memory.Sessions.{Store}

-- The deltas that a streaming model hands to its callback, and its result. A model stops at the
-- first delta that the callback refuses, and returns the callback's error.
abbrev pub Stream : Type 0
Stream = List Str × Result ChatResult

-- provider.ChatModel, with the interfaces that a model may have beside it (`none` where the type
-- assertion fails). A model may keep state of its own: the first argument is how many replies of
-- the model came before.
pub record Model : Type 0 where
  pub chat : ℕ → List Message → Result ChatResult
  pub chat_with_options : Option (ℕ → List Message → List ToolInfo → Result ChatResult)
  pub chat_stream : Option (ℕ → List Message → Stream)
  pub chat_stream_with_options : Option (ℕ → List Message → List ToolInfo → Stream)

-- What the `select` of `invokeTool` receives: the registry's answer, or the end of the context.
pub data Outcome : Type 0 where
  answered : Result Str → Outcome
  expired : Error → Outcome

-- tool.Registry, as the agent uses it. A call of `invoke` has the number of calls before it.
pub record ToolBox : Type 0 where
  pub definitions : List ToolInfo
  pub invoke : ℕ → Str → Str → Outcome

-- ToolAuthorizer, with the number of tool calls that reached the registry before.
abbrev pub ToolAuthorizer : Type 0
ToolAuthorizer = ℕ → Str → Option Error

-- encoding/json: json.Valid, and the text of {"error": err.Error()}.
pub record Json : Type 0 where
  pub valid : Str → Bool
  pub error_object : Error → Str

-- The audit logger, the telemetry recorder and the event sink are functions of the application:
-- the fields say whether there is one, and `State` keeps what is handed to it. A cost monitor hands
-- the event on if it has a recorder.
pub record Agent (M : Type 0) : Type 0 where
  pub model : Model
  pub memory : Store M
  pub tools : Option ToolBox
  pub max_tool_rounds : ℕ
  pub tool_timeout : ℕ
  pub authorizer : Option ToolAuthorizer
  pub audit_logger : Bool
  pub context_limit : ℕ
  pub token_budget : ℕ
  pub summarizer : Option SummaryFunc
  pub telemetry : Bool
  pub cost_monitor : Option Bool
  pub event_sink : Bool

abbrev pub default_max_tool_rounds : ℕ
default_max_tool_rounds = 4

-- 15 * time.Second, in nanoseconds
abbrev pub default_tool_timeout : ℕ
default_tool_timeout = 15_000_000_000

-- Option
abbrev pub AgentOption : Type 0 → Type 0
AgentOption M = Agent M → Agent M

module _ {M : Type 0} where
  unfoldable pub with_tools : ToolBox → AgentOption M
  with_tools registry a = record a { tools = some registry }

  unfoldable pub with_max_tool_rounds : ℤ → AgentOption M
  with_max_tool_rounds rounds a =
      if is_pos rounds then record a { max_tool_rounds = pos_part rounds } else a

  unfoldable pub with_tool_timeout : ℤ → AgentOption M
  with_tool_timeout timeout a =
      if is_pos timeout then record a { tool_timeout = pos_part timeout } else a

  unfoldable pub with_tool_authorizer : ToolAuthorizer → AgentOption M
  with_tool_authorizer authorizer a = record a { authorizer = some authorizer }

  unfoldable pub with_tool_audit_logger : Bool → AgentOption M
  with_tool_audit_logger logger a = record a { audit_logger = logger }

  unfoldable pub with_context_message_limit : ℤ → AgentOption M
  with_context_message_limit limit a =
      if is_pos limit then record a { context_limit = pos_part limit } else a

  unfoldable pub with_conversation_summarizer : SummaryFunc → AgentOption M
  with_conversation_summarizer summarizer a = record a { summarizer = some summarizer }

  unfoldable pub with_context_token_budget : ℤ → AgentOption M
  with_context_token_budget budget a =
      if is_pos budget then record a { token_budget = pos_part budget } else a

  unfoldable pub with_telemetry : Bool → AgentOption M
  with_telemetry recorder a = record a { telemetry = recorder }

  unfoldable pub with_cost_monitor : Bool → AgentOption M
  with_cost_monitor recorder a = record a { cost_monitor = some recorder }

  unfoldable pub with_event_sink : Bool → AgentOption M
  with_event_sink sink a = record a { event_sink = sink }

  unfoldable pub apply_options : Agent M → List (AgentOption M) → Agent M
  apply_options a [] = a
  apply_options a (f ∷ fs) = apply_options (f a) fs

  unfoldable pub new : Model → Store M → List (AgentOption M) → Agent M
  unfolding apply_options
  new model store options =
      apply_options
        (record {
          model = model;
          memory = store;
          tools = none;
          max_tool_rounds = default_max_tool_rounds;
          tool_timeout = default_tool_timeout;
          authorizer = none;
          audit_logger = false;
          context_limit = 0;
          token_budget = 0;
          summarizer = none;
          telemetry = false;
          cost_monitor = none;
          event_sink = false;
        })
        options
