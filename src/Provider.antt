-- ===== src/Provider.antt =====
-- The data of internal/provider/provider.go that the other packages exchange.
pub mod Backoff
pub mod Client
pub mod Embedding
pub mod Echo
pub mod Models
pub mod Stream
use cortex_go.Prelude.{ℕ, List, [], Str, bytes}

pub record ToolCallFunction : Type 0 where
  pub name : Str
  pub arguments : Str

pub record ToolCall : Type 0 where
  pub id : Str
  pub kind : Str
  pub function : ToolCallFunction

pub record Message : Type 0 where
  pub role : Str
  pub content : Str
  pub tool_call_id : Str
  pub tool_calls : List ToolCall

-- Tool
pub record ToolInfo : Type 0 where
  pub name : Str
  pub description : Str
  pub parameters : Str

-- Counters; Go's `int` does not overflow here at any count that a model reports.
pub record Usage : Type 0 where
  pub prompt_tokens : ℕ
  pub completion_tokens : ℕ
  pub total_tokens : ℕ

pub record ChatResult : Type 0 where
  pub content : Str
  pub model : Str
  pub finish_reason : Str
  pub usage : Usage
  pub tool_calls : List ToolCall

abbrev pub system : Str
system = bytes "system"

abbrev pub user : Str
user = bytes "user"

abbrev pub assistant : Str
assistant = bytes "assistant"

abbrev pub tool : Str
tool = bytes "tool"

-- provider.Message{Role: role, Content: content}
abbrev pub plain_message : Str → Str → Message
plain_message role content = record {
  role = role;
  content = content;
  tool_call_id = [];
  tool_calls = [];
}
