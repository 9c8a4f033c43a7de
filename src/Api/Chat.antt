-- ===== src/Api/Chat.antt =====
-- internal/api/http.go: what the `chat` handler passes to the agent: the input and the session.
pub mod Inputs
use cortex_go.Prelude.{
  Bool, Option, none, some, List, [], ◌∷◌, ◌++◌, if◌then◌else◌, Str, bytes, str_eq, trim_space,
  is_empty,
}
use cortex_go.Security.Identities.{sanitize_prompt}

-- One element of `messages` of a chat request.
pub record ChatMessage : Type 0 where
  pub role : Str
  pub content : Str

abbrev pub is_blank_input : Str → Bool
is_blank_input s = is_empty (trim_space s)

-- for i := len(req.Messages) - 1; i >= 0; i-- { ... }
unfoldable pub last_user : List ChatMessage → Option Str
last_user [] = none
last_user (m ∷ ms) =
    let rest = last_user ms in
    elim rest [
      | some s ↦ some s
      | none ↦ if str_eq m.role (bytes "user") then some m.content else none
    ]

-- The input, or the last message of the user where it is blank; `none` is status 400.
unfoldable pub chat_input : Str → List ChatMessage → Option Str
chat_input input ms =
    let first = sanitize_prompt input in
    let chosen : Str =
      if is_blank_input first then elim (last_user ms) [ none ↦ first | some s ↦ s ] else first in
    let text = sanitize_prompt chosen in if is_blank_input text then none else some text

-- if session == "" { session = "default" }
abbrev pub session_name : Str → Str
session_name session = if is_empty session then bytes "default" else session

-- The session of the agent for the request's session and the tenant of its context.
unfoldable pub chat_session : Option Str → Str → Str
chat_session tenant session =
    let named = session_name session in
    elim tenant [
      | none ↦ named
      | some id ↦ if str_eq id (bytes "default") then named else id ++ (b':' ∷ named)
    ]
