-- ===== src/Memory/Sessions.antt =====
-- internal/memory/memory.go and file_store.go: conversations by session. The interface `Store`, with
-- the optional `Replace` of `ReplaceStore`, and its two implementations. Locks are left out: each
-- operation runs as a whole under its store's mutex.
pub mod InMemory
pub mod File
pub mod Laws
pub mod Durable
use cortex_go.Prelude.{Option, none, some, List, [], Str, Dict, lookup}
use cortex_go.Errors.{
  Error, Result, ok, err, session_required, encode_failed, directory_failed, write_failed,
  rename_failed, decode_failed, read_failed, path_required,
}
use cortex_go.Provider.{Message}

-- memory.Store, over the type of its state; `replace` is `none` where the store is no ReplaceStore.
pub record Store (M : Type 0) : Type 0 where
  pub append : M → Str → List Message → Option Error × M
  pub list : M → Str → Result (List Message) × M
  pub replace : Option (M → Str → List Message → Option Error × M)

abbrev pub Sessions : Type 0
Sessions = Dict (List Message)

-- m.sessions[sessionID]: nil, the empty list, for a missing session
unfoldable pub session : Sessions → Str → List Message
session sessions id = elim (lookup id sessions) [ none ↦ [] | some ms ↦ ms ]
