-- ===== src/Memory/Sessions/InMemory.antt =====
-- internal/memory/memory.go: `InMemory`.
use cortex_go.Prelude.{Option, none, some, List, ◌++◌, Str, put}
use cortex_go.Errors.{Error, Result, ok}
use cortex_go.Provider.{Message}
use cortex_go.Memory.Sessions.{Store, Sessions, session}

unfoldable pub append : Sessions → Str → List Message → Option Error × Sessions
append m id ms = (none, put id (session m id ++ ms) m)

unfoldable pub list : Sessions → Str → Result (List Message) × Sessions
list m id = (ok (session m id), m)

unfoldable pub replace : Sessions → Str → List Message → Option Error × Sessions
replace m id ms = (none, put id ms m)

abbrev pub in_memory : Store Sessions
in_memory = record { append = append; list = list; replace = some replace }
