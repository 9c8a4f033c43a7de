-- ===== src/Tests/Stores.antt =====
-- The session stores, on a file that the operating system fails to write.
use cortex_go.Provider.{user, plain_message, Message}
use cortex_go.Errors.{session_required, ok}
use cortex_go.Memory.Sessions.{session, Sessions}
use cortex_go.Memory.Sessions.InMemory.{in_memory}
use cortex_go.Memory.Sessions.File.{
  Codec, Conditions, FileStore, calm, file_store, open_file_store, opened,
}
use cortex_go.Memory.Sessions.File
use cortex_go.Memory.Sessions.Durable
use cortex_go.Memory.Sessions.Durable.{Change, RoundTrips, Holds, reopen-run}
use cortex_go.Security.Tenants
use cortex_go.Security.Tenants.{scoped, require_tenant, tenant_memory}
use cortex_go.Security.Tenants.Isolation.{NoColon, scoped-eq, tenant_memory-Laws}
use cortex_go.Memory.Sessions.Laws.{Laws, in_memory-Laws, file_store-Laws}
use cortex_go.Prelude.{
  ◌≡◌, refl, false, none, some, List, [], ◌∷◌, ◌++◌, Str, bytes, str_eq, trim_space, is_empty,
  lookup, put, remove,
}

program : Unit {0}
unfolding File.append File.list File.replace File.delete File.persist File.change open_file_store
    Durable.step Durable.run session lookup put remove str_eq trim_space require_tenant
    Tenants.append Tenants.list
program = tt

-- A file that holds the sessions themselves.
abbrev plain : Codec Sessions
plain = record { encode = ok; decode = λ m. ok (some m) }

plain-RoundTrips : RoundTrips plain (λ m. m)
plain-RoundTrips m text h = cc h

abbrev hello : List Message
hello = plain_message user (bytes "hi") ∷ []

abbrev me : Str
me = bytes "me"

abbrev broken : Conditions Sessions
broken = record calm { rename = some session_required }

-- The second append fails: its messages are in memory, and not in the file.
abbrev store : FileStore Sessions
store = record { sessions = []; file = none; temporary = none; to_come = calm ∷ broken ∷ [] }

abbrev changes : List Change
changes = Change.append me hello ∷ Change.append me hello ∷ []

run_broken :
    ((Durable.run plain (λ m. m) [] store changes).0 ≡ (me, hello) ∷ [])
    × ((Durable.run plain (λ m. m) [] store changes).1.sessions ≡ (me, hello ++ hello) ∷ [])
    × ((Durable.run plain (λ m. m) [] store changes).1.file ≡ some ((me, hello) ∷ []))
unfolding program
run_broken = (refl, refl, refl)

reopen-run_example :
    (t : FileStore Sessions) × (open_file_store plain
        (bytes "f.json")
        none
        (Durable.run plain (λ m. m) [] store changes).1.file
        []
      ≡ ok (opened t))
    × (t.sessions ≡ (Durable.run plain (λ m. m) [] store changes).0)
reopen-run_example =
    reopen-run plain (λ m. m) plain-RoundTrips (bytes "f.json") [] store changes [] refl refl

file_store-Laws_example : Laws (file_store plain) (λ s. session s.sessions)
file_store-Laws_example = file_store-Laws plain

me-tenant : require_tenant (some me) ≡ ok me
unfolding program
me-tenant = refl

tenant_memory-Laws_example :
    Laws (tenant_memory (some me) in_memory) (λ m id. session m (scoped me id))
tenant_memory-Laws_example =
    tenant_memory-Laws in_memory session in_memory-Laws (some me) me me-tenant

me-NoColon : NoColon me
me-NoColon = (λ e. cc e, (λ e. cc e, tt))

scoped-eq_example : (me ≡ me) × (bytes "s" ≡ bytes "s")
scoped-eq_example = scoped-eq me me (bytes "s") (bytes "s") me-NoColon me-NoColon refl

me_named : is_empty (trim_space me) ≡ false
unfolding program
me_named = refl

long_named : is_empty (trim_space (scoped me (bytes "x"))) ≡ false
unfolding program
long_named = refl
