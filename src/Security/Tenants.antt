-- ===== src/Security/Tenants.antt =====
-- internal/security/tenant.go: `TenantMemory`, a session store that puts the tenant of the context in
-- front of the session. A context is the tenant that `WithTenant` gave it, if any.
pub mod Isolation
pub mod Documents
pub mod Vectors
use cortex_go.Prelude.{
  Option, none, some, List, ◌∷◌, ◌++◌, if◌then◌else◌, Str, trim_space, is_empty,
}
use cortex_go.Errors.{Error, Result, ok, err, tenant_required, replace_unsupported}
use cortex_go.Provider.{Message}
use cortex_go.Memory.Sessions.{Store}

-- requireTenant
unfoldable pub require_tenant : Option Str → Result Str
require_tenant none = err tenant_required
require_tenant (some t) = if is_empty (trim_space t) then err tenant_required else ok t

-- t + ":" + session
abbrev pub scoped : Str → Str → Str
scoped t session = t ++ (b':' ∷ session)

module _ {M : Type 0} (ctx : Option Str) (store : Store M) where
  unfoldable pub append : M → Str → List Message → Option Error × M
  append m session ms = elim (require_tenant ctx) [
    | err e ↦ (some e, m)
    | ok t ↦ store.append m (scoped t session) ms
  ]

  unfoldable pub list : M → Str → Result (List Message) × M
  list m session = elim (require_tenant ctx) [
    | err e ↦ (err e, m)
    | ok t ↦ store.list m (scoped t session)
  ]

  unfoldable pub replace : M → Str → List Message → Option Error × M
  replace m session ms = elim (require_tenant ctx) [
    | err e ↦ (some e, m)
    | ok t ↦ elim store.replace [
      | none ↦ (some replace_unsupported, m)
      | some f ↦ f m (scoped t session) ms
    ]
  ]

  -- TenantMemory has the method Replace whatever it wraps.
  abbrev pub tenant_memory : Store M
  tenant_memory = record { append = append; list = list; replace = some replace }
