-- ===== src/Api/Gate.antt =====
-- internal/api/http.go: the handler that `Server.Handler` puts before the routes: who the caller is,
-- which tenant it acts for, whether it may, and whether it is not too often.
pub mod Decisions
use cortex_go.Prelude.{
  ℕ, ◌+◌, ◌/◌, Bool, true, false, not, ◌||◌, Option, none, some, [], if◌then◌else◌, is_some, Str,
  bytes, str_eq, trim_space, is_empty,
}
use cortex_go.Errors.{Error, Result, ok, err}
use cortex_go.Security.Identities.{Identity, parse_bearer}
use cortex_go.Api.Rbac.{Tenant}
use cortex_go.Api.Limiter
use cortex_go.Api.Limiter.{Limiter}

-- What the handler reads of an http.Request.
pub record Request : Type 0 where
  pub path : Str
  pub api_key : Str
  pub authorization : Str
  pub tenant_id : Str

-- The functions and components that are set; `authenticate`, `api_keys` and `resolve_tenant` give
-- `none` where Go's function returns false, and `jwt` is Verify of the verifier.
pub record Server : Type 0 where
  pub authenticate : Option (Request → Option Identity)
  pub api_keys : Option (Str → Option Identity)
  pub jwt : Option (Str → Result Identity)
  pub resolve_tenant : Option (Request → Option Tenant)
  pub authorizer : Option (Tenant → Str → Bool)
  pub limiter : Option Limiter

-- The statuses 401 and 403.
pub data Refusal : Type 0 where
  unauthorized forbidden : Refusal

pub data Decision : Type 0 where
  health : Decision
  refuse : Refusal → Decision
  too_many : ℕ → Decision
  forward : Tenant → Decision

-- Whom a step lets through, or the status that it writes.
pub data Step {ℓ} (A : Type ℓ) : Type ℓ where
  pass : A → Step A
  stop : Refusal → Step A

abbrev pub default_tenant : Tenant
default_tenant = record { id = bytes "default"; roles = [] }

abbrev pub tenant_of : Identity → Tenant
tenant_of id = record { id = id.tenant; roles = id.roles }

-- !ok || id.Tenant == ""
unfoldable pub known_tenant : Option Identity → Step Tenant
known_tenant none = stop unauthorized
known_tenant (some id) = if is_empty id.tenant then stop unauthorized else pass (tenant_of id)

-- The bearer token, where there is one and a verifier.
unfoldable pub bearer_identity : Server → Request → Option Identity
bearer_identity s r = elim (parse_bearer r.authorization) [
  | err e ↦ none
  | ok token ↦ elim s.jwt [
    | none ↦ none
    | some verify ↦ elim (verify token) [ err e ↦ none | ok id ↦ some id ]
  ]
]

-- The API key, where the request has one and the server a store of them, or else the bearer token.
unfoldable pub credential : Server → Request → Option Identity
credential s r = elim s.api_keys [
  | none ↦ bearer_identity s r
  | some lookup_key ↦ if is_empty r.api_key then bearer_identity s r else lookup_key r.api_key
]

-- if s.Authenticate != nil { ... }
unfoldable pub first_identity : Server → Request → Step Tenant
first_identity s r = elim s.authenticate [
  | none ↦ pass default_tenant
  | some f ↦ known_tenant (f r)
]

-- s.APIKeys != nil || s.JWT != nil
unfoldable pub wants_credential : Server → Bool
wants_credential s = is_some s.api_keys || is_some s.jwt

-- The tenant of the credentials, or the tenant so far, and `authenticated`.
unfoldable pub second_identity : Server → Request → Tenant → Step (Tenant × Bool)
second_identity s r tenant =
    if wants_credential s
    then elim (known_tenant (credential s r)) [ stop d ↦ stop d | pass t ↦ pass (t, true) ]
    else pass (tenant, false)

-- if s.ResolveTenant != nil { ... }, by whether the tenant was authenticated
unfoldable pub resolved : Option Tenant → Tenant → Bool → Step Tenant
resolved none tenant true = if is_empty tenant.id then stop unauthorized else pass tenant
resolved none tenant false = stop unauthorized
resolved (some t) tenant true =
    if not (str_eq t.id tenant.id)
    then stop forbidden
    else if is_empty tenant.id
    then stop unauthorized
    else pass tenant
resolved (some t) tenant false = if is_empty t.id then stop unauthorized else pass t

unfoldable pub resolve : Server → Request → Tenant × Bool → Step Tenant
resolve s r (tenant, authenticated) = elim s.resolve_tenant [
  | none ↦ pass tenant
  | some f ↦ resolved (f r) tenant authenticated
]

-- The tenant for which the request is made.
unfoldable pub identify : Server → Request → Step Tenant
identify s r = elim (first_identity s r) [
  | stop d ↦ stop d
  | pass tenant ↦ elim (second_identity s r tenant) [ stop d ↦ stop d | pass q ↦ resolve s r q ]
]

-- s.Authorizer != nil && !s.Authorizer.Allow(tenant, "chat")
unfoldable pub is_denied : Server → Tenant → Bool
is_denied s tenant = elim s.authorizer [ none ↦ false | some f ↦ not (f tenant (bytes "chat")) ]

-- The limiter's answer, and the server with its new hits. The duration is in nanoseconds, and
-- Retry-After is in whole seconds, one more than those left.
unfoldable pub limit : Server → Tenant → ℕ → Decision × Server
limit s tenant now = elim s.limiter [
  | none ↦ (forward tenant, s)
  | some l ↦
      let (answer, l') = Limiter.allow l tenant.id now in
      let s' : Server = record s { limiter = some l' } in
      if answer.0 then (forward tenant, s') else (too_many (answer.1 / 1_000_000_000 + 1), s')
]

unfoldable pub admit : Server → Tenant → ℕ → Decision × Server
admit s tenant now = if is_denied s tenant then (refuse forbidden, s) else limit s tenant now

unfoldable pub gate : Server → Request → ℕ → Decision × Server
gate s r now =
    if str_eq r.path (bytes "/healthz")
    then (health, s)
    else elim (identify s r) [ stop d ↦ (refuse d, s) | pass tenant ↦ admit s tenant now ]

-- HeaderTenantResolver
unfoldable pub header_tenant_resolver : Request → Option Tenant
header_tenant_resolver r =
    let id = trim_space r.tenant_id in
    if is_empty id then none else some (record { id = id; roles = [] })
