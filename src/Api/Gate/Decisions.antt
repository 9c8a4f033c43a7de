-- ===== src/Api/Gate/Decisions.antt =====
-- Whom the gate lets through.
use cortex_go.Prelude.{
  ℕ, ◌≡◌, refl, ap, subst, ◌∙◌, ◌⊎◌, inl, inr, Bool, true, false, Option, none, some, arith,
  Bool-cases, Option-cases, bytes, str_eq, is_empty,
}
use cortex_go.Security.Identities.{Identity}
use cortex_go.Api.Rbac.{Tenant}
use cortex_go.Api.Gate.{
  Request, Server, refuse, Refusal, Step, pass, stop, forward, forbidden, tenant_of, known_tenant,
  credential, wants_credential, first_identity, second_identity, resolved, resolve, identify,
  is_denied, limit, admit, gate,
}

known_tenant-eq-pass :
    (o : Option Identity) (t : Tenant)
    → known_tenant o ≡ pass t
    → (id : Identity) × (o ≡ some id) × (is_empty id.tenant ≡ false) × (t ≡ tenant_of id)
unfolding known_tenant
known_tenant-eq-pass none t h = cc
known_tenant-eq-pass (some id) t h = elim (Bool-cases (is_empty id.tenant)) [
  | inl e ↦ cc (rw e at h)
  | inr n ↦ (id, refl, n, cc (rw n at h))
]

pub Step-cases {ℓ} :
    {A : Type ℓ} (s : Step A) → ((a : A) × (s ≡ pass a)) ⊎ ((d : Refusal) × (s ≡ stop d))
Step-cases (pass a) = inl (a, refl)
Step-cases (stop d) = inr (d, refl)

-- A tenant that is authenticated is kept by the resolver.
resolved_keeps : (o : Option Tenant) (t u : Tenant) → resolved o t true ≡ pass u → u ≡ t
unfolding resolved
resolved_keeps none t u h = ground arith
resolved_keeps (some v) t u h = ground arith

resolve_keeps : (s : Server) (r : Request) (t u : Tenant) → resolve s r (t, true) ≡ pass u → u ≡ t
unfolding resolve
resolve_keeps s r t u h = elim (Option-cases s.resolve_tenant) [
  | inl n ↦ (let e : pass t ≡ pass u = rw (n, resolve) at h in cc e)
  | inr (f, e) ↦ resolved_keeps (f r) t u (rw (e, resolve) at h)
]

second_identity-eq-pass :
    (s : Server) (r : Request) (t u : Tenant) (b : Bool)
    → wants_credential s ≡ true
    → second_identity s r t ≡ pass (u, b)
    → (b ≡ true) × (known_tenant (credential s r) ≡ pass u)
unfolding second_identity
second_identity-eq-pass s r t u b w h = elim (Step-cases (known_tenant (credential s r))) [
  | inr (d, e) ↦ cc (rw e at (rw w at h))
  | inl (v, e) ↦
      let p : pass (v, true) ≡ pass (u, b) = rw e at (rw w at h) in (cc p, e ∙ ap pass (cc p))
]

-- What the gate knows of a tenant that it lets through with credentials.
pub record IsCredited (s : Server) (r : Request) (t : Tenant) : Type 0 where
  pub identity : Identity
  pub given : credential s r ≡ some identity
  pub has_tenant : is_empty identity.tenant ≡ false
  pub same : t ≡ tenant_of identity

identify-IsCredited :
    (s : Server) (r : Request) (t : Tenant)
    → wants_credential s ≡ true
    → identify s r ≡ pass t
    → IsCredited s r t
unfolding identify
identify-IsCredited s r t w h = elim (Step-cases (first_identity s r)) [
  | inr (d, e) ↦ cc (rw (e, identify) at h)
  | inl (a, e) ↦ elim (Step-cases (second_identity s r a)) [
    | inr (d, e') ↦ cc (rw e' at (rw (e, identify) at h))
    | inl (q, e') ↦
        let (b, known) = second_identity-eq-pass s r a q.0 q.1 w e' in
        let h' : resolve s r q ≡ pass t = rw e' at (rw (e, identify) at h) in
        let h'' : resolve s r (q.0, true) ≡ pass t =
          subst (λ (x : Bool). resolve s r (q.0, x) ≡ pass t) b h' in
        let (id, given, has_tenant, same) = known_tenant-eq-pass (credential s r) q.0 known in
        record {
          identity = id;
          given = given;
          has_tenant = has_tenant;
          same = resolve_keeps s r q.0 t h'' ∙ same;
        }
  ]
]

limit-eq-forward : (s : Server) (t u : Tenant) (now : ℕ) → (limit s t now).0 ≡ forward u → u ≡ t
unfolding limit
limit-eq-forward s t u now h = ground arith

admit-eq-forward :
    (s : Server) (t u : Tenant) (now : ℕ)
    → (admit s t now).0 ≡ forward u
    → (u ≡ t) × (is_denied s t ≡ false)
unfolding admit
admit-eq-forward s t u now h = elim (Bool-cases (is_denied s t)) [
  | inl e ↦ (let p : refuse forbidden ≡ forward u = rw e at h in cc p)
  | inr e ↦ (limit-eq-forward s t u now (rw e at h), e)
]

-- If the server has API keys or a token verifier, a request that reaches the routes carries a key or
-- a token that is accepted, and acts for the tenant and with the roles of that identity, whatever
-- tenant its headers name; and the authorizer does not deny it.
pub gate-IsCredited :
    (s : Server) (r : Request) (now : ℕ) (t : Tenant)
    → wants_credential s ≡ true
    → (gate s r now).0 ≡ forward t
    → IsCredited s r t × (is_denied s t ≡ false)
unfolding gate
gate-IsCredited s r now t w h = elim (Bool-cases (str_eq r.path (bytes "/healthz"))) [
  | inl e ↦ cc (rw e at h)
  | inr e ↦ elim (Step-cases (identify s r)) [
    | inr (d, stopped) ↦ (let p : refuse d ≡ forward t = rw stopped at (rw e at h) in cc p)
    | inl (u, passed) ↦
        let (same, free) = admit-eq-forward s u t now (rw passed at (rw e at h)) in
        rw same (identify-IsCredited s r u w passed, free)
  ]
]

known_tenant-some :
    (id : Identity) → is_empty id.tenant ≡ false → known_tenant (some id) ≡ pass (tenant_of id)
unfolding known_tenant
known_tenant-some id h = rw h

first_identity-some :
    (s : Server) (r : Request) (f : Request → Option Identity) (id : Identity)
    → s.authenticate ≡ some f
    → f r ≡ some id
    → is_empty id.tenant ≡ false
    → first_identity s r ≡ pass (tenant_of id)
unfolding first_identity
first_identity-some s r f id a d e = rw (a, d) (known_tenant-some id e)

second_identity-none :
    (s : Server) (r : Request) (t : Tenant)
    → wants_credential s ≡ false
    → second_identity s r t ≡ pass (t, false)
unfolding second_identity
second_identity-none s r t h = rw h

resolve-some :
    (s : Server) (r : Request) (g : Request → Option Tenant) (t u : Tenant)
    → s.resolve_tenant ≡ some g
    → g r ≡ some t
    → is_empty t.id ≡ false
    → resolve s r (u, false) ≡ pass t
unfolding resolve resolved
resolve-some s r g t u a b c = rw (a, b, c)

-- With `Authenticate` and `ResolveTenant` set and neither API keys nor a verifier, a caller who is
-- authenticated for one tenant acts for whatever tenant the resolver reads from the request.
pub identify-resolved :
    (s : Server) (r : Request) (f : Request → Option Identity) (g : Request → Option Tenant)
    (id : Identity) (t : Tenant)
    → s.authenticate ≡ some f
    → s.resolve_tenant ≡ some g
    → wants_credential s ≡ false
    → f r ≡ some id
    → is_empty id.tenant ≡ false
    → g r ≡ some t
    → is_empty t.id ≡ false
    → identify s r ≡ pass t
unfolding identify
identify-resolved s r f g id t a b c d e p q =
    rw (first_identity-some s r f id a d e, identify)
      (rw (second_identity-none s r (tenant_of id) c) (resolve-some s r g t (tenant_of id) b p q))
