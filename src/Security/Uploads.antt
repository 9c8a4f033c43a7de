-- ===== src/Security/Uploads.antt =====
-- internal/security/tenant.go: `ValidateRemoteURL`, `ValidateUpload` and `TenantTask`. Package url, the
-- resolver of package net and the file system are parameters.
use cortex_go.Errors.{
  upload_too_large, host_required, upload_type, only_https, invalid_upload_path, private_address,
  Result-cases, Error, Result, ok, err,
}
use cortex_go.Prelude.{
  ℕ, ◌≡◌, inl, inr, Bool, true, false, not, ◌||◌, Option, none, some, List, [], ◌∷◌, arith,
  if◌then◌else◌, Bool-cases, Option-cases, All, ℤ, is_pos, exceeds, Str, bytes, str_eq, is_empty,
  extension, base,
}

-- url.URL: its scheme and its Hostname()
pub record RemoteUrl : Type 0 where
  pub scheme : Str
  pub host : Str

-- What ValidateRemoteURL asks of a net.IP.
pub record Address : Type 0 where
  pub is_private : Bool
  pub is_loopback : Bool
  pub is_link_local : Bool

abbrev pub is_internal : Address → Bool
is_internal ip = ip.is_private || ip.is_loopback || ip.is_link_local

-- url.Parse, and net.LookupIP
pub record Resolver : Type 0 where
  pub parse : Str → Option RemoteUrl
  pub lookup_ip : Str → Result (List Address)

-- for _, ip := range ips { ... }
unfoldable pub any_internal : List Address → Bool
any_internal [] = false
any_internal (ip ∷ ips) = let rest = any_internal ips in if is_internal ip then true else rest

unfoldable pub check_addresses : Result (List Address) → Option Error
check_addresses (err e) = some e
check_addresses (ok ips) = if any_internal ips then some private_address else none

unfoldable pub check_host : Resolver → RemoteUrl → Option Error
check_host net u =
    if not (str_eq u.scheme (bytes "https"))
    then some only_https
    else if is_empty u.host
    then some host_required
    else check_addresses (net.lookup_ip u.host)

-- ValidateRemoteURL
unfoldable pub validate_remote_url : Resolver → Str → Option Error
validate_remote_url net raw = elim (net.parse raw) [
  | none ↦ some only_https
  | some u ↦ check_host net u
]

-- ValidateUpload: `lower` is strings.ToLower, and `size` what os.Stat says.
unfoldable pub validate_upload :
    (Str → Str) → (Str → Result ℕ) → Str → ℤ → (Str → Bool) → Option Error
validate_upload lower size path max allowed =
    if is_empty path || not (str_eq (base path) path)
    then some invalid_upload_path
    else if not (allowed (lower (extension path)))
    then some (upload_type (lower (extension path)))
    else if not (is_pos max)
    then none
    else elim (size path) [
      | err e ↦ some e
      | ok n ↦ if exceeds n max then some upload_too_large else none
    ]

-- A URL that is let through has the scheme https, and its host names addresses that are none of them
-- private, loopback or link-local.
pub record IsPublic (net : Resolver) (u : RemoteUrl) : Type 0 where
  pub secure : str_eq u.scheme (bytes "https") ≡ true
  pub named : is_empty u.host ≡ false
  pub addresses : List Address
  pub resolved : net.lookup_ip u.host ≡ ok addresses
  pub outside : All (λ ip. is_internal ip ≡ false) addresses

any_internal-All :
    (ips : List Address) → any_internal ips ≡ false → All (λ ip. is_internal ip ≡ false) ips
unfolding any_internal
any_internal-All [] h = tt
any_internal-All (ip ∷ ips) h = elim (Bool-cases (is_internal ip)) [
  | inl e ↦ absurd (ground arith)
  | inr e ↦ (e, any_internal-All ips (ground arith))
]

-- A URL that is accepted parses, has the scheme https and a host, and the host's addresses are looked up
-- and none of them is private, loopback or link-local.
pub validate_remote_url-IsPublic :
    (net : Resolver) (raw : Str)
    → validate_remote_url net raw ≡ none
    → (u : RemoteUrl) × (net.parse raw ≡ some u) × IsPublic net u
unfolding validate_remote_url check_host check_addresses
validate_remote_url-IsPublic net raw h = elim (Option-cases (net.parse raw)) [
  | inl e ↦ cc (rw (e, validate_remote_url) at h)
  | inr (u, e) ↦
      let k : check_host net u ≡ none = rw (e, validate_remote_url) at h in
      elim (Result-cases (net.lookup_ip u.host)) [
        | inr (f, bad) ↦ absurd (ground arith)
        | inl (ips, good) ↦ (
          u,
          e,
          record {
            secure = ground arith;
            named = ground arith;
            addresses = ips;
            resolved = good;
            outside = any_internal-All ips (ground arith);
          },
        )
      ]
]

-- core.Run, as far as TenantTask and its task write it, and TenantTask.Execute: the task runs with its
-- tenant in the context, and the run bears it too.
unfoldable pub execute_tenant_task :
    {R : Type 0} → (R → Str → R) → (Str → R → Option Error × R) → Str → R → Option Error × R
execute_tenant_task set_tenant execute tenant run = execute tenant (set_tenant run tenant)
